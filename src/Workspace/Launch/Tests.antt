-- ===== src/Workspace/Launch/Tests.antt =====
-- A launch with one argument and one entry, and the theorems at it.
use worminal.Prelude.Bytes.{bytes_eq}
use worminal.Prelude.{ℕ, ◌≡◌, refl, true, some, List, [], ◌∷◌, if◌then◌else◌}
use worminal.Prelude.Result.{ok}
use worminal.Protocol.Payload
use worminal.Workspace.Launch.{
  Launch, decode, read_launch, read_fields, read_arguments, read_entries, push_entry, position,
  c_string, until_nul, given, out_of_bounds, restore_marker, or_inherited, environment_for_restore,
  restore, without,
}
use worminal.Workspace.Launch.Bounds.{IsDecoded, decode-IsLaunch}
use worminal.Workspace.Launch.Restore.{values, values-environment_for_restore}

-- The title is cut at its NUL byte.
abbrev launch_bytes : List ℕ
launch_bytes =
    0 ∷ 0 ∷ 0 ∷ 80 ∷ 0 ∷ 0 ∷ 0 ∷ 24 ∷ 0 ∷ 0 ∷ 0 ∷ 1 ∷ 0 ∷ 0 ∷ 0 ∷ 1 ∷ 0 ∷ 0 ∷ 0 ∷ 1 ∷ 0 ∷ 0 ∷ 0 ∷ 3
    ∷ b't' ∷ 0 ∷ b'x' ∷ 0 ∷ 0 ∷ 0 ∷ 1 ∷ b'/' ∷ 0 ∷ 0 ∷ 0 ∷ 0 ∷ 0 ∷ 0 ∷ 0 ∷ 0 ∷ 0 ∷ 0 ∷ 0 ∷ 0 ∷ 0 ∷ 0
    ∷ 0 ∷ 1 ∷ b'l' ∷ 0 ∷ 0 ∷ 0 ∷ 3 ∷ b'A' ∷ b'=' ∷ b'1' ∷ []

abbrev launch : Launch
launch = record {
  columns = 80;
  rows = 24;
  allow_alternate = true;
  title = b't' ∷ [];
  directory = b'/' ∷ [];
  line = [];
  output = [];
  window_id = [];
  arguments = (b'l' ∷ []) ∷ [];
  environment = some ((b'A' ∷ [], b'1' ∷ []) ∷ []);
}

decode-launch : decode launch_bytes ≡ ok launch
unfolding decode read_launch read_fields read_arguments read_entries push_entry position c_string
    until_nul given out_of_bounds Payload.u32 Payload.string Payload.take Payload.word
    Payload.finish
decode-launch = refl

decode-IsLaunch_example : IsDecoded launch
decode-IsLaunch_example = decode-IsLaunch launch_bytes launch decode-launch

values-environment_for_restore_example : values (b'A' ∷ []) (environment_for_restore [] launch) ≡ (
    if bytes_eq (b'A' ∷ []) restore_marker
    then (b'1' ∷ []) ∷ []
    else values (b'A' ∷ []) (or_inherited launch.environment []))
values-environment_for_restore_example = values-environment_for_restore (b'A' ∷ []) [] launch

marked :
    values restore_marker (environment_for_restore ((restore_marker, []) ∷ []) (restore []))
    ≡ (b'1' ∷ []) ∷ []
unfolding values environment_for_restore restore without bytes_eq
marked = refl
