-- ===== src/Daemon/Handoff/Tab.antt =====
-- `Cursor` and `decode_tab`: a tab of the snapshot. Words of the snapshot are little-endian, as on the
-- machines that the program is built for.
use worminal.Prelude.{
  ℕ, zero, suc, ◌+◌, ◌-◌, ◌*◌, ◌^◌, Bool, true, false, ◌||◌, not, Option, none, some, List, [], ◌∷◌,
  ltb, leb, ◌==◌, if◌then◌else◌, length,
}
use worminal.Prelude
use worminal.Prelude.Result.{Exec, ok, err, invalid_data, ◌>>=◌, ◌>>◌, pure, fail}
use worminal.Prelude.Bytes.{usize_mod, from_be_bytes}
use worminal.Protocol.Payload
use worminal.Protocol.Payload.{Payload}
use worminal.Daemon.Queue
use worminal.Daemon.Queue.{Queue}
use worminal.Workspace.Launch.{until_nul}

-- `WORKSPACE_INPUT_QUEUE_BYTES` of src/workspace/service_policy.h
abbrev pub input_queue : ℕ
input_queue = 1024 * 1024

pub record Cursor : Type 0 where
  pub bytes : List ℕ
  pub offset : ℕ

unfoldable pub take : ℕ → Exec Cursor (List ℕ)
take count c =
    let end = c.offset + count in
    if leb usize_mod end || ltb (length c.bytes) end
    then (err invalid_data, c)
    else (ok (Prelude.take count (Prelude.drop c.offset c.bytes)), record c { offset = end })

-- `from_ne_bytes` of four bytes; `take 4` has given four.
unfoldable pub native : List ℕ → ℕ
unfolding from_be_bytes
native (a ∷ b ∷ c ∷ d ∷ []) = from_be_bytes d c b a
native _ = 0

unfoldable pub number : Exec Cursor ℕ
unfolding take native
number = do four ← take 4; pure (native four)

unfoldable pub remaining : Cursor → List ℕ
remaining c = Prelude.drop c.offset c.bytes

unfoldable pub string : Exec Payload (List ℕ)
unfolding until_nul
string = do bytes ← Payload.string; pure (until_nul bytes)

-- The fields of `Tab` that a snapshot has; the others are those of a new record.
pub record Tab : Type 0 where
  pub id : ℕ
  pub title : List ℕ
  pub initial_title : List ℕ
  pub directory : List ℕ
  pub clipboard : List ℕ
  pub url : Option (List ℕ)
  pub colors : Option (List (Option (List ℕ)))
  pub mode : ℕ
  pub cursor : ℕ

-- `Tab::record`
unfoldable pub recorded : ℕ → List ℕ → Tab
recorded id title = record {
  id = id;
  title = title;
  initial_title = title;
  directory = [];
  clipboard = [];
  url = none;
  colors = none;
  mode = 0;
  cursor = 0;
}

-- The metadata of a tab: the record, whether it is a browser, its process and its input.
pub record Metadata : Type 0 where
  pub tab : Tab
  pub browser : Bool
  pub child : ℕ
  pub input : Queue

unfoldable pub some_color : List ℕ → Option (List ℕ)
some_color [] = none
some_color (byte ∷ bytes) = some (byte ∷ bytes)

unfoldable pub read_colors : ℕ → Exec Payload (List (Option (List ℕ)))
read_colors zero = pure []
read_colors (suc rounds) = do
  color ← string
  colors ← read_colors rounds
  pure (some_color color ∷ colors)

unfoldable pub any_color : List (Option (List ℕ)) → Bool
any_color [] = false
any_color (none ∷ colors) = any_color colors
any_color (some color ∷ colors) = true

unfoldable pub read_input : Exec Payload Queue
read_input = do
  size ← Payload.u32
  if ltb input_queue size
      then fail invalid_data
      else do bytes ← Payload.take size; λ p. (Queue.from_bytes bytes input_queue, p)

-- The names of the colours are a table of the build: `color_names` is how many there are.
unfoldable pub read_metadata : ℕ → ℕ → Exec Payload Metadata
read_metadata color_names id = do
  browser ← Payload.u32
  mode ← Payload.u32
  style ← Payload.u32
  child ← Payload.u32
  if ltb 1 browser || (ltb 7 style || leb (2 ^ 31) child) then fail invalid_data else do
    title ← string
    initial_title ← string
    directory ← string
    clipboard ← string
    url ← string
    count ← Payload.u32
    if not (count == color_names) then fail invalid_data else do
      colors ← read_colors color_names
      input ← read_input
      Payload.finish
      pure (record {
        tab = record (recorded id title) {
          initial_title = initial_title;
          directory = directory;
          clipboard = clipboard;
          url = if not (browser == 0) then some url else none;
          mode = mode;
          cursor = style;
          colors = if any_color colors then some colors else none;
        };
        browser = not (browser == 0);
        child = child;
        input = input;
      })
