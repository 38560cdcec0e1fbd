-- ===== src/Daemon/Frames/Commit.antt =====
-- `Screen::commit` and `Screen::replicate_encoded`: the packets are queued, then the baseline follows.
use worminal.Prelude.{
  ℕ, ◌*◌, ◌-◌, Bool, Option, none, some, List, [], ◌∷◌, ◌++◌, if◌then◌else◌, length, take, drop,
  replicate, splice,
}
use worminal.Prelude.Result.{Result, Exec, ok, err, ◌>>◌, pure}
use worminal.Protocol.Wire.{wire_cell_bytes}
use worminal.Daemon.Queue
use worminal.Daemon.Queue.{Queue}
use worminal.Daemon.Frames.Move.{Move}
use worminal.Daemon.Frames.Prepare.{Screen, Engine, Update, Plan, Prepared, changed}
use worminal.Daemon.Frames.Encode.{prepare}

pub data Outcome : Type 0 where
  held : Outcome
  unchanged : Outcome
  sent : Outcome

abbrev pub State : Type 0
State = Screen × Queue

-- `Vec::resize` with zeros
unfoldable pub resize : ℕ → List ℕ → List ℕ
resize size bytes = take size bytes ++ replicate (size - length bytes) 0

unfoldable pub copy_within : ℕ → Option Move → List ℕ → List ℕ
copy_within width none bytes = bytes
copy_within width (some m) bytes =
    splice bytes (m.destination * width) (take (m.count * width) (drop (m.source * width) bytes))

-- `copy_from_slice` of each row. The source panics at a row of another width than the frame's, which the
-- engine's rows do not have.
unfoldable pub copy_updates : ℕ → List Update → List ℕ → List ℕ
copy_updates width [] bytes = bytes
copy_updates width (u ∷ updates) bytes =
    copy_updates width updates (splice bytes (u.row * width) u.bytes)

unfoldable pub baseline_after : Plan → List ℕ → List ℕ
baseline_after plan bytes =
    let width = plan.frame.columns * wire_cell_bytes in
    let resized = if plan.full then resize (width * plan.frame.rows) bytes else bytes in
    copy_updates width plan.updates (copy_within width plan.movement resized)

unfoldable pub adopt : Plan → Screen → Screen
adopt plan screen = record screen { frame = plan.frame; bytes = baseline_after plan screen.bytes }

unfoldable pub queue_bytes : List ℕ → Exec State Unit
queue_bytes bytes (screen, queue) =
    let (r, queue') = Queue.append_owned bytes queue in (r, (screen, queue'))

unfoldable pub adopted : Plan → Exec State Unit
adopted plan (screen, queue) = (ok tt, (adopt plan screen, queue))

unfoldable pub commit : Plan → Engine → Exec State Unit
commit plan engine = do queue_bytes plan.bytes; adopted plan; λ s. (engine.clean, s)

-- A frame that is held drops the baseline if a full one was asked for.
unfoldable pub hold : Bool → Screen → Screen
hold full screen = if full then record screen { bytes = [] } else screen

unfoldable pub replicate_prepared : Engine → Bool → Result Prepared → Exec State Outcome
replicate_prepared engine full (err e) s = (err e, s)
replicate_prepared engine full (ok Prepared.held) (screen, queue) =
    (ok Outcome.held, (hold full screen, queue))
replicate_prepared engine full (ok Prepared.unchanged) s = (ok Outcome.unchanged, s)
replicate_prepared engine full (ok (changed plan)) s = (do commit plan engine; pure sent) s

unfoldable pub replicate_encoded : Engine → ℕ → Bool → ℕ → Bool → Exec State Outcome
replicate_encoded engine tab full features reply (screen, queue) =
    replicate_prepared engine full (prepare engine screen tab full features reply) (screen, queue)
