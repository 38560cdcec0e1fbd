-- ===== src/Daemon/Frames/Total.antt =====
-- `prepare` has a result where the terminal engine answers.
use worminal.Prelude.{
  ℕ, ◌*◌, ◌<◌, ◌≤◌, ◌≡◌, refl, Bool, ◌||◌, ◌&&◌, not, Option, none, some, List, arith, if_both,
}
use worminal.Prelude.Result.{Result, ok, try}
use worminal.Protocol.Wire.{workspace_max_cols, workspace_max_rows}
use worminal.Prelude.Bytes.{to_be_bytes}
use worminal.Engine.Cells.{Frame}
use worminal.Daemon.Frames.Move.{Move}
use worminal.Daemon.Frames.Prepare.{
  same_frame, Screen, Engine, Update, Plan, Prepared, changed, updates_from,
}
use worminal.Daemon.Frames.Encode.{
  is_none, no_updates, plan, move_body, move_bytes, update_bytes, prepare_frame, prepare,
}
use worminal.Daemon.Frames.Reading.{HasColumns, screen_bytes, read_rows-AreFetched}
use worminal.Daemon.Frames.Faithful.{weaken-AreFetched}
use worminal.Daemon.Frames.Answered.{Answers, read_dirty-answered, read_rows-answered}
use worminal.Daemon.Frames.Room.{updates_from-AreShort, update_bytes-AreShort}
use worminal.Daemon.Frames.Written.{put_frame-Succeeds}
use worminal.Daemon.Frames.Planned.{prepare_now, needs_all, searches, request}

-- There is a result.
abbrev pub Answered : Result Prepared → Type 0
Answered r = (p : Prepared) × (r ≡ ok p)

move_bytes-short : (o : Option Move) → move_bytes o ≤ 28
unfolding move_body to_be_bytes
move_bytes-short none = omega arith
move_bytes-short (some m) = omega arith

plan-Answered :
    (engine : Engine) (tab : ℕ) (frame old : Frame) (full reply : Bool) (movement : Option Move)
    (updates : List Update) (rows : ℕ)
    → Answers engine rows
    → update_bytes updates ≤ 200 * 6420
    → Answered (plan engine tab frame old full reply movement updates)
unfolding plan
plan-Answered engine tab frame old full reply movement updates rows a short =
    let (u, cleaned) = a.clean in
    let (bytes, written) =
      put_frame-Succeeds tab frame movement updates
        (omega (arith, short, move_bytes-short movement)) in
    let made : Plan = record {
      frame = frame;
      full = full;
      movement = movement;
      updates = updates;
      bytes = bytes;
    } in
    if_both Answered
      (not full
        && (is_none movement && (no_updates updates && (same_frame frame old && not reply))))
      (try engine.clean λ _. ok Prepared.unchanged) _ (λ _. (Prepared.unchanged, rw cleaned refl))
      (λ _. (changed made, rw written refl))

-- Where the engine has a frame of 1 to 400 columns and at most 200 rows, drawn now, whose rows have its
-- columns, answers for each of its rows and takes that they were seen (its `clean` succeeds), `prepare`
-- has a result: no packet is too long, and the buffer is large enough for all of them.
pub prepare-Answered :
    (engine : Engine) (screen : Screen) (tab : ℕ) (asked : Bool) (features : ℕ) (reply : Bool)
    (frame : Frame)
    → engine.frame ≡ ok frame
    → frame.redraw_deadline ≡ 0
    → 0 < frame.columns
    → frame.columns ≤ workspace_max_cols
    → frame.rows ≤ workspace_max_rows
    → HasColumns engine frame.columns
    → Answers engine frame.rows
    → Answered (prepare engine screen tab asked features reply)
unfolding prepare_frame
prepare-Answered engine screen tab asked features reply frame drawn now some_columns columns rows
      wide a =
    let full = needs_all asked screen frame in
    let (dirty, flags, size) =
      read_dirty-answered engine frame.columns frame.rows columns wide a frame.rows 0
        (omega arith) in
    let searching = searches full features frame.rows dirty in
    let (current, told) =
      read_rows-answered engine frame.columns frame.rows columns wide a (full || searching) 0 dirty
        (omega (arith, size)) in
    let q = request screen frame full features searching current in
    let fetched =
      weaken-AreFetched q.width (screen_bytes engine) full (full || searching) 0 dirty current
        (λ h. ground arith)
        (read_rows-AreFetched engine frame.columns (full || searching) 0 dirty current wide told) in
    let short = updates_from-AreShort q (screen_bytes engine) 0 dirty current fetched in
    let few = update_bytes-AreShort q.width _ short.0 (omega (arith, columns)) in
    rw (prepare_now engine screen tab asked features reply frame drawn now, flags, told)
      (plan-Answered engine tab frame screen.frame full reply q.movement
        (updates_from q 0 dirty current) frame.rows a (omega (arith, few, short.1, size, rows)))
