-- ===== src/Daemon/Frames/Replica.antt =====
-- `replicate_encoded` leaves the baseline at the terminal's screen.
use worminal.Prelude.{
  ℕ, ◌≡◌, refl, sym, ◌∙◌, subst, Bool, true, false, ◌||◌, Option, none, List, [], arith,
}
use worminal.Prelude.Result.{Result, ok, err, and_then, pure}
use worminal.Engine.Cells.{Frame}
use worminal.Daemon.Queue
use worminal.Daemon.Queue.{Queue}
use worminal.Daemon.Frames.Prepare.{
  same_frame, Screen, Engine, Update, Plan, Prepared, changed, Request, updates_from,
}
use worminal.Daemon.Frames.Encode.{plan, prepare}
use worminal.Daemon.Frames.Commit.{
  Outcome, sent, State, adopt, baseline_after, replicate_prepared, replicate_encoded, copy_updates,
  copy_within,
}
use worminal.Daemon.Frames.Atomic.{committed, commit-committed}
use worminal.Daemon.Frames.Reading.{screen_bytes, HasColumns}
use worminal.Daemon.Frames.Faithful.{AreRows, IsAsked, resized, updated-AreRows}
use worminal.Daemon.Frames.Planned.{
  row_bytes, needs_all, KnowsClean, IsPlanned, nothing, packets, request, IsPrepared, prepare_now,
  prepare_frame-IsPrepared,
}

-- The screen has the engine's frame and its rows.
pub record IsReplica (engine : Engine) (frame : Frame) (screen : Screen) : Type 0 where
  pub frame_told : same_frame frame screen.frame ≡ true
  pub rows_told : AreRows (row_bytes frame) frame.rows (screen_bytes engine) screen.bytes

-- What a prepared frame comes to.
abbrev pub Prepares : Engine → Frame → Screen → Prepared → Type 0
Prepares engine frame screen Prepared.held = ⊥
Prepares engine frame screen Prepared.unchanged = IsReplica engine frame screen
Prepares engine frame screen (changed plan) = IsReplica engine frame (adopt plan screen)

same_frame_refl : (frame : Frame) → same_frame frame frame ≡ true
unfolding same_frame
same_frame_refl frame = ground arith

-- Where nothing is to be sent, the baseline is as it was.
still :
    (q : Request) (rows : ℕ) (updates : List Update)
    → q.full ≡ false
    → q.movement ≡ none
    → updates ≡ []
    → copy_updates q.width updates (copy_within q.width q.movement (resized q rows)) ≡ q.baseline
unfolding copy_updates copy_within
still q rows updates f m u = rw (f, m, u)

planned-Prepares :
    (engine : Engine) (screen : Screen) (tab : ℕ) (frame : Frame) (asked : Bool) (features : ℕ)
    (searching : Bool) (dirty : List Bool) (current : List (Option (List ℕ))) (p : Prepared)
    → let full = needs_all asked screen frame in
      let q = request screen frame full features searching current in
      IsAsked q frame.rows (screen_bytes engine) (full || searching) dirty current
      → IsPlanned tab frame screen.frame full q.movement (updates_from q 0 dirty current) p
      → Prepares engine frame screen p
unfolding adopt baseline_after
planned-Prepares engine screen tab frame asked features searching dirty current _ a
      (packets bytes encoded) =
    record { frame_told = same_frame_refl frame; rows_told = updated-AreRows a }
planned-Prepares engine screen tab frame asked features searching dirty current _ a
      (nothing full none' empty same) =
    record {
      frame_told = same;
      rows_told =
          subst (AreRows (row_bytes frame) frame.rows (screen_bytes engine))
            (still (request screen frame (needs_all asked screen frame) features searching current)
              frame.rows _ full none' empty)
            (updated-AreRows a);
    }

pub prepare-Prepares :
    (engine : Engine) (screen : Screen) (tab : ℕ) (asked : Bool) (features : ℕ) (frame : Frame)
    (p : Prepared)
    → IsPrepared engine screen tab frame asked features p
    → Prepares engine frame screen p
prepare-Prepares engine screen tab asked features frame p h =
    planned-Prepares engine screen tab frame asked features h.searching h.dirty h.current p
      h.is_asked h.is_planned

-- What holds behind `replicate_encoded`.
abbrev pub Replicates : Engine → Frame → Result Outcome × State → Type 0
Replicates engine frame (ok Outcome.held, s) = ⊥
Replicates engine frame (ok Outcome.unchanged, (screen, queue)) = IsReplica engine frame screen
Replicates engine frame (ok sent, (screen, queue)) = IsReplica engine frame screen
Replicates engine frame (err e, s) = Unit

cleaned-Replicates :
    (engine : Engine) (frame : Frame) (screen : Screen) (queue : Queue) (r : Result (Unit {0}))
    → IsReplica engine frame screen
    → Replicates engine frame (and_then r (λ _. pure sent) (screen, queue))
cleaned-Replicates engine frame screen queue (ok u) h = h
cleaned-Replicates engine frame screen queue (err e) h = tt

committed-Replicates :
    (engine : Engine) (frame : Frame) (plan : Plan) (screen : Screen)
    (r : Result (Unit {0}) × Queue)
    → IsReplica engine frame (adopt plan screen)
    → let (answer, s) = committed plan engine screen r in
      Replicates engine frame (and_then answer (λ _. pure sent) s)
committed-Replicates engine frame plan screen (ok u, queue') h =
    cleaned-Replicates engine frame (adopt plan screen) queue' engine.clean h
committed-Replicates engine frame plan screen (err x, queue') h = tt

prepared-Replicates :
    (engine : Engine) (frame : Frame) (asked : Bool) (screen : Screen) (queue : Queue)
    (r : Result Prepared)
    → ((p : Prepared) → r ≡ ok p → Prepares engine frame screen p)
    → Replicates engine frame (replicate_prepared engine asked r (screen, queue))
unfolding replicate_prepared
prepared-Replicates engine frame asked screen queue (err e) h = tt
prepared-Replicates engine frame asked screen queue (ok Prepared.held) h = h Prepared.held refl
prepared-Replicates engine frame asked screen queue (ok Prepared.unchanged) h =
    h Prepared.unchanged refl
prepared-Replicates engine frame asked screen queue (ok (changed plan)) h =
    subst (λ out. Replicates engine frame (and_then out.0 (λ _. pure sent) out.1))
      (sym (commit-committed plan engine screen queue))
      (committed-Replicates engine frame plan screen (Queue.append_owned plan.bytes queue)
        (h (changed plan) refl))

-- Where the engine draws a frame now and its rows have the frame's columns, and where a row that it calls
-- clean is the one that the baseline has (unless all rows are sent): a frame that is sent, or that needs
-- no packets, leaves a baseline that is the engine's screen, row by row and byte by byte, with the
-- frame's size, cursor, scroll position and screen.
pub replicate_encoded-Replicates :
    (engine : Engine) (tab : ℕ) (asked : Bool) (features : ℕ) (reply : Bool) (screen : Screen)
    (queue : Queue) (frame : Frame)
    → engine.frame ≡ ok frame
    → frame.redraw_deadline ≡ 0
    → HasColumns engine frame.columns
    → KnowsClean engine asked screen frame
    → Replicates engine frame (replicate_encoded engine tab asked features reply (screen, queue))
unfolding replicate_encoded
replicate_encoded-Replicates engine tab asked features reply screen queue frame f now wide clean =
    prepared-Replicates engine frame asked screen queue
      (prepare engine screen tab asked features reply)
      λ p e. prepare-Prepares engine screen tab asked features frame p (
        prepare_frame-IsPrepared engine screen tab asked features reply frame p wide clean
          (sym (prepare_now engine screen tab asked features reply frame f now) ∙ e))
