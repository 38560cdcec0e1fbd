-- ===== src/Daemon/Frames/Atomic.antt =====
-- The packets are queued whole and the baseline follows, or nothing has happened.
use worminal.Prelude.{ℕ, ◌≤◌, ◌++◌, length, length-append, arith, ◌≡◌, refl, sym, subst, Bool, List}
use worminal.Prelude.Result.{ErrorKind, Result, ok, err, and_then, pure}
use worminal.Daemon.Queue
use worminal.Daemon.Queue.{Queue, pending}
use worminal.Daemon.Queue.Valid.{IsValid}
use worminal.Daemon.Queue.Fifo.{push, append_owned_refines}
use worminal.Daemon.Frames.Prepare.{Screen, Engine, Plan, Prepared, changed}
use worminal.Daemon.Frames.Encode.{prepare}
use worminal.Daemon.Frames.Commit.{
  Outcome, sent, State, adopt, queue_bytes, adopted, commit, hold, replicate_prepared,
  replicate_encoded,
}

-- A commit, by what the queue answers.
abbrev pub committed :
    Plan → Engine → Screen → Result (Unit {0}) × Queue → Result (Unit {0}) × State
committed plan engine screen (ok u, queue') = (engine.clean, (adopt plan screen, queue'))
committed plan engine screen (err e, queue') = (err e, (screen, queue'))

pub commit-committed :
    (plan : Plan) (engine : Engine) (screen : Screen) (queue : Queue)
    → commit plan engine (screen, queue)
      ≡ committed plan engine screen (Queue.append_owned plan.bytes queue)
unfolding commit queue_bytes adopted
commit-committed plan engine screen queue = go (Queue.append_owned plan.bytes queue)
  where
    go :
        (r : Result (Unit {0}) × Queue)
        → and_then r.0
            (λ _ s. and_then (adopted plan s).0 (λ _ t. (engine.clean, t)) (adopted plan s).1)
            (screen, r.1)
          ≡ committed plan engine screen r
    go (ok u, queue') = unfold adopted in refl
    go (err e, queue') = refl

-- What a queue did with bytes.
data IsQueued (bytes : List ℕ) (queue : Queue) : Result (Unit {0}) × Queue → Type 0 where
  taken :
      (u : Unit) (queue' : Queue)
      → pending queue' ≡ pending queue ++ bytes
      → length (pending queue') ≤ queue.limit
      → IsQueued bytes queue (ok u, queue')
  declined : (e : ErrorKind) → IsQueued bytes queue (err e, queue)

append_owned-IsQueued :
    (bytes : List ℕ) (queue : Queue) (r : Result (Unit {0}) × Queue)
    → IsValid queue
    → Queue.append_owned bytes queue ≡ r
    → IsQueued bytes queue r
unfolding push
append_owned-IsQueued bytes queue (ok u, queue') v e =
    taken u queue'
      (ground (arith, append_owned_refines bytes v, length-append (pending queue) bytes))
      (ground (arith, append_owned_refines bytes v, length-append (pending queue) bytes))
append_owned-IsQueued bytes queue (err x, queue') v e =
    subst (λ q. IsQueued bytes queue (err x, q)) (ground (arith, append_owned_refines bytes v))
      (declined x)

-- How a replication ends: nothing is queued and the screen stays, or it is dropped with a frame that is held;
-- or the packets of a plan are queued behind what waits, within the limit, and the plan is adopted.
pub data Ending (prepared : Result Prepared) (full : Bool) (screen : Screen) (queue : Queue)
    : Result Outcome × State → Type 0 where
  kept_screen : (r : Result Outcome) → Ending prepared full screen queue (r, (screen, queue))
  held_back :
      prepared ≡ ok Prepared.held
      → Ending prepared full screen queue (ok Outcome.held, (hold full screen, queue))
  told :
      (plan : Plan) (r : Result Outcome) (queue' : Queue)
      → prepared ≡ ok (changed plan)
      → pending queue' ≡ pending queue ++ plan.bytes
      → length (pending queue') ≤ queue.limit
      → Ending prepared full screen queue (r, (adopt plan screen, queue'))

committed-Ending :
    (plan : Plan) (full : Bool) (engine : Engine) (screen : Screen) (queue : Queue)
    (r : Result (Unit {0}) × Queue)
    → IsQueued plan.bytes queue r
    → let (answer, s) = committed plan engine screen r in
      Ending (ok (changed plan)) full screen queue (and_then answer (λ _. pure sent) s)
committed-Ending plan full engine screen queue _ (taken u queue' e l) = after engine.clean
  where
    after :
        (c : Result (Unit {0}))
        → Ending
            (ok (changed plan))
            full
            screen
            queue
            (and_then c (λ _. pure sent) (adopt plan screen, queue'))
    after (ok u) = told plan (ok sent) queue' refl e l
    after (err x) = told plan (err x) queue' refl e l
committed-Ending plan full engine screen queue _ (declined x) = kept_screen (err x)

prepared-Ending :
    (engine : Engine) (full : Bool) (screen : Screen) (queue : Queue) (r : Result Prepared)
    → IsValid queue
    → Ending r full screen queue (replicate_prepared engine full r (screen, queue))
unfolding replicate_prepared
prepared-Ending engine full screen queue (err e) v = kept_screen (err e)
prepared-Ending engine full screen queue (ok Prepared.held) v = held_back refl
prepared-Ending engine full screen queue (ok Prepared.unchanged) v =
    kept_screen (ok Outcome.unchanged)
prepared-Ending engine full screen queue (ok (changed plan)) v =
    subst
      (λ out. Ending (ok (changed plan)) full screen queue (and_then out.0 (λ _. pure sent) out.1))
      (sym (commit-committed plan engine screen queue))
      (committed-Ending plan full engine screen queue _
        (append_owned-IsQueued plan.bytes queue _ v refl))

-- Whatever the engine answers, and whether the queue has room or not: either the packets of the plan are
-- queued whole behind the bytes that wait, within the queue's limit, and the baseline follows the plan; or
-- nothing is queued and the baseline stays, or it is given up for a frame that is held.
pub replicate_encoded-Ending :
    (engine : Engine) (tab : ℕ) (full : Bool) (features : ℕ) (reply : Bool) (screen : Screen)
    (queue : Queue)
    → IsValid queue
    → Ending
        (prepare engine screen tab full features reply)
        full
        screen
        queue
        (replicate_encoded engine tab full features reply (screen, queue))
unfolding replicate_encoded
replicate_encoded-Ending engine tab full features reply screen queue v =
    prepared-Ending engine full screen queue (prepare engine screen tab full features reply) v
