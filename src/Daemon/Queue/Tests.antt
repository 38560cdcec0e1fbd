-- ===== src/Daemon/Queue/Tests.antt =====
-- The runs of the tests of queue.rs, and the theorems at a slow output: it takes two bytes at a time, is
-- interrupted while patience lasts, and blocks after each write until it is polled again.
use worminal.Prelude.{
  ℕ, zero, suc, min, ◌≡◌, ◌≢◌, refl, Bool, true, false, some, List, [], ◌∷◌, ◌++◌, length, take,
  arith,
}
use worminal.Prelude.Result.{ok, interrupted, would_block}
use worminal.Daemon.Queue.{Queue, Written, wrote, refused, append, flush}
use worminal.Daemon.Queue.Fifo.{push, view, append_refines}
use worminal.Daemon.Queue.Flush.{Output, Keeps, Outcome, flush-Outcome}
use worminal.Daemon.Queue.History.{Op, put, put_owned, drain, Stream, InOrder, run, run-InOrder}

-- The bytes got so far, the interruptions to come, and whether the next write blocks.
abbrev Slow : Type 0
Slow = List ℕ × ℕ × Bool

abbrev slow_write : Slow → List ℕ → Written × Slow
slow_write (got, suc n, block) offered = (refused interrupted, (got, n, block))
slow_write (got, zero, true) offered = (refused would_block, (got, 0, false))
slow_write (got, zero, false) offered =
    (wrote (min (length offered) 2), (got ++ take (min (length offered) 2) offered, 0, true))

slow-Keeps :
    (w : Slow) (offered : List ℕ)
    → Keeps (λ (v : Slow). v.0) (λ (v : Slow). v.1) w offered (slow_write w offered)
slow-Keeps (got, suc n, block) offered = (refl, omega arith)
slow-Keeps (got, zero, true) offered = refl
slow-Keeps (got, zero, false) offered = (omega arith, refl, omega arith)

abbrev slow : Output
slow = record {
  W = Slow;
  write = slow_write;
  delivered = λ w. w.0;
  patience = λ w. w.1;
  keeps = slow-Keeps;
}

-- Two of six bytes are sent.
abbrev half_sent : Queue
half_sent = record { bytes = 1 ∷ 2 ∷ 3 ∷ 4 ∷ 5 ∷ 6 ∷ []; sent = 2; limit = 8 }

flush-half :
    flush slow_write 9 half_sent ([], 1, false) 3
    ≡ some (ok 2, record half_sent { sent = 4 }, (3 ∷ 4 ∷ [], 0, false))
unfolding flush
flush-half = refl

append_refines_example :
    let (r, q) = append (7 ∷ 8 ∷ 9 ∷ []) half_sent in
    ((r, view q) ≡ push (7 ∷ 8 ∷ 9 ∷ []) (8, 3 ∷ 4 ∷ 5 ∷ 6 ∷ [])) × (r ≢ ok tt → q ≡ half_sent)
append_refines_example = append_refines (7 ∷ 8 ∷ 9 ∷ []) {q = half_sent} (omega arith)

flush-Outcome_example :
    Outcome slow half_sent ([], 1, false) 3 0 (flush slow_write 9 half_sent ([], 1, false) 3)
flush-Outcome_example = flush-Outcome slow 9 half_sent ([], 1, false) 3 (omega arith) (omega arith)

abbrev script : List Op
script =
    put (7 ∷ 8 ∷ [])
    ∷ drain 4
    ∷ put (9 ∷ 10 ∷ 11 ∷ [])
    ∷ drain 4
    ∷ put_owned (1 ∷ [])
    ∷ drain 9
    ∷ []

abbrev begun : Stream slow
begun = record {
  queue = half_sent;
  out = (1 ∷ 2 ∷ [], 1, false);
  accepted = 1 ∷ 2 ∷ 3 ∷ 4 ∷ 5 ∷ 6 ∷ [];
}

begun-InOrder : InOrder slow 8 begun
begun-InOrder = record { valid = omega arith; limited = refl; in_order = refl }

run-InOrder_example : InOrder slow 8 (run slow begun script)
run-InOrder_example = run-InOrder slow 8 begun script begun-InOrder
