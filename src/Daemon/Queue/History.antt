-- ===== src/Daemon/Queue/History.antt =====
-- Whole histories of a queue: what its users appended, in order, is what the output got and what waits.
use worminal.Prelude.{
  ℕ, suc, ◌+◌, ◌≡◌, ◌∙◌, Option, none, some, List, [], ◌∷◌, ◌++◌, append_assoc, arith,
}
use worminal.Prelude.Result.{Result, ok, err}
use worminal.Daemon.Queue.{Queue, Flushed, pending, append, append_owned, flush}
use worminal.Daemon.Queue.Valid.{IsValid, append-IsValid, append_owned-IsValid}
use worminal.Daemon.Queue.Fifo.{push, view, append_refines, append_owned_refines}
use worminal.Daemon.Queue.Flush.{Output, Outcome, flush-Outcome}

pub data Op : Type 0 where
  put : List ℕ → Op
  put_owned : List ℕ → Op
  drain : ℕ → Op

-- The bytes that the queue accepted: all of a successful append, none of a refused one.
abbrev pub accept : List ℕ → List ℕ → Result (Unit {0}) → List ℕ
accept accepted bytes (ok _) = accepted ++ bytes
accept accepted bytes (err e) = accepted

module _ (output : Output) where
  open output use {W, write, delivered, patience}

  pub record Stream : Type 0 where
    pub queue : Queue
    pub out : W
    pub accepted : List ℕ

  -- A flush has as many rounds as it can need.
  abbrev pub step : Stream → Op → Stream
  step s (put bytes) =
      let (r, q) = append bytes s.queue in
      record s { queue = q; accepted = accept s.accepted bytes r }
  step s (put_owned bytes) =
      let (r, q) = append_owned bytes s.queue in
      record s { queue = q; accepted = accept s.accepted bytes r }
  step s (drain budget) = elim (flush write (suc (budget + patience s.out)) s.queue s.out budget) [
    | none ↦ s
    | some (r, q, w) ↦ record s { queue = q; out = w }
  ]

  abbrev pub run : Stream → List Op → Stream
  run s [] = s
  run s (op ∷ ops) = run (step s op) ops

  pub record InOrder (limit : ℕ) (s : Stream) : Type 0 where
    pub valid : IsValid s.queue
    pub limited : s.queue.limit ≡ limit
    pub in_order : delivered s.out ++ pending s.queue ≡ s.accepted

  push-accept :
      (sent bytes accepted : List ℕ) (q q' : Queue) (r : Result (Unit {0}))
      → (r, view q') ≡ push bytes (view q)
      → sent ++ pending q ≡ accepted
      → (q'.limit ≡ q.limit) × (sent ++ pending q' ≡ accept accepted bytes r)
  unfolding push
  push-accept sent bytes accepted q q' (ok u) e h =
      ground (arith, append_assoc sent (pending q) bytes)
  push-accept sent bytes accepted q q' (err k) e h = ground arith

  step-InOrder : (limit : ℕ) (s : Stream) (op : Op) → InOrder limit s → InOrder limit (step s op)
  step-InOrder limit s (put bytes) h =
      let (l, i) =
        push-accept (delivered s.out) bytes s.accepted s.queue (append bytes s.queue).1
          (append bytes s.queue).0 (append_refines bytes h.valid).0 h.in_order in
      record { valid = append-IsValid bytes h.valid; limited = l ∙ h.limited; in_order = i }
  step-InOrder limit s (put_owned bytes) h =
      let (l, i) =
        push-accept (delivered s.out) bytes s.accepted s.queue (append_owned bytes s.queue).1
          (append_owned bytes s.queue).0 (append_owned_refines bytes h.valid).0 h.in_order in
      record { valid = append_owned-IsValid bytes h.valid; limited = l ∙ h.limited; in_order = i }
  step-InOrder limit s (drain budget) h =
      go (flush write (suc (budget + patience s.out)) s.queue s.out budget) (
        flush-Outcome output (suc (budget + patience s.out)) s.queue s.out budget h.valid
          (omega arith))
    where
      go :
          (o : Option (Flushed write))
          → Outcome output s.queue s.out budget 0 o
          → InOrder limit (elim o [ none ↦ s | some (r, q, w) ↦ record s { queue = q; out = w } ])
      go none r = absurd r
      go (some (r, q, w)) k = record {
        valid = k.valid;
        limited = k.limit_kept ∙ h.limited;
        in_order = k.in_order ∙ h.in_order;
      }

  -- Over any history of appends and flushes, whatever the output answers, the queue keeps its limit, and
  -- what the output got, followed by what waits, is exactly what the queue accepted, in order.
  pub run-InOrder :
      (limit : ℕ) (s : Stream) (ops : List Op) → InOrder limit s → InOrder limit (run s ops)
  run-InOrder limit s [] h = h
  run-InOrder limit s (op ∷ ops) h = run-InOrder limit (step s op) ops (step-InOrder limit s op h)
