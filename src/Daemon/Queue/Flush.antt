-- ===== src/Daemon/Queue/Flush.antt =====
-- `Queue::flush` against the output that it writes to.
use worminal.Prelude.{
  ℕ, zero, suc, ◌+◌, ◌-◌, ◌≤◌, ◌<◌, min, ◌≡◌, refl, sym, ap, ◌∙◌, Option, none, some, List, ◌++◌,
  length, take, drop, length-append, length-take, take-append-drop, take-take, drop-drop, drop_all,
  append_assoc, append-nil, arith, Bool-cases, inl, inr, not, ◌&&◌, ◌==◌,
}
use worminal.Prelude.Result.{ErrorKind, ok, err, interrupted, would_block}
use worminal.Daemon.Queue.{
  Queue, Written, wrote, refused, Flushed, pending, len, is_empty, react, flush_loop, settle, flush,
}
use worminal.Daemon.Queue.Valid.{IsValid}

-- What one call of `write` may do: an accepted count is at most what was offered, and the output then
-- has that prefix; an error delivers nothing. An interruption uses up patience, and nothing gives it back.
abbrev pub Keeps : {W : Type 0} → (W → List ℕ) → (W → ℕ) → W → List ℕ → Written × W → Type 0
Keeps delivered patience w offered (wrote n, w') =
    (n ≤ length offered)
    × (delivered w' ≡ delivered w ++ take n offered)
    × (patience w' ≤ patience w)
Keeps delivered patience w offered (refused interrupted, w') =
    (delivered w' ≡ delivered w) × (patience w' < patience w)
Keeps delivered patience w offered (refused _, w') = delivered w' ≡ delivered w

-- The documented behaviour of `std::io::Write`.
pub record Output : Type 1 where
  pub W : Type 0
  pub write : W → List ℕ → Written × W
  pub delivered : W → List ℕ
  pub patience : W → ℕ
  pub keeps : (w : W) (offered : List ℕ) → Keeps delivered patience w offered (write w offered)

module _ (output : Output) where
  open output use {W, write, delivered, patience, keeps}

  -- What holds of a result, started at `q` and `w`: the queue is valid with its limit, and what was
  -- delivered and what waits make up what was delivered and what waited.
  pub record Holds (q : Queue) (w : W) (budget total : ℕ) (out : Flushed write) : Type 0 where
    pub valid : IsValid out.1
    pub limit_kept : out.1.limit ≡ q.limit
    pub in_order : delivered out.2 ++ pending out.1 ≡ delivered w ++ pending q
    pub counted :
        (n : ℕ)
        → out.0 ≡ ok n
        → (total ≤ n)
          × (n ≤ total + budget)
          × (length (delivered out.2) + total ≡ length (delivered w) + n)

  abbrev pub Outcome : Queue → W → ℕ → ℕ → Option (Flushed write) → Type 0
  Outcome q w budget total none = ⊥
  Outcome q w budget total (some out) = Holds q w budget total out

  -- A prefix of what was offered, and what waits behind it.
  consumed :
      (q : Queue) (n m : ℕ)
      → n ≤ length (take m (pending q))
      → take n (take m (pending q)) ++ drop (q.sent + n) q.bytes ≡ pending q
  consumed q n m h =
      rw
        (
          take-take n m (pending q) (omega (arith, length-take m (pending q))),
          ← drop-drop q.sent n (q.sent + n) q.bytes refl,
        )
        (take-append-drop n (pending q))

  Outcome-mono :
      {q q' : Queue} {w w' : W} {b b' t t' : ℕ} (o : Option (Flushed write))
      → ((out : Flushed write) → Holds q' w' b' t' out → Holds q w b t out)
      → Outcome q' w' b' t' o
      → Outcome q w b t o
  Outcome-mono none f h = h
  Outcome-mono (some out) f h = f out h

  -- An accepted prefix, then what the next rounds do.
  Holds-wrote :
      (q : Queue) (w w' : W) (budget total n m : ℕ) (out : Flushed write)
      → n ≤ length (take m (pending q))
      → n ≤ budget
      → delivered w' ≡ delivered w ++ take n (take m (pending q))
      → Holds (record q { sent = q.sent + n }) w' (budget - n) (total + n) out
      → Holds q w budget total out
  Holds-wrote q w w' budget total n m out h k e r = record {
    valid = r.valid;
    limit_kept = r.limit_kept;
    in_order =
        r.in_order
        ∙ rw e (
            append_assoc (delivered w) (take n (take m (pending q))) (drop (q.sent + n) q.bytes)
            ∙ ap (λ t. delivered w ++ t) (consumed q n m h));
    counted = λ c eq. omega (
      arith,
      r.counted c eq,
      ap length e,
      length-append (delivered w) (take n (take m (pending q))),
      length-take n (take m (pending q)),
    );
  }

  -- Nothing delivered: the result stands where it stood.
  Holds-same :
      (q : Queue) (w w' : W) (budget total : ℕ) (out : Flushed write)
      → delivered w' ≡ delivered w
      → Holds q w' budget total out
      → Holds q w budget total out
  Holds-same q w w' budget total out e r = record {
    valid = r.valid;
    limit_kept = r.limit_kept;
    in_order = r.in_order ∙ ap (λ t. t ++ pending q) e;
    counted = λ c eq. omega (arith, r.counted c eq, ap length e);
  }

  Holds-err :
      (q : Queue) (w : W) (budget total : ℕ) (e : ErrorKind)
      → IsValid q
      → Holds q w budget total (err e, q, w)
  Holds-err q w budget total e v = record {
    valid = v;
    limit_kept = refl;
    in_order = refl;
    counted = λ c eq. cc;
  }

  Holds-ok :
      (q : Queue) (w : W) (budget total : ℕ) → IsValid q → Holds q w budget total (ok total, q, w)
  Holds-ok q w budget total v = record {
    valid = v;
    limit_kept = refl;
    in_order = refl;
    counted = λ c eq. ground arith;
  }

  -- The rounds that are left after an answer, each with less budget and patience ahead of it.
  abbrev Goes : ℕ → (Queue → W → ℕ → ℕ → Option (Flushed write)) → Type 0
  Goes rounds next =
      (q : Queue) (w : W) (budget total : ℕ)
      → IsValid q
      → budget + patience w < rounds
      → Outcome q w budget total (next q w budget total)

  react-Outcome :
      (rounds : ℕ) (next : Queue → W → ℕ → ℕ → Option (Flushed write)) (q : Queue) (w : W)
      (budget total : ℕ) (answer : Written × W)
      → Goes rounds next
      → IsValid q
      → budget + patience w < suc rounds
      → Keeps delivered patience w (take (min budget (len q)) (pending q)) answer
      → Outcome q w budget total (react write next q budget total answer)
  unfolding react
  react-Outcome rounds next q w budget total (wrote zero, w') goes v h k =
      Holds-same q w w' budget total _ (k.1 ∙ append-nil (delivered w))
        (Holds-err q w' budget total _ v)
  react-Outcome rounds next q w budget total (wrote (suc n), w') goes v h k =
      let small : suc n ≤ min budget (len q) =
        omega (arith, k.0, length-take (min budget (len q)) (pending q)) in
      Outcome-mono {q' = record q { sent = q.sent + suc n }} _
        (λ out r.
          Holds-wrote q w w' budget total (suc n) (min budget (len q)) out k.0 (omega arith) k.1 r)
        (goes (record q { sent = q.sent + suc n }) w' (budget - suc n) (total + suc n)
          (record { sent_in = omega arith; bounded = v.bounded }) (omega (arith, k.2)))
  react-Outcome rounds next q w budget total (refused interrupted, w') goes v h k =
      Outcome-mono _ (λ out r. Holds-same q w w' budget total out k.0 r)
        (goes q w' budget total v (omega arith))
  react-Outcome rounds next q w budget total (refused would_block, w') goes v h k =
      Holds-same q w w' budget total _ k (Holds-ok q w' budget total v)
  react-Outcome rounds next q w budget total (refused e, w') goes v h k =
      Holds-same q w w' budget total _ k (Holds-err q w' budget total _ v)

  flush_loop-Outcome : (rounds : ℕ) → Goes rounds (flush_loop write rounds)
  unfolding flush_loop
  flush_loop-Outcome zero q w budget total v h = absurd (omega arith)
  flush_loop-Outcome (suc rounds) q w budget total v h =
      elim (Bool-cases (not (budget == 0) && not (is_empty q))) [
        | inl more ↦ rw more (
            react-Outcome rounds (flush_loop write rounds) q w budget total _
              (flush_loop-Outcome rounds) v h (keeps w (take (min budget (len q)) (pending q))))
        | inr done ↦ rw done (Holds-ok q w budget total v)
      ]

  settle-Holds :
      (q : Queue) (w : W) (budget : ℕ) (out : Flushed write)
      → Holds q w budget 0 out
      → Holds q w budget 0 (settle write out)
  unfolding settle
  settle-Holds q w budget (err e, q', w') r = r
  settle-Holds q w budget (ok n, q', w') r = elim (Bool-cases (q'.sent == length q'.bytes)) [
    | inl all ↦ rw all (record {
      valid = omega arith;
      limit_kept = r.limit_kept;
      in_order =
          ap (λ t. delivered w' ++ t) (sym (drop_all q'.sent q'.bytes (ground arith))) ∙ r.in_order;
      counted = r.counted;
    })
    | inr part ↦ rw part r
  ]

  -- With more rounds than budget and patience together a flush returns, whatever the output answers:
  -- on success or error the queue is valid with its limit, what was delivered and what waits make up in
  -- order what was delivered and what waited, and a count that is returned is within the budget and is
  -- the number of bytes delivered.
  pub flush-Outcome :
      (rounds : ℕ) (q : Queue) (w : W) (budget : ℕ)
      → IsValid q
      → budget + patience w < rounds
      → Outcome q w budget 0 (flush write rounds q w budget)
  unfolding flush
  flush-Outcome rounds q w budget v h =
      go (flush_loop write rounds q w budget 0) (flush_loop-Outcome rounds q w budget 0 v h)
    where
      go :
          (o : Option (Flushed write))
          → Outcome q w budget 0 o
          → Outcome q w budget 0 (elim o [ none ↦ none | some out ↦ some (settle write out) ])
      go none r = r
      go (some out) r = settle-Holds q w budget out r
