-- ===== src/Protocol/Decoder/Resume.antt =====
-- Input that comes in two parts: the second call of `push` goes on where the first one stopped.
use worminal.Prelude.{
  ℕ, ◌+◌, ◌-◌, ◌≤◌, ◌<◌, min, ◌≡◌, refl, sym, ap, ap₂, none, some, List, [], ◌++◌, ltb, length,
  take, drop, splice, length-append, length-take, length-drop, splice-splice, take-append-drop,
  append_assoc, arith, Bool-cases, inl, inr, ltb→lt, ltb_false→le, subst,
}
use worminal.Prelude.Result.{Result, ok, err}
use worminal.Protocol.Wire.{max_payload, header_bytes}
use worminal.Protocol.Decoder.{
  Decoder, header, body, failed, start, Fields, read_header, Pushed, push_body, enter_body,
  push_header, push,
}
use worminal.Protocol.Decoder.Steps.{
  push_body_more, push_body_done, push_header_more, push_header_done,
}

-- A decoder between two calls: a header that is not complete, or a body that is not.
abbrev pub IsOpen : Decoder → Type 0
IsOpen (header bytes used) = (length bytes ≡ header_bytes) × (used < header_bytes)
IsOpen (body kind tab size bytes) = (length bytes < size) × (size ≤ max_payload)
IsOpen failed = Unit

-- The same outcome, `k` bytes later.
abbrev pub advance : ℕ → Pushed → Pushed
advance k (ok (n, o), d) = (ok (k + n, o), d)
advance k (err e, d) = (err e, d)

-- A call that took all of its input and gave no packet goes on with the next input; any other outcome
-- stands.
abbrev pub resume : Pushed → List ℕ → Pushed
resume (ok (n, none), d) ys = advance n (push d ys)
resume (ok (n, some p), d) ys = (ok (n, some p), d)
resume (err e, d) ys = (err e, d)

-- A list that is long enough falls into two parts.
pub split_at :
    (n : ℕ) (xs : List ℕ) → n ≤ length xs → (a rest : List ℕ) × (xs ≡ a ++ rest) × (length a ≡ n)
split_at n xs h =
    (take n xs, drop n xs, sym (take-append-drop n xs), omega (arith, length-take n xs))

module _ (kind tab size k : ℕ) where
  push_body-append_done :
      (bytes a rest ys : List ℕ)
      → length bytes + length a ≡ size
      → push_body (k + length ((a ++ rest) ++ ys)) kind tab size bytes ((a ++ rest) ++ ys)
        ≡ resume (push_body (k + length (a ++ rest)) kind tab size bytes (a ++ rest)) ys
  push_body-append_done bytes a rest ys h =
      rw
        (
          append_assoc a rest ys,
          push_body_done kind tab size (k + length (a ++ (rest ++ ys))) bytes a (rest ++ ys) h,
          push_body_done kind tab size (k + length (a ++ rest)) bytes a rest h,
        )
        (ap
          (λ (n : ℕ). (ok (n, some (record { kind = kind; tab = tab; body = bytes ++ a })), start))
          (omega
            (arith, length-append a rest, length-append a (rest ++ ys), length-append rest ys)))

  push_body-append_more_done :
      (bytes xs a rest : List ℕ)
      → length bytes + length xs + length a ≡ size
      → push_body (k + length (xs ++ (a ++ rest))) kind tab size bytes (xs ++ (a ++ rest))
        ≡ advance
            (k + length xs)
            (push_body (length (a ++ rest)) kind tab size (bytes ++ xs) (a ++ rest))
  push_body-append_more_done bytes xs a rest h =
      rw
        (
          ← append_assoc xs a rest,
          push_body_done kind tab size (k + length ((xs ++ a) ++ rest)) bytes (xs ++ a) rest
              (omega (arith, length-append xs a)),
          push_body_done kind tab size (length (a ++ rest)) (bytes ++ xs) a rest
              (omega (arith, length-append bytes xs)),
        )
        (ground (
          arith,
          append_assoc bytes xs a,
          length-append xs a,
          length-append a rest,
          length-append (xs ++ a) rest,
        ))

  push_body-append_more :
      (bytes xs ys : List ℕ)
      → length bytes + length xs < size
      → push_body (k + length (xs ++ ys)) kind tab size bytes (xs ++ ys)
        ≡ advance (k + length xs) (push_body (length ys) kind tab size (bytes ++ xs) ys)
  push_body-append_more bytes xs ys h =
      elim (Bool-cases (ltb (length bytes + length xs + length ys) size)) [
        | inl more ↦
            rw
              (
                push_body_more kind tab size (k + length (xs ++ ys)) bytes (xs ++ ys)
                    (omega (arith, length-append xs ys, ltb→lt _ _ more)),
                push_body_more kind tab size (length ys) (bytes ++ xs) ys
                    (omega (arith, length-append bytes xs, ltb→lt _ _ more)),
              )
              (ground (arith, append_assoc bytes xs ys, length-append xs ys))
        | inr done ↦
            let (a, rest, e, n) =
              split_at (size - length bytes - length xs) ys
                (omega (arith, ltb_false→le _ _ done)) in
            subst
              (λ l.
                push_body (k + length (xs ++ l)) kind tab size bytes (xs ++ l)
                ≡ advance (k + length xs) (push_body (length l) kind tab size (bytes ++ xs) l))
              (sym e) (push_body-append_more_done bytes xs a rest (omega arith))
      ]

  pub push_body-append :
      (bytes xs ys : List ℕ)
      → length bytes ≤ size
      → push_body (k + length (xs ++ ys)) kind tab size bytes (xs ++ ys)
        ≡ resume (push_body (k + length xs) kind tab size bytes xs) ys
  push_body-append bytes xs ys h = elim (Bool-cases (ltb (length bytes + length xs) size)) [
    | inl more ↦
        rw (push_body_more kind tab size (k + length xs) bytes xs (ltb→lt _ _ more))
          (unfold push in push_body-append_more bytes xs ys (ltb→lt _ _ more))
    | inr done ↦
        let (a, rest, e, n) =
          split_at (size - length bytes) xs (omega (arith, ltb_false→le _ _ done)) in
        subst
          (λ l.
            push_body (k + length (l ++ ys)) kind tab size bytes (l ++ ys)
            ≡ resume (push_body (k + length l) kind tab size bytes l) ys)
          (sym e) (push_body-append_done bytes a rest ys (omega arith))
  ]

-- The body that a header opens is empty.
enter_body-append :
    (k : ℕ) (bytes xs ys : List ℕ) (fields : Result Fields)
    → enter_body (k + length (xs ++ ys)) bytes (xs ++ ys) fields
      ≡ resume (enter_body (k + length xs) bytes xs fields) ys
unfolding enter_body
enter_body-append k bytes xs ys (err e) = refl
enter_body-append k bytes xs ys (ok f) =
    ground (arith, push_body-append f.kind f.tab f.size k [] xs ys)

push_header-append_done :
    (bytes : List ℕ) (used : ℕ) (a rest ys : List ℕ)
    → used + length a ≡ header_bytes
    → push_header bytes used ((a ++ rest) ++ ys) ≡ resume (push_header bytes used (a ++ rest)) ys
push_header-append_done bytes used a rest ys h =
    rw
      (
        append_assoc a rest ys,
        push_header_done bytes used a (rest ++ ys) h,
        push_header_done bytes used a rest h,
      )
      (enter_body-append (length a) (splice bytes used a) rest ys
        (read_header (splice bytes used a)))

advance-enter_body :
    (k n : ℕ) (bytes rest : List ℕ) (fields : Result Fields)
    → length rest ≤ n
    → advance k (enter_body n bytes rest fields) ≡ enter_body (k + n) bytes rest fields
unfolding enter_body push_body
advance-enter_body k n bytes rest (err e) h = refl
advance-enter_body k n bytes rest (ok f) h =
    ground (arith, length-drop (min (f.size - 0) (length rest)) rest)

push_header-append_more_done :
    (bytes : List ℕ) (used : ℕ) (xs a rest : List ℕ)
    → length bytes ≡ header_bytes
    → used + length xs + length a ≡ header_bytes
    → push_header bytes used (xs ++ (a ++ rest))
      ≡ advance (length xs) (push_header (splice bytes used xs) (used + length xs) (a ++ rest))
push_header-append_more_done bytes used xs a rest hb h =
    rw
      (
        ← append_assoc xs a rest,
        push_header_done bytes used (xs ++ a) rest (omega (arith, length-append xs a)),
        push_header_done (splice bytes used xs) (used + length xs) a rest h,
        splice-splice bytes used (used + length xs) xs a (omega arith) refl,
        advance-enter_body (length xs) (length a + length rest) _ rest _ (omega arith),
      )
      (ap
        (λ n.
          enter_body n (splice bytes used (xs ++ a)) rest
            (read_header (splice bytes used (xs ++ a))))
        (omega (arith, length-append xs a)))

push_header-append_more :
    (bytes : List ℕ) (used : ℕ) (xs ys : List ℕ)
    → length bytes ≡ header_bytes
    → used + length xs < header_bytes
    → push_header bytes used (xs ++ ys)
      ≡ advance (length xs) (push_header (splice bytes used xs) (used + length xs) ys)
push_header-append_more bytes used xs ys hb h =
    elim (Bool-cases (ltb (used + length xs + length ys) header_bytes)) [
      | inl more ↦
          rw
            (
              push_header_more bytes used (xs ++ ys)
                  (omega (arith, length-append xs ys, ltb→lt _ _ more)),
              push_header_more (splice bytes used xs) (used + length xs) ys (ltb→lt _ _ more),
              splice-splice bytes used (used + length xs) xs ys (omega arith) refl,
            )
            (ap₂ (λ n u. (ok (n, none), header (splice bytes used (xs ++ ys)) u))
              (length-append xs ys) (omega (arith, length-append xs ys)))
      | inr done ↦
          let (a, rest, e, n) =
            split_at (header_bytes - used - length xs) ys (omega (arith, ltb_false→le _ _ done)) in
          subst
            (λ l.
              push_header bytes used (xs ++ l)
              ≡ advance (length xs) (push_header (splice bytes used xs) (used + length xs) l))
            (sym e) (push_header-append_more_done bytes used xs a rest hb (omega arith))
    ]

push_header-append :
    (bytes : List ℕ) (used : ℕ) (xs ys : List ℕ)
    → length bytes ≡ header_bytes
    → used < header_bytes
    → push_header bytes used (xs ++ ys) ≡ resume (push_header bytes used xs) ys
push_header-append bytes used xs ys hb h = elim (Bool-cases (ltb (used + length xs) header_bytes)) [
  | inl more ↦
      rw (push_header_more bytes used xs (ltb→lt _ _ more))
        (unfold push in push_header-append_more bytes used xs ys hb (ltb→lt _ _ more))
  | inr done ↦
      let (a, rest, e, n) =
        split_at (header_bytes - used) xs (omega (arith, ltb_false→le _ _ done)) in
      subst (λ l. push_header bytes used (l ++ ys) ≡ resume (push_header bytes used l) ys) (sym e)
        (push_header-append_done bytes used a rest ys (omega arith))
]

-- From any state between two calls, pushing two inputs together is pushing the first and going on with
-- the second.
pub push-append :
    (d : Decoder) (xs ys : List ℕ) → IsOpen d → push d (xs ++ ys) ≡ resume (push d xs) ys
unfolding push
push-append (header bytes used) xs ys h = push_header-append bytes used xs ys h.0 h.1
push-append (body kind tab size bytes) xs ys h =
    simp native.Mathlib.Nat.zero-add at (push_body-append kind tab size 0 bytes xs ys (omega arith))
push-append failed xs ys h = refl
