-- ===== src/Daemon/Frames/Room.antt =====
-- There is room for the packets of a frame.
use worminal.Prelude.{
  ℕ, suc, ◌*◌, ◌≤◌, ◌≡◌, sym, ap, ◌∙◌, subst, Bool, ◌&&◌, not, Option, none, List, [], ◌∷◌, ltb,
  if◌then◌else◌, arith, if_both, length, All, All-append, length-append,
}
use worminal.Prelude.Bytes.{bytes_eq}
use worminal.Prelude.Grid.{row_at}
use worminal.Daemon.Frames.Move.{unwrap}
use worminal.Daemon.Frames.Prepare.{
  Span, Update, Request, baseline_row, span_of, update_row, updates_from,
}
use worminal.Daemon.Frames.Encode.{span_length, update_bytes}
use worminal.Daemon.Frames.Updates.{AreFetched}

-- An update that is not longer than a row.
abbrev pub IsShort : ℕ → Update → Type 0
IsShort width u = (length u.bytes ≡ width) × (span_length (length u.bytes) u.span ≤ width)

span_of-short : (width : ℕ) (new old : List ℕ) → span_length width (span_of width new old) ≤ width
unfolding span_of
span_of-short width new old =
    if_both (λ (s : Option Span). span_length width s ≤ width) (ltb _ width) _ none
      (λ short. ground arith) (λ _. omega arith)

update_row-AreShort :
    (q : Request) (row : ℕ) (bytes : List ℕ)
    → length bytes ≡ q.width
    → let us = update_row q row bytes in All (IsShort q.width) us × (length us ≤ 1)
unfolding update_row
update_row-AreShort q row bytes size =
    let old = row_at q.width q.baseline (baseline_row q.movement row) in
    if_both (λ (us : List Update). All (IsShort q.width) us × (length us ≤ 1))
      (not q.full && bytes_eq bytes old) [] _ (λ _. (tt, omega arith))
      (λ _. (((size, short), tt), omega arith))
  where
    short :
        let old = row_at q.width q.baseline (baseline_row q.movement row) in
        span_length
          (length bytes)
          (if not q.full && q.spans then span_of q.width bytes old else none)
        ≤ q.width
    short =
        let old = row_at q.width q.baseline (baseline_row q.movement row) in
        if_both (λ (s : Option Span). span_length (length bytes) s ≤ q.width)
          (not q.full && q.spans) (span_of q.width bytes old) none
          (λ _.
            subst (λ n. span_length n (span_of q.width bytes old) ≤ q.width) (sym size)
              (span_of-short q.width bytes old))
          (λ _. omega (arith, size))

-- The updates are at most one for each row, and none is longer than a row.
pub updates_from-AreShort :
    (q : Request) (screen : ℕ → List ℕ) (row : ℕ) (flags : List Bool)
    (current : List (Option (List ℕ)))
    → AreFetched q.width screen q.full row flags current
    → let us = updates_from q row flags current in
      All (IsShort q.width) us × (length us ≤ length flags)
unfolding updates_from
updates_from-AreShort q screen row [] [] f = (tt, omega arith)
updates_from-AreShort q screen row [] (o ∷ current) f = absurd f
updates_from-AreShort q screen row (flag ∷ flags) [] f = absurd f
updates_from-AreShort q screen row (flag ∷ flags) (o ∷ current) f =
    let us = if not q.full && not flag then [] else update_row q row (unwrap o) in
    let here : All (IsShort q.width) us × (length us ≤ 1) =
      if_both (λ (vs : List Update). All (IsShort q.width) vs × (length vs ≤ 1))
        (not q.full && not flag) [] _ (λ _. (tt, omega arith))
        (λ wanted.
          let fetched = f.0 (ground arith) in
          update_row-AreShort q row (unwrap o) (ap length fetched.0 ∙ fetched.1)) in
    let rest = updates_from-AreShort q screen (suc row) flags current f.1 in
    (
      All-append (IsShort q.width) us _ here.0 rest.0,
      omega (arith, here.1, rest.1, length-append us (updates_from q (suc row) flags current)),
    )

pub update_bytes-AreShort :
    (width : ℕ) (us : List Update)
    → All (IsShort width) us
    → width ≤ 6400
    → update_bytes us ≤ length us * 6420
unfolding update_bytes
update_bytes-AreShort width [] h w = omega arith
update_bytes-AreShort width (u ∷ us) h w =
    omega (arith, h.0.1, update_bytes-AreShort width us h.1 w)
