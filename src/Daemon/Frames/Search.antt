-- ===== src/Daemon/Frames/Search.antt =====
-- What `find_move` finds: rows that are there, and that have moved.
use worminal.Prelude.Bytes.{bytes_eq-eq}
use worminal.Prelude.Grid.{row_at}
use worminal.Prelude.{
  ℕ, zero, suc, ◌+◌, ◌-◌, ◌≤◌, ◌<◌, ◌≡◌, refl, ◌⊎◌, inl, inr, true, ◌||◌, not, Option, none, some,
  List, ltb, leb, ◌==◌, arith, Bool-cases, if_both, length, get_or, ==_iff,
}
use worminal.Daemon.Frames.Move.{
  Move, unwrap, Search, Rows, extend_run, move_step, rows_loop, shifts_loop, is_exact, exact,
  find_move,
}

-- A move of rows that are there.
pub record FitsIn (rows : ℕ) (m : Move) : Type 0 where
  pub some_rows : 0 < m.count
  pub from_inside : m.source + m.count ≤ rows
  pub to_inside : m.destination + m.count ≤ rows

abbrev pub IfAny : (Move → Type 0) → Option Move → Type 0
IfAny P none = Unit
IfAny P (some m) = P m

-- The run ends before a row, and came from rows that are there.
record Follows (rows shift row : ℕ) (s : Search) : Type 0 where
  found : IfAny (FitsIn rows) s.best
  started : (s.run ≡ 0) ⊎ ((s.run ≤ row) × (s.run + rows ≤ row + (shift + 1)))

extend_run-Follows :
    (r : Rows) (rows shift row : ℕ) (s : Search)
    → row < rows
    → rows ≤ row + (shift + 1)
    → row + (shift + 1) - rows < rows
    → Follows rows shift row s
    → Follows rows shift (suc row) (extend_run r rows shift row s)
unfolding extend_run
extend_run-Follows r rows shift row s inside from_low from_high h =
    if_both (Follows rows shift (suc row)) (ltb s.best_score _ || _) _ _
      (λ _. record {
        found = record {
          some_rows = omega arith;
          from_inside = elim h.started [ inl e ↦ omega arith | inr b ↦ omega (arith, b) ];
          to_inside = elim h.started [ inl e ↦ omega arith | inr b ↦ omega (arith, b) ];
        };
        started = longer;
      })
      (λ _. record { found = h.found; started = longer })
  where
    longer : (s.run + 1 ≡ 0) ⊎ ((s.run + 1 ≤ suc row) × (s.run + 1 + rows ≤ suc row + (shift + 1)))
    longer = inr (elim h.started [
      | inl e ↦ (omega arith, omega arith)
      | inr b ↦ (omega (arith, b), omega (arith, b))
    ])

move_step-Follows :
    (r : Rows) (rows shift row : ℕ) (s : Search)
    → row < rows
    → Follows rows shift row s
    → Follows rows shift (suc row) (move_step r rows shift row s)
unfolding move_step
move_step-Follows r rows shift row s inside h =
    let from = row + (shift + 1) - rows in
    if_both (Follows rows shift (suc row))
      (ltb (row + (shift + 1)) rows
        || (leb rows from || not (get_or r.now row 0 == get_or r.old from 0)))
      (record s { run = 0; score = 0 }) _ (λ _. record { found = h.found; started = inl refl })
      (λ there. extend_run-Follows r rows shift row s inside (ground arith) (ground arith) h)

rows_loop-found :
    (r : Rows) (rows shift rounds row : ℕ) (s : Search)
    → row + rounds ≤ rows
    → Follows rows shift row s
    → IfAny (FitsIn rows) (rows_loop r rows shift rounds row s).best
unfolding rows_loop
rows_loop-found r rows shift zero row s b h = h.found
rows_loop-found r rows shift (suc rounds) row s b h =
    rows_loop-found r rows shift rounds (suc row) _ (omega arith)
      (move_step-Follows r rows shift row s (omega arith) h)

shifts_loop-found :
    (r : Rows) (rows rounds shift : ℕ) (s : Search)
    → IfAny (FitsIn rows) s.best
    → IfAny (FitsIn rows) (shifts_loop r rows rounds shift s).best
unfolding shifts_loop
shifts_loop-found r rows zero shift s h = h
shifts_loop-found r rows (suc rounds) shift s h = shifts_loop-found r rows rounds (suc shift) _ (
    if_both (λ (x : Search). IfAny (FitsIn rows) x.best) (shift + 1 == rows) _ _ (λ _. h)
      (λ _.
        rows_loop-found r rows shift rows 0 (record s { run = 0; score = 0 }) (omega arith)
          (record { found = h; started = inl refl })))

-- Rows that have moved: from the first offset on, the bytes at the source were those at the destination.
abbrev pub IsMoved : ℕ → List ℕ → List (Option (List ℕ)) → Move → Type 0
IsMoved width before current m =
    (k : ℕ)
    → k < m.count
    → row_at width before (m.source + k) ≡ unwrap (get_or current (m.destination + k) none)

is_exact-rows :
    (width : ℕ) (before : List ℕ) (current : List (Option (List ℕ))) (m : Move) (rounds offset : ℕ)
    → is_exact width before current m rounds offset ≡ true
    → (k : ℕ) → offset ≤ k
    → k < offset + rounds
    → row_at width before (m.source + k) ≡ unwrap (get_or current (m.destination + k) none)
unfolding is_exact
is_exact-rows width before current m zero offset h k low high = absurd (omega arith)
is_exact-rows width before current m (suc rounds) offset h k low high =
    elim (Bool-cases (k == offset)) [
      | inl same ↦ rw ((==_iff k offset).0 same) (bytes_eq-eq _ _ (ground arith))
      | inr other ↦
          is_exact-rows width before current m rounds (suc offset) (ground arith) k (ground arith)
            (omega arith)
    ]

-- A move that is found is one of rows that are there, and the rows hold what they held at its source.
abbrev pub IsSound : ℕ → List ℕ → List (Option (List ℕ)) → Move → Type 0
IsSound width before current m = FitsIn (length current) m × IsMoved width before current m

exact-IsSound :
    (width : ℕ) (before : List ℕ) (current : List (Option (List ℕ))) (o : Option Move)
    → IfAny (FitsIn (length current)) o
    → IfAny (IsSound width before current) (exact width before current o)
unfolding exact
exact-IsSound width before current none h = tt
exact-IsSound width before current (some m) h =
    if_both (IfAny (IsSound width before current)) (is_exact width before current m m.count 0) _ _
      (λ e. (
        h,
        λ k high. is_exact-rows width before current m m.count 0 e k (omega arith) (omega arith),
      ))
      (λ _. tt)

-- A move that is found copies rows that are there to rows that are there, at least one, and each row at
-- the destination is, byte by byte, the row that the baseline has at the source.
pub find_move-IsSound :
    (before : List ℕ) (current : List (Option (List ℕ))) (width : ℕ)
    → IfAny (IsSound width before current) (find_move before current width)
unfolding find_move
find_move-IsSound before current width =
    exact-IsSound width before current _ (shifts_loop-found _ (length current) _ 0 _ tt)
