-- ===== src/Replica/Spans.antt =====
-- A span of a row is enough where the row is the same outside of it.
use worminal.Prelude.{
  ℕ, zero, suc, ◌+◌, ◌*◌, ◌-◌, ◌≤◌, ◌<◌, ◌≡◌, ◌≢◌, refl, sym, ap, ap₂, ◌∙◌, Option, none, some,
  List, [], ◌∷◌, ◌++◌, map, arith, length, take, drop, splice, append_assoc, if_both, length-append,
  length-take, length-drop, take-append-drop, drop-append, drop-drop, take-take, if◌then◌else◌, ltb,
}
use worminal.Prelude.Bytes.{bytes_eq, bytes_eq-eq}
use worminal.Engine.Cells.{Cell}
use worminal.Protocol.Wire.{wire_cell_bytes}
use worminal.Replica.Cells.{chunks_exact-cells}
use worminal.Daemon.Frames.Prepare.{
  Span, cell_bytes, first_different, last_different, behind, span_of,
}
use worminal.Daemon.Frames.Reading.{cells_bytes}

module _ {A : Type 0} where
  -- Writing what is there changes nothing.
  pub splice_same :
      (xs : List A) (a : ℕ) (src : List A)
      → take (length src) (drop a xs) ≡ src
      → splice xs a src ≡ xs
  splice_same xs a src e =
      ap (λ t. take a xs ++ (t ++ drop (a + length src) xs)) (sym e)
      ∙ ap (λ t. take a xs ++ (take (length src) (drop a xs) ++ t))
          (sym (drop-drop a (length src) (a + length src) xs refl))
      ∙ ap (λ t. take a xs ++ t) (take-append-drop (length src) (drop a xs))
      ∙ take-append-drop a xs

  take_add : (a n : ℕ) (xs : List A) → take (a + n) xs ≡ take a xs ++ take n (drop a xs)
  take_add zero n xs = ap (λ k. take k xs) (omega arith)
  take_add (suc a) n [] = take_nil (suc a + n) ∙ sym (take_nil n)
    where
      take_nil : (k : ℕ) → ◌≡◌ {A = List A} (take k []) []
      take_nil zero = refl
      take_nil (suc k) = refl
  take_add (suc a) n (x ∷ xs) =
      ap (λ k. take k (x ∷ xs)) {x = suc a + n} {y = suc (a + n)} (omega arith)
      ∙ ap (λ t. x ∷ t) (take_add a n xs)

  drop_row :
      (l n : ℕ) (ys : List A) → l ≤ n → n ≤ length ys → drop l (take n ys) ++ drop n ys ≡ drop l ys
  drop_row l n ys h k =
      sym (drop-append l (take n ys) (drop n ys) (omega (arith, length-take n ys)))
      ∙ ap (drop l) (take-append-drop n ys)

  -- A row is replaced, or only the part that differs.
  pub splice_part :
      (xs mid : List A) (a n f l : ℕ)
      → a + n ≤ length xs
      → f ≤ l
      → l ≤ n
      → length mid ≡ l - f
      → let row = take n (drop a xs) in
        splice xs a (take f row ++ (mid ++ drop l row)) ≡ splice xs (a + f) mid
  splice_part xs mid a n f l h fl ln e =
      let ys = drop a xs in
      let row = take n ys in
      let new = take f row ++ (mid ++ drop l row) in
      let size : length row ≡ n = omega (arith, length-take n ys, length-drop a xs) in
      let new_size : length new ≡ n = omega (
        arith,
        length-append (take f row) (mid ++ drop l row),
        length-append mid (drop l row),
        length-take f row,
        length-drop l row,
      ) in
      ap (λ k. take a xs ++ (new ++ drop (a + k) xs)) new_size
      ∙ ap (λ t. take a xs ++ (new ++ t)) (sym (drop-drop a n (a + n) xs refl))
      ∙ ap (λ t. take a xs ++ t)
          (append_assoc (take f row) (mid ++ drop l row) (drop n ys)
            ∙ ap₂ (λ s t. s ++ t) (take-take f n ys (omega arith))
                (append_assoc mid (drop l row) (drop n ys)
                  ∙ ap (λ t. mid ++ t)
                      (drop_row l n ys ln (omega (arith, length-drop a xs))
                        ∙ drop-drop a l (a + f + length mid) xs (omega (arith, e)))))
      ∙ sym (append_assoc (take a xs) (take f ys) (mid ++ drop (a + f + length mid) xs))
      ∙ ap (λ t. t ++ (mid ++ drop (a + f + length mid) xs)) (sym (take_add a f xs))

-- Up to the first cell that differs, and behind the last one, rows are the same.
pub first_different-same :
    (cs os : List Cell)
    → let f = first_different (map cell_bytes cs) (map cell_bytes os) in
      cells_bytes (take f cs) ≡ cells_bytes (take f os)
unfolding first_different
first_different-same [] [] = refl
first_different-same [] (o ∷ os) = refl
first_different-same (c ∷ cs) [] = refl
first_different-same (c ∷ cs) (o ∷ os) =
    if_both (λ (f : ℕ). cells_bytes (take f (c ∷ cs)) ≡ cells_bytes (take f (o ∷ os)))
      (bytes_eq (cell_bytes c) (cell_bytes o)) _ _
      (λ e.
        ap₂ (λ x y. x ++ y) (bytes_eq-eq (cell_bytes c) (cell_bytes o) e)
          (first_different-same cs os))
      (λ _. refl)

-- What the last difference says of two rows of one length.
abbrev IsLast : List Cell → List Cell → Option ℕ → Type 0
IsLast cs os none = cells_bytes cs ≡ cells_bytes os
IsLast cs os (some l) =
    (l < length cs)
    × (cells_bytes (drop (suc l) cs) ≡ cells_bytes (drop (suc l) os))
    × (first_different (map cell_bytes cs) (map cell_bytes os) ≤ l)

last_different-IsLast :
    (cs os : List Cell)
    → length cs ≡ length os
    → IsLast cs os (last_different (map cell_bytes cs) (map cell_bytes os))
unfolding last_different first_different
last_different-IsLast [] [] e = refl
last_different-IsLast [] (o ∷ os) e = absurd (omega arith)
last_different-IsLast (c ∷ cs) [] e = absurd (omega arith)
last_different-IsLast (c ∷ cs) (o ∷ os) e =
    ahead (last_different (map cell_bytes cs) (map cell_bytes os))
      (last_different-IsLast cs os (omega (arith, e)))
  where
    ahead :
        (last : Option ℕ)
        → IsLast cs os last
        → IsLast (c ∷ cs) (o ∷ os) (elim last as (λ _. Option ℕ) [
          | some l ↦ some (suc l)
          | none ↦ if bytes_eq (cell_bytes c) (cell_bytes o) then none else some 0
        ])
    ahead none h =
        if_both (IsLast (c ∷ cs) (o ∷ os)) (bytes_eq (cell_bytes c) (cell_bytes o)) _ _
          (λ same. ap₂ (λ x y. x ++ y) (bytes_eq-eq (cell_bytes c) (cell_bytes o) same) h)
          (λ differ. (
            omega arith,
            h,
            if_both (λ (n : ℕ). n ≤ 0) (bytes_eq (cell_bytes c) (cell_bytes o)) _ _
                (λ same. absurd (cc)) (λ _. omega arith),
          ))
    ahead (some l) h = (
      omega (arith, h),
      h.1,
      if_both (λ (n : ℕ). n ≤ suc l) (bytes_eq (cell_bytes c) (cell_bytes o)) _ _
          (λ _. omega (arith, h)) (λ _. omega arith),
    )

-- A part of the cells of a row, outside of which the row is another one.
pub record IsPart (cs os : List Cell) (s : Span) : Type 0 where
  pub first : ℕ
  pub last : ℕ
  pub starts : s.start ≡ first * 16
  pub ends : s.end ≡ last * 16
  pub some_cells : first < last
  pub inside : last ≤ length cs
  pub same_before : cells_bytes (take first cs) ≡ cells_bytes (take first os)
  pub same_behind : cells_bytes (drop last cs) ≡ cells_bytes (drop last os)

abbrev pub IsPartIfAny : List Cell → List Cell → Option Span → Type 0
IsPartIfAny cs os none = Unit
IsPartIfAny cs os (some s) = IsPart cs os s

pub span_of-IsPart :
    (width : ℕ) (cs os : List Cell)
    → length cs ≡ length os
    → cells_bytes cs ≢ cells_bytes os
    → IsPartIfAny cs os (span_of width (cells_bytes cs) (cells_bytes os))
unfolding span_of
span_of-IsPart width cs os e differ =
    rw (chunks_exact-cells cs, chunks_exact-cells os)
      (if_both (IsPartIfAny cs os) (ltb _ width) _ none
        (λ _.
          part (last_different (map cell_bytes cs) (map cell_bytes os)) refl
            (last_different-IsLast cs os e))
        (λ _. tt))
  where
    part :
        (last : Option ℕ)
        → last_different (map cell_bytes cs) (map cell_bytes os) ≡ last
        → IsLast cs os last
        → IsPart cs os (record {
          start = first_different (map cell_bytes cs) (map cell_bytes os) * wire_cell_bytes;
          end = behind (last_different (map cell_bytes cs) (map cell_bytes os)) * wire_cell_bytes;
        })
    part none le h = absurd (differ h)
    part (some l) le h = record {
      first = first_different (map cell_bytes cs) (map cell_bytes os);
      last = suc l;
      starts = refl;
      ends = rw le (omega arith);
      some_cells = omega (arith, h);
      inside = omega (arith, h);
      same_before = first_different-same cs os;
      same_behind = h.1;
    }
