-- ===== src/Prelude/Grid.antt =====
-- Rows of a width, one behind the other: where they stand.
use Prim.Native.Nat.{ℕ, ◌+◌, ◌*◌, ◌-◌, ◌≤◌, ◌<◌}
use mathlib.Core.Path.{◌≡◌, sym, ap, ◌∙◌}
use native.Mathlib.Nat.{mul_comm, add-mul, mul-le-mul_right}
use native.Mathlib.Omega.{arith}
use mathlib.Core.Logic.{◌⊎◌, inl, inr}
use mathlib.Core.List.{List, ◌++◌}
use worminal.Prelude.Lists.{
  length, take, drop, splice, length-take, length-drop, take-append, drop-append, drop-append_past,
  drop-drop, take-append-drop,
}

-- Rows, and a part of a row, lie within the whole.
pub rows_within : (w r n i : ℕ) → i + n ≤ r → i * w + n * w ≤ w * r
rows_within w r n i h = omega (arith, mul-le-mul_right w h, add-mul i n w, mul_comm w r)

pub row_within : (w r i : ℕ) → i < r → i * w + w ≤ w * r
row_within w r i h = omega (arith, rows_within w r 1 i (omega arith))

pub part_within : (w r i c n : ℕ) → i < r → c + n ≤ w → i * w + c + n ≤ w * r
part_within w r i c n h k = omega (arith, row_within w r i h)

-- Rows before others.
rows_before : (w i c j : ℕ) → i + c ≤ j → i * w + c * w ≤ j * w
rows_before w i c j h = omega (arith, mul-le-mul_right w h, add-mul i c w)

module _ {ℓ} {A : Type ℓ} where
  -- A row among all.
  abbrev pub row_at : ℕ → List A → ℕ → List A
  row_at width xs index = take width (drop (index * width) xs)

  slice-append :
      (n a : ℕ) (xs ys : List A)
      → a + n ≤ length xs
      → take n (drop a (xs ++ ys)) ≡ take n (drop a xs)
  slice-append n a xs ys h =
      ap (take n) (drop-append a xs ys (omega arith))
      ∙ take-append n (drop a xs) ys (omega (arith, length-drop a xs))

  -- A slice before, behind and inside what is written.
  slice-splice_before :
      (n a at : ℕ) (xs src : List A)
      → a + n ≤ at
      → at ≤ length xs
      → take n (drop a (splice xs at src)) ≡ take n (drop a xs)
  slice-splice_before n a at xs src h k =
      slice-append n a (take at xs) (src ++ drop (at + length src) xs)
        (omega (arith, length-take at xs))
      ∙ sym (slice-append n a (take at xs) (drop at xs) (omega (arith, length-take at xs)))
      ∙ ap (λ t. take n (drop a t)) (take-append-drop at xs)

  slice-splice_behind :
      (n a at : ℕ) (xs src : List A)
      → at + length src ≤ a
      → at ≤ length xs
      → take n (drop a (splice xs at src)) ≡ take n (drop a xs)
  slice-splice_behind n a at xs src h k = ap (take n) (
      drop-append_past a (a - at) (take at xs) _ (omega (arith, length-take at xs))
      ∙ drop-append_past (a - at) (a - at - length src) src _ (omega arith)
      ∙ drop-drop (at + length src) (a - at - length src) a xs (omega arith))

  slice-splice_inside :
      (n k at : ℕ) (xs src : List A)
      → k + n ≤ length src
      → at ≤ length xs
      → take n (drop (at + k) (splice xs at src)) ≡ take n (drop k src)
  slice-splice_inside n k at xs src h l =
      ap (take n) (drop-append_past (at + k) k (take at xs) _ (omega (arith, length-take at xs)))
      ∙ slice-append n k src _ h

  -- Rows outside and inside of the rows that are written.
  pub row_at-splice_outside :
      (w r i c j : ℕ) (xs src : List A)
      → length xs ≡ w * r
      → length src ≡ c * w
      → i + c ≤ r
      → (j < i) ⊎ (i + c ≤ j)
      → row_at w (splice xs (i * w) src) j ≡ row_at w xs j
  row_at-splice_outside w r i c j xs src e f h (inl before) =
      slice-splice_before w (j * w) (i * w) xs src
        (omega (arith, rows_before w j 1 i (omega arith))) (omega (arith, rows_within w r c i h))
  row_at-splice_outside w r i c j xs src e f h (inr behind) =
      slice-splice_behind w (j * w) (i * w) xs src (omega (arith, rows_before w i c j behind))
        (omega (arith, rows_within w r c i h))

  pub row_at-splice_inside :
      (w r i c k : ℕ) (xs src : List A)
      → length xs ≡ w * r
      → length src ≡ c * w
      → i + c ≤ r
      → k < c
      → row_at w (splice xs (i * w) src) (i + k) ≡ row_at w src k
  row_at-splice_inside w r i c k xs src e f h l =
      ap (λ a. take w (drop a (splice xs (i * w) src))) (add-mul i k w)
      ∙ slice-splice_inside w (k * w) (i * w) xs src
          (omega (arith, rows_before w k 1 c (omega arith))) (omega (arith, rows_within w r c i h))

  -- A row of the rows that are cut out.
  pub row_at-cut :
      (w r i c k : ℕ) (xs : List A)
      → length xs ≡ w * r
      → i + c ≤ r
      → k < c
      → row_at w (take (c * w) (drop (i * w) xs)) k ≡ row_at w xs (i + k)
  row_at-cut w r i c k xs e h l =
      sym (
        slice-append w (k * w) cut (drop (c * w) rest) (
          omega (
            arith,
            rows_before w k 1 c (omega arith),
            rows_within w r c i h,
            length-take (c * w) rest,
            length-drop (i * w) xs,
          )))
      ∙ ap (λ t. take w (drop (k * w) t)) (take-append-drop (c * w) rest)
      ∙ ap (take w) (drop-drop (i * w) (k * w) ((i + k) * w) xs (omega (arith, add-mul i k w)))
    where
      rest : List A
      rest = drop (i * w) xs

      cut : List A
      cut = take (c * w) rest
