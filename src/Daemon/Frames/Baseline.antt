-- ===== src/Daemon/Frames/Baseline.antt =====
-- The rows of the baseline after a plan's move and its updates.
use worminal.Prelude.{
  ℕ, ◌+◌, ◌*◌, ◌-◌, ◌≤◌, ◌<◌, ◌≡◌, refl, ap, ◌∙◌, ◌⊎◌, inl, inr, ◌&&◌, Option, none, some, List, [],
  ◌∷◌, ◌++◌, ltb, leb, arith, if_both, length, take, drop, splice, length-splice, length-take,
  length-drop, take_all,
}
use worminal.Prelude.Grid.{
  row_at, row_at-splice_outside, row_at-splice_inside, row_at-cut, row_within, rows_within,
}
use worminal.Daemon.Frames.Move.{Move}
use worminal.Daemon.Frames.Prepare.{Update, baseline_row}
use worminal.Daemon.Frames.Commit.{copy_within, copy_updates}
use worminal.Daemon.Frames.Search.{FitsIn, IfAny}

cut-length :
    (w r i c : ℕ) (bs : List ℕ)
    → length bs ≡ w * r
    → i + c ≤ r
    → length (take (c * w) (drop (i * w) bs)) ≡ c * w
cut-length w r i c bs e h =
    omega
      (arith, length-take (c * w) (drop (i * w) bs), length-drop (i * w) bs, rows_within w r c i h)

pub copy_within-length :
    (w r : ℕ) (o : Option Move) (bs : List ℕ)
    → IfAny (FitsIn r) o
    → length bs ≡ w * r
    → length (copy_within w o bs) ≡ w * r
unfolding copy_within
copy_within-length w r none bs f e = e
copy_within-length w r (some m) bs f e =
    length-splice bs (m.destination * w) _ (
      omega (
        arith,
        cut-length w r m.source m.count bs e f.from_inside,
        rows_within w r m.count m.destination f.to_inside,
      ))
    ∙ e

-- The rows that have moved, and the others.
pub row_at-copy_within :
    (w r : ℕ) (o : Option Move) (bs : List ℕ) (j : ℕ)
    → IfAny (FitsIn r) o
    → length bs ≡ w * r
    → row_at w (copy_within w o bs) j ≡ row_at w bs (baseline_row o j)
unfolding copy_within baseline_row
row_at-copy_within w r none bs j f e = refl
row_at-copy_within w r (some m) bs j f e =
    if_both (λ (i : ℕ). row_at w moved j ≡ row_at w bs i)
      (leb m.destination j && ltb j (m.destination + m.count)) _ _
      (λ inside. within (j - m.destination) (ground arith) (ground arith))
      (λ outside.
        row_at-splice_outside w r m.destination m.count j bs _ e
          (cut-length w r m.source m.count bs e f.from_inside) f.to_inside (ground arith))
  where
    moved : List ℕ
    moved = splice bs (m.destination * w) (take (m.count * w) (drop (m.source * w) bs))

    within :
        (k : ℕ)
        → j ≡ m.destination + k
        → k < m.count
        → row_at w moved j ≡ row_at w bs (m.source + j - m.destination)
    within k p q =
        ap (row_at w moved) p
        ∙ row_at-splice_inside w r m.destination m.count k bs _ e
            (cut-length w r m.source m.count bs e f.from_inside) f.to_inside q
        ∙ row_at-cut w r m.source m.count k bs e f.from_inside q
        ∙ ap (row_at w bs) (omega arith)

-- Rows that are updated, one by one.
pub copy_updates-append :
    (w : ℕ) (us vs : List Update) (bs : List ℕ)
    → copy_updates w (us ++ vs) bs ≡ copy_updates w vs (copy_updates w us bs)
unfolding copy_updates
copy_updates-append w [] vs bs = refl
copy_updates-append w (u ∷ us) vs bs = copy_updates-append w us vs _

-- A row becomes `new`, and the others stay.
pub record Writes (w row : ℕ) (new bs bs' : List ℕ) : Type 0 where
  pub same_length : length bs' ≡ length bs
  pub written : row_at w bs' row ≡ new
  pub others : (j : ℕ) → (j < row) ⊎ (row < j) → row_at w bs' j ≡ row_at w bs j

pub splice-Writes :
    (w r row : ℕ) (new bs : List ℕ)
    → length bs ≡ w * r
    → length new ≡ w
    → row < r
    → Writes w row new bs (splice bs (row * w) new)
splice-Writes w r row new bs e f h = record {
  same_length = length-splice bs (row * w) new (omega (arith, row_within w r row h));
  written =
      ap (row_at w (splice bs (row * w) new)) (omega arith)
      ∙ row_at-splice_inside w r row 1 0 bs new e (omega arith) (omega arith) (omega arith)
      ∙ ap (λ n. take w (drop n new)) {x = 0 * w} {y = 0} (omega arith)
      ∙ take_all w new (omega arith);
  others = λ j side.
      row_at-splice_outside w r row 1 j bs new e (omega arith) (omega arith)
        (elim side [ inl a ↦ inl a | inr b ↦ inr (omega arith) ]);
}
