-- ===== src/Replica/Operations.antt =====
-- An operation of the viewport does to the cells what the daemon does to the bytes of its baseline.
use worminal.Prelude.{
  ℕ, ◌+◌, ◌*◌, ◌-◌, ◌/◌, ◌≤◌, ◌<◌, ◌≡◌, refl, sym, ap, ap₂, ◌∙◌, true, Option, none, some, List, [],
  ◌∷◌, ◌++◌, arith, length, take, drop, splice, All, if_both, take-append-drop, drop-drop,
  length-take, length-drop,
}
use worminal.Prelude.Grid.{row_at, row_within}
use worminal.Engine.Cells.{Cell}
use worminal.Daemon.Frames.Move.{Move}
use worminal.Daemon.Frames.Prepare.{Span}
use worminal.Daemon.Frames.Commit.{copy_within}
use worminal.Daemon.Frames.Reading.{cells_bytes}
use worminal.Frontend.Viewport.State.{Operation, span, copy}
use worminal.Frontend.Viewport.Finish.{
  eq_cell, eq_cells, Drawing, apply_operation, apply_operations,
}
use worminal.Replica.Cells.{
  IsWire, cells_bytes-append, cells_bytes-take, cells_bytes-drop, cells_bytes-splice,
}
use worminal.Replica.Spans.{splice_same, splice_part, IsPart, IsPartIfAny}

eq_cell-eq : (a b : Cell) → eq_cell a b ≡ true → a ≡ b
unfolding eq_cell
eq_cell-eq a b h =
    let r : a.rune ≡ b.rune = ground arith in
    let t : a.attributes ≡ b.attributes = ground arith in
    let f : a.foreground ≡ b.foreground = ground arith in
    let g : a.background ≡ b.background = ground arith in
    λ i. record { rune = r i; attributes = t i; foreground = f i; background = g i }

eq_cells-eq : (as' bs : List Cell) → eq_cells as' bs ≡ true → as' ≡ bs
unfolding eq_cells
eq_cells-eq [] [] h = refl
eq_cells-eq [] (b ∷ bs) h = cc
eq_cells-eq (a ∷ as') [] h = cc
eq_cells-eq (a ∷ as') (b ∷ bs) h =
    ap₂ (λ x y. x ∷ y) (eq_cell-eq a b (ground arith)) (eq_cells-eq as' bs (ground arith))

-- A span is written, whether the cells that are there differ or not.
pub span-splice :
    (columns row column : ℕ) (cells : List Cell) (d : Drawing)
    → (apply_operation columns (span row column cells) d).cells
      ≡ splice d.cells (row * columns + column) cells
unfolding apply_operation
span-splice columns row column cells d =
    if_both (λ (x : Drawing). x.cells ≡ splice d.cells (row * columns + column) cells)
      (eq_cells _ cells) _ _
      (λ same. sym (splice_same d.cells (row * columns + column) cells (eq_cells-eq _ cells same)))
      (λ _. refl)

-- The operation that the packet of a row, or of a part of it, stands for.
abbrev pub operation_of : ℕ → List Cell → Option Span → Operation
operation_of row cells none = span row 0 cells
operation_of row cells (some s) =
    span row (s.start / 16) (take ((s.end - s.start) / 16) (drop (s.start / 16) cells))

-- A row of cells for the wire, or the part of it that differs from the row that is there.
pub record IsRow (columns rows row : ℕ) (cs : List Cell) (s : Option Span) (old : List Cell)
    : Type 0 where
  pub wire : All IsWire cs
  pub whole : length cs ≡ columns
  pub inside : row < rows
  pub part : IsPartIfAny cs (row_at columns old row) s

split_row :
    (cs : List Cell) (f l : ℕ) → f ≤ l → take f cs ++ (take (l - f) (drop f cs) ++ drop l cs) ≡ cs
split_row cs f l h =
    ap (λ t. take f cs ++ (take (l - f) (drop f cs) ++ t))
      (sym (drop-drop f (l - f) l cs (omega arith)))
    ∙ ap (λ t. take f cs ++ t) (take-append-drop (l - f) (drop f cs))
    ∙ take-append-drop f cs

row_offset : (columns row : ℕ) → row * columns * 16 ≡ row * (columns * 16)
row_offset columns row = omega arith

part-splice :
    (columns rows row : ℕ) (cs old : List Cell) (s : Span)
    → length old ≡ columns * rows
    → row < rows
    → length cs ≡ columns
    → IsPart cs (row_at columns old row) s
    → cells_bytes (
        splice old
          (row * columns + s.start / 16)
          (take ((s.end - s.start) / 16) (drop (s.start / 16) cs)))
      ≡ splice (cells_bytes old) (row * (columns * 16)) (cells_bytes cs)
part-splice columns rows row cs old s size inside whole p =
    let f = p.first in
    let l = p.last in
    let there = row_at columns old row in
    let mid = take (l - f) (drop f cs) in
    let new = take f there ++ (mid ++ drop l there) in
    let start : s.start / 16 ≡ f = omega (arith, p.starts) in
    let count : (s.end - s.start) / 16 ≡ l - f = omega (arith, p.starts, p.ends) in
    let same : cells_bytes new ≡ cells_bytes cs =
      cells_bytes-append (take f there) (mid ++ drop l there)
      ∙ ap₂ (λ x y. x ++ y) (sym p.same_before)
          (cells_bytes-append mid (drop l there)
            ∙ ap (λ t. cells_bytes mid ++ t) (sym p.same_behind)
            ∙ sym (cells_bytes-append mid (drop l cs)))
      ∙ sym (cells_bytes-append (take f cs) (mid ++ drop l cs))
      ∙ ap cells_bytes (split_row cs f l (omega (arith, p.some_cells))) in
    ap₂ (λ a n. cells_bytes (splice old (row * columns + a) (take n (drop a cs)))) start count
    ∙ ap cells_bytes (
        sym (
          splice_part old mid (row * columns) columns f l
            (omega (arith, size, row_within columns rows row inside)) (omega (arith, p.some_cells))
            (omega (arith, p.inside, whole))
            (omega (arith, p.inside, length-take (l - f) (drop f cs), length-drop f cs))))
    ∙ cells_bytes-splice old new (row * columns)
    ∙ ap₂ (λ a t. splice (cells_bytes old) a t) (row_offset columns row) same

-- The client draws what the daemon copies into its baseline.
pub update-copies :
    (columns rows row : ℕ) (cs : List Cell) (s : Option Span) (d : Drawing)
    → length d.cells ≡ columns * rows
    → IsRow columns rows row cs s d.cells
    → cells_bytes (apply_operation columns (operation_of row cs s) d).cells
      ≡ splice (cells_bytes d.cells) (row * (columns * 16)) (cells_bytes cs)
update-copies columns rows row cs none d size r =
    ap cells_bytes (span-splice columns row 0 cs d)
    ∙ cells_bytes-splice d.cells cs (row * columns + 0)
    ∙ ap (λ a. splice (cells_bytes d.cells) a (cells_bytes cs)) (omega arith)
update-copies columns rows row cs (some s) d size r =
    ap cells_bytes (span-splice columns row (s.start / 16) _ d)
    ∙ part-splice columns rows row cs d.cells s size r.inside r.whole r.part

-- A move of rows.
abbrev pub moved : Option Move → List Operation
moved none = []
moved (some m) = copy m.source m.destination m.count ∷ []

pub moved-copies :
    (columns : ℕ) (o : Option Move) (d : Drawing)
    → cells_bytes (apply_operations columns (moved o) d).cells
      ≡ copy_within (columns * 16) o (cells_bytes d.cells)
unfolding apply_operations apply_operation copy_within
moved-copies columns none d = refl
moved-copies columns (some m) d =
    cells_bytes-splice d.cells _ (m.destination * columns)
    ∙ ap₂ (λ a t. splice (cells_bytes d.cells) a t) (row_offset columns m.destination)
        (sym (cells_bytes-take (m.count * columns) (drop (m.source * columns) d.cells))
          ∙ ap₂ take (row_offset columns m.count) (
              sym (cells_bytes-drop (m.source * columns) d.cells)
              ∙ ap (λ a. drop a (cells_bytes d.cells)) (row_offset columns m.source)))
