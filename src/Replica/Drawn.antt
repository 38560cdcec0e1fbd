-- ===== src/Replica/Drawn.antt =====
-- The cells that the operations of a plan draw are the engine's.
use worminal.Prelude.{
  ℕ, zero, suc, ◌*◌, ◌≤◌, ◌≡◌, refl, sym, ap, ap₂, ◌∙◌, subst, Bool, false, Option, List, [], ◌∷◌,
  ◌++◌, arith, length, take, drop, All, take-append-drop, drop-drop, length-drop,
}
use worminal.Prelude.Grid.{row_at}
use worminal.Engine.Cells.{Cell}
use worminal.Daemon.Frames.Prepare.{Request, updates_from}
use worminal.Daemon.Frames.Commit.{copy_within, copy_updates}
use worminal.Daemon.Frames.Baseline.{copy_within-length}
use worminal.Daemon.Frames.Reading.{cells_bytes, cells_bytes-length}
use worminal.Daemon.Frames.Faithful.{
  AreRows, IsAsked, based-AreRows, moved_rows, fitting, weaken-AreFetched,
}
use worminal.Daemon.Frames.Updates.{AreFetched, HasMoved}
use worminal.Daemon.Frames.Search.{FitsIn, IfAny}
use worminal.Frontend.Viewport.State.{Operation}
use worminal.Frontend.Viewport.Finish.{Drawing, apply_operations}
use worminal.Replica.Cells.{IsWire}
use worminal.Replica.Operations.{moved, moved-copies}
use worminal.Replica.Sent.{IsSent, updates_from-AreSent}
use worminal.Replica.Updates.{operations_of, updates_from-Agrees}

pub apply_operations-append :
    (columns : ℕ) (os ps : List Operation) (d : Drawing)
    → apply_operations columns (os ++ ps) d
      ≡ apply_operations columns ps (apply_operations columns os d)
unfolding apply_operations
apply_operations-append columns [] ps d = refl
apply_operations-append columns (o ∷ os) ps d = apply_operations-append columns os ps _

-- Bytes with the same rows are the same.
pub AreRows-unique :
    (width rows : ℕ) (screen : ℕ → List ℕ) (xs ys : List ℕ)
    → AreRows width rows screen xs
    → AreRows width rows screen ys
    → xs ≡ ys
AreRows-unique width zero screen xs ys h k =
    empty xs (omega (arith, h.size)) ∙ sym (empty ys (omega (arith, k.size)))
  where
    empty : (zs : List ℕ) → length zs ≡ 0 → zs ≡ []
    empty [] e = refl
    empty (z ∷ zs) e = absurd (omega arith)
AreRows-unique width (suc rows) screen xs ys h k =
    sym (take-append-drop width xs)
    ∙ ap₂ (λ s t. s ++ t) (first xs h ∙ sym (first ys k))
        (AreRows-unique width rows (λ r. screen (suc r)) (drop width xs) (drop width ys) (rest xs h)
          (rest ys k))
    ∙ take-append-drop width ys
  where
    first : (zs : List ℕ) → AreRows width (suc rows) screen zs → take width zs ≡ screen 0
    first zs a =
        ap (λ n. take width (drop n zs)) {x = 0} {y = 0 * width} (omega arith)
        ∙ a.each 0 (omega arith)

    rest :
        (zs : List ℕ)
        → AreRows width (suc rows) screen zs
        → AreRows width rows (λ r. screen (suc r)) (drop width zs)
    rest zs a = record {
      size = omega (arith, a.size, length-drop width zs);
      each = λ row l.
          ap (take width) (drop-drop width (row * width) (suc row * width) zs (omega arith))
          ∙ a.each (suc row) (omega arith);
    }

module _ {q : Request} {rows : ℕ} (grid : ℕ → List Cell) {every : Bool} {flags : List Bool}
    {current : List (Option (List ℕ))} (columns : ℕ)
    (a : IsAsked q rows (λ r. cells_bytes (grid r)) every flags current)
    (width : q.width ≡ columns * 16) (wire : (row : ℕ) → All IsWire (grid row)) where
  -- A drawing of the size, and with the baseline's cells unless all rows are sent.
  pub record IsBase (d : Drawing) : Type 0 where
    pub size : length d.cells ≡ columns * rows
    pub partial : q.full ≡ false → cells_bytes d.cells ≡ q.baseline

  abbrev pub moved_drawing : Drawing → Drawing
  moved_drawing d = apply_operations columns (moved q.movement) d

  base_size : (d : Drawing) → IsBase d → length (cells_bytes d.cells) ≡ q.width * rows
  base_size d h = omega (arith, h.size, cells_bytes-length d.cells, ap (λ w. w * rows) width)

  moved_drawing-copies :
      (d : Drawing)
      → cells_bytes (moved_drawing d).cells ≡ copy_within q.width q.movement (cells_bytes d.cells)
  moved_drawing-copies d =
      moved-copies columns q.movement d
      ∙ ap (λ w. copy_within w q.movement (cells_bytes d.cells)) (sym width)

  moved_drawing-length : (d : Drawing) → IsBase d → length (moved_drawing d).cells ≡ columns * rows
  moved_drawing-length d h =
      let base = cells_bytes d.cells in
      omega (
        arith,
        cells_bytes-length (moved_drawing d).cells,
        ap length (moved_drawing-copies d),
        copy_within-length q.width rows q.movement base
            (fitting a base (base_size d h) h.partial q.movement a.moved) (base_size d h),
        ap (λ w. w * rows) width,
      )

  moved_drawing-HasMoved :
      (d : Drawing) → IsBase d → (row : ℕ) → HasMoved q (cells_bytes (moved_drawing d).cells) row
  moved_drawing-HasMoved d h row full =
      ap (λ bs. row_at q.width bs row) (moved_drawing-copies d)
      ∙ moved_rows a (cells_bytes d.cells) (base_size d h) h.partial row full

  fetched_rows : AreFetched q.width (λ r. cells_bytes (grid r)) q.full 0 flags current
  fetched_rows =
      weaken-AreFetched q.width (λ r. cells_bytes (grid r)) q.full every 0 flags current
        a.full_every a.fetched

  pub fits_moved : (d : Drawing) → IsBase d → IfAny (FitsIn rows) q.movement
  fits_moved d h = fitting a (cells_bytes d.cells) (base_size d h) h.partial q.movement a.moved

  -- The updates are rows of the grid, at most one for each row of the frame.
  pub updates-AreSent :
      (d : Drawing)
      → IsBase d
      → let us = updates_from q 0 flags current in
        All (IsSent grid q columns rows width (moved_drawing d)) us × (length us ≤ rows)
  updates-AreSent d h =
      let sent =
        updates_from-AreSent grid q columns rows width 0 flags current (moved_drawing d)
          (moved_drawing-length d h) (omega (arith, a.flagged)) wire fetched_rows
          (moved_drawing-HasMoved d h) in
      (sent.0, omega (arith, sent.1, a.flagged))

  -- The move and the updates, drawn on such a drawing, give the grid.
  pub operations-AreRows :
      (d : Drawing)
      → IsBase d
      → AreRows q.width rows
          (λ r. cells_bytes (grid r))
          (cells_bytes
            (apply_operations columns
              (moved q.movement ++ operations_of grid (updates_from q 0 flags current))
              d).cells)
  operations-AreRows d h =
      let updates = updates_from q 0 flags current in
      let drawn =
        updates_from-Agrees grid q columns rows width 0 flags current (moved_drawing d)
          (moved_drawing-length d h) (omega (arith, a.flagged)) wire fetched_rows
          (λ j low. moved_drawing-HasMoved d h j) in
      subst (AreRows q.width rows (λ r. cells_bytes (grid r)))
        (sym (
          ap (λ (x : Drawing). cells_bytes x.cells)
            (apply_operations-append columns (moved q.movement) (operations_of grid updates) d)
          ∙ drawn
          ∙ ap (copy_updates q.width updates) (moved_drawing-copies d)))
        (based-AreRows a (cells_bytes d.cells) (base_size d h) h.partial)
