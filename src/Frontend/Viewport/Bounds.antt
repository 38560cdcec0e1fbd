-- ===== src/Frontend/Viewport/Bounds.antt =====
-- What the packets of a frame may say.
use worminal.Prelude.{
  ℕ, zero, suc, ◌+◌, ◌-◌, ◌/◌, ◌^◌, ◌≤◌, ◌<◌, ◌≡◌, refl, ap, subst, Bool, false, ◌||◌, List, [],
  ◌∷◌, ◌++◌, ◌*◌, ltb, leb, ◌==◌, if◌then◌else◌, arith, if_both, length, All,
}
use worminal.Prelude.Result.{Exec, ok, invalid_data, pure, fail, ◌>>=◌, ◌>>◌, Ensures, Ensures-bind}
use worminal.Protocol.Wire.{workspace_max_cols, workspace_max_rows, wire_cell_bytes, max_payload}
use worminal.Protocol.Payload
use worminal.Protocol.Payload.{Payload}
use worminal.Engine.Cells.{Cell, Frame}
use worminal.Frontend.Viewport.State.{dimensions, Operation, span, copy, Pending, Sizes}
use worminal.Frontend.Viewport.Apply.{
  operation_bytes, lift, read_frame, read_cell, read_cells, misfits, read_span, read_copy,
}
use worminal.Frontend.Viewport.Sized.{IsWithin}

abbrev pub HasSize : ℕ → ℕ → Type 0
HasSize columns rows =
    (0 < columns) × (columns ≤ workspace_max_cols) × (0 < rows) × (rows ≤ workspace_max_rows)

-- A frame that may be shown.
pub record IsFrame (frame : Frame) : Type 0 where
  pub size : HasSize frame.columns frame.rows
  pub cursor_within : (frame.cursor_x < frame.columns) × (frame.cursor_y < frame.rows)

-- What an operation takes in memory, or copies.
abbrev pub footprint : Sizes → Frame → Operation → ℕ
footprint sizes frame (span row column cells) = sizes.operation + length cells * sizes.cell
footprint sizes frame (copy source destination count) =
    sizes.operation + count * frame.columns * sizes.cell

-- All operations together.
abbrev pub cost : Sizes → Frame → List Operation → ℕ
cost sizes frame [] = 0
cost sizes frame (o ∷ os) = footprint sizes frame o + cost sizes frame os

pub cost-append :
    (sizes : Sizes) (frame : Frame) (os ps : List Operation)
    → cost sizes frame (os ++ ps) ≡ cost sizes frame os + cost sizes frame ps
cost-append sizes frame [] ps = omega arith
cost-append sizes frame (o ∷ os) ps = omega (arith, cost-append sizes frame os ps)

pub operation_bytes-footprint :
    (sizes : Sizes) (frame : Frame) (o : Operation)
    → sizes.operation + operation_bytes sizes frame o ≡ footprint sizes frame o
unfolding operation_bytes
operation_bytes-footprint sizes frame (span row column cells) = refl
operation_bytes-footprint sizes frame (copy source destination count) = refl

-- The operations stay within the frame, the counter is what they take, and that is within its bound.
pub record IsPending (sizes : Sizes) (p : Pending) : Type 0 where
  pub is_frame : IsFrame p.frame
  pub within : All (IsWithin p.frame) p.operations
  pub counted : p.bytes ≡ cost sizes p.frame p.operations
  pub bounded : cost sizes p.frame p.operations ≤ max_payload

pub dimensions-HasSize :
    (columns rows : ℕ) {u : Unit} → dimensions columns rows ≡ ok u → HasSize columns rows
unfolding dimensions
dimensions-HasSize columns rows e = ground arith

pub read_frame-IsFrame : (bytes : List ℕ) → Ensures IsFrame (read_frame bytes).0
unfolding read_frame
read_frame-IsFrame bytes = Ensures-bind IsFrame Payload.u32 _ bytes λ columns b1 _.
    Ensures-bind IsFrame Payload.u32 _ b1 λ rows b2 _.
      Ensures-bind IsFrame (lift (dimensions columns rows)) _ b2 λ u b3 e.
        Ensures-bind IsFrame Payload.u32 _ b3 λ cursor_x b4 _.
          Ensures-bind IsFrame Payload.u32 _ b4 λ cursor_y b5 _.
            Ensures-bind IsFrame Payload.u32 _ b5 λ scroll b6 _.
              Ensures-bind IsFrame Payload.u32 _ b6 λ alternate b7 _.
                Ensures-bind IsFrame Payload.finish _ b7 λ u' b8 _.
                  if_both (λ (m : Exec Payload Frame). Ensures IsFrame (m b8).0)
                    (leb columns cursor_x
                      || (leb rows cursor_y || (ltb (2 ^ 31 - 1) scroll || ltb 1 alternate)))
                    (fail invalid_data)
                    (pure (record {
                      columns = columns;
                      rows = rows;
                      cursor_x = cursor_x;
                      cursor_y = cursor_y;
                      scroll = scroll;
                      alternate = alternate;
                      redraw_deadline = 0;
                    }))
                    (λ _. tt)
                    (λ fine. record {
                      size = dimensions-HasSize columns rows (ap (λ r. r.0) e);
                      cursor_within = (ground arith, ground arith);
                    })

read_cells-length :
    (count : ℕ) (bytes : List ℕ)
    → Ensures (λ (cells : List Cell). length cells ≡ count) (read_cells count bytes).0
unfolding read_cells
read_cells-length zero bytes = refl
read_cells-length (suc count) bytes = Ensures-bind _ read_cell _ bytes λ cell b1 _.
    Ensures-bind _ (read_cells count) _ b1 λ cells b2 e. ap suc (
      subst (λ r. Ensures (λ (l : List Cell). length l ≡ count) (r.0)) e
        (read_cells-length count b1))

pub read_copy-IsWithin :
    (frame : Frame) (bytes : List ℕ) → Ensures (IsWithin frame) (read_copy frame bytes).0
unfolding read_copy
read_copy-IsWithin frame bytes = Ensures-bind (IsWithin frame) Payload.u32 _ bytes λ source b1 _.
    Ensures-bind (IsWithin frame) Payload.u32 _ b1 λ destination b2 _.
      Ensures-bind (IsWithin frame) Payload.u32 _ b2 λ count b3 _.
        Ensures-bind (IsWithin frame) Payload.finish _ b3 λ u b4 _.
          if_both (λ (m : Exec Payload Operation). Ensures (IsWithin frame) (m b4).0)
            (count == 0
              || (ltb frame.rows count
                  || (ltb (frame.rows - count) source || ltb (frame.rows - count) destination)))
            (fail invalid_data) (pure (copy source destination count)) (λ _. tt)
            (λ fine. (ground arith, ground arith, ground arith))

misfits-false :
    (is_span : Bool) (columns column size : ℕ)
    → misfits is_span columns column size ≡ false
    → (0 < size / wire_cell_bytes) × (column + size / wire_cell_bytes ≤ columns)
unfolding misfits
misfits-false is_span columns column size h = (ground arith, ground arith)

-- `count` cells of a row.
counted-IsWithin :
    (frame : Frame) (index column count : ℕ) (cells : List Cell)
    → index < frame.rows
    → (0 < count) × (column + count ≤ frame.columns)
    → length cells ≡ count
    → IsWithin frame (span index column cells)
counted-IsWithin frame index column count cells i h e =
    (i, omega (arith, h, e), omega (arith, h, e))

abbrev Reads : Frame → List ℕ → Exec Payload Operation → Type 0
Reads frame bytes m = Ensures (IsWithin frame) (m bytes).0

-- What follows the checks of a row.
abbrev cells_of : ℕ → ℕ → ℕ → Exec Payload Operation
cells_of count index column = do
  cells ← read_cells count
  Payload.finish
  pure (span index column cells)

cells_of-IsWithin :
    (frame : Frame) (index column count : ℕ) (bytes : List ℕ)
    → index < frame.rows
    → (0 < count) × (column + count ≤ frame.columns)
    → Reads frame bytes (cells_of count index column)
cells_of-IsWithin frame index column count bytes i h =
    Ensures-bind (IsWithin frame) (read_cells count) _ bytes λ cells b1 e.
      Ensures-bind (IsWithin frame) Payload.finish _ b1 λ u b2 _.
        counted-IsWithin frame index column count cells i h (
          subst (λ r. Ensures (λ (l : List Cell). length l ≡ count) (r.0)) e
            (read_cells-length count bytes))

pub read_span-IsWithin :
    (is_span : Bool) (frame : Frame) (size : ℕ) (bytes : List ℕ)
    → Ensures (IsWithin frame) (read_span is_span frame size bytes).0
unfolding read_span
read_span-IsWithin is_span frame size bytes =
    Ensures-bind (IsWithin frame) Payload.u32 _ bytes λ index b1 _.
      if_both (Reads frame b1) (leb frame.rows index) _ _ (λ _. tt)
        λ inside.
          Ensures-bind (IsWithin frame) (if is_span then Payload.u32 else pure 0) _ b1
            λ column b2 _.
              let header = if is_span then 8 else 4 in
              if_both (Reads frame b2)
                (ltb size header || misfits is_span frame.columns column (size - header)) _ _
                (λ _. tt)
                λ fits.
                  cells_of-IsWithin frame index column ((size - header) / wire_cell_bytes) b2
                    (ground arith)
                    (misfits-false is_span frame.columns column (size - header) (ground arith))
