-- ===== src/Frontend/Viewport/Sized.antt =====
-- The cells of a viewport are always as many as its frame says.
use worminal.Prelude.{
  ℕ, zero, suc, ◌+◌, ◌*◌, ◌-◌, ◌≤◌, ◌<◌, ◌≡◌, ap₂, ◌∙◌, ◌⊎◌, inl, inr, true, ◌||◌, not, Option,
  none, some, List, [], ◌∷◌, ◌==◌, if◌then◌else◌, arith, min, if_both, length, take, drop,
  replicate, splice, set, get_or, All, length-splice, length-set, length-take, length-replicate,
}
use worminal.Prelude.Grid.{rows_within, row_within, part_within}
use worminal.Engine.Cells.{Cell, Frame}
use worminal.Frontend.Viewport.State.{blank, Operation, span, copy, Pending, is_empty, row_of}
use worminal.Frontend.Viewport.Finish.{
  clear_wrap, is_wide, resized_row, eq_cells, Drawing, apply_operation, apply_operations, same_size,
  resize_rows, resized, drawn,
}

abbrev pub area : Frame → ℕ
area frame = frame.columns * frame.rows

-- An operation stays within the rows and the columns of its frame.
abbrev pub IsWithin : Frame → Operation → Type 0
IsWithin frame (span index column cells) =
    (index < frame.rows) × (0 < length cells) × (column + length cells ≤ frame.columns)
IsWithin frame (copy source destination count) =
    (0 < count) × (source + count ≤ frame.rows) × (destination + count ≤ frame.rows)

apply_operation-length :
    (frame : Frame) (operation : Operation) (d : Drawing)
    → IsWithin frame operation
    → length d.cells ≡ area frame
    → length (apply_operation frame.columns operation d).cells ≡ area frame
unfolding apply_operation
apply_operation-length frame (span index column cells) d h e =
    if_both (λ (x : Drawing). length x.cells ≡ area frame) (eq_cells _ cells) _ _ (λ _. e)
      (λ _.
        length-splice d.cells (index * frame.columns + column) cells (
          omega
            (arith, e, part_within frame.columns frame.rows index column (length cells) h.0 h.2))
        ∙ e)
apply_operation-length frame (copy source destination count) d h e =
    length-splice d.cells (destination * frame.columns) _ (
      omega (
        arith,
        e,
        length-take (count * frame.columns) (drop (source * frame.columns) d.cells),
        rows_within frame.columns frame.rows count destination h.2,
      ))
    ∙ e

pub apply_operations-length :
    (frame : Frame) (operations : List Operation) (d : Drawing)
    → All (IsWithin frame) operations
    → length d.cells ≡ area frame
    → length (apply_operations frame.columns operations d).cells ≡ area frame
unfolding apply_operations
apply_operations-length frame [] d h e = e
apply_operations-length frame (operation ∷ operations) d h e =
    apply_operations-length frame operations (apply_operation frame.columns operation d) h.1
      (apply_operation-length frame operation d h.0 e)

resized_row-length :
    (columns old_columns : ℕ) (source : List Cell)
    → length (resized_row columns old_columns source) ≡ columns
unfolding resized_row
resized_row-length columns old_columns source =
    if_both (λ (cells : List Cell). length cells ≡ columns)
      (is_wide (get_or unwrapped (columns - 1) blank)) _ _
      (λ _. length-set unwrapped (columns - 1) blank ∙ unwrapped_length) (λ _. unwrapped_length)
  where
    count : ℕ
    count = min columns (length source)

    copied : List Cell
    copied = splice (replicate columns blank) 0 (take count source)

    unwrapped : List Cell
    unwrapped =
        if old_columns == columns
        then copied
        else set copied (count - 1) (clear_wrap (get_or copied (count - 1) blank))

    copied_length : length copied ≡ columns
    copied_length =
        length-splice (replicate columns blank) 0 (take count source)
          (omega (arith, length-replicate columns blank, length-take count source))
        ∙ length-replicate columns blank

    unwrapped_length : length unwrapped ≡ columns
    unwrapped_length =
        if_both (λ (cells : List Cell). length cells ≡ columns) (old_columns == columns) _ _
          (λ _. copied_length) (λ _. length-set copied (count - 1) _ ∙ copied_length)

resize_rows-length :
    (old frame : Frame) (cells : List Cell) (rounds index : ℕ) (new : List Cell)
    → index + rounds ≤ frame.rows
    → length new ≡ area frame
    → length (resize_rows old cells frame rounds index new) ≡ area frame
unfolding resize_rows
resize_rows-length old frame cells zero index new h e = e
resize_rows-length old frame cells (suc rounds) index new h e =
    resize_rows-length old frame cells rounds (suc index) _ (omega arith)
      (placed (row_of old cells index))
  where
    placed :
        (o : Option (List Cell))
        → length {A = Cell} (elim o as (λ _. List Cell) [
          | none ↦ new
          | some source ↦
              splice new (index * frame.columns) (resized_row frame.columns old.columns source)
        ])
          ≡ area frame
    placed none = e
    placed (some source) =
        length-splice new (index * frame.columns) (resized_row frame.columns old.columns source) (
          omega (
            arith,
            e,
            resized_row-length frame.columns old.columns source,
            row_within frame.columns frame.rows index (omega arith),
          ))
        ∙ e

abbrev pub IsSized : Frame → List Cell → Type 0
IsSized frame cells = (is_empty cells ≡ true) ⊎ (length cells ≡ area frame)

same_size-area : (old frame : Frame) → same_size old frame ≡ true → area old ≡ area frame
unfolding same_size
same_size-area old frame h = ap₂ (λ a b. a * b) (ground arith) (ground arith)

pub resized-length :
    (old frame : Frame) (cells : List Cell)
    → IsSized old cells
    → length (resized old cells frame) ≡ area frame
unfolding resized
resized-length old frame cells h =
    if_both (λ (x : List Cell). length x ≡ area frame) (is_empty cells || not (same_size old frame))
      _ _
      (λ _.
        resize_rows-length old frame cells (min frame.rows old.rows) 0 _ (omega arith)
          (length-replicate (area frame) blank))
      (λ same. elim h [
        | inl empty ↦ absurd (ground arith)
        | inr sized ↦ sized ∙ same_size-area old frame (ground arith)
      ])

-- A frame's cells are as many as it says, whatever the screen was before.
pub drawn-length :
    (old : Frame) (cells : List Cell) (p : Pending)
    → IsSized old cells
    → All (IsWithin p.frame) p.operations
    → length (drawn old cells p).cells ≡ area p.frame
unfolding drawn
drawn-length old cells p h operations =
    apply_operations-length p.frame p.operations _ operations (resized-length old p.frame cells h)
