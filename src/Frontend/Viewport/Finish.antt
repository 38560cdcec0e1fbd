-- ===== src/Frontend/Viewport/Finish.antt =====
-- `Viewport::finish`: the operations of a frame are applied and the frame is shown.
use worminal.Prelude.{
  ℕ, zero, suc, ◌+◌, ◌*◌, ◌-◌, ◌/◌, ◌%◌, min, Bool, true, false, ◌&&◌, ◌||◌, not, Option, none,
  some, List, [], ◌∷◌, ◌==◌, if◌then◌else◌, length, take, drop, replicate, splice, set, get_or,
}
use worminal.Prelude.Result.{Result, Exec, ok, err, invalid_data, ◌>>◌, pure}
use worminal.Engine.Cells.{Cell, Frame, attr_wrap, attr_wide}
use worminal.Frontend.Viewport.State.{
  blank, Damage, Operation, span, copy, Pending, Viewport, is_empty, row_of,
}

-- `attributes &= !ATTR_WRAP`
unfoldable pub clear_wrap : Cell → Cell
clear_wrap cell = record cell {
  attributes = cell.attributes - cell.attributes / attr_wrap % 2 * attr_wrap;
}

-- `attributes & ATTR_WIDE != 0`
unfoldable pub is_wide : Cell → Bool
is_wide cell = not (cell.attributes / attr_wide % 2 == 0)

-- A row of the new width, with as much of the old row as there is room for.
unfoldable pub resized_row : ℕ → ℕ → List Cell → List Cell
resized_row columns old_columns source =
    let count = min columns (length source) in
    let copied = splice (replicate columns blank) 0 (take count source) in
    let unwrapped =
      if old_columns == columns
      then copied
      else set copied (count - 1) (clear_wrap (get_or copied (count - 1) blank)) in
    if is_wide (get_or unwrapped (columns - 1) blank)
    then set unwrapped (columns - 1) blank
    else unwrapped

unfoldable pub eq_cell : Cell → Cell → Bool
eq_cell a b =
    a.rune == b.rune
    && (a.attributes == b.attributes
        && (a.foreground == b.foreground && a.background == b.background))

unfoldable pub eq_cells : List Cell → List Cell → Bool
eq_cells [] [] = true
eq_cells (a ∷ as') (b ∷ bs) = eq_cell a b && eq_cells as' bs
eq_cells _ _ = false

-- The cells, and for each row whether it changed.
pub record Drawing : Type 0 where
  pub cells : List Cell
  pub damage : List Bool

unfoldable pub apply_operation : ℕ → Operation → Drawing → Drawing
apply_operation columns (span index column cells) d =
    let first = index * columns + column in
    if eq_cells (take (length cells) (drop first d.cells)) cells
    then d
    else record d { cells = splice d.cells first cells; damage = set d.damage index true }
apply_operation columns (copy source destination count) d = record {
  cells =
      splice d.cells (destination * columns)
        (take (count * columns) (drop (source * columns) d.cells));
  damage = splice d.damage destination (replicate count true);
}

unfoldable pub apply_operations : ℕ → List Operation → Drawing → Drawing
apply_operations columns [] d = d
apply_operations columns (operation ∷ operations) d =
    apply_operations columns operations (apply_operation columns operation d)

-- The rows that changed, from the number of the first.
unfoldable pub damaged_rows : ℕ → List Bool → List ℕ
damaged_rows index [] = []
damaged_rows index (dirty ∷ damage) =
    let rest = damaged_rows (suc index) damage in if dirty then index ∷ rest else rest

unfoldable pub cursor_damage : Frame → Frame → List Bool
cursor_damage old frame =
    let clean = replicate frame.rows false in
    if old.cursor_x == frame.cursor_x && old.cursor_y == frame.cursor_y
    then clean
    else set (set clean old.cursor_y true) frame.cursor_y true

-- The arguments of `select`; a position that has a sign is given by its 32 bits.
pub record Aim : Type 0 where
  pub column : ℕ
  pub row : ℕ
  pub start : Bool
  pub snap : ℕ
  pub rectangular : Bool
  pub done : Bool

-- The C selection: `new`, `configure`, `ranges` into an array, `select`, `clear` and `text`.
pub record Selecting (S : Type 0) : Type 0 where
  pub create : Frame → Result S
  pub select : List Cell → Aim → S → Result (Unit {0}) × S
  pub clear : S → Result (Unit {0}) × S
  pub text : List Cell → S → Result (List ℕ) × S
  pub configure : Frame → S → Result (Unit {0}) × S
  pub ranges : S → List (ℕ × ℕ) → Result (Unit {0}) × S × List (ℕ × ℕ)

unfoldable pub same_size : Frame → Frame → Bool
same_size old frame = old.columns == frame.columns && old.rows == frame.rows

-- The loop over the rows that both sizes have.
unfoldable pub resize_rows : Frame → List Cell → Frame → ℕ → ℕ → List Cell → List Cell
resize_rows old cells frame zero index resized = resized
resize_rows old cells frame (suc rounds) index resized =
    resize_rows old cells frame rounds (suc index) (elim (row_of old cells index) [
      | none ↦ resized
      | some source ↦
          splice resized (index * frame.columns) (resized_row frame.columns old.columns source)
    ])

unfoldable pub resized : Frame → List Cell → Frame → List Cell
resized old cells frame =
    if is_empty cells || not (same_size old frame)
    then (resize_rows old cells frame (min frame.rows old.rows) 0
        (replicate (frame.columns * frame.rows) blank))
    else cells

-- What the operations make of the screen.
unfoldable pub drawn : Frame → List Cell → Pending → Drawing
drawn old cells p =
    apply_operations p.frame.columns p.operations
      (record { cells = resized old cells p.frame; damage = cursor_damage old p.frame })

module _ {S : Type 0} where
  unfoldable pub is_full : Viewport S → Frame → Bool
  is_full v frame =
      is_empty v.cells
      || (not (same_size v.frame frame)
          || (not (v.frame.scroll == frame.scroll)
              || (not (v.frame.alternate == frame.alternate) || not v.live)))

  module _ (selecting : Selecting S) where
    open selecting use {configure, ranges}

    unfoldable pub configured : Frame → Option S → Result (Unit {0}) × Option S
    configured frame none = (ok tt, none)
    configured frame (some selection) =
        let (r, selection') = configure frame selection in (r, some selection')

    unfoldable pub ranged : Option S → List (ℕ × ℕ) → Result (Unit {0}) × Option S × List (ℕ × ℕ)
    ranged none selected = (ok tt, none, selected)
    ranged (some selection) selected =
        let (r, selection', selected') = ranges selection selected in
        (r, some selection', selected')

    unfoldable pub configure_selection : Frame → Exec (Viewport S) Unit
    configure_selection frame v =
        let (r, selection) = configured frame v.selection in (r, record v { selection = selection })

    unfoldable pub publish : Pending → Viewport S → Viewport S
    publish p v = record v { frame = p.frame; cells = (drawn v.frame v.cells p).cells; live = true }

    unfoldable pub read_ranges : Exec (Viewport S) Unit
    read_ranges v =
        let (r, selection, selected) = ranged v.selection v.selected in
        (r, record v { selection = selection; selected = selected })

    unfoldable pub damage_of : Viewport S → Pending → Damage
    damage_of v p = record {
      full = is_full v p.frame;
      rows = damaged_rows 0 (drawn v.frame v.cells p).damage;
    }

    unfoldable pub finish_pending : Pending → Exec (Viewport S) Damage
    finish_pending p = do
      configure_selection p.frame
      λ v. (do (λ w. (ok tt, publish p w)); read_ranges; pure (damage_of v p)) v

    unfoldable pub finish_taken : Option Pending → Exec (Viewport S) Damage
    finish_taken none v = (err invalid_data, v)
    finish_taken (some p) v = finish_pending p v

    -- `self.pending.take()`
    unfoldable pub finish : Exec (Viewport S) Damage
    unfolding finish_taken finish_pending
    finish v = finish_taken v.pending (record v { pending = none })
