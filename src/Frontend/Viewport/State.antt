-- ===== src/Frontend/Viewport/State.antt =====
-- The viewport, and the operations of a frame that is not finished yet.
use worminal.Prelude.{
  ℕ, ◌+◌, ◌*◌, Bool, true, false, ◌&&◌, ◌||◌, not, Option, none, some, List, [], ◌∷◌, ◌++◌, ltb,
  leb, ◌==◌, if◌then◌else◌, length, take, drop, get_elem?,
}
use worminal.Prelude.Result.{Result, Exec, ok, err, invalid_data}
use worminal.Prelude.Bytes.{usize_mod}
use worminal.Protocol.Wire.{workspace_max_cols, workspace_max_rows, max_payload}
use worminal.Engine.Cells.{Cell, Frame, default_foreground, default_background}

unfoldable pub blank : Cell
blank = record {
  rune = b' ';
  attributes = 0;
  foreground = default_foreground;
  background = default_background;
}

unfoldable pub dimensions : ℕ → ℕ → Result (Unit {0})
dimensions columns rows =
    if columns == 0
      || (ltb workspace_max_cols columns || (rows == 0 || ltb workspace_max_rows rows))
    then err invalid_data
    else ok tt

pub record Damage : Type 0 where
  pub full : Bool
  pub rows : List ℕ

unfoldable pub changed : Damage → Bool
changed damage = damage.full || not (length damage.rows == 0)

pub data Operation : Type 0 where
  -- row, column, cells
  span : ℕ → ℕ → List Cell → Operation
  -- source, destination, count
  copy : ℕ → ℕ → ℕ → Operation

pub record Pending : Type 0 where
  pub frame : Frame
  pub operations : List Operation
  pub bytes : ℕ

-- The sizes of `Operation` and of `Cell` in memory.
pub record Sizes : Type 0 where
  pub operation : ℕ
  pub cell : ℕ

unfoldable pub push : Sizes → Operation → ℕ → Exec Pending Unit
push sizes operation payload p =
    let bytes = p.bytes + (sizes.operation + payload) in
    if leb usize_mod bytes || ltb max_payload bytes
    then (err invalid_data, p)
    else (ok tt, record p { operations = p.operations ++ operation ∷ []; bytes = bytes })

-- `S` is the type of C selections; a selected range of a row is its first column and its end.
pub record Viewport (S : Type 0) : Type 0 where
  pub frame : Frame
  pub cells : List Cell
  pub pending : Option Pending
  pub live : Bool
  pub selection : Option S
  pub selected : List (ℕ × ℕ)

unfoldable pub is_empty : List Cell → Bool
is_empty [] = true
is_empty (cell ∷ cells) = false

unfoldable pub within : ℕ → Option (ℕ × ℕ) → Bool
within column none = false
within column (some (first, end)) = leb first column && ltb column end

-- `row`, by the fields that it reads.
unfoldable pub row_of : Frame → List Cell → ℕ → Option (List Cell)
row_of frame cells index =
    if leb frame.rows index || is_empty cells
    then none
    else some (take frame.columns (drop (index * frame.columns) cells))

module _ {S : Type 0} where
  -- The checks of `new` precede.
  unfoldable pub fresh : ℕ → ℕ → Viewport S
  fresh columns rows = record {
    frame = record {
      columns = columns;
      rows = rows;
      cursor_x = 0;
      cursor_y = 0;
      scroll = 0;
      alternate = 0;
      redraw_deadline = 0;
    };
    cells = [];
    pending = none;
    live = false;
    selection = none;
    selected = [];
  }

  unfoldable pub checked : Result (Unit {0}) → Viewport S → Result (Viewport S)
  checked (ok _) v = ok v
  checked (err e) v = err e

  unfoldable pub new : ℕ → ℕ → Result (Viewport S)
  unfolding checked dimensions fresh
  new columns rows = checked (dimensions columns rows) (fresh columns rows)

  unfoldable pub row : Viewport S → ℕ → Option (List Cell)
  unfolding row_of
  row v index = row_of v.frame v.cells index

  unfoldable pub selected_at : Viewport S → ℕ → ℕ → Bool
  unfolding within
  selected_at v column index = within column (get_elem? v.selected index)

  unfoldable pub release : Viewport S → Viewport S
  release v = record v { live = false; pending = none }
