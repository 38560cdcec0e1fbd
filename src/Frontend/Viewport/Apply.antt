-- ===== src/Frontend/Viewport/Apply.antt =====
-- `Viewport::packet`: what each kind of packet does.
use worminal.Prelude.{
  ℕ, zero, suc, ◌*◌, ◌-◌, ◌/◌, ◌%◌, ◌^◌, Bool, ◌&&◌, ◌||◌, not, Option, none, some, List, [], ◌∷◌,
  ltb, leb, ◌==◌, if◌then◌else◌, length,
}
use worminal.Prelude.Result.{Result, Exec, ok, err, invalid_data, ◌>>=◌, ◌>>◌, pure, fail}
use worminal.Protocol.Wire.{
  wire_cell_bytes, wire_frame, wire_row, wire_frame_finish, wire_copy_rows, wire_row_span,
}
use worminal.Protocol.Packet.{Packet}
use worminal.Protocol.Payload
use worminal.Protocol.Payload.{Payload}
use worminal.Engine.Cells.{Cell, Frame}
use worminal.Frontend.Viewport.State.{
  dimensions, Damage, Operation, span, copy, Pending, Sizes, push, Viewport,
}
use worminal.Frontend.Viewport.Finish.{Selecting, finish}

-- A result in the middle of reading.
abbrev pub lift {ℓ} : {S A : Type ℓ} → Result A → Exec S A
lift r s = (r, s)

unfoldable pub read_frame : Exec Payload Frame
read_frame = do
  columns ← Payload.u32
  rows ← Payload.u32
  lift (dimensions columns rows)
  cursor_x ← Payload.u32
  cursor_y ← Payload.u32
  scroll ← Payload.u32
  alternate ← Payload.u32
  Payload.finish
  if leb columns cursor_x || (leb rows cursor_y || (ltb (2 ^ 31 - 1) scroll || ltb 1 alternate))
      then fail invalid_data
      else pure (record {
        columns = columns;
        rows = rows;
        cursor_x = cursor_x;
        cursor_y = cursor_y;
        scroll = scroll;
        alternate = alternate;
        redraw_deadline = 0;
      })

-- `& u32::from(u16::MAX)` keeps the low sixteen bits.
unfoldable pub read_cell : Exec Payload Cell
read_cell = do
  rune ← Payload.u32
  attributes ← Payload.u32
  foreground ← Payload.u32
  background ← Payload.u32
  pure (record {
    rune = rune;
    attributes = attributes % 2 ^ 16;
    foreground = foreground;
    background = background;
  })

unfoldable pub read_cells : ℕ → Exec Payload (List Cell)
read_cells zero = pure []
read_cells (suc count) = do cell ← read_cell; cells ← read_cells count; pure (cell ∷ cells)

-- Whether so many bytes are no whole cells, or the cells do not fit in the row.
unfoldable pub misfits : Bool → ℕ → ℕ → ℕ → Bool
misfits is_span columns column size =
    let count = size / wire_cell_bytes in
    count == 0
    || (ltb columns count
        || (ltb (columns - count) column
            || (not (size % wire_cell_bytes == 0) || (not is_span && not (count == columns)))))

-- `length` is that of the whole body. A body shorter than its header is refused.
unfoldable pub read_span : Bool → Frame → ℕ → Exec Payload Operation
read_span is_span frame size = do
  index ← Payload.u32
  if leb frame.rows index then fail invalid_data else do
    column ← if is_span then Payload.u32 else pure 0
    let header = if is_span then 8 else 4
    if ltb size header || misfits is_span frame.columns column (size - header)
        then fail invalid_data
        else do
          cells ← read_cells ((size - header) / wire_cell_bytes)
          Payload.finish
          pure (span index column cells)

unfoldable pub read_copy : Frame → Exec Payload Operation
read_copy frame = do
  source ← Payload.u32
  destination ← Payload.u32
  count ← Payload.u32
  Payload.finish
  if count == 0
        || (ltb frame.rows count
            || (ltb (frame.rows - count) source || ltb (frame.rows - count) destination))
      then fail invalid_data
      else pure (copy source destination count)

-- What an operation stands for in memory, and in work.
unfoldable pub operation_bytes : Sizes → Frame → Operation → ℕ
operation_bytes sizes frame (span index column cells) = length cells * sizes.cell
operation_bytes sizes frame (copy source destination count) = count * frame.columns * sizes.cell

module _ {S : Type 0} where
  unfoldable pub begin_frame : Result Frame → Exec (Viewport S) (Option Damage)
  begin_frame (err e) v = (err e, v)
  begin_frame (ok frame) v =
      (ok none, record v { pending = some (record { frame = frame; operations = []; bytes = 0 }) })

  unfoldable pub pushed : Result (Unit {0}) × Pending → Exec (Viewport S) (Option Damage)
  pushed (ok _, p) v = (ok none, record v { pending = some p })
  pushed (err e, p) v = (err e, record v { pending = some p })

  unfoldable pub add_operation :
      Sizes → Pending → Result Operation → Exec (Viewport S) (Option Damage)
  add_operation sizes p (err e) v = (err e, v)
  add_operation sizes p (ok operation) v =
      pushed (push sizes operation (operation_bytes sizes p.frame operation) p) v

  -- One frame at a time.
  unfoldable pub begin_unless : Option Pending → Result Frame → Exec (Viewport S) (Option Damage)
  begin_unless none frame v = begin_frame frame v
  begin_unless (some p) frame v = (err invalid_data, v)

  unfoldable pub apply_frame : List ℕ → Exec (Viewport S) (Option Damage)
  unfolding begin_unless begin_frame
  apply_frame body v = begin_unless v.pending (read_frame body).0 v

  -- `pending.as_mut().ok_or_else(invalid)?`, then the operation that is read.
  unfoldable pub add_to :
      Option Pending → Sizes → (Frame → Result Operation) → Exec (Viewport S) (Option Damage)
  add_to none sizes read v = (err invalid_data, v)
  add_to (some p) sizes read v = add_operation sizes p (read p.frame) v

  unfoldable pub apply_operation_packet :
      Sizes → (Frame → Result Operation) → Exec (Viewport S) (Option Damage)
  unfolding add_to add_operation pushed
  apply_operation_packet sizes read v = add_to v.pending sizes read v

  unfoldable pub finished : Result Damage × Viewport S → Result (Option Damage) × Viewport S
  finished (ok damage, v) = (ok (some damage), v)
  finished (err e, v) = (err e, v)

  unfoldable pub apply_finish : Selecting S → Result (Unit {0}) → Exec (Viewport S) (Option Damage)
  apply_finish selecting (err e) v = (err e, v)
  apply_finish selecting (ok _) v = finished (finish selecting v)

  unfoldable pub apply : Selecting S → Sizes → Packet → Exec (Viewport S) (Option Damage)
  apply selecting sizes packet v =
      let body = packet.body in
      if packet.kind == wire_frame
      then apply_frame body v
      else if packet.kind == wire_row || packet.kind == wire_row_span
      then apply_operation_packet sizes
          (λ frame. (read_span (packet.kind == wire_row_span) frame (length body) body).0) v
      else if packet.kind == wire_copy_rows
      then apply_operation_packet sizes (λ frame. (read_copy frame body).0) v
      else if packet.kind == wire_frame_finish
      then apply_finish selecting (Payload.finish body).0 v
      else (ok none, v)

  -- An error drops the frame that is not finished.
  unfoldable pub settled : Result (Option Damage) × Viewport S → Result (Option Damage) × Viewport S
  settled (ok damage, v) = (ok damage, v)
  settled (err e, v) = (err e, record v { pending = none })

  unfoldable pub packet : Selecting S → Sizes → Packet → Exec (Viewport S) (Option Damage)
  packet selecting sizes p v = settled (apply selecting sizes p v)
