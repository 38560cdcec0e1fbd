-- ===== src/Daemon/Frames/Encode.antt =====
-- The packets of a frame, and `Screen::prepare`.
use worminal.Prelude.{
  ℕ, ◌+◌, ◌*◌, ◌-◌, ◌/◌, ◌%◌, Bool, true, false, ◌&&◌, ◌||◌, not, Option, none, some, List, [], ◌∷◌,
  ◌++◌, leb, ◌==◌, if◌then◌else◌, length, take, drop,
}
use worminal.Prelude.Result.{Result, Exec, ok, ◌>>◌, pure, try}
use worminal.Prelude.Bytes.{to_be_bytes}
use worminal.Protocol.Wire.{
  wire_cell_bytes, wire_frame, wire_row, wire_frame_finish, wire_copy_rows, wire_row_span,
  wire_feature_copy_rows, wire_feature_row_span, header_bytes,
}
use worminal.Protocol.Buffer
use worminal.Protocol.Buffer.{Buffer}
use worminal.Protocol.Packet.{finished}
use worminal.Engine.Cells.{Frame}
use worminal.Daemon.Frames.Move.{Move, find_move}
use worminal.Daemon.Frames.Prepare.{
  same_frame, Screen, Engine, Span, Update, Prepared, held, unchanged, changed, read_dirty,
  count_dirty, read_rows, Request, updates_from,
}

unfoldable pub frame_body : Frame → List ℕ
frame_body frame =
    to_be_bytes frame.columns
    ++ (to_be_bytes frame.rows
        ++ (to_be_bytes frame.cursor_x
            ++ (to_be_bytes frame.cursor_y
                ++ (to_be_bytes frame.scroll ++ to_be_bytes frame.alternate))))

unfoldable pub move_body : Move → List ℕ
move_body m = to_be_bytes m.source ++ (to_be_bytes m.destination ++ to_be_bytes m.count)

abbrev pub span_length : ℕ → Option Span → ℕ
span_length size none = size
span_length size (some s) = 4 + (s.end - s.start)

unfoldable pub update_bytes : List Update → ℕ
update_bytes [] = 0
update_bytes (u ∷ updates) =
    header_bytes + 4 + span_length (length u.bytes) u.span + update_bytes updates

abbrev pub move_bytes : Option Move → ℕ
move_bytes none = 0
move_bytes (some m) = header_bytes + length (move_body m)

unfoldable pub put_move : ℕ → Option Move → Exec Buffer Unit
put_move tab none = pure tt
put_move tab (some m) = Buffer.append_packet_bytes wire_copy_rows tab (move_body m)

unfoldable pub put_span : ℕ → ℕ → List ℕ → Option Span → Exec Buffer Unit
put_span tab row bytes none = Buffer.append_packet_parts wire_row tab (to_be_bytes row ∷ bytes ∷ [])
put_span tab row bytes (some s) = Buffer.append_packet_parts wire_row_span tab (
    to_be_bytes row
    ∷ to_be_bytes (s.start / wire_cell_bytes)
    ∷ take (s.end - s.start) (drop s.start bytes)
    ∷ [])

unfoldable pub put_updates : ℕ → List Update → Exec Buffer Unit
put_updates tab [] = pure tt
put_updates tab (u ∷ updates) = do put_span tab u.row u.bytes u.span; put_updates tab updates

unfoldable pub put_frame : ℕ → Frame → Option Move → List Update → Exec Buffer Unit
put_frame tab frame movement updates = do
  Buffer.reserve
      (2 * header_bytes + length (frame_body frame) + update_bytes updates + move_bytes movement)
  Buffer.append_packet_bytes wire_frame tab (frame_body frame)
  put_move tab movement
  put_updates tab updates
  Buffer.append_packet_bytes wire_frame_finish tab []

unfoldable pub is_none : Option Move → Bool
is_none none = true
is_none (some m) = false

unfoldable pub no_updates : List Update → Bool
no_updates [] = true
no_updates (u ∷ updates) = false

-- What becomes of the rows: nothing to send, or the packets.
unfoldable pub plan :
    Engine → ℕ → Frame → Frame → Bool → Bool → Option Move → List Update → Result Prepared
plan engine tab frame old full reply movement updates =
    if not full && (is_none movement && (no_updates updates && (same_frame frame old && not reply)))
    then (try engine.clean λ _. ok unchanged)
    else (try (finished (put_frame tab frame movement updates Buffer.default)) λ bytes. ok (
        changed (record {
          frame = frame;
          full = full;
          movement = movement;
          updates = updates;
          bytes = bytes;
        })))

-- A bit of the features.
abbrev pub has : ℕ → ℕ → Bool
has features bit = not (features / bit % 2 == 0)

unfoldable pub movement_of : Bool → List ℕ → List (Option (List ℕ)) → ℕ → Option Move
movement_of searching baseline current width =
    if searching then find_move baseline current width else none

-- The rows of a frame that is shown now.
unfoldable pub prepare_frame : Engine → Screen → ℕ → Bool → ℕ → Bool → Frame → Result Prepared
unfolding movement_of
prepare_frame engine screen tab asked features reply frame =
    let width = frame.columns * wire_cell_bytes in
    let rows = frame.rows in
    let full =
      asked
      || (not (screen.frame.columns == frame.columns)
          || not (length screen.bytes == width * rows)) in
    try (read_dirty engine rows 0) λ dirty.
      let searching =
        not full
        && (has features wire_feature_copy_rows
            && (leb 3 (count_dirty dirty) && leb rows (count_dirty dirty * 2))) in
      try (read_rows engine width (full || searching) 0 dirty) λ current.
        let movement = movement_of searching screen.bytes current width in
        let q : Request = record {
          width = width;
          full = full;
          spans = has features wire_feature_row_span;
          movement = movement;
          baseline = screen.bytes;
        } in
        plan engine tab frame screen.frame full reply movement (updates_from q 0 dirty current)

unfoldable pub prepare : Engine → Screen → ℕ → Bool → ℕ → Bool → Result Prepared
prepare engine screen tab asked features reply = try engine.frame λ frame.
    if not (frame.redraw_deadline == 0)
    then ok held
    else prepare_frame engine screen tab asked features reply frame
