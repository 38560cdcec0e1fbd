-- ===== src/Replica/Mirror.antt =====
-- The packets of a plan bring the engine's screen to the viewport.
use worminal.Prelude.{
  inl, inr, ◌||◌, not, ℕ, ◌*◌, ◌/◌, ◌≤◌, ◌<◌, ◌≡◌, refl, sym, ap, ◌∙◌, true, false, Option, none,
  some, List, [], ◌∷◌, ◌++◌, arith, length,
}
use worminal.Prelude.Grid.{row_within}
use worminal.Prelude.Result.{ok}
use native.Mathlib.Nat.{mul-div_cancel_left}
use worminal.Protocol.Wire.{max_payload}
use worminal.Protocol.Packet.{Packet}
use worminal.Engine.Cells.{Cell, Frame}
use worminal.Daemon.Frames.Move.{Move}
use worminal.Daemon.Frames.Prepare.{same_frame, Screen, Update}
use worminal.Daemon.Frames.Reading.{cells_bytes, cells_bytes-length}
use worminal.Daemon.Frames.Planned.{row_bytes}
use worminal.Frontend.Viewport.State.{Operation, Pending, Sizes, Viewport, is_empty}
use worminal.Frontend.Viewport.Finish.{Selecting, Drawing, cursor_damage, same_size, resized}
use worminal.Frontend.Viewport.Apply.{packet}
use worminal.Frontend.Viewport.Transaction.{IsShown}
use worminal.Frontend.Viewport.Sized.{IsSized, resized-length}
use worminal.Frontend.Viewport.Safe.{IsWell}
use worminal.Replica.Parsed.{IsDrawable, told}
use worminal.Frontend.Viewport.Bounds.{cost}
use worminal.Replica.Packets.{
  frame_packet, move_packets, update_packets, finish_packet, apply_all, apply_all-append,
  frame_packet-ok, with_operations,
}
use worminal.Replica.Sending.{Adds}
use worminal.Replica.Shown.{Follows, finish_packet-Shows}

-- The packets of a plan, in the order in which they are sent.
abbrev pub frame_packets : ℕ → Frame → Option Move → List Update → List Packet
frame_packets tab frame movement updates =
    frame_packet tab frame ∷ (move_packets tab movement ++ update_packets tab updates)
    ++ finish_packet tab ∷ []

-- What is drawn on when a frame begins.
abbrev pub canvas : {S : Type 0} → Frame → Viewport S → Drawing
canvas frame v = record {
  cells = resized v.frame v.cells (told frame);
  damage = cursor_damage v.frame (told frame);
}

abbrev pub begun : Frame → Pending
begun frame = record { frame = told frame; operations = []; bytes = 0 }

module _ {S : Type 0} (selecting : Selecting S) (sizes : Sizes) (tab : ℕ) where
  -- All packets are taken, and the frame is shown with its operations drawn.
  pub taken :
      (frame : Frame) (movement : Option Move) (updates : List Update) (os : List Operation)
      (v : Viewport S)
      → v.pending ≡ none
      → IsDrawable frame
      → Follows selecting (told frame) v.selection
      → cost sizes (told frame) os ≤ max_payload
      → Adds selecting sizes tab
          (move_packets tab movement ++ update_packets tab updates)
          os
          (begun frame)
          (record v { pending = some (begun frame) })
      → (v' : Viewport S) × (apply_all selecting sizes (frame_packets tab frame movement updates) v
          ≡ (ok tt, v'))
        × IsShown
            (record v { pending = some (with_operations sizes (begun frame) os) })
            (with_operations sizes (begun frame) os)
            v'
  unfolding apply_all
  taken frame movement updates os v e drawable follows fits adds =
      let p = with_operations sizes (begun frame) os in
      let w = record v { pending = some p } in
      let shown = finish_packet-Shows selecting sizes tab p w refl follows in
      (
        (packet selecting sizes (finish_packet tab) w).1,
        rw
            (
              frame_packet-ok selecting sizes tab frame v e drawable,
              apply_all-append selecting sizes
                  (move_packets tab movement ++ update_packets tab updates) (finish_packet tab ∷ [])
                  (record v { pending = some (begun frame) }) w (adds refl (omega (arith, fits))),
              shown.1,
            )
            refl,
        shown.2,
      )

same_rows : (columns m n : ℕ) → 0 < columns → columns * m ≡ columns * n → m ≡ n
same_rows columns m n h e =
    sym (mul-div_cancel_left m h) ∙ ap (λ k. k / columns) e ∙ mul-div_cancel_left n h

some_cells : (cells : List Cell) → 0 < length cells → is_empty cells ≡ false
unfolding is_empty
some_cells [] h = absurd (omega arith)
some_cells (c ∷ cells) h = refl

-- Cells of the frame's columns, as many as the frame has.
kept_size :
    (old frame : Frame) (cells : List Cell)
    → IsSized old cells
    → old.columns ≡ frame.columns
    → (0 < frame.columns) × (0 < frame.rows)
    → length cells ≡ frame.columns * frame.rows
    → is_empty cells || not (same_size old (told frame)) ≡ false
unfolding same_size
kept_size old frame cells h columns positive size =
    let some =
      some_cells cells (omega (arith, size, row_within frame.columns frame.rows 0 positive.1)) in
    elim h [
      | inl empty ↦ absurd (cc)
      | inr whole ↦
          let rows : old.rows ≡ frame.rows =
            same_rows frame.columns old.rows frame.rows positive.0
              (ap (λ c. c * old.rows) (sym columns) ∙ sym whole ∙ size) in
          ground arith
    ]

module _ {S : Type 0} where
  -- The viewport shows what the daemon's baseline says.
  pub record IsMirror (screen : Screen) (v : Viewport S) : Type 0 where
    pub same_frame_shown : same_frame screen.frame v.frame ≡ true
    pub same_cells : cells_bytes v.cells ≡ screen.bytes

  pub canvas-length :
      {sizes : Sizes} (frame : Frame) (v : Viewport S)
      → IsWell sizes v
      → length (canvas frame v).cells ≡ frame.columns * frame.rows
  canvas-length frame v h = resized-length v.frame (told frame) v.cells h.sized

  -- A screen of the same size is drawn on as it is.
  pub canvas-IsMirror :
      (screen : Screen) {sizes : Sizes} (frame : Frame) (v : Viewport S)
      → IsWell sizes v
      → IsMirror screen v
      → (0 < frame.columns) × (0 < frame.rows)
      → screen.frame.columns ≡ frame.columns
      → length screen.bytes ≡ row_bytes frame * frame.rows
      → cells_bytes (canvas frame v).cells ≡ screen.bytes
  unfolding resized same_frame
  canvas-IsMirror screen frame v h m positive columns size =
      let cells : length v.cells ≡ frame.columns * frame.rows =
        omega (arith, cells_bytes-length v.cells, ap length m.same_cells, size) in
      let columns' : v.frame.columns ≡ frame.columns = ground (arith, m.same_frame_shown) in
      rw (kept_size v.frame frame v.cells h.sized columns' positive cells) m.same_cells
