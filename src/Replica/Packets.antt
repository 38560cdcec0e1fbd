-- ===== src/Replica/Packets.antt =====
-- The packets of a plan, and what the viewport does with them one by one.
use worminal.Prelude.{
  ℕ, ◌+◌, ◌-◌, ◌/◌, ◌≤◌, ◌≡◌, ap, false, ◌||◌, Option, none, some, List, [], ◌∷◌, ◌++◌, concat, map,
  ltb, leb, arith, take, drop, append-nil,
}
use worminal.Prelude.Result.{Result, Exec, ok, err, and_then, ◌>>◌, pure}
use worminal.Prelude.Bytes.{usize_mod, to_be_bytes}
use worminal.Protocol.Wire.{
  wire_cell_bytes, wire_frame, wire_row, wire_frame_finish, wire_copy_rows, wire_row_span,
  max_payload,
}
use worminal.Protocol.Packet.{Packet}
use worminal.Engine.Cells.{Frame}
use worminal.Daemon.Frames.Move.{Move}
use worminal.Daemon.Frames.Prepare.{Span, Update}
use worminal.Daemon.Frames.Encode.{frame_body, move_body}
use worminal.Frontend.Viewport.State.{Damage, Operation, Pending, Sizes, push, Viewport}
use worminal.Frontend.Viewport.Finish.{Selecting}
use worminal.Frontend.Viewport.Apply.{
  begin_frame, begin_unless, pushed, add_operation, add_to, apply_frame, apply_operation_packet,
  operation_bytes, apply, settled, packet,
}
use worminal.Frontend.Viewport.Bounds.{cost, operation_bytes-footprint}
use worminal.Replica.Parsed.{IsDrawable, told, read_frame-frame_body}

abbrev pub frame_packet : ℕ → Frame → Packet
frame_packet tab frame = record {
  kind = wire_frame;
  tab = tab;
  body = concat (frame_body frame ∷ []);
}

abbrev pub move_packets : ℕ → Option Move → List Packet
move_packets tab none = []
move_packets tab (some m) =
    record { kind = wire_copy_rows; tab = tab; body = concat (move_body m ∷ []) } ∷ []

abbrev pub update_packet : ℕ → ℕ → List ℕ → Option Span → Packet
update_packet tab row bytes none = record {
  kind = wire_row;
  tab = tab;
  body = concat (to_be_bytes row ∷ bytes ∷ []);
}
update_packet tab row bytes (some s) = record {
  kind = wire_row_span;
  tab = tab;
  body = concat (
      to_be_bytes row
      ∷ to_be_bytes (s.start / wire_cell_bytes)
      ∷ take (s.end - s.start) (drop s.start bytes)
      ∷ []);
}

abbrev pub update_packets : ℕ → List Update → List Packet
update_packets tab = map (λ u. update_packet tab u.row u.bytes u.span)

abbrev pub finish_packet : ℕ → Packet
finish_packet tab = record { kind = wire_frame_finish; tab = tab; body = concat ([] ∷ []) }

abbrev pub with_operations : Sizes → Pending → List Operation → Pending
with_operations sizes p os = record p {
  operations = p.operations ++ os;
  bytes = p.bytes + cost sizes p.frame os;
}

module _ {S : Type 0} (selecting : Selecting S) (sizes : Sizes) where
  -- Packets one after another, up to the first that is refused.
  unfoldable pub apply_all : List Packet → Exec (Viewport S) Unit
  apply_all [] = pure tt
  apply_all (p ∷ ps) = do packet selecting sizes p; apply_all ps

  pub apply_all-append :
      (ps qs : List Packet) (v w : Viewport S)
      → apply_all ps v ≡ (ok tt, w)
      → apply_all (ps ++ qs) v ≡ apply_all qs w
  unfolding apply_all
  apply_all-append [] qs v w e =
      ap (apply_all qs) (ap (λ (r : Result (Unit {0}) × Viewport S). r.1) e)
  apply_all-append (p ∷ ps) qs v w e =
      next (packet selecting sizes p v) (λ x h. apply_all-append ps qs x w h) e
    where
      next :
          (r : Result (Option Damage) × Viewport S)
          → ((x : Viewport S)
              → apply_all ps x ≡ (ok tt, w)
              → apply_all (ps ++ qs) x ≡ apply_all qs w)
          → and_then r.0 (λ _. apply_all ps) r.1 ≡ (ok tt, w)
          → and_then r.0 (λ _. apply_all (ps ++ qs)) r.1 ≡ apply_all qs w
      next (ok d, x) rest h = rest x h
      next (err x, y) rest h = cc

  -- A frame begins.
  pub frame_packet-ok :
      (tab : ℕ) (frame : Frame) (v : Viewport S)
      → v.pending ≡ none
      → IsDrawable frame
      → packet selecting sizes (frame_packet tab frame) v ≡ (
        ok none,
        record v { pending = some (record { frame = told frame; operations = []; bytes = 0 }) },
      )
  unfolding packet settled apply apply_frame begin_frame begin_unless
  frame_packet-ok tab frame v e h =
      rw (append-nil (frame_body frame), read_frame-frame_body frame h, e, begin_unless)

  push-ok :
      (o : Operation) (p : Pending)
      → p.bytes + cost sizes p.frame (o ∷ []) ≤ max_payload
      → push sizes o (operation_bytes sizes p.frame o) p ≡ (ok tt, with_operations sizes p (o ∷ []))
  unfolding push
  push-ok o p h =
      let bytes = p.bytes + (sizes.operation + operation_bytes sizes p.frame o) in
      let small : bytes ≤ max_payload =
        omega (arith, h, operation_bytes-footprint sizes p.frame o) in
      let fine : leb usize_mod bytes || ltb max_payload bytes ≡ false = ground arith in
      let same : bytes ≡ p.bytes + cost sizes p.frame (o ∷ []) =
        omega (arith, operation_bytes-footprint sizes p.frame o) in
      rw fine (ap (λ n. (ok tt, record p { operations = p.operations ++ o ∷ []; bytes = n })) same)

  -- A packet of an operation that is read and that there is room for.
  pub added :
      (read : Frame → Result Operation) (o : Operation) (p : Pending) (v : Viewport S)
      → v.pending ≡ some p
      → read p.frame ≡ ok o
      → p.bytes + cost sizes p.frame (o ∷ []) ≤ max_payload
      → settled (apply_operation_packet sizes read v)
        ≡ (ok none, record v { pending = some (with_operations sizes p (o ∷ [])) })
  unfolding settled apply_operation_packet
  added read o p v e r h = rw (e, add_to, r, add_operation, push-ok o p h, pushed)
