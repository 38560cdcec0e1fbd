-- ===== src/Daemon/Frames/Written.antt =====
-- The packets of a frame are written where there is room for them.
use worminal.Prelude.{
  ℕ, ◌+◌, ◌*◌, ◌-◌, ◌/◌, ◌≤◌, ◌≡◌, refl, ap, true, Option, none, some, List, [], ◌∷◌, ◌++◌, concat,
  leb, arith, length, take, drop, append-nil, length-take,
}
use worminal.Prelude.Result.{ok}
use worminal.Prelude.Bytes.{to_be_bytes}
use worminal.Protocol.Wire.{
  wire_frame, wire_frame_finish, wire_copy_rows, wire_row, wire_row_span, wire_cell_bytes,
  header_bytes, max_payload,
}
use worminal.Protocol.Buffer
use worminal.Protocol.Buffer.{Buffer, append_packet_parts, append_packet_bytes}
use worminal.Protocol.Buffer.Laws.{Call, run, encoding, length-packet}
use worminal.Protocol.Packet.{finished}
use worminal.Engine.Cells.{Frame}
use worminal.Daemon.Frames.Move.{Move}
use worminal.Daemon.Frames.Prepare.{Span, Update}
use worminal.Daemon.Frames.Encode.{
  frame_body, move_body, span_length, update_bytes, move_bytes, put_move, put_span, put_updates,
  put_frame,
}
use worminal.Daemon.Frames.Answered.{
  Succeeds, Succeeds-then, Succeeds-within, nothing-Succeeds, reserve-Succeeds, run-Succeeds,
  finished-Succeeds,
}

-- Room for so many bytes in a buffer whose limit is that of a payload.
abbrev HasRoom : ℕ → Buffer → Type 0
HasRoom size b = (length b.bytes + size ≤ b.limit) × (b.limit ≤ max_payload)

append_packet_parts-Succeeds :
    (kind tab size : ℕ) (parts : List (List ℕ)) (b : Buffer)
    → length (concat parts) ≤ size
    → HasRoom (header_bytes + size) b
    → Succeeds (append_packet_parts kind tab parts) (header_bytes + size) b
unfolding run encoding
append_packet_parts-Succeeds kind tab size parts b short room =
    let body = concat parts in
    let fits : leb (length body) max_payload ≡ true = ground arith in
    let long = length-packet kind tab body in
    Succeeds-within (omega (arith, long)) (
      run-Succeeds (Call.packet kind tab parts) (Buffer.header kind tab (length body) ++ body) b
        (rw fits refl) (omega (arith, long)))

put_move-Succeeds :
    (tab : ℕ) (o : Option Move) (b : Buffer)
    → HasRoom (move_bytes o) b
    → Succeeds (put_move tab o) (move_bytes o) b
unfolding put_move append_packet_bytes
put_move-Succeeds tab none b room = nothing-Succeeds b
put_move-Succeeds tab (some m) b room =
    append_packet_parts-Succeeds wire_copy_rows tab _ (move_body m ∷ []) b
      (omega (arith, ap length (append-nil (move_body m)))) room

put_span-Succeeds :
    (tab row : ℕ) (bytes : List ℕ) (s : Option Span) (b : Buffer)
    → HasRoom (header_bytes + 4 + span_length (length bytes) s) b
    → Succeeds (put_span tab row bytes s) (header_bytes + 4 + span_length (length bytes) s) b
unfolding put_span to_be_bytes
put_span-Succeeds tab row bytes none b room = Succeeds-within (omega arith) (
    append_packet_parts-Succeeds wire_row tab (4 + length bytes) (to_be_bytes row ∷ bytes ∷ []) b
      (omega (arith, ap length (append-nil bytes))) (omega (arith, room), room.1))
put_span-Succeeds tab row bytes (some s) b room =
    let part = take (s.end - s.start) (drop s.start bytes) in
    Succeeds-within (omega arith) (
      append_packet_parts-Succeeds wire_row_span tab (8 + (s.end - s.start))
        (to_be_bytes row ∷ to_be_bytes (s.start / wire_cell_bytes) ∷ part ∷ []) b
        (omega
          (arith, ap length (append-nil part), length-take (s.end - s.start) (drop s.start bytes)))
        (omega (arith, room), room.1))

put_updates-Succeeds :
    (tab : ℕ) (us : List Update) (b : Buffer)
    → HasRoom (update_bytes us) b
    → Succeeds (put_updates tab us) (update_bytes us) b
unfolding put_updates update_bytes
put_updates-Succeeds tab [] b room = nothing-Succeeds b
put_updates-Succeeds tab (u ∷ us) b room =
    let size = header_bytes + 4 + span_length (length u.bytes) u.span in
    Succeeds-then (put_span tab u.row u.bytes u.span) (put_updates tab us) size (update_bytes us) b
      (put_span-Succeeds tab u.row u.bytes u.span b (omega (arith, room), room.1))
      (λ c limit grown.
        put_updates-Succeeds tab us c
          (omega (arith, room, limit, grown), omega (arith, room, limit)))

-- The packets of a frame are written if they fit in a payload.
pub put_frame-Succeeds :
    (tab : ℕ) (frame : Frame) (movement : Option Move) (updates : List Update)
    → 2 * header_bytes + 24 + update_bytes updates + move_bytes movement ≤ max_payload
    → (bytes : List ℕ) × (finished (put_frame tab frame movement updates Buffer.default) ≡ ok bytes)
unfolding put_frame frame_body append_packet_bytes to_be_bytes Buffer.default Buffer.with_limit
put_frame-Succeeds tab frame movement updates room = finished-Succeeds (
    Succeeds-then (Buffer.reserve _) _ 0 _ Buffer.default
      (reserve-Succeeds _ Buffer.default (omega (arith, room)))
      λ b0 l0 g0.
        Succeeds-then (append_packet_bytes wire_frame tab (frame_body frame)) _ (header_bytes + 24)
          _ b0
          (append_packet_parts-Succeeds wire_frame tab 24 (frame_body frame ∷ []) b0 (omega arith)
            (omega (arith, room, l0, g0), omega (arith, l0)))
          λ b1 l1 g1.
            Succeeds-then (put_move tab movement) _ (move_bytes movement) _ b1
              (put_move-Succeeds tab movement b1
                (omega (arith, room, l0, g0, l1, g1), omega (arith, l0, l1)))
              λ b2 l2 g2.
                Succeeds-then (put_updates tab updates) _ (update_bytes updates) (header_bytes + 0)
                  b2
                  (put_updates-Succeeds tab updates b2
                    (omega (arith, room, l0, g0, l1, g1, l2, g2), omega (arith, l0, l1, l2)))
                  λ b3 l3 g3.
                    append_packet_parts-Succeeds wire_frame_finish tab 0 ([] ∷ []) b3 (omega arith)
                      (
                        omega (arith, room, l0, g0, l1, g1, l2, g2, l3, g3),
                        omega (arith, l0, l1, l2, l3),
                      ))
