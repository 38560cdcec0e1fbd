-- ===== src/Replica/Wires.antt =====
-- The bytes of a plan are its packets' on the wire.
use worminal.Prelude.{
  ℕ, ◌≤◌, ◌<◌, ◌≡◌, refl, sym, ap, ◌∙◌, subst, Option, none, some, List, [], ◌∷◌, ◌++◌, concat,
  arith, length, All, All-append, append-nil, append_assoc, length-append,
}
use worminal.Prelude.Result.{ok, >>=-eq-ok}
use worminal.Prelude.Bytes.{u32_mod}
use worminal.Protocol.Wire.{
  wire_frame, wire_frame_finish, wire_copy_rows, wire_row, wire_row_span, max_payload,
}
use worminal.Protocol.Buffer
use worminal.Protocol.Buffer.{Buffer, append_packet_parts, append_packet_bytes}
use worminal.Protocol.Buffer.Laws.{
  run, encoding, publish, run-publish, length-packet, Fits, Appended, Appended-trans, Appended-nil,
}
use worminal.Protocol.Packet.{Packet, finished, finished-ok}
use worminal.Protocol.Decoder.RoundTrip.{wire, wires, IsEncodable}
use worminal.Engine.Cells.{Frame}
use worminal.Daemon.Frames.Move.{Move}
use worminal.Daemon.Frames.Prepare.{Span, Update}
use worminal.Daemon.Frames.Encode.{put_move, put_span, put_updates, put_frame}
use worminal.Daemon.Frames.Reading.{reserve-same, default-Fits}
use worminal.Replica.Packets.{
  frame_packet, move_packets, update_packet, update_packets, finish_packet,
}
use worminal.Replica.Mirror.{frame_packets}

wires-append : (ps qs : List Packet) → wires (ps ++ qs) ≡ wires ps ++ wires qs
wires-append [] qs = refl
wires-append (p ∷ ps) qs =
    ap (λ bs. wire p ++ bs) (wires-append ps qs) ∙ sym (append_assoc (wire p) (wires ps) (wires qs))

-- Calls that wrote packets.
record Wrote (ps : List Packet) (b b' : Buffer) : Type 0 where
  pub appended : Appended (wires ps) b b'
  pub encodable : All IsEncodable ps

Wrote-nil : {b : Buffer} → Fits b → Wrote [] b b
Wrote-nil h = record { appended = Appended-nil h; encodable = tt }

Wrote-append :
    (ps qs : List Packet) {a b c : Buffer} → Wrote ps a b → Wrote qs b c → Wrote (ps ++ qs) a c
Wrote-append ps qs {a} {b} {c} h k = record {
  appended =
      subst (λ bs. Appended bs a c) (sym (wires-append ps qs))
        (Appended-trans h.appended k.appended);
  encodable = All-append IsEncodable ps qs h.encodable k.encodable;
}

module _ (tab : ℕ) (tab_fits : tab < u32_mod) where
  append_packet_parts-Wrote :
      (kind : ℕ) (parts : List (List ℕ)) {b b' : Buffer} {u : Unit}
      → kind < u32_mod
      → Fits b
      → append_packet_parts kind tab parts b ≡ (ok u, b')
      → Wrote (record { kind = kind; tab = tab; body = concat parts } ∷ []) b b'
  unfolding run publish encoding
  append_packet_parts-Wrote kind parts {b} {b'} k h e =
      let published = run-publish (Buffer.Laws.packet kind tab parts) b h in
      let p : Packet = record { kind = kind; tab = tab; body = concat parts } in
      let wrote : Appended (wire p) b b' × (length (concat parts) ≤ max_payload) =
        ground (arith, published, length-append b.bytes (wire p)) in
      record {
        appended = subst (λ bs. Appended bs b b') (sym (append-nil (wire p))) wrote.0;
        encodable = (record { kind_fits = k; tab_fits = tab_fits; body_fits = wrote.1 }, tt);
      }

  put_move-Wrote :
      (o : Option Move) {b b' : Buffer} {u : Unit}
      → Fits b
      → put_move tab o b ≡ (ok u, b')
      → Wrote (move_packets tab o) b b'
  unfolding put_move append_packet_bytes
  put_move-Wrote none {b} h e = subst (Wrote [] b) (ap (λ r. r.1) e) (Wrote-nil h)
  put_move-Wrote (some m) h e = append_packet_parts-Wrote wire_copy_rows _ (omega arith) h e

  put_span-Wrote :
      (row : ℕ) (bytes : List ℕ) (s : Option Span) {b b' : Buffer} {u : Unit}
      → Fits b
      → put_span tab row bytes s b ≡ (ok u, b')
      → Wrote (update_packet tab row bytes s ∷ []) b b'
  unfolding put_span
  put_span-Wrote row bytes none h e = append_packet_parts-Wrote wire_row _ (omega arith) h e
  put_span-Wrote row bytes (some s) h e =
      append_packet_parts-Wrote wire_row_span _ (omega arith) h e

  put_updates-Wrote :
      (us : List Update) {b b' : Buffer} {u : Unit}
      → Fits b
      → put_updates tab us b ≡ (ok u, b')
      → Wrote (update_packets tab us) b b'
  unfolding put_updates
  put_updates-Wrote [] {b} h e = subst (Wrote [] b) (ap (λ r. r.1) e) (Wrote-nil h)
  put_updates-Wrote (x ∷ us) {b} h e =
      let (u, c, first, rest) = >>=-eq-ok (put_span tab x.row x.bytes x.span) _ b e in
      let w = put_span-Wrote x.row x.bytes x.span h first in
      Wrote-append (update_packet tab x.row x.bytes x.span ∷ []) (update_packets tab us) w
        (put_updates-Wrote us w.appended.fits rest)

  put_frame-Wrote :
      (frame : Frame) (movement : Option Move) (updates : List Update) {b b' : Buffer} {u : Unit}
      → Fits b
      → put_frame tab frame movement updates b ≡ (ok u, b')
      → Wrote (frame_packets tab frame movement updates) b b'
  unfolding put_frame append_packet_bytes
  put_frame-Wrote frame movement updates {b} {b'} h e =
      let (u0, b0, reserved, e0) = >>=-eq-ok (Buffer.reserve _) _ b e in
      let same = reserve-same _ b reserved in
      let h0 : Fits b0 = subst Fits (sym same) h in
      let (u1, b1, first, e1) = >>=-eq-ok (append_packet_parts wire_frame tab _) _ b0 e0 in
      let w1 = append_packet_parts-Wrote wire_frame _ (omega arith) h0 first in
      let (u2, b2, second, e2) = >>=-eq-ok (put_move tab movement) _ b1 e1 in
      let w2 = put_move-Wrote movement w1.appended.fits second in
      let (u3, b3, third, e3) = >>=-eq-ok (put_updates tab updates) _ b2 e2 in
      let w3 = put_updates-Wrote updates w2.appended.fits third in
      let w4 = append_packet_parts-Wrote wire_frame_finish _ (omega arith) w3.appended.fits e3 in
      subst (λ c. Wrote (frame_packets tab frame movement updates) c b') same
        (Wrote-append (frame_packet tab frame ∷ [])
          ((move_packets tab movement ++ update_packets tab updates) ++ finish_packet tab ∷ []) w1
          (Wrote-append (move_packets tab movement ++ update_packets tab updates)
            (finish_packet tab ∷ [])
            (Wrote-append (move_packets tab movement) (update_packets tab updates) w2 w3) w4))

  -- The bytes of a plan are its packets', which can all be encoded.
  pub put_frame-wires :
      (frame : Frame) (movement : Option Move) (updates : List Update) (bytes : List ℕ)
      → finished (put_frame tab frame movement updates Buffer.default) ≡ ok bytes
      → let ps = frame_packets tab frame movement updates in All IsEncodable ps × (bytes ≡ wires ps)
  unfolding Buffer.default Buffer.with_limit
  put_frame-wires frame movement updates bytes e =
      let (u, b, written, same) = finished-ok _ bytes e in
      let w = put_frame-Wrote frame movement updates default-Fits written in
      (w.encodable, sym same ∙ w.appended.contents)
