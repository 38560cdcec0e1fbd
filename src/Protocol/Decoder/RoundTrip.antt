-- ===== src/Protocol/Decoder/RoundTrip.antt =====
-- What `Packet::encode` writes is what the decoder gives back.
use worminal.Prelude.{
  ℕ, ◌+◌, ◌%◌, ◌≤◌, ◌<◌, ◌≡◌, refl, ap, ap₂, ◌∙◌, some, List, [], ◌∷◌, ◌++◌, length, leb, concat,
  All, splice, replicate, drop-append_at, length-append, append_assoc, append-nil, arith,
  if◌then◌else◌,
}
use worminal.Prelude.Result.{ok, err, invalid_data}
use worminal.Prelude.Bytes.{u32_mod, to_be_bytes}
use worminal.Protocol.Wire.{wire_version, max_payload, header_bytes}
use worminal.Protocol.Buffer
use worminal.Protocol.Buffer.{Buffer}
use worminal.Protocol.Buffer.Laws.{
  publish, encoding, packet, run, run-publish, length-header, length-packet,
}
use worminal.Protocol.Payload
use worminal.Protocol.Payload.Laws.{u32-to_be_bytes}
use worminal.Protocol.Packet.{Packet, encode, append_packet}
use worminal.Protocol.Decoder.{start, read_header, enter_body, push}
use worminal.Protocol.Decoder.Steps.{push_body_done, push_header_done}
use worminal.Protocol.Decoder.Open.{read_header-words, start-IsOpen}
use worminal.Protocol.Decoder.Feed.{
  drained, feed, feed_chunks, feed_nonempty, feed-nil, feed_chunks-concat,
}

-- The bytes of a packet on the wire: the header's words, then the body.
abbrev pub wire : Packet → List ℕ
wire p = Buffer.header p.kind p.tab (length p.body) ++ p.body

-- A packet that the encoder accepts, whose words are 32 bits wide.
pub record IsEncodable (p : Packet) : Type 0 where
  pub kind_fits : p.kind < u32_mod
  pub tab_fits : p.tab < u32_mod
  pub body_fits : length p.body ≤ max_payload

-- A packet is encoded as its bytes on the wire if its body is within the bound, and refused otherwise.
pub encode-wire :
    (p : Packet)
    → encode p ≡ (if leb (length p.body) max_payload then ok (wire p) else err invalid_data)
unfolding encode
encode-wire p = rw appended (
    unfold encoding publish in
    ground (
      arith,
      append-nil p.body,
      length-append (Buffer.header p.kind p.tab (length p.body)) p.body,
      length-header p.kind p.tab (length p.body),
    ))
  where
    output : Buffer
    output = Buffer.with_limit (max_payload + header_bytes)

    appended :
        append_packet p output ≡ publish (encoding (packet p.kind p.tab (p.body ∷ []))) output
    appended =
        unfold append_packet Buffer.append_packet_bytes run in
        run-publish (packet p.kind p.tab (p.body ∷ [])) output (omega arith)

read_header-header :
    (kind tab size : ℕ)
    → kind < u32_mod
    → tab < u32_mod
    → size < u32_mod
    → read_header (Buffer.header kind tab size)
      ≡ ok (record { version = wire_version; kind = kind; tab = tab; size = size })
unfolding Buffer.header
read_header-header kind tab size hk ht hs =
    read_header-words _ _ _ _ [] wire_version kind tab size
      (u32-to_be_bytes wire_version _ (omega arith)) (u32-to_be_bytes kind _ hk)
      (u32-to_be_bytes tab _ ht) last
  where
    last : Payload.u32 (to_be_bytes (size % u32_mod)) ≡ (ok size, [])
    last =
        rw (← append-nil (to_be_bytes (size % u32_mod)))
          (u32-to_be_bytes (size % u32_mod) [] (omega arith) ∙ ap (λ n. (ok n, [])) (omega arith))

-- A header that fills the array.
splice_whole :
    (kind tab size : ℕ)
    → splice (replicate header_bytes 0) 0 (Buffer.header kind tab size)
      ≡ Buffer.header kind tab size
unfolding Buffer.header to_be_bytes
splice_whole kind tab size = refl

-- A fresh decoder that is given an encoded packet and more behind it takes exactly the packet's bytes
-- and returns the packet, fresh again.
pub push-wire :
    (p : Packet) (rest : List ℕ)
    → IsEncodable p
    → push start (wire p ++ rest) ≡ (ok (length (wire p), some p), start)
unfolding push start
push-wire p rest h =
    rw
      (
        append_assoc head p.body rest,
        push_header_done (replicate header_bytes 0) 0 head (p.body ++ rest)
            (omega (arith, length-header p.kind p.tab (length p.body))),
        splice_whole p.kind p.tab (length p.body),
        read_header-header p.kind p.tab (length p.body) h.kind_fits h.tab_fits (omega arith),
      )
      (unfold enter_body in
        ground (
          arith,
          push_body_done p.kind p.tab (length p.body) (length head + length (p.body ++ rest)) []
              p.body rest,
          length-append p.body rest,
          length-append head p.body,
        ))
  where
    head : List ℕ
    head = Buffer.header p.kind p.tab (length p.body)

abbrev pub wires : List Packet → List ℕ
wires [] = []
wires (p ∷ ps) = wire p ++ wires ps

-- A fresh decoder that is fed encoded packets in a row returns them, and is fresh again.
pub feed-wires :
    (ps : List Packet)
    → All IsEncodable ps
    → feed start (wires ps) ≡ record { packets = ps; ending = drained; decoder = start }
feed-wires [] h = feed-nil start
feed-wires (p ∷ ps) h = rw (
  feed_nonempty start (wire p ++ wires ps) start-IsOpen nonempty,
  push-wire p (wires ps) h.0,
  drop-append_at (length (wire p)) (wire p) (wires ps) refl,
  feed-wires ps h.1,
)
  where
    nonempty : 0 < length (wire p ++ wires ps)
    nonempty = omega (arith, length-append (wire p) (wires ps), length-packet p.kind p.tab p.body)

-- `encode` accepted each packet, of 32-bit words, and returned these bytes.
abbrev pub EncodedAs : List Packet → List (List ℕ) → Type 0
EncodedAs [] [] = Unit
EncodedAs (p ∷ ps) (bytes ∷ encoded) =
    (encode p ≡ ok bytes) × (p.kind < u32_mod) × (p.tab < u32_mod) × EncodedAs ps encoded
EncodedAs _ _ = ⊥

pub encode-IsEncodable :
    (p : Packet) (bytes : List ℕ)
    → encode p ≡ ok bytes
    → p.kind < u32_mod
    → p.tab < u32_mod
    → IsEncodable p × (bytes ≡ wire p)
encode-IsEncodable p bytes e k t = ground (arith, encode-wire p)

EncodedAs-wires :
    (ps : List Packet) (encoded : List (List ℕ))
    → EncodedAs ps encoded
    → All IsEncodable ps × (concat encoded ≡ wires ps)
EncodedAs-wires [] [] h = (tt, refl)
EncodedAs-wires [] (b ∷ bs) h = absurd h
EncodedAs-wires (p ∷ ps) [] h = absurd h
EncodedAs-wires (p ∷ ps) (b ∷ bs) h =
    let (i, e) = encode-IsEncodable p b h.0 h.1 h.2 in
    let (is, es) = EncodedAs-wires ps bs h.3 in ((i, is), ap₂ (λ x y. x ++ y) e es)

-- However the bytes that `encode` returned for some packets are cut into chunks, a fresh decoder that
-- is fed the chunks one by one returns exactly those packets in their order, without an error, and ends
-- fresh.
pub feed_chunks-encode :
    (ps : List Packet) (encoded chunks : List (List ℕ))
    → EncodedAs ps encoded
    → concat chunks ≡ concat encoded
    → feed_chunks start chunks ≡ record { packets = ps; ending = drained; decoder = start }
feed_chunks-encode ps encoded chunks h e =
    let (i, w) = EncodedAs-wires ps encoded h in
    feed_chunks-concat start chunks start-IsOpen ∙ ap (feed start) (e ∙ w) ∙ feed-wires ps i
