-- ===== src/Workspace/Broker/Tests.antt =====
-- A request of one argument and one entry, and the theorems at it.
use worminal.Prelude.{ℕ, ◌≡◌, refl, some, List, [], ◌∷◌, concat, arith}
use worminal.Prelude.Result.{Result, ok, err, would_block}
use worminal.Protocol.Buffer
use worminal.Protocol.Packet.{Packet}
use worminal.Protocol.Packet
use worminal.Protocol.Wire.{wire_hello}
use worminal.Workspace.Broker.Bounds.{decode-IsRequest}
use worminal.Protocol.Decoder.{start}
use worminal.Protocol.Decoder.Feed.{drained, feed_chunks}
use worminal.Workspace.Recovery.{starts_with_slash}
use worminal.Workspace.Broker.{
  Request, encode, decode, envelope, put_request, put_list, put_count, put_strings, is_empty,
}
use worminal.Workspace.Broker.RoundTrip.{feed_chunks-request, hello, decode-hello, IsRequest}
use worminal.Workspace.Broker.Incoming.{default}
use worminal.Workspace.Broker.Incoming.Attend.{attend, attend-encode}

-- A file is a number here.
abbrev request : Request ℕ
request = record {
  args = (b'w' ∷ []) ∷ [];
  directory = b'/' ∷ [];
  environment = (b'A' ∷ b'=' ∷ []) ∷ [];
  output = 1;
}

abbrev first_part : List ℕ
first_part = 0 ∷ 0 ∷ 0 ∷ 2 ∷ 0 ∷ 0 ∷ 0 ∷ 1 ∷ 0 ∷ []

abbrev second_part : List ℕ
second_part =
    0 ∷ 0 ∷ 0 ∷ 0 ∷ 0 ∷ 0 ∷ 24 ∷ 0 ∷ 0 ∷ 0 ∷ 1 ∷ b'/' ∷ 0 ∷ 0 ∷ 0 ∷ 1 ∷ 0 ∷ 0 ∷ 0 ∷ 1 ∷ b'w' ∷ 0 ∷ 0
    ∷ 0 ∷ 1 ∷ 0 ∷ 0 ∷ 0 ∷ 2 ∷ b'A' ∷ b'=' ∷ []

abbrev parts : List (List ℕ)
parts = first_part ∷ second_part ∷ []

encode-request : encode request ≡ ok (concat parts)
unfolding encode envelope put_request put_list put_count put_strings Packet.encode
    Packet.append_packet Packet.finished Buffer.put_u32 Buffer.put_string Buffer.default
    Buffer.append_packet_bytes Buffer.append_packet_parts Buffer.put_packet Buffer.with_limit
    Buffer.total_length Buffer.header
encode-request = refl

request-IsRequest : IsRequest request
unfolding is_empty starts_with_slash
request-IsRequest = record {
  has_args = refl;
  is_absolute = refl;
  few_args = omega arith;
  few_entries = omega arith;
}

feed_chunks-request_example :
    (p : Packet) × (feed_chunks start parts
      ≡ record { packets = p ∷ []; ending = drained; decoder = start })
    × (decode p 7 ≡ ok (record request { output = 7 }))
feed_chunks-request_example =
    feed_chunks-request request 7 (concat parts) parts encode-request request-IsRequest refl

-- A connection whose state is what it still gives.
abbrev receive_seven : List (List ℕ) → Result (List ℕ) × List (List ℕ)
receive_seven w = (ok (7 ∷ []), w)

abbrev read_chunk : List (List ℕ) → Result (List ℕ) × List (List ℕ)
read_chunk [] = (err would_block, [])
read_chunk (chunk ∷ chunks) = (ok chunk, chunks)

attend-encode_example :
    attend receive_seven read_chunk 1 (default, parts)
    ≡ (ok (some (record request { output = 7 })), (default, []))
attend-encode_example =
    attend-encode receive_seven read_chunk request (concat parts) parts 7 parts parts [] 1
      encode-request request-IsRequest refl (second_part ∷ [], refl, ([], refl, refl))
      (omega arith, (omega arith, tt)) refl (omega arith) (omega arith)

decode-IsRequest_example :
    ((hello request).kind ≡ wire_hello)
    × ((hello request).tab ≡ 0)
    × IsRequest (record request { output = 7 })
    × ((record request { output = 7 }).output ≡ 7)
decode-IsRequest_example =
    decode-IsRequest (hello request) 7 (record request { output = 7 })
      (decode-hello request 7 (omega arith, (omega arith, tt), (omega arith, tt)) request-IsRequest)
