-- ===== src/Protocol/Tests.antt =====
-- Runs of the framing on concrete bytes, and the theorems at inputs that meet their hypotheses.
use Prim.Native.Nat.{ℕ}
use worminal.Prelude.{
  ◌≡◌, refl, inl, inr, none, some, List, [], ◌∷◌, ◌++◌, length, length-take, take, map, concat,
  arith,
}
use worminal.Prelude.Result.{ok, invalid_data}
use worminal.Protocol.Buffer.{Buffer}
use worminal.Protocol.Buffer.Laws.{Call, run, run-publish, publish, encoding}
use worminal.Protocol.Packet.{Packet, encode}
use worminal.Protocol.Decoder.{failed, start, push}
use worminal.Protocol.Decoder.Open.{Accounts, push-Accounts, start-IsOpen}
use worminal.Protocol.Decoder.Feed.{
  Ended, refused, drained, feed, feed_chunks, feed-Ended, feed_chunks-concat,
}
use worminal.Protocol.Decoder.RoundTrip.{feed_chunks-encode}
use worminal.Protocol.Decoder.Poison.{words, feed_chunks-bad_header}

abbrev small : Buffer
small = record { bytes = 0 ∷ 0 ∷ 0 ∷ 1 ∷ []; limit = 8 }

abbrev hello : Packet
hello = record { kind = 1; tab = 7; body = 97 ∷ 98 ∷ [] }

abbrev bell : Packet
bell = record { kind = 12; tab = 0; body = [] }

abbrev hello_bytes : List ℕ
hello_bytes = 0 ∷ 0 ∷ 0 ∷ 2 ∷ 0 ∷ 0 ∷ 0 ∷ 1 ∷ 0 ∷ 0 ∷ 0 ∷ 7 ∷ 0 ∷ 0 ∷ 0 ∷ 2 ∷ 97 ∷ 98 ∷ []

abbrev bell_bytes : List ℕ
bell_bytes = 0 ∷ 0 ∷ 0 ∷ 2 ∷ 0 ∷ 0 ∷ 0 ∷ 12 ∷ 0 ∷ 0 ∷ 0 ∷ 0 ∷ 0 ∷ 0 ∷ 0 ∷ 0 ∷ []

-- The two frames, cut inside the first header and inside the first body.
abbrev cut : List (List ℕ)
cut =
    (0 ∷ 0 ∷ 0 ∷ 2 ∷ 0 ∷ [])
    ∷ (0 ∷ 0 ∷ 1 ∷ 0 ∷ 0 ∷ 0 ∷ 7 ∷ 0 ∷ 0 ∷ 0 ∷ 2 ∷ 97 ∷ [])
    ∷ (98 ∷ bell_bytes)
    ∷ []

encode-hello : encode hello ≡ ok hello_bytes
unfolding encode worminal.Protocol.Packet.append_packet worminal.Protocol.Buffer.append_packet_bytes
    worminal.Protocol.Buffer.append_packet_parts worminal.Protocol.Buffer.total_length
    worminal.Protocol.Buffer.put_packet worminal.Protocol.Buffer.header
    worminal.Prelude.Bytes.to_be_bytes
encode-hello = refl

encode-bell : encode bell ≡ ok bell_bytes
unfolding encode worminal.Protocol.Packet.append_packet worminal.Protocol.Buffer.append_packet_bytes
    worminal.Protocol.Buffer.append_packet_parts worminal.Protocol.Buffer.total_length
    worminal.Protocol.Buffer.put_packet worminal.Protocol.Buffer.header
    worminal.Prelude.Bytes.to_be_bytes
encode-bell = refl

feed_chunks-encode_example :
    feed_chunks start cut
    ≡ record { packets = hello ∷ bell ∷ []; ending = drained; decoder = start }
feed_chunks-encode_example =
    feed_chunks-encode (hello ∷ bell ∷ []) (hello_bytes ∷ bell_bytes ∷ []) cut
      (encode-hello, omega arith, omega arith, (encode-bell, omega arith, omega arith, tt)) refl

feed_chunks-concat_example : feed_chunks start cut ≡ feed start (hello_bytes ++ bell_bytes)
feed_chunks-concat_example = feed_chunks-concat start cut start-IsOpen

feed_chunks-bad_header_example :
    feed_chunks start (words 1 1 0 0 ∷ hello_bytes ∷ [])
    ≡ record { packets = []; ending = refused invalid_data; decoder = failed }
feed_chunks-bad_header_example =
    feed_chunks-bad_header 1 1 0 0 hello_bytes (words 1 1 0 0 ∷ hello_bytes ∷ []) (omega arith)
      (omega arith) (omega arith) (omega arith) (inl (omega arith)) refl

feed-Ended_example : Ended (feed start (97 ∷ 98 ∷ hello_bytes))
feed-Ended_example = feed-Ended start (97 ∷ 98 ∷ hello_bytes) start-IsOpen

push-Accounts_example : Accounts 18 (push start hello_bytes)
push-Accounts_example = push-Accounts start hello_bytes start-IsOpen

run-publish_example :
    run (Call.string (120 ∷ [])) small ≡ publish (encoding (Call.string (120 ∷ []))) small
run-publish_example = run-publish (Call.string (120 ∷ [])) small (omega arith)
