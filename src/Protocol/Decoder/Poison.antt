-- ===== src/Protocol/Decoder/Poison.antt =====
-- A header of another version, or of a body over the bound, closes the decoder.
use worminal.Prelude.{
  ℕ, ◌<◌, ◌≡◌, ◌≢◌, ◌⊎◌, refl, List, [], ◌++◌, length, concat, splice, replicate, length-append,
  append-nil, arith,
}
use worminal.Prelude.Result.{ok, err, invalid_data}
use worminal.Prelude.Bytes.{u32_mod, to_be_bytes}
use worminal.Protocol.Wire.{wire_version, max_payload, header_bytes}
use worminal.Protocol.Payload.Laws.{u32-to_be_bytes}
use worminal.Protocol.Decoder.{failed, start, read_header, enter_body, push}
use worminal.Protocol.Decoder.Steps.{push_header_done}
use worminal.Protocol.Decoder.Open.{read_header-words, start-IsOpen}
use worminal.Protocol.Decoder.Feed.{refused, feed_chunks, feed_nonempty, feed_chunks-concat}

-- Four words as a header.
abbrev pub words : ℕ → ℕ → ℕ → ℕ → List ℕ
words version kind tab size =
    to_be_bytes version ++ (to_be_bytes kind ++ (to_be_bytes tab ++ to_be_bytes size))

module _ (version kind tab size : ℕ) where
  read_header-words_of :
      version < u32_mod
      → kind < u32_mod
      → tab < u32_mod
      → size < u32_mod
      → read_header (words version kind tab size)
        ≡ ok (record { version = version; kind = kind; tab = tab; size = size })
  read_header-words_of hv hk ht hs =
      read_header-words _ _ _ _ [] version kind tab size (u32-to_be_bytes version _ hv)
        (u32-to_be_bytes kind _ hk) (u32-to_be_bytes tab _ ht)
        (rw (← append-nil (to_be_bytes size)) (u32-to_be_bytes size [] hs))

  length-words : length (words version kind tab size) ≡ 16
  unfolding to_be_bytes
  length-words = refl

  splice-words :
      splice (replicate header_bytes 0) 0 (words version kind tab size)
      ≡ words version kind tab size
  unfolding to_be_bytes
  splice-words = refl

  push-bad_header :
      (rest : List ℕ)
      → version < u32_mod
      → kind < u32_mod
      → tab < u32_mod
      → size < u32_mod
      → (version ≢ wire_version) ⊎ (max_payload < size)
      → push start (words version kind tab size ++ rest) ≡ (err invalid_data, failed)
  unfolding push start
  push-bad_header rest hv hk ht hs bad =
      rw
        (
          push_header_done (replicate header_bytes 0) 0 (words version kind tab size) rest
              (omega (arith, length-words)),
          splice-words,
          read_header-words_of hv hk ht hs,
        )
        (unfold enter_body in ground arith)

  -- However the bytes come in chunks, a stream that begins with a header of another version, or of a body
  -- over the bound, is refused as invalid data: no packet is returned, and the decoder is left closed.
  pub feed_chunks-bad_header :
      (rest : List ℕ) (chunks : List (List ℕ))
      → version < u32_mod
      → kind < u32_mod
      → tab < u32_mod
      → size < u32_mod
      → (version ≢ wire_version) ⊎ (max_payload < size)
      → concat chunks ≡ words version kind tab size ++ rest
      → feed_chunks start chunks
        ≡ record { packets = []; ending = refused invalid_data; decoder = failed }
  feed_chunks-bad_header rest chunks hv hk ht hs bad e = rw (
    feed_chunks-concat start chunks start-IsOpen,
    e,
    feed_nonempty start (words version kind tab size ++ rest) start-IsOpen
        (omega (arith, length-append (words version kind tab size) rest, length-words)),
    push-bad_header rest hv hk ht hs bad,
  )
