-- ===== src/Protocol/Decoder/Steps.antt =====
-- What a round of the decoder's loop does, by the input: too short to complete the part that it is in,
-- or long enough.
use worminal.Prelude.{
  ℕ, ◌+◌, ◌-◌, ◌<◌, min, ◌≡◌, none, some, List, ◌++◌, length, splice, length-append, take_all,
  drop_all, take-append_at, drop-append_at, arith,
}
use worminal.Prelude.Result.{ok}
use worminal.Protocol.Wire.{header_bytes}
use worminal.Protocol.Decoder.{header, body, start, read_header, push_body, enter_body, push_header}

module _ (kind tab size original : ℕ) (bytes : List ℕ) where
  pub push_body_more :
      (xs : List ℕ)
      → length bytes + length xs < size
      → push_body original kind tab size bytes xs
        ≡ (ok (original, none), body kind tab size (bytes ++ xs))
  unfolding push_body
  push_body_more xs h = ground (
    arith,
    take_all (min (size - length bytes) (length xs)) xs,
    drop_all (min (size - length bytes) (length xs)) xs,
    length-append bytes xs,
  )

  pub push_body_done :
      (a rest : List ℕ)
      → length bytes + length a ≡ size
      → push_body original kind tab size bytes (a ++ rest) ≡ (
        ok (original - length rest, some (record { kind = kind; tab = tab; body = bytes ++ a })),
        start,
      )
  unfolding push_body
  push_body_done a rest h = ground (
    arith,
    take-append_at (min (size - length bytes) (length (a ++ rest))) a rest,
    drop-append_at (min (size - length bytes) (length (a ++ rest))) a rest,
    length-append bytes a,
    length-append a rest,
  )

pub push_header_more :
    (bytes : List ℕ) (used : ℕ) (xs : List ℕ)
    → used + length xs < header_bytes
    → push_header bytes used xs
      ≡ (ok (length xs, none), header (splice bytes used xs) (used + length xs))
unfolding push_header
push_header_more bytes used xs h = ground (
  arith,
  take_all (min (header_bytes - used) (length xs)) xs,
  drop_all (min (header_bytes - used) (length xs)) xs,
)

pub push_header_done :
    (bytes : List ℕ) (used : ℕ) (a rest : List ℕ)
    → used + length a ≡ header_bytes
    → push_header bytes used (a ++ rest)
      ≡ enter_body
          (length a + length rest)
          (splice bytes used a)
          rest
          (read_header (splice bytes used a))
unfolding push_header
push_header_done bytes used a rest h = ground (
  arith,
  take-append_at (min (header_bytes - used) (length (a ++ rest))) a rest,
  drop-append_at (min (header_bytes - used) (length (a ++ rest))) a rest,
  length-append a rest,
)
