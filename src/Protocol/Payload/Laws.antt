-- ===== src/Protocol/Payload/Laws.antt =====
-- The reader takes back what the encoder of `Buffer` puts, and leaves what stands behind it.
use worminal.Prelude.{
  ℕ, suc, ◌+◌, ◌/◌, ◌%◌, ◌^◌, ◌≤◌, ◌<◌, ◌≡◌, refl, ap, ap₂, ◌∙◌, List, [], ◌∷◌, ◌++◌, length,
  take-append, drop-append, take_all, drop_all, append-nil, length-append, arith, append_assoc, ltb,
  le→ltb_false,
}
use worminal.Prelude
use worminal.Prelude.Result.{ok, err, invalid_data}
use worminal.Prelude.Bytes.{u32_mod, to_be_bytes, from_be_bytes-to_be_bytes}
use worminal.Protocol.Payload.{take, word, u32, string}

-- A slice in front of the rest is taken whole.
pub take-append_all :
    (bs rest : List ℕ) (n : ℕ) → n ≡ length bs → take n (bs ++ rest) ≡ (ok bs, rest)
unfolding take
take-append_all bs rest n e = ground (
  arith,
  length-append bs rest,
  take-append n bs rest,
  drop-append n bs rest,
  take_all n bs,
  drop_all n bs,
)

pub take_short : (n : ℕ) (bs : List ℕ) → length bs < n → take n bs ≡ (err invalid_data, bs)
unfolding take
take_short n bs h = ground arith

-- A big-endian word in front of the rest is read.
pub u32-to_be_bytes :
    (v : ℕ) (rest : List ℕ) → v < u32_mod → u32 (to_be_bytes v ++ rest) ≡ (ok v, rest)
unfolding u32
u32-to_be_bytes v rest h =
    rw (take-append_all (to_be_bytes v) rest 4 four, u32)
      (unfold to_be_bytes word in ap (λ w. (ok w, rest)) (from_be_bytes-to_be_bytes v h))
  where
    four : 4 ≡ length (to_be_bytes v)
    four = unfold to_be_bytes in refl

-- A string in front of the rest, with its length before it, is read.
pub string-to_be_bytes :
    (bs rest : List ℕ)
    → length bs < u32_mod
    → string (to_be_bytes (length bs) ++ (bs ++ rest)) ≡ (ok bs, rest)
unfolding string
string-to_be_bytes bs rest h =
    rw (u32-to_be_bytes (length bs) (bs ++ rest) h, string)
      (take-append_all bs rest (length bs) refl)

-- Four bytes are enough for a word.
pub u32_long : (bs : List ℕ) → 4 ≤ length bs → (v : ℕ) × (u32 bs ≡ (ok v, Prelude.drop 4 bs))
unfolding u32 take
u32_long bs h = (word (Prelude.take 4 bs), rw (le→ltb_false (length bs) 4 h))
