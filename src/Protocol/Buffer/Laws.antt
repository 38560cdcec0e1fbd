-- ===== src/Protocol/Buffer/Laws.antt =====
-- What a call of `Buffer` does, against one description: a call has the bytes that it stands for,
-- and publishes all of them or none.
use worminal.Prelude.{
  ℕ, ◌+◌, ◌≤◌, ◌<◌, ◌≡◌, refl, sym, ap, ◌∙◌, Option, none, some, List, [], ◌∷◌, ◌++◌, ltb, leb,
  if◌then◌else◌, length, concat, length-append, append_assoc, append-nil, arith, Bool-cases, inl,
  inr,
}
use worminal.Prelude.Result.{Exec, ok, err, invalid_data}
use worminal.Prelude.Bytes.{u32_mod, usize_mod, to_be_bytes}
use worminal.Protocol.Wire.{max_payload}
use worminal.Protocol.Buffer.{
  Buffer, put_bytes, put_u32, put_string, total_length, header, put_packet, append_packet_parts,
}

-- The calls that write.
pub data Call : Type 0 where
  bytes : List ℕ → Call
  word : ℕ → Call
  string : List ℕ → Call
  packet : ℕ → ℕ → List (List ℕ) → Call

unfoldable pub run : Call → Exec Buffer Unit
run (bytes bs) = put_bytes bs
run (word v) = put_u32 v
run (string bs) = put_string bs
run (packet kind tab parts) = append_packet_parts kind tab parts

-- The bytes that a call stands for; `none` where it has no encoding.
unfoldable pub encoding : Call → Option (List ℕ)
encoding (bytes bs) = some bs
encoding (word v) = some (to_be_bytes v)
encoding (string bs) =
    if ltb (length bs) u32_mod then some (to_be_bytes (length bs) ++ bs) else none
encoding (packet kind tab parts) =
    let body = concat parts in
    if leb (length body) max_payload then some (header kind tab (length body) ++ body) else none

-- All of the bytes where they fit in the limit, else nothing.
unfoldable pub publish : Option (List ℕ) → Exec Buffer Unit
publish none b = (err invalid_data, b)
publish (some bs) b =
    if leb (length b.bytes + length bs) b.limit
    then (ok tt, record b { bytes = b.bytes ++ bs })
    else (err invalid_data, b)

abbrev pub Fits : Buffer → Type 0
Fits b = length b.bytes ≤ b.limit

pub total_length-concat :
    (n : ℕ) (parts : List (List ℕ))
    → n < usize_mod
    → total_length n parts ≡ (
        if ltb (n + length (concat parts)) usize_mod
        then some (n + length (concat parts))
        else none)
unfolding total_length
total_length-concat n [] h = ground arith
total_length-concat n (part ∷ parts) h =
    ground (arith, length-append part (concat parts), total_length-concat (n + length part) parts)

pub length-header : (kind tab size : ℕ) → length (header kind tab size) ≡ 16
unfolding header to_be_bytes
length-header kind tab size = refl

pub length-packet :
    (kind tab : ℕ) (body : List ℕ)
    → length (header kind tab (length body) ++ body) ≡ 16 + length body
length-packet kind tab body = omega (
  arith,
  length-append (header kind tab (length body)) body,
  length-header kind tab (length body),
)

put_bytes-publish : (bs : List ℕ) (b : Buffer) → Fits b → put_bytes bs b ≡ publish (some bs) b
unfolding put_bytes publish
put_bytes-publish bs b h = ground arith

put_string-publish :
    (bs : List ℕ) (b : Buffer) → Fits b → put_string bs b ≡ publish (encoding (string bs)) b
unfolding put_string publish encoding
put_string-publish bs b h = ground (arith, append_assoc b.bytes (to_be_bytes (length bs)) bs)

put_packet-publish :
    (kind tab : ℕ) (parts : List (List ℕ)) (b : Buffer)
    → Fits b
    → put_packet kind tab (length (concat parts)) parts b
      ≡ publish (encoding (packet kind tab parts)) b
unfolding put_packet publish encoding
put_packet-publish kind tab parts b h = ground (
  arith,
  append_assoc b.bytes (header kind tab (length (concat parts))) (concat parts),
  length-packet kind tab (concat parts),
)

total_length-parts :
    (parts : List (List ℕ))
    → total_length 0 parts
      ≡ (if ltb (length (concat parts)) usize_mod then some (length (concat parts)) else none)
total_length-parts parts =
    total_length-concat 0 parts (omega arith)
    ∙ ap (λ n. if ltb n usize_mod then some n else none)
        (let e : 0 + length (concat parts) ≡ length (concat parts) = omega arith in e)

append_packet_parts-publish :
    (kind tab : ℕ) (parts : List (List ℕ)) (b : Buffer)
    → Fits b
    → append_packet_parts kind tab parts b ≡ publish (encoding (packet kind tab parts)) b
unfolding append_packet_parts
append_packet_parts-publish kind tab parts b h =
    elim (Bool-cases (ltb (length (concat parts)) usize_mod)) [
      | inl small ↦
          rw (total_length-parts parts, small, append_packet_parts)
            (put_packet-publish kind tab parts b h)
      | inr large ↦
          rw (total_length-parts parts, large, append_packet_parts)
            (unfold encoding publish in ground arith)
    ]

-- Whatever the call and the buffer, a call publishes its whole encoding where that exists and fits in
-- the limit; otherwise it fails and leaves the buffer as it was.
pub run-publish : (c : Call) (b : Buffer) → Fits b → run c b ≡ publish (encoding c) b
unfolding run
run-publish (bytes bs) b h = unfold encoding in put_bytes-publish bs b h
run-publish (word v) b h = unfold encoding put_u32 in put_bytes-publish (to_be_bytes v) b h
run-publish (string bs) b h = put_string-publish bs b h
run-publish (packet kind tab parts) b h = append_packet_parts-publish kind tab parts b h

-- Every call keeps the bound.
pub run-Fits : (c : Call) (b : Buffer) → Fits b → Fits (run c b).1
unfolding publish
run-Fits c b h = rw run-publish (kept (encoding c))
  where
    kept : (o : Option (List ℕ)) → Fits (publish o b).1
    kept none = h
    kept (some bs) = ground (arith, length-append b.bytes bs)

-- A write that succeeded: `bytes` were appended, and the buffer still fits.
pub record Appended (bytes : List ℕ) (b b' : Buffer) : Type 0 where
  pub contents : b'.bytes ≡ b.bytes ++ bytes
  pub fits : Fits b'
  pub limit_kept : b'.limit ≡ b.limit

pub Appended-trans :
    {xs ys : List ℕ} {a b c : Buffer} → Appended xs a b → Appended ys b c → Appended (xs ++ ys) a c
Appended-trans {xs} {ys} {a} h k = record {
  contents = k.contents ∙ ap (λ t. t ++ ys) h.contents ∙ append_assoc a.bytes xs ys;
  fits = k.fits;
  limit_kept = k.limit_kept ∙ h.limit_kept;
}

pub Appended-nil : {b : Buffer} → Fits b → Appended [] b b
Appended-nil {b} h = record { contents = sym (append-nil b.bytes); fits = h; limit_kept = refl }

pub put_string-ok :
    (bs : List ℕ) {b b' : Buffer} {u : Unit}
    → Fits b
    → put_string bs b ≡ (ok u, b')
    → (length bs < u32_mod) × Appended (to_be_bytes (length bs) ++ bs) b b'
unfolding publish encoding
put_string-ok bs {b} h e =
    ground (arith, put_string-publish bs b h, length-append b.bytes (to_be_bytes (length bs) ++ bs))

pub put_u32-ok :
    (v : ℕ) {b b' : Buffer} {u : Unit}
    → Fits b
    → put_u32 v b ≡ (ok u, b')
    → Appended (to_be_bytes v) b b'
unfolding publish put_u32
put_u32-ok v {b} h e =
    ground (arith, put_bytes-publish (to_be_bytes v) b h, length-append b.bytes (to_be_bytes v))

pub put_bytes-ok :
    (bs : List ℕ) {b b' : Buffer} {u : Unit}
    → Fits b
    → put_bytes bs b ≡ (ok u, b')
    → Appended bs b b'
unfolding publish
put_bytes-ok bs {b} h e = ground (arith, put_bytes-publish bs b h, length-append b.bytes bs)
