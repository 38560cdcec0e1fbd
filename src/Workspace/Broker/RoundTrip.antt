-- ===== src/Workspace/Broker/RoundTrip.antt =====
-- What a start encodes, the owner decodes.
use worminal.Prelude.{
  ℕ, ◌≤◌, ◌<◌, ◌≡◌, refl, sym, ◌∙◌, true, false, List, [], ◌∷◌, ◌++◌, ltb, length, concat, All,
  append_assoc, append-nil, arith, Bool-cases, inl, inr, subst, le→ltb_false,
}
use worminal.Prelude.Result.{Result, ok, err, >>=-eq-ok}
use worminal.Prelude.Bytes.{u32_mod, to_be_bytes}
use worminal.Protocol.Wire.{wire_hello}
use worminal.Protocol.Buffer
use worminal.Protocol.Buffer.{Buffer}
use worminal.Protocol.Buffer.Laws.{
  Fits, Appended, Appended-trans, Appended-nil, put_string-ok, put_u32-ok,
}
use worminal.Protocol.Payload
use worminal.Protocol.Payload.Laws.{u32-to_be_bytes, string-to_be_bytes}
use worminal.Protocol.Packet.{Packet}
use worminal.Protocol.Packet
use worminal.Protocol.Decoder.{start}
use worminal.Protocol.Decoder.Feed.{drained, feed_chunks}
use worminal.Protocol.Decoder.RoundTrip.{feed_chunks-encode}
use worminal.Workspace.Recovery.{starts_with_slash}
use worminal.Workspace.Recovery.RoundTrip.{string_bytes}
use worminal.Workspace.Broker.{
  Request, put_count, put_strings, put_list, envelope, read_strings, strings, is_empty, put_request,
  encode, read_request, decode,
}

abbrev pub strings_bytes : List (List ℕ) → List ℕ
strings_bytes [] = []
strings_bytes (s ∷ ss) = string_bytes s ++ strings_bytes ss

abbrev pub list_bytes : List (List ℕ) → List ℕ
list_bytes ss = to_be_bytes (length ss) ++ strings_bytes ss

abbrev pub IsShort : List ℕ → Type 0
IsShort s = length s < u32_mod

put_strings-ok :
    (ss : List (List ℕ)) (b : Buffer) {b' : Buffer} {u : Unit}
    → Fits b
    → put_strings ss b ≡ (ok u, b')
    → All IsShort ss × Appended (strings_bytes ss) b b'
unfolding put_strings
put_strings-ok [] b h e =
    (tt, let same : b ≡ _ = ground arith in subst (Appended [] b) same (Appended-nil h))
put_strings-ok (s ∷ ss) b h e =
    let (u1, b1, e1, rest) = >>=-eq-ok (Buffer.put_string s) _ b e in
    let (small, a) = put_string-ok s h e1 in
    let (all, a') = put_strings-ok ss b1 a.fits rest in ((small, all), Appended-trans a a')

put_list-ok :
    (ss : List (List ℕ)) (b : Buffer) {b' : Buffer} {u : Unit}
    → Fits b
    → put_list ss b ≡ (ok u, b')
    → (length ss < u32_mod) × All IsShort ss × Appended (list_bytes ss) b b'
unfolding put_list put_count
put_list-ok ss b h e = elim (Bool-cases (ltb (length ss) u32_mod)) [
  | inl small ↦
      let (u1, b1, e1, rest) = >>=-eq-ok (Buffer.put_u32 (length ss)) _ b (rw small at e) in
      let a = put_u32-ok (length ss) h e1 in
      let (all, a') = put_strings-ok ss b1 a.fits rest in (ground arith, all, Appended-trans a a')
  | inr large ↦ absurd (ground arith)
]

read_strings-bytes :
    (ss : List (List ℕ)) (rest : List ℕ)
    → All IsShort ss
    → read_strings (length ss) (strings_bytes ss ++ rest) ≡ (ok ss, rest)
unfolding read_strings
read_strings-bytes [] rest h = refl
read_strings-bytes (s ∷ ss) rest h = rw (
  append_assoc (string_bytes s) (strings_bytes ss) rest,
  append_assoc (to_be_bytes (length s)) s,
  string-to_be_bytes s _ h.0,
  read_strings-bytes ss rest h.1,
)

strings-bytes :
    (ss : List (List ℕ)) (rest : List ℕ)
    → length ss ≤ 65536
    → All IsShort ss
    → strings (list_bytes ss ++ rest) ≡ (ok ss, rest)
unfolding strings
strings-bytes ss rest few h = rw (
  append_assoc (to_be_bytes (length ss)) (strings_bytes ss) rest,
  u32-to_be_bytes (length ss) _ (omega arith),
  le→ltb_false 65536 (length ss) few,
  read_strings-bytes ss rest h,
)

envelope-ok :
    (out : Result (Unit {0}) × Buffer) (bytes : List ℕ)
    → envelope out ≡ ok bytes
    → (u : Unit {0}) × (b : Buffer) × (out ≡ (ok u, b))
      × (Packet.encode (record { kind = wire_hello; tab = 0; body = b.bytes }) ≡ ok bytes)
unfolding envelope
envelope-ok (ok u, b) bytes e = (u, b, refl, e)
envelope-ok (err k, b) bytes e = cc

module _ {F : Type 0} where
  abbrev pub request_bytes : Request F → List ℕ
  request_bytes r = string_bytes r.directory ++ (list_bytes r.args ++ list_bytes r.environment)

  -- What the owner asks of a request.
  pub record IsRequest (r : Request F) : Type 0 where
    pub has_args : is_empty r.args ≡ false
    pub is_absolute : starts_with_slash r.directory ≡ true
    pub few_args : length r.args ≤ 65536
    pub few_entries : length r.environment ≤ 65536

  abbrev pub AreShort : Request F → Type 0
  AreShort r = IsShort r.directory × All IsShort r.args × All IsShort r.environment

  put_request-ok :
      (r : Request F) (b : Buffer) {b' : Buffer} {u : Unit}
      → Fits b
      → put_request r b ≡ (ok u, b')
      → AreShort r × Appended (request_bytes r) b b'
  unfolding put_request
  put_request-ok r b h e =
      let (u1, b1, e1, rest1) = >>=-eq-ok (Buffer.put_string r.directory) _ b e in
      let (u2, b2, e2, rest2) = >>=-eq-ok (put_list r.args) _ b1 rest1 in
      let (short, a1) = put_string-ok r.directory h e1 in
      let (_, all, a2) = put_list-ok r.args b1 a1.fits e2 in
      let (_, all', a3) = put_list-ok r.environment b2 a2.fits rest2 in
      ((short, all, all'), Appended-trans a1 (Appended-trans a2 a3))

  read_request-bytes :
      (r : Request F) (output : F)
      → AreShort r
      → IsRequest r
      → read_request output (request_bytes r) ≡ (ok (record r { output = output }), [])
  unfolding read_request Payload.finish
  read_request-bytes r output h i = rw (
    append_assoc (to_be_bytes (length r.directory)) r.directory,
    string-to_be_bytes r.directory _ h.0,
    strings-bytes r.args (list_bytes r.environment) i.few_args h.1,
    ← append-nil (list_bytes r.environment),
    strings-bytes r.environment [] i.few_entries h.2,
    i.has_args,
    i.is_absolute,
  )

  -- The packet in which a request travels.
  abbrev pub hello : Request F → Packet
  hello r = record { kind = wire_hello; tab = 0; body = request_bytes r }

  pub encode-ok :
      (r : Request F) (bytes : List ℕ)
      → encode r ≡ ok bytes
      → AreShort r × (Packet.encode (hello r) ≡ ok bytes)
  unfolding encode Buffer.default Buffer.with_limit
  encode-ok r bytes e =
      let (u, b, out, sent) = envelope-ok _ bytes e in
      let (short, a) = put_request-ok r Buffer.default (omega arith) out in
      (short, rw a.contents at sent)

  pub decode-hello :
      (r : Request F) (output : F)
      → AreShort r
      → IsRequest r
      → decode (hello r) output ≡ ok (record r { output = output })
  unfolding decode
  decode-hello r output h i = rw (read_request-bytes r output h i)

  -- If `encode` returns bytes for a request with arguments, an absolute directory and at most 65536
  -- arguments and as many entries, then however the bytes are cut into chunks the owner's decoder returns
  -- one packet, without an error, and `decode` makes of it the request with the file it came with.
  pub feed_chunks-request :
      (r : Request F) (output : F) (bytes : List ℕ) (chunks : List (List ℕ))
      → encode r ≡ ok bytes
      → IsRequest r
      → concat chunks ≡ bytes
      → (p : Packet) × (feed_chunks start chunks
          ≡ record { packets = p ∷ []; ending = drained; decoder = start })
        × (decode p output ≡ ok (record r { output = output }))
  feed_chunks-request r output bytes chunks e i whole =
      let (short, sent) = encode-ok r bytes e in
      (
        hello r,
        feed_chunks-encode (hello r ∷ []) (bytes ∷ []) chunks (sent, omega arith, omega arith, tt)
            (whole ∙ sym (append-nil bytes)),
        decode-hello r output short i,
      )
