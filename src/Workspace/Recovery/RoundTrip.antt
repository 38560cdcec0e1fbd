-- ===== src/Workspace/Recovery/RoundTrip.antt =====
-- What `encode` writes, `decode` reads back.
use worminal.Prelude.{
  ℕ, ◌≤◌, ◌<◌, ◌≡◌, refl, sym, ap, ◌∙◌, true, List, [], ◌∷◌, ◌++◌, ltb, length, All, append_assoc,
  append-nil, arith, Bool-cases, inl, inr, subst, ltb_false→le, le→ltb_false,
}
use worminal.Prelude.Result.{ok, >>=-eq-ok}
use worminal.Prelude.Bytes.{u32_mod, to_be_bytes}
use worminal.Protocol.Buffer
use worminal.Protocol.Buffer.{Buffer}
use worminal.Protocol.Buffer.Laws.{
  Fits, Appended, Appended-trans, Appended-nil, put_string-ok, put_u32-ok,
}
use worminal.Protocol.Payload
use worminal.Protocol.Payload.Laws.{u32-to_be_bytes, string-to_be_bytes}
use worminal.Protocol.Packet.{finished-ok}
use worminal.Workspace.Recovery.{
  Recipe, restore_version, restore_limit, restore_tabs, valid, read_recipes, read_file, decode,
  put_recipes, put_file, encode,
}

-- A string with its length before it.
abbrev pub string_bytes : List ℕ → List ℕ
string_bytes bs = to_be_bytes (length bs) ++ bs

abbrev pub recipe_bytes : List Recipe → List ℕ
recipe_bytes [] = []
recipe_bytes (r ∷ rs) = (string_bytes r.directory ++ string_bytes r.url) ++ recipe_bytes rs

module _ (directory_limit : ℕ) where
  -- A recipe that the encoder lets through.
  abbrev pub IsWritable : Recipe → Type 0
  IsWritable r =
      (valid directory_limit r ≡ true) × (length r.directory < u32_mod) × (length r.url < u32_mod)

  put_recipes-ok :
      (rs : List Recipe) (b : Buffer) {b' : Buffer} {u : Unit}
      → Fits b
      → put_recipes directory_limit rs b ≡ (ok u, b')
      → All IsWritable rs × Appended (recipe_bytes rs) b b'
  unfolding put_recipes
  put_recipes-ok [] b h e =
      (tt, let same : b ≡ _ = ground arith in subst (Appended [] b) same (Appended-nil h))
  put_recipes-ok (r ∷ rs) b {b'} {u} h e = elim (Bool-cases (valid directory_limit r)) [
    | inl fine ↦
        let (u1, b1, e1, rest1) = >>=-eq-ok (Buffer.put_string r.directory) _ b (rw fine at e) in
        let (u2, b2, e2, rest2) = >>=-eq-ok (Buffer.put_string r.url) _ b1 rest1 in
        let (small1, a1) = put_string-ok r.directory h e1 in
        let (small2, a2) = put_string-ok r.url a1.fits e2 in
        let (all, a3) = put_recipes-ok rs b2 a2.fits rest2 in
        (((fine, small1, small2), all), Appended-trans (Appended-trans a1 a2) a3)
    | inr bad ↦ absurd (ground arith)
  ]

  read_recipes-bytes :
      (rs : List Recipe) (rest : List ℕ)
      → All IsWritable rs
      → read_recipes directory_limit (length rs) (recipe_bytes rs ++ rest) ≡ (ok rs, rest)
  unfolding read_recipes
  read_recipes-bytes [] rest h = refl
  read_recipes-bytes (r ∷ rs) rest h = rw (
    append_assoc (string_bytes r.directory ++ string_bytes r.url) (recipe_bytes rs) rest,
    append_assoc (string_bytes r.directory) (string_bytes r.url) (recipe_bytes rs ++ rest),
    append_assoc (to_be_bytes (length r.directory)) r.directory,
    string-to_be_bytes r.directory _ h.0.1,
    append_assoc (to_be_bytes (length r.url)) r.url,
    string-to_be_bytes r.url _ h.0.2,
    h.0.0,
    read_recipes-bytes rs rest h.1,
  )

  abbrev pub file_bytes : List Recipe → List ℕ
  file_bytes rs = to_be_bytes restore_version ++ (to_be_bytes (length rs) ++ recipe_bytes rs)

  put_file-ok :
      (rs : List Recipe) (b : Buffer) {b' : Buffer} {u : Unit}
      → Fits b
      → put_file directory_limit rs b ≡ (ok u, b')
      → All IsWritable rs × Appended (file_bytes rs) b b'
  unfolding put_file
  put_file-ok rs b h e =
      let (u1, b1, e1, rest1) = >>=-eq-ok (Buffer.put_u32 restore_version) _ b e in
      let (u2, b2, e2, rest2) = >>=-eq-ok (Buffer.put_u32 (length rs)) _ b1 rest1 in
      let a1 = put_u32-ok restore_version h e1 in
      let a2 = put_u32-ok (length rs) a1.fits e2 in
      let (all, a3) = put_recipes-ok rs b2 a2.fits rest2 in
      (all, Appended-trans a1 (Appended-trans a2 a3))

  -- What the encoder accepted.
  pub encode-ok :
      (rs : List Recipe) (bytes : List ℕ)
      → encode directory_limit rs ≡ ok bytes
      → (length rs ≤ restore_tabs)
        × All IsWritable rs
        × (bytes ≡ file_bytes rs)
        × (length bytes ≤ restore_limit)
  unfolding encode Buffer.with_limit
  encode-ok rs bytes e = elim (Bool-cases (ltb restore_tabs (length rs))) [
    | inl many ↦ absurd (ground arith)
    | inr few ↦
        let (u, b, out, bs) = finished-ok _ bytes (rw few at e) in
        let (all, a) = put_file-ok rs (Buffer.with_limit restore_limit) (omega arith) out in
        (
          ltb_false→le _ _ few,
          all,
          sym bs ∙ a.contents,
          omega (arith, a.fits, a.limit_kept, ap length bs),
        )
  ]

  -- If `encode` returns bytes for some recipes, `decode` of those bytes returns the recipes.
  pub decode-encode :
      (rs : List Recipe) (bytes : List ℕ)
      → encode directory_limit rs ≡ ok bytes
      → decode directory_limit bytes ≡ ok rs
  unfolding decode read_file Payload.finish
  decode-encode rs bytes e =
      let (few, all, contents, fits) = encode-ok rs bytes e in
      rw (
        le→ltb_false restore_limit (length bytes) fits,
        contents,
        u32-to_be_bytes restore_version _ (omega arith),
        u32-to_be_bytes (length rs) (recipe_bytes rs) (omega arith),
        le→ltb_false restore_tabs (length rs) few,
        ← append-nil (recipe_bytes rs),
        read_recipes-bytes rs [] all,
      )
