-- ===== src/Workspace/BrowserTarget/Resolve.antt =====
-- What `resolve_in` makes of a target.
use worminal.Prelude.{
  ◌==◌, if◌then◌else◌, ℕ, ◌≤◌, ◌<◌, ◌≡◌, ◌≢◌, refl, sym, subst, Bool, true, false, Option, none,
  some, List, [], ◌∷◌, ◌++◌, length, All, ltb, arith, Bool-cases, inl, inr, ltb_false→le, ◌⊎◌,
}
use worminal.Prelude.Result.{Result, ok, err, invalid_filename}
use worminal.Workspace.Recovery.{starts_with_slash}
use worminal.Workspace.BrowserTarget.{
  Lookup, file_scheme, https_scheme, authority, has_scheme, escape, file_url, local_path, local_url,
  resolve_in,
}
use worminal.Workspace.BrowserTarget.Scheme.{HasScheme, has_scheme-HasScheme, no_scheme-HasScheme}
use worminal.Workspace.BrowserTarget.Escape.{unescape, unescape-escape, IsSafe, escape-IsSafe}

abbrev pub AreBytes : List ℕ → Type 0
AreBytes bytes = All (λ byte. byte < 256) bytes

-- A text behind a directory, unless it starts at the root.
abbrev joined : List ℕ → List ℕ → List ℕ
joined directory [] = directory ++ b'/' ∷ []
joined directory (byte ∷ bytes) =
    if byte == b'/' then byte ∷ bytes else directory ++ b'/' ∷ byte ∷ bytes

joined-local_path : (directory bytes : List ℕ) → joined directory bytes ≡ local_path directory bytes
unfolding local_path starts_with_slash
joined-local_path directory [] = refl
joined-local_path directory (byte ∷ bytes) = refl

-- The file that a lookup of a text in a directory means: its canonical path, else the text itself or
-- joined to the directory.
unfoldable pub file_of : Lookup → List ℕ → List ℕ → List ℕ
file_of found directory bytes = elim found.canonical [
  | some path ↦ path
  | none ↦ joined directory bytes
]

-- A file's URL: the scheme, then safe bytes that the percent decoding makes the file's path.
pub record IsFileUrl (path url : List ℕ) : Type 0 where
  pub rest : List ℕ
  pub parts : url ≡ file_scheme ++ rest
  pub safe : All IsSafe rest
  pub decoded : unescape rest ≡ path
  pub bounded : length path ≤ 65536

escape-IsFileUrl :
    (path : List ℕ)
    → AreBytes path
    → length path ≤ 65536
    → IsFileUrl path (file_scheme ++ escape path)
escape-IsFileUrl path h short = record {
  rest = escape path;
  parts = refl;
  safe = escape-IsSafe path h;
  decoded = unescape-escape path h;
  bounded = short;
}

module _ (is_ipv6 : List ℕ → Bool) (found : Lookup) (directory bytes : List ℕ) where
  -- A text that names a file: it is no URL, and no web address unless there is such a file, or one that
  -- cannot be told.
  pub record IsLocal : Type 0 where
    pub some_text : bytes ≢ []
    pub no_scheme : (authority is_ipv6 bytes ≡ true) ⊎ (¬ HasScheme bytes)
    pub no_site :
        (authority is_ipv6 bytes ≡ false) ⊎ (found.canonical ≢ none) ⊎ (found.absent ≡ false)

  -- What a text becomes, by what it is. Only the length of a file's path is an error.
  abbrev pub Outcome : Result (List ℕ) → Type 0
  Outcome (ok url) =
      ((bytes ≡ []) × (url ≡ []))
      ⊎ ((url ≡ bytes) × (bytes ≢ []) × HasScheme bytes × (authority is_ipv6 bytes ≡ false))
      ⊎ ((url ≡ https_scheme ++ bytes)
          × (bytes ≢ [])
          × (authority is_ipv6 bytes ≡ true)
          × (found.canonical ≡ none)
          × (found.absent ≡ true))
      ⊎ (IsLocal × IsFileUrl (file_of found directory bytes) url)
  Outcome (err e) =
      IsLocal × (e ≡ invalid_filename) × (65536 < length (file_of found directory bytes))

  file_url-Outcome :
      (path : List ℕ)
      → file_of found directory bytes ≡ path
      → IsLocal
      → AreBytes path
      → Outcome (file_url path)
  unfolding file_url
  file_url-Outcome path e l h = elim (Bool-cases (ltb 65536 (length path))) [
    | inl long ↦ rw long (l, refl, ground arith)
    | inr short ↦ rw short (
        inr (
          inr (
            inr (
              l,
              subst (λ p. IsFileUrl p (file_scheme ++ escape path)) (sym e)
                  (escape-IsFileUrl path h (ltb_false→le _ _ short)),
            ))))
  ]

local_url-Outcome :
    (is_ipv6 : List ℕ → Bool) (canonical : Option (List ℕ)) (absent web : Bool)
    (directory bytes : List ℕ)
    → bytes ≢ []
    → authority is_ipv6 bytes ≡ web
    → (web ≡ true) ⊎ (¬ HasScheme bytes)
    → let found : Lookup = record { canonical = canonical; absent = absent } in
      AreBytes (file_of found directory bytes)
      → Outcome is_ipv6 found directory bytes (local_url web found directory bytes)
unfolding local_url file_of
local_url-Outcome is_ipv6 (some path) absent web directory bytes n e s h =
    file_url-Outcome is_ipv6 (record { canonical = some path; absent = absent }) directory bytes
      path refl (record { some_text = n; no_scheme = rw e s; no_site = inr (inl (λ none'. cc)) }) h
local_url-Outcome is_ipv6 none true true directory bytes n e s h =
    inr (inr (inl (refl, n, e, refl, refl)))
local_url-Outcome is_ipv6 none false true directory bytes n e s h =
    file_url-Outcome is_ipv6 (record { canonical = none; absent = false }) directory bytes
      (local_path directory bytes) (joined-local_path directory bytes)
      (record { some_text = n; no_scheme = inl e; no_site = inr (inr refl) })
      (subst AreBytes (joined-local_path directory bytes) h)
local_url-Outcome is_ipv6 none absent false directory bytes n e s h =
    file_url-Outcome is_ipv6 (record { canonical = none; absent = absent }) directory bytes
      (local_path directory bytes) (joined-local_path directory bytes)
      (record { some_text = n; no_scheme = rw e s; no_site = inl e })
      (subst AreBytes (joined-local_path directory bytes) h)

-- Whatever the file system answers of a text, where the file meant has a path of bytes, and with a web
-- address what `authority` takes for one: an empty text becomes nothing; a text that starts with a scheme (a
-- letter, then letters, digits, pluses, hyphens and dots, then a colon) and is no web address becomes
-- itself; a web address becomes itself behind `https://` where its path has no canonical form and there is
-- no such file; any other text, and no other, becomes the URL of the file, safe bytes that decode to the
-- file's path, and fails just where that path has over 65536 bytes.
pub resolve_in-Outcome :
    (is_ipv6 : List ℕ → Bool) (found : Lookup) (directory bytes : List ℕ)
    → AreBytes (file_of found directory bytes)
    → Outcome is_ipv6 found directory bytes (resolve_in is_ipv6 found (some bytes) directory)
unfolding resolve_in
resolve_in-Outcome is_ipv6 found directory [] h = inl (refl, refl)
resolve_in-Outcome is_ipv6 found directory (byte ∷ bytes) h =
    let text : List ℕ = byte ∷ bytes in
    let some_text : text ≢ [] = λ empty. cc in
    elim (Bool-cases (authority is_ipv6 text)) [
      | inl web ↦ rw web (
          local_url-Outcome is_ipv6 found.canonical found.absent true directory text some_text web
            (inl refl) h)
      | inr other ↦ elim (Bool-cases (has_scheme text)) [
        | inl scheme ↦
            rw (other, scheme)
              (inr (inl (refl, some_text, has_scheme-HasScheme text scheme, other)))
        | inr plain ↦
            rw (other, plain)
              (local_url-Outcome is_ipv6 found.canonical found.absent false directory text some_text
                other (inr (no_scheme-HasScheme text plain)) h)
      ]
    ]
