-- ===== src/Workspace/BrowserTarget/Escape.antt =====
-- A path is read back from its URL.
use worminal.Prelude.{
  ℕ, ◌+◌, ◌-◌, ◌*◌, ◌/◌, ◌%◌, ◌<◌, ◌≡◌, refl, ap, ◌∙◌, true, false, List, [], ◌∷◌, ltb, ◌==◌, ◌||◌,
  if◌then◌else◌, All, arith, Bool-cases, inl, inr,
}
use worminal.Workspace.BrowserTarget.{
  is_ascii_digit, is_ascii_alphabetic, is_ascii_alphanumeric, contains, hex, is_plain, escape,
}

-- The number of a digit.
unfoldable pub unhex : ℕ → ℕ
unhex digit = if ltb digit b'A' then digit - b'0' else digit - b'A' + 10

-- The percent decoding of a URL's path.
unfoldable pub unescape : List ℕ → List ℕ
unescape [] = []
unescape (a ∷ []) = a ∷ []
unescape (a ∷ b ∷ []) = a ∷ b ∷ []
unescape (a ∷ b ∷ c ∷ bytes) =
    let rest = unescape bytes in
    let next = unescape (b ∷ c ∷ bytes) in
    if a == b'%' then (unhex b * 16 + unhex c) ∷ rest else a ∷ next

unhex-hex : (digit : ℕ) → digit < 16 → unhex (hex digit) ≡ digit
unfolding unhex hex
unhex-hex digit h = ground arith

percent-escaped : is_plain b'%' ≡ false
unfolding is_plain is_ascii_alphanumeric is_ascii_alphabetic is_ascii_digit contains
percent-escaped = refl

-- A byte that is not a percent sign stands for itself.
unescape_plain :
    (byte : ℕ) (bytes : List ℕ)
    → (byte == b'%') ≡ false
    → unescape (byte ∷ bytes) ≡ byte ∷ unescape bytes
unfolding unescape
unescape_plain byte [] e = refl
unescape_plain byte (b ∷ []) e = refl
unescape_plain byte (b ∷ c ∷ bytes) e = rw e refl

unescape_percent :
    (byte : ℕ) (bytes : List ℕ)
    → byte < 256
    → unescape (b'%' ∷ hex (byte / 16) ∷ hex (byte % 16) ∷ bytes) ≡ byte ∷ unescape bytes
unfolding unescape
unescape_percent byte bytes h =
    rw (unhex-hex (byte / 16) (omega (arith, h)), unhex-hex (byte % 16) (omega arith))
      (ap (λ b. b ∷ unescape bytes) (omega arith))

is_plain-percent : (byte : ℕ) → is_plain byte ≡ true → (byte == b'%') ≡ false
unfolding is_plain is_ascii_alphanumeric is_ascii_alphabetic is_ascii_digit contains
is_plain-percent byte e = ground arith

-- The percent decoding of what `escape` makes of bytes gives them back.
pub unescape-escape :
    (path : List ℕ) → All (λ byte. byte < 256) path → unescape (escape path) ≡ path
unfolding escape
unescape-escape [] h = unfold unescape in refl
unescape-escape (byte ∷ path) h = elim (Bool-cases (is_plain byte)) [
  | inl plain ↦ rw plain (
      unescape_plain byte (escape path) (is_plain-percent byte plain)
      ∙ ap (λ l. byte ∷ l) (unescape-escape path h.1))
  | inr other ↦
      rw other
        (unescape_percent byte (escape path) h.0 ∙ ap (λ l. byte ∷ l) (unescape-escape path h.1))
]

-- A byte that a URL may hold: plain, a percent sign, or a hexadecimal digit.
abbrev pub IsSafe : ℕ → Type 0
IsSafe byte = (is_plain byte || byte == b'%') ≡ true

hex-IsSafe : (digit : ℕ) → digit < 16 → IsSafe (hex digit)
unfolding is_plain is_ascii_alphanumeric is_ascii_alphabetic is_ascii_digit contains hex
hex-IsSafe digit h = ground arith

pub escape-IsSafe : (path : List ℕ) → All (λ byte. byte < 256) path → All IsSafe (escape path)
unfolding escape
escape-IsSafe [] h = tt
escape-IsSafe (byte ∷ path) h = elim (Bool-cases (is_plain byte)) [
  | inl plain ↦ rw plain (ground arith, escape-IsSafe path h.1)
  | inr other ↦ rw other (
    ground arith,
    (
      hex-IsSafe (byte / 16) (omega (arith, h.0)),
      (hex-IsSafe (byte % 16) (omega arith), escape-IsSafe path h.1),
    ),
  )
]
