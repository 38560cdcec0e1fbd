-- ===== src/Workspace/BrowserTarget/Scheme.antt =====
-- What has a scheme, said without the loop that looks for it.
use worminal.Prelude.{
  ℕ, ◌≤◌, ◌≡◌, refl, ap, ◌⊎◌, inl, inr, Bool, true, false, not, ◌&&◌, List, [], ◌∷◌, ◌++◌, ◌==◌,
  All, get_or, arith, Bool-cases,
}
use worminal.Workspace.BrowserTarget.{
  is_ascii_digit, is_ascii_alphabetic, is_ascii_alphanumeric, contains, position_or_end, has_scheme,
}

abbrev IsLetter : ℕ → Type 0
IsLetter byte = ((b'A' ≤ byte) × (byte ≤ b'Z')) ⊎ ((b'a' ≤ byte) × (byte ≤ b'z'))

-- A letter, a digit, a plus, a hyphen or a dot.
abbrev IsNameByte : ℕ → Type 0
IsNameByte byte =
    IsLetter byte ⊎ ((b'0' ≤ byte) × (byte ≤ b'9')) ⊎ (byte ≡ b'+') ⊎ (byte ≡ b'-') ⊎ (byte ≡ b'.')

-- A letter, bytes of a name, a colon, and whatever comes behind.
pub record HasScheme (bytes : List ℕ) : Type 0 where
  pub letter : ℕ
  pub name : List ℕ
  pub behind : List ℕ
  pub parts : bytes ≡ letter ∷ (name ++ b':' ∷ behind)
  pub is_letter : IsLetter letter
  pub is_name : All IsNameByte name

abbrev ends : ℕ → Bool
ends b = not (is_ascii_alphanumeric b) && not (contains (b'+' ∷ b'-' ∷ b'.' ∷ []) b)

is_ascii_alphabetic-IsLetter : (b : ℕ) → is_ascii_alphabetic b ≡ true → IsLetter b
unfolding is_ascii_alphabetic
is_ascii_alphabetic-IsLetter b e = ground arith

IsLetter-is_ascii_alphabetic : (b : ℕ) → IsLetter b → is_ascii_alphabetic b ≡ true
unfolding is_ascii_alphabetic
IsLetter-is_ascii_alphabetic b (inl h) = ground (arith, h.0, h.1)
IsLetter-is_ascii_alphabetic b (inr h) = ground (arith, h.0, h.1)

ends-IsNameByte : (b : ℕ) → ends b ≡ false → IsNameByte b
unfolding is_ascii_alphanumeric is_ascii_alphabetic is_ascii_digit contains
ends-IsNameByte b e = ground arith

IsNameByte-ends : (b : ℕ) → IsNameByte b → ends b ≡ false
unfolding is_ascii_alphanumeric is_ascii_alphabetic is_ascii_digit contains
IsNameByte-ends b h = ground arith

-- A name and a colon, at which the search ends.
abbrev Colon : List ℕ → Type 0
Colon bytes =
    (name : List ℕ) × (behind : List ℕ) × (bytes ≡ name ++ b':' ∷ behind) × All IsNameByte name

position_or_end-Colon :
    (bytes : List ℕ) → (get_or bytes (position_or_end ends bytes) 0 == b':') ≡ true → Colon bytes
unfolding position_or_end
position_or_end-Colon [] e = absurd (ground arith)
position_or_end-Colon (b ∷ bytes) e = elim (Bool-cases (ends b)) [
  | inl stop ↦
      let colon : (b == b':') ≡ true = rw stop at e in
      let same : b ≡ b':' = ground arith in ([], bytes, ap (λ c. c ∷ bytes) same, tt)
  | inr go ↦
      let (name, behind, parts, all) = position_or_end-Colon bytes (rw go at e) in
      (b ∷ name, behind, ap (λ l. b ∷ l) parts, (ends-IsNameByte b go, all))
]

get_or-position_or_end :
    (name behind : List ℕ)
    → All IsNameByte name
    → (let bytes = name ++ b':' ∷ behind in get_or bytes (position_or_end ends bytes) 0 == b':')
      ≡ true
unfolding position_or_end is_ascii_alphanumeric is_ascii_alphabetic is_ascii_digit contains
get_or-position_or_end [] behind h = refl
get_or-position_or_end (b ∷ name) behind h =
    rw (IsNameByte-ends b h.0, get_or-position_or_end name behind h.1) refl

pub has_scheme-HasScheme : (bytes : List ℕ) → has_scheme bytes ≡ true → HasScheme bytes
unfolding has_scheme
has_scheme-HasScheme [] e = absurd (cc)
has_scheme-HasScheme (byte ∷ bytes) e =
    let (name, behind, parts, all) = position_or_end-Colon bytes (ground arith) in
    record {
      letter = byte;
      name = name;
      behind = behind;
      parts = ap (λ l. byte ∷ l) parts;
      is_letter = is_ascii_alphabetic-IsLetter byte (ground arith);
      is_name = all;
    }

HasScheme-has_scheme : (bytes : List ℕ) → HasScheme bytes → has_scheme bytes ≡ true
unfolding has_scheme
HasScheme-has_scheme bytes h =
    rw
      (
        h.parts,
        IsLetter-is_ascii_alphabetic h.letter h.is_letter,
        get_or-position_or_end h.name h.behind h.is_name,
      )
      refl

pub no_scheme-HasScheme : (bytes : List ℕ) → has_scheme bytes ≡ false → ¬ HasScheme bytes
no_scheme-HasScheme bytes e h = let has = HasScheme-has_scheme bytes h in cc
