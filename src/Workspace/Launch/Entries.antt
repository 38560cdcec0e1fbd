-- ===== src/Workspace/Launch/Entries.antt =====
-- The strings and the entries that `Launch::decode` reads.
use worminal.Prelude.{
  length-take, ◌<◌, ◌+◌, ℕ, zero, suc, ◌≤◌, ◌≡◌, refl, ap, true, false, Bool, Option, none, some,
  List, [], ◌∷◌, length, ltb, ◌==◌, arith, All, Bool-cases, inl, inr, subst, ltb_false→le, ◌||◌,
  not,
}
use worminal.Prelude
use worminal.Prelude.Result.{ok, pure, >>=-eq-ok}
use worminal.Protocol.Payload
use worminal.Workspace.Recovery.{contains_nul}
use worminal.Workspace.Launch.{
  Entry, until_nul, c_string, position, push_entry, read_arguments, read_entries,
}

-- No NUL byte.
abbrev pub IsCString : List ℕ → Type 0
IsCString bytes = contains_nul bytes ≡ false

until_nul-IsCString : (bytes : List ℕ) → IsCString (until_nul bytes)
unfolding until_nul contains_nul
until_nul-IsCString [] = refl
until_nul-IsCString (byte ∷ bytes) = ground (arith, until_nul-IsCString bytes)

pub c_string-IsCString :
    (bytes : List ℕ) {s rest : List ℕ} → c_string bytes ≡ (ok s, rest) → IsCString s
unfolding c_string
c_string-IsCString bytes {s} e =
    let (raw, b1, e1, k1) = >>=-eq-ok Payload.string _ bytes e in
    let same : until_nul raw ≡ s = ground arith in subst IsCString same (until_nul-IsCString raw)

abbrev pub AreCStrings : ℕ → List (List ℕ) → Type 0
AreCStrings n ss = (length ss ≡ n) × All IsCString ss

pub read_arguments-AreCStrings :
    (n : ℕ) (bytes : List ℕ) {ss : List (List ℕ)} {rest : List ℕ}
    → read_arguments n bytes ≡ (ok ss, rest)
    → AreCStrings n ss
unfolding read_arguments
read_arguments-AreCStrings zero bytes {ss} e =
    let same : [] ≡ ss = ground arith in subst (AreCStrings 0) same (refl, tt)
read_arguments-AreCStrings (suc n) bytes {ss} e =
    let (s, b1, e1, k1) = >>=-eq-ok c_string _ bytes e in
    let (others, b2, e2, k2) = >>=-eq-ok (read_arguments n) (λ l. pure (s ∷ l)) b1 k1 in
    let same : s ∷ others ≡ ss = ground arith in
    let (l, all) = read_arguments-AreCStrings n b1 e2 in
    subst (AreCStrings (suc n)) same (ap suc l, (c_string-IsCString bytes e1, all))

-- A name is not empty and has no separator; neither it nor its value has a NUL byte.
abbrev pub IsEntry : Entry → Type 0
IsEntry (name, value) =
    (0 < length name) × (position name ≡ none) × IsCString name × IsCString value

IsCString-take : (n : ℕ) (bytes : List ℕ) → IsCString bytes → IsCString (Prelude.take n bytes)
unfolding contains_nul
IsCString-take zero bytes h = refl
IsCString-take (suc n) [] h = refl
IsCString-take (suc n) (byte ∷ bytes) h = ground (arith, IsCString-take n bytes)

IsCString-drop : (n : ℕ) (bytes : List ℕ) → IsCString bytes → IsCString (Prelude.drop n bytes)
unfolding contains_nul
IsCString-drop zero bytes h = h
IsCString-drop (suc n) [] h = refl
IsCString-drop (suc n) (byte ∷ bytes) h = IsCString-drop n bytes (ground arith)

-- Before the first separator there is none.
position-take :
    (bytes : List ℕ) (n : ℕ) → position bytes ≡ some n → position (Prelude.take n bytes) ≡ none
unfolding position
position-take [] n e = cc
position-take (byte ∷ bytes) zero e = refl
position-take (byte ∷ bytes) (suc n) e = ground (arith, position-take bytes n)

position-lt : (bytes : List ℕ) (n : ℕ) → position bytes ≡ some n → n < length bytes
unfolding position
position-lt [] n e = cc
position-lt (byte ∷ bytes) zero e = omega arith
position-lt (byte ∷ bytes) (suc n) e = ground (arith, position-lt bytes n)

abbrev pub AreEntries : ℕ → List Entry → Type 0
AreEntries n entries = (length entries ≤ n) × All IsEntry entries

push_entry-AreEntries :
    (entry : List ℕ) (at_ : Option ℕ) (n : ℕ) (entries : List Entry)
    → IsCString entry
    → position entry ≡ at_
    → AreEntries n entries
    → AreEntries (suc n) (push_entry entry at_ entries)
unfolding push_entry
push_entry-AreEntries entry none n entries c e h = (omega (arith, h.0), h.1)
push_entry-AreEntries entry (some zero) n entries c e h = (omega (arith, h.0), h.1)
push_entry-AreEntries entry (some (suc k)) n entries c e h = (
  omega (arith, h.0),
  (
    (
      omega (arith, length-take (suc k) entry, position-lt entry (suc k) e),
      position-take entry (suc k) e,
      IsCString-take (suc k) entry c,
      IsCString-drop (suc k + 1) entry c,
    ),
    h.1,
  ),
)

pub read_entries-AreEntries :
    (n : ℕ) (bytes : List ℕ) {entries : List Entry} {rest : List ℕ}
    → read_entries n bytes ≡ (ok entries, rest)
    → AreEntries n entries
unfolding read_entries
read_entries-AreEntries zero bytes {entries} e =
    let same : [] ≡ entries = ground arith in subst (AreEntries 0) same (omega arith, tt)
read_entries-AreEntries (suc n) bytes {entries} e =
    let (entry, b1, e1, k1) = >>=-eq-ok c_string _ bytes e in
    let (others, b2, e2, k2) =
      >>=-eq-ok (read_entries n) (λ l. pure (push_entry entry (position entry) l)) b1 k1 in
    let same : push_entry entry (position entry) others ≡ entries = ground arith in
    subst (AreEntries (suc n)) same (
      push_entry-AreEntries entry (position entry) n others (c_string-IsCString bytes e1) refl
        (read_entries-AreEntries n b1 e2))
