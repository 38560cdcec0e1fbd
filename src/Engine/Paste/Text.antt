-- ===== src/Engine/Paste/Text.antt =====
-- What the paste filter makes of a text, chunk by chunk.
use worminal.Prelude.{
  append-nil, subst, ==_iff, inl, inr, ℕ, ◌≡◌, refl, sym, ap, ◌∙◌, Bool, true, false, ◌||◌, ◌&&◌,
  Option, none, some, List, [], ◌∷◌, ◌++◌, if◌then◌else◌, ◌==◌, take, concat, Bool-cases,
}
use worminal.Engine.Paste.{PasteFilter, new, step, filter}
use worminal.Engine.Paste.InPlace.{maybe_cons, filtered, after, filter-Wrote}

-- A paste that comes in chunks: what `filter` lets through of each, and the filter left.
unfoldable pub paste : PasteFilter → List (List ℕ) → PasteFilter × List ℕ
paste f [] = (f, [])
paste f (chunk ∷ chunks) =
    let (f', bytes, written) = filter f chunk in
    let (f'', rest) = paste f' chunks in (f'', take written bytes ++ rest)

maybe_cons-append :
    (out : Option ℕ) (xs ys : List ℕ) → maybe_cons out (xs ++ ys) ≡ maybe_cons out xs ++ ys
maybe_cons-append none xs ys = refl
maybe_cons-append (some byte) xs ys = refl

filtered-append :
    (f : PasteFilter) (xs ys : List ℕ)
    → filtered f (xs ++ ys) ≡ filtered f xs ++ filtered (after f xs) ys
unfolding filtered after
filtered-append f [] ys = refl
filtered-append f (x ∷ xs) ys =
    rw (filtered-append (step f x).0 xs ys)
      (maybe_cons-append (step f x).1 (filtered (step f x).0 xs) _)

after-append : (f : PasteFilter) (xs ys : List ℕ) → after f (xs ++ ys) ≡ after (after f xs) ys
unfolding after
after-append f [] ys = refl
after-append f (x ∷ xs) ys = after-append (step f x).0 xs ys

paste-filtered :
    (f : PasteFilter) (chunks : List (List ℕ))
    → paste f chunks ≡ (after f (concat chunks), filtered f (concat chunks))
unfolding paste filtered after
paste-filtered f [] = refl
paste-filtered f (chunk ∷ chunks) =
    rw
      (
        (filter-Wrote f chunk).0,
        (filter-Wrote f chunk).1,
        paste-filtered (after f chunk) chunks,
        filtered-append f chunk (concat chunks),
        after-append f chunk (concat chunks),
      )
      refl

-- The bytes that a bracketed paste may not hold, and the text without them.
unfoldable pub is_control : ℕ → Bool
is_control byte = byte == 0x1b || byte == 0x03

unfoldable pub without_controls : List ℕ → List ℕ
without_controls [] = []
without_controls (byte ∷ bytes) =
    let rest = without_controls bytes in if is_control byte then rest else byte ∷ rest

bracketed-filtered :
    (previous : Bool) (bytes : List ℕ)
    → filtered (record { bracketed = true; previous_cr = previous }) bytes ≡ without_controls bytes
unfolding filtered step without_controls is_control
bracketed-filtered previous [] = refl
bracketed-filtered previous (byte ∷ bytes) = elim (Bool-cases (byte == 0x1b || byte == 0x03)) [
  | inl e ↦ rw e (bracketed-filtered previous bytes)
  | inr e ↦ rw e (ap (λ l. byte ∷ l) (bracketed-filtered (byte == b'\r') bytes))
]

-- A text with every line ending, CR LF or LF, made one CR: by looking ahead, without a state.
unfoldable pub folded : List ℕ → List ℕ
folded [] = []
folded (byte ∷ []) = (if byte == b'\n' then b'\r' else byte) ∷ []
folded (byte ∷ next ∷ bytes) =
    let rest = folded bytes in
    let rest' = folded (next ∷ bytes) in
    if byte == b'\r' && next == b'\n'
    then b'\r' ∷ rest
    else (if byte == b'\n' then b'\r' else byte) ∷ rest'

-- Behind a CR the filter drops an LF; everything else it takes as it does at the start.
filtered-plain :
    (byte : ℕ) (bytes : List ℕ)
    → filtered (new false) (byte ∷ bytes)
      ≡ (if byte == b'\n' then b'\r' else byte)
        ∷ filtered (record { bracketed = false; previous_cr = byte == b'\r' }) bytes
unfolding filtered step new
filtered-plain byte bytes = elim (Bool-cases (byte == b'\n')) [
  | inl e ↦ rw (e, (==_iff byte b'\n').0 e) refl
  | inr e ↦ rw e refl
]

filtered-behind_cr :
    (byte : ℕ) (bytes : List ℕ)
    → filtered (record { bracketed = false; previous_cr = true }) (byte ∷ bytes)
      ≡ (if byte == b'\n' then filtered (new false) bytes else filtered (new false) (byte ∷ bytes))
unfolding filtered step new
filtered-behind_cr byte bytes = elim (Bool-cases (byte == b'\n')) [
  | inl e ↦ rw e refl
  | inr e ↦ rw e refl
]

fresh-folded : (bytes : List ℕ) → filtered (new false) bytes ≡ folded bytes
unfolding filtered folded new
fresh-folded [] = refl
fresh-folded (byte ∷ []) = filtered-plain byte []
fresh-folded (byte ∷ next ∷ bytes) =
    filtered-plain byte (next ∷ bytes) ∙ elim (Bool-cases (byte == b'\r')) [
      | inl e ↦
          subst
            (λ b.
              (if b == b'\n' then b'\r' else b)
                ∷ filtered (record { bracketed = false; previous_cr = b == b'\r' }) (next ∷ bytes)
              ≡ folded (b ∷ next ∷ bytes))
            (sym ((==_iff byte b'\r').0 e))
            (ap (λ l. b'\r' ∷ l) (filtered-behind_cr next bytes)
              ∙ elim (Bool-cases (next == b'\n')) [
                | inl e' ↦ rw e' (ap (λ l. b'\r' ∷ l) (fresh-folded bytes))
                | inr e' ↦ rw e' (ap (λ l. b'\r' ∷ l) (fresh-folded (next ∷ bytes)))
              ])
      | inr e ↦
          rw e (ap (λ l. (if byte == b'\n' then b'\r' else byte) ∷ l) (fresh-folded (next ∷ bytes)))
    ]

-- From any filter, however a pasted text is cut into chunks, the chunks' outputs joined and
-- the filter left are those of one call of `filter` on the whole text.
pub paste-concat :
    (f : PasteFilter) (chunks : List (List ℕ)) → paste f chunks ≡ paste f (concat chunks ∷ [])
paste-concat f chunks =
    rw (paste-filtered f chunks, paste-filtered f (concat chunks ∷ []), append-nil (concat chunks))
      refl

-- A bracketed paste, however it is cut into chunks, is let through without its ESC and ETX
-- bytes and otherwise unchanged.
pub bracketed-paste :
    (chunks : List (List ℕ)) → (paste (new true) chunks).1 ≡ without_controls (concat chunks)
unfolding new
bracketed-paste chunks =
    rw (paste-filtered (new true) chunks) (bracketed-filtered false (concat chunks))

-- An ordinary paste, however it is cut into chunks, is let through with every CR LF and
-- every other LF made one CR, and otherwise unchanged.
pub ordinary-paste :
    (chunks : List (List ℕ)) → (paste (new false) chunks).1 ≡ folded (concat chunks)
ordinary-paste chunks = rw (paste-filtered (new false) chunks) (fresh-folded (concat chunks))
