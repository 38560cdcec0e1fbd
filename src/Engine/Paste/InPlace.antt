-- ===== src/Engine/Paste/InPlace.antt =====
-- The loop overwrites the array that it reads. What it has written never reaches what it has not read.
use worminal.Prelude.{
  ℕ, zero, suc, ◌+◌, ◌≤◌, ◌<◌, ◌≡◌, refl, sym, ap, ◌∙◌, Option, none, some, List, [], ◌∷◌, ◌++◌,
  length, take, drop, get_or, set, length-set, take-set, drop-set, drop-get_or, drop_all,
  append_assoc, append-nil, arith,
}
use worminal.Engine.Paste.{PasteFilter, step, filter_loop, filter}

abbrev pub maybe_cons : Option ℕ → List ℕ → List ℕ
maybe_cons none bytes = bytes
maybe_cons (some byte) bytes = byte ∷ bytes

-- The filter as a function of a text: the bytes that it lets through, and its state behind them.
unfoldable pub filtered : PasteFilter → List ℕ → List ℕ
filtered f [] = []
filtered f (byte ∷ bytes) = maybe_cons (step f byte).1 (filtered (step f byte).0 bytes)

unfoldable pub after : PasteFilter → List ℕ → PasteFilter
after f [] = f
after f (byte ∷ bytes) = after (step f byte).0 bytes

-- The loop's outcome: the prefix of the array that counts, and the state.
abbrev pub Wrote : List ℕ → PasteFilter → PasteFilter × List ℕ × ℕ → Type 0
Wrote expected f (f', bytes, written) = (take written bytes ≡ expected) × (f' ≡ f)

-- A byte that is let through stands behind what is written, and what is unread stays.
written_byte :
    (i written byte : ℕ) (bytes : List ℕ) (f : PasteFilter)
    → written < i
    → i ≤ length bytes
    → take (written + 1) (set bytes written byte) ++ filtered f (drop i (set bytes written byte))
      ≡ take written bytes ++ byte ∷ filtered f (drop i bytes)
written_byte i written byte bytes f h h' =
    rw
      (
        take-set bytes written (written + 1) byte (omega arith) (omega arith),
        drop-set bytes written i byte h,
        append_assoc (take written bytes) (byte ∷ []) (filtered f (drop i bytes)),
      )
      refl

one_round :
    (rounds i written : ℕ) (bytes : List ℕ) (f : PasteFilter) (out : Option ℕ)
    → written < i
    → i ≤ length bytes
    → Wrote
        (take written bytes ++ filtered f (drop i bytes))
        (after f (drop i bytes))
        (filter_loop rounds i written bytes f)
    → ((byte : ℕ)
        → Wrote
            (take (written + 1) (set bytes written byte)
              ++ filtered f (drop i (set bytes written byte)))
            (after f (drop i (set bytes written byte)))
            (filter_loop rounds i (written + 1) (set bytes written byte) f))
    → Wrote
        (take written bytes ++ maybe_cons out (filtered f (drop i bytes)))
        (after f (drop i bytes))
        (elim out [
          | none ↦ filter_loop rounds i written bytes f
          | some byte ↦ filter_loop rounds i (written + 1) (set bytes written byte) f
        ])
one_round rounds i written bytes f none h h' skip keep = skip
one_round rounds i written bytes f (some byte) h h' skip keep = (
  (keep byte).0 ∙ written_byte i written byte bytes f h h',
  (keep byte).1 ∙ ap (after f) (drop-set bytes written i byte h),
)

filter_loop-Wrote :
    (rounds i written : ℕ) (bytes : List ℕ) (f : PasteFilter)
    → i + rounds ≡ length bytes
    → written ≤ i
    → Wrote
        (take written bytes ++ filtered f (drop i bytes))
        (after f (drop i bytes))
        (filter_loop rounds i written bytes f)
unfolding filter_loop filtered after
filter_loop-Wrote zero i written bytes f e h =
    rw (drop_all i bytes (omega arith)) (sym (append-nil (take written bytes)), refl)
filter_loop-Wrote (suc rounds) i written bytes f e h =
    let f' = (step f (get_or bytes i 0)).0 in
    rw (drop-get_or bytes i (i + 1) 0 (omega arith) (omega arith)) (
      one_round rounds (i + 1) written bytes f' (step f (get_or bytes i 0)).1 (omega arith)
        (omega arith)
        (filter_loop-Wrote rounds (i + 1) written bytes f' (omega arith) (omega arith))
        (λ byte.
          filter_loop-Wrote rounds (i + 1) (written + 1) (set bytes written byte) f'
            (omega (arith, length-set bytes written byte)) (omega arith)))

pub filter-Wrote :
    (f : PasteFilter) (bytes : List ℕ) → Wrote (filtered f bytes) (after f bytes) (filter f bytes)
unfolding filter
filter-Wrote f bytes = filter_loop-Wrote (length bytes) 0 0 bytes f (omega arith) (omega arith)
