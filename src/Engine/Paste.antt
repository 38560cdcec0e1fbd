-- ===== src/Engine/Paste.antt =====
-- src/engine/src/paste.rs: the normalisation of pasted text, in place.
pub mod InPlace
pub mod Text
mod Tests
use worminal.Prelude.{
  ℕ, zero, suc, ◌+◌, Bool, true, false, not, ◌&&◌, ◌||◌, Option, none, some, List, [], ◌∷◌, ◌==◌,
  if◌then◌else◌, length, get_or, set,
}

pub record PasteFilter : Type 0 where
  pub bracketed : Bool
  pub previous_cr : Bool

unfoldable pub new : Bool → PasteFilter
new bracketed = record { bracketed = bracketed; previous_cr = false }

-- The body of the loop on one byte: `none` is its `continue`.
unfoldable pub step : PasteFilter → ℕ → PasteFilter × Option ℕ
step f byte =
    if f.bracketed && (byte == 0x1b || byte == 0x03)
    then (f, none)
    else if not f.bracketed && byte == b'\n'
    then (record f { previous_cr = false }, if f.previous_cr then none else some b'\r')
    else (record f { previous_cr = byte == b'\r' }, some byte)

-- The loop, with the rounds left; the result is the filter, the array and `written`.
unfoldable pub filter_loop : ℕ → ℕ → ℕ → List ℕ → PasteFilter → PasteFilter × List ℕ × ℕ
filter_loop zero i written bytes f = (f, bytes, written)
filter_loop (suc rounds) i written bytes f =
    let (f', out) = step f (get_or bytes i 0) in
    elim out [
      | none ↦ filter_loop rounds (i + 1) written bytes f'
      | some byte ↦ filter_loop rounds (i + 1) (written + 1) (set bytes written byte) f'
    ]

unfoldable pub filter : PasteFilter → List ℕ → PasteFilter × List ℕ × ℕ
unfolding filter_loop step
filter f bytes = filter_loop (length bytes) 0 0 bytes f

unfoldable pub paste_begin : List ℕ
paste_begin = 0x1b ∷ b'[' ∷ b'2' ∷ b'0' ∷ b'0' ∷ b'~' ∷ []

unfoldable pub paste_end : List ℕ
paste_end = 0x1b ∷ b'[' ∷ b'2' ∷ b'0' ∷ b'1' ∷ b'~' ∷ []
