-- ===== src/Engine/Paste/Tests.antt =====
-- The paste filter at concrete inputs.
use worminal.Prelude.{ℕ, ◌≡◌, refl, true, false, List, [], ◌∷◌, concat}
use worminal.Engine.Paste.{new, filter, step, filter_loop}
use worminal.Engine.Paste.Text.{
  paste, folded, without_controls, paste-concat, bracketed-paste, ordinary-paste,
}

-- A CR LF that straddles two chunks, an LF alone, and a closing ESC.
abbrev chunks : List (List ℕ)
chunks = (b'a' ∷ b'\r' ∷ []) ∷ (b'\n' ∷ b'b' ∷ b'\n' ∷ []) ∷ (0x1b ∷ b'[' ∷ []) ∷ []

straddling : (paste (new false) chunks).1 ≡ b'a' ∷ b'\r' ∷ b'b' ∷ b'\r' ∷ 0x1b ∷ b'[' ∷ []
unfolding paste new filter step filter_loop
straddling = refl

enclosed : (paste (new true) chunks).1 ≡ b'a' ∷ b'\r' ∷ b'\n' ∷ b'b' ∷ b'\n' ∷ b'[' ∷ []
unfolding paste new filter step filter_loop
enclosed = refl

paste-concat_example : paste (new false) chunks ≡ paste (new false) (concat chunks ∷ [])
paste-concat_example = paste-concat (new false) chunks

bracketed-paste_example : (paste (new true) chunks).1 ≡ without_controls (concat chunks)
bracketed-paste_example = bracketed-paste chunks

ordinary-paste_example : (paste (new false) chunks).1 ≡ folded (concat chunks)
ordinary-paste_example = ordinary-paste chunks
