-- ===== src/Frontend/Viewport/Selected.antt =====
-- The damage of a selection tells every row whose selected range has changed.
use worminal.Prelude.{ℕ, ◌<◌, ◌≡◌, ◌⊎◌, List, [], ◌∷◌, get_elem?}
use worminal.Prelude.Result.{ErrorKind, Result, ok, err}
use worminal.Frontend.Viewport.State.{Damage, Viewport}
use worminal.Frontend.Viewport.Select.{filled}

abbrev pub IsIn : ℕ → List ℕ → Type 0
IsIn row [] = ⊥
IsIn row (r ∷ rows) = (row ≡ r) ⊎ IsIn row rows

module _ {S : Type 0} where
  -- What a selection does of a viewport: the damage tells the rows whose ranges have changed, or they are as
  -- they were where it fails; the frame and the operations that wait stay.
  pub record Tells (v : Viewport S) (out : Result Damage × Viewport S) : Type 0 where
    pub frame_kept : out.1.frame ≡ v.frame
    pub pending_kept : out.1.pending ≡ v.pending
    pub cells_filled : out.1.cells ≡ (filled v).cells
    pub rows_told :
        (row : ℕ)
        → row < v.frame.rows
        → (damage : Damage) → out.0 ≡ ok damage
        → IsIn row damage.rows ⊎ (get_elem? out.1.selected row ≡ get_elem? v.selected row)
    pub failed : (e : ErrorKind) → out.0 ≡ err e → out.1.selected ≡ v.selected

  -- The same viewport, but for its selection.
  record Alike (v w : Viewport S) : Type 0 where
    same_frame : w.frame ≡ v.frame
    same_pending : w.pending ≡ v.pending
    same_cells : w.cells ≡ (filled v).cells
    same_selected : w.selected ≡ v.selected
