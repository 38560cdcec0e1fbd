-- ===== src/Frontend/Viewport/Select.antt =====
-- `select`, `select_all`, `clear_selection` and `selection_text`.
use worminal.Prelude.{
  ℕ, zero, suc, ◌+◌, ◌*◌, ◌-◌, ◌%◌, ◌^◌, Bool, true, false, ◌&&◌, Option, none, some, List, [], ◌∷◌,
  ◌==◌, if◌then◌else◌, replicate, get_elem?,
}
use worminal.Prelude.Result.{Result, Exec, ok, err, ◌>>◌}
use worminal.Engine.Cells.{Frame}
use worminal.Frontend.Viewport.State.{blank, Damage, Viewport, is_empty}
use worminal.Frontend.Viewport.Finish.{Aim, Selecting, ranged}

unfoldable pub eq_range : Option (ℕ × ℕ) → Option (ℕ × ℕ) → Bool
eq_range none none = true
eq_range (some (a, b)) (some (c, d)) = a == c && b == d
eq_range _ _ = false

-- The rows, from an index on, whose ranges differ.
unfoldable pub differing : ℕ → ℕ → List (ℕ × ℕ) → List (ℕ × ℕ) → List ℕ
differing zero row old new = []
differing (suc rounds) row old new =
    let rows = differing rounds (suc row) old new in
    if eq_range (get_elem? old row) (get_elem? new row) then rows else row ∷ rows

-- `n - 1` of a number of 32 bits
unfoldable pub before : ℕ → ℕ
before n = (n + (2 ^ 32 - 1)) % 2 ^ 32

module _ {S : Type 0} where
  unfoldable pub filled : Viewport S → Viewport S
  filled v =
      if is_empty v.cells
      then record v { cells = replicate (v.frame.columns * v.frame.rows) blank }
      else v

  unfoldable pub told : Result (Unit {0}) × Option S × List (ℕ × ℕ) → Exec (Viewport S) Damage
  told (err e, selection, ranges) v = (err e, record v { selection = selection })
  told (ok _, selection, ranges) v = (
    ok (record { full = false; rows = differing v.frame.rows 0 v.selected ranges }),
    record v { selection = selection; selected = ranges },
  )

  module _ (selecting : Selecting S) where
    unfoldable pub selection_damage : Exec (Viewport S) Damage
    unfolding told
    selection_damage v = told (ranged selecting v.selection []) v

    unfoldable pub created : Frame → Option S → Result S
    created frame none = selecting.create frame
    created frame (some selection) = ok selection

    unfoldable pub aimed : Aim → Result S → Exec (Viewport S) Unit
    aimed aim (err e) v = (err e, v)
    aimed aim (ok selection) v =
        let (r, selection') = selecting.select v.cells aim selection in
        (r, record v { selection = some selection' })

    unfoldable pub select : Aim → Exec (Viewport S) Damage
    unfolding filled
    select aim v =
        let w = filled v in
        (do (λ u. aimed aim (created u.frame u.selection) u); selection_damage) w

    unfoldable pub select_all : Exec (Viewport S) Damage
    unfolding select
    select_all = do
      select (record {
        column = 0;
        row = 0;
        start = true;
        snap = 2;
        rectangular = false;
        done = false;
      })
      λ v.
          select
            (record {
              column = before v.frame.columns;
              row = before v.frame.rows;
              start = false;
              snap = 0;
              rectangular = false;
              done = true;
            })
            v

    unfoldable pub cleared : Option S → Exec (Viewport S) Unit
    cleared none v = (ok tt, v)
    cleared (some selection) v =
        let (r, selection') = selecting.clear selection in
        (r, record v { selection = some selection' })

    unfoldable pub clear_selection : Exec (Viewport S) Damage
    unfolding selection_damage
    clear_selection = do (λ v. cleared v.selection v); selection_damage

    unfoldable pub text_of : Option S → Exec (Viewport S) (List ℕ)
    text_of none v = (ok [], v)
    text_of (some selection) v =
        let (r, selection') = selecting.text v.cells selection in
        (r, record v { selection = some selection' })

    unfoldable pub selection_text : Exec (Viewport S) (List ℕ)
    unfolding text_of
    selection_text v = text_of v.selection v
