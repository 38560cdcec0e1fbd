-- ===== src/Replica/Updates.antt =====
-- The operations of all updates, against the daemon's copy of them.
use worminal.Prelude.{
  ℕ, suc, ◌+◌, ◌*◌, ◌≤◌, ◌<◌, ◌≡◌, refl, sym, ap, ◌∙◌, subst, inr, Bool, ◌&&◌, ◌||◌, not, Option,
  List, [], ◌∷◌, ◌++◌, map, arith, if_both, length, splice, All,
}
use worminal.Prelude.Bytes.{bytes_eq}
use worminal.Prelude.Grid.{row_at}
use worminal.Engine.Cells.{Cell}
use worminal.Daemon.Frames.Prepare.{Update, Request, baseline_row, update_row, updates_from}
use worminal.Daemon.Frames.Commit.{copy_updates}
use worminal.Daemon.Frames.Baseline.{copy_updates-append}
use worminal.Daemon.Frames.Updates.{IsFetched, AreFetched, HasMoved, chosen, chosen-Writes}
use worminal.Daemon.Frames.Reading.{cells_bytes, cells_bytes-length}
use worminal.Frontend.Viewport.State.{Operation}
use worminal.Frontend.Viewport.Finish.{Drawing, apply_operations}
use worminal.Replica.Cells.{IsWire}
use worminal.Replica.Operations.{operation_of, update-copies}
use worminal.Replica.Sent.{sent-IsRow, fetched_row}

module _ (grid : ℕ → List Cell) where
  -- The operations of updates, by the cells that their bytes are.
  abbrev pub operations_of : List Update → List Operation
  operations_of = map (λ u. operation_of u.row (grid u.row) u.span)

  module _ (q : Request) (columns rows : ℕ) (width : q.width ≡ columns * 16) where
    -- Updates do to a drawing's cells what they do to its bytes.
    abbrev Agrees : Drawing → List Update → Type 0
    Agrees d us =
        cells_bytes (apply_operations columns (operations_of us) d).cells
        ≡ copy_updates q.width us (cells_bytes d.cells)

    update_row-Agrees :
        (row : ℕ) (d : Drawing)
        → length d.cells ≡ columns * rows
        → row < rows
        → All IsWire (grid row)
        → length (grid row) ≡ columns
        → HasMoved q (cells_bytes d.cells) row
        → Agrees d (update_row q row (cells_bytes (grid row)))
    unfolding update_row copy_updates apply_operations
    update_row-Agrees row d size i w l h =
        let bytes = cells_bytes (grid row) in
        let old = row_at q.width q.baseline (baseline_row q.movement row) in
        if_both (Agrees d) (not q.full && bytes_eq bytes old) [] _ (λ _. refl)
          λ kept.
            update-copies columns rows row (grid row) _ d size
              (sent-IsRow grid q columns rows width row d size i w l h kept)
            ∙ ap (λ n. splice (cells_bytes d.cells) (row * n) bytes) (sym width)

    chosen-Agrees :
        (row : ℕ) (flag : Bool) (o : Option (List ℕ)) (d : Drawing)
        → length d.cells ≡ columns * rows
        → row < rows
        → All IsWire (grid row)
        → IsFetched q.width (cells_bytes (grid row)) o (q.full || flag)
        → HasMoved q (cells_bytes d.cells) row
        → Agrees d (chosen q flag row o)
    unfolding chosen copy_updates apply_operations
    chosen-Agrees row flag o d size i w f h =
        if_both (Agrees d) (not q.full && not flag) [] _ (λ _. refl)
          λ wanted.
            let fetched = f (ground arith) in
            let l = fetched_row grid q columns rows width row fetched.1 in
            subst (λ bytes. Agrees d (update_row q row bytes)) (sym fetched.0)
              (update_row-Agrees row d size i w l h)

    operations-append :
        (us vs : List Update) (d : Drawing)
        → apply_operations columns (operations_of (us ++ vs)) d
          ≡ apply_operations columns
              (operations_of vs)
              (apply_operations columns (operations_of us) d)
    unfolding apply_operations
    operations-append [] vs d = refl
    operations-append (u ∷ us) vs d = operations-append us vs _

    cells-length :
        (cs : List Cell) → length (cells_bytes cs) ≡ q.width * rows → length cs ≡ columns * rows
    cells-length cs e = omega (arith, e, cells_bytes-length cs, ap (λ w. w * rows) width)

    bytes-length :
        (cs : List Cell) → length cs ≡ columns * rows → length (cells_bytes cs) ≡ q.width * rows
    bytes-length cs e = omega (arith, e, cells_bytes-length cs, ap (λ w. w * rows) width)

    -- Whatever the updates are, drawing them and copying them agree.
    pub updates_from-Agrees :
        (row : ℕ) (flags : List Bool) (current : List (Option (List ℕ))) (d : Drawing)
        → length d.cells ≡ columns * rows
        → row + length flags ≤ rows
        → ((r : ℕ) → All IsWire (grid r))
        → AreFetched q.width (λ r. cells_bytes (grid r)) q.full row flags current
        → ((j : ℕ) → row ≤ j → HasMoved q (cells_bytes d.cells) j)
        → Agrees d (updates_from q row flags current)
    unfolding updates_from copy_updates apply_operations chosen
    updates_from-Agrees row [] [] d size i w f h = refl
    updates_from-Agrees row [] (o ∷ current) d size i w f h = absurd f
    updates_from-Agrees row (flag ∷ flags) [] d size i w f h = absurd f
    updates_from-Agrees row (flag ∷ flags) (o ∷ current) d size i w f h =
        let us = chosen q flag row o in
        let vs = updates_from q (suc row) flags current in
        let d1 = apply_operations columns (operations_of us) d in
        let here : Agrees d us =
          chosen-Agrees row flag o d size (omega arith) (w row) f.0 (h row (omega arith)) in
        let writes =
          chosen-Writes q rows row flag o (cells_bytes (grid row)) (cells_bytes d.cells)
            (bytes-length d.cells size) (omega arith) f.0 (h row (omega arith)) in
        let size1 : length d1.cells ≡ columns * rows =
          cells-length d1.cells (ap length here ∙ writes.same_length ∙ bytes-length d.cells size) in
        ap (λ (x : Drawing). cells_bytes x.cells) (operations-append us vs d)
        ∙ updates_from-Agrees (suc row) flags current d1 size1 (omega arith) w f.1 (λ j low full.
          ap (λ bs. row_at q.width bs j) here ∙ writes.others j (inr low) ∙ h j (omega arith) full)
        ∙ ap (copy_updates q.width vs) here
        ∙ sym (copy_updates-append q.width us vs (cells_bytes d.cells))
