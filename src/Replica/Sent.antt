-- ===== src/Replica/Sent.antt =====
-- Each update is a row of the grid, whole or the part that differs.
use worminal.Prelude.{
  ℕ, suc, ◌+◌, ◌*◌, ◌≤◌, ◌<◌, ◌≡◌, ◌≢◌, refl, sym, ap, ◌∙◌, subst, Bool, true, false, ◌&&◌, ◌||◌,
  not, Option, none, List, [], ◌∷◌, if◌then◌else◌, arith, if_both, length, take, drop, All,
  length-take, length-drop, length-append, All-append,
}
use worminal.Prelude.Bytes.{bytes_eq, bytes_eq_refl}
use worminal.Prelude.Grid.{row_at, row_within}
use worminal.Engine.Cells.{Cell}
use worminal.Daemon.Frames.Prepare.{
  Update, Request, baseline_row, span_of, update_row, updates_from,
}
use worminal.Daemon.Frames.Updates.{IsFetched, AreFetched, HasMoved, chosen}
use worminal.Daemon.Frames.Reading.{cells_bytes, cells_bytes-length}
use worminal.Frontend.Viewport.Finish.{Drawing}
use worminal.Replica.Cells.{IsWire, cells_bytes-take, cells_bytes-drop}
use worminal.Replica.Spans.{IsPartIfAny, span_of-IsPart}
use worminal.Replica.Operations.{IsRow}

-- A row of the cells, as bytes.
pub row_at-cells :
    (columns row : ℕ) (cs : List Cell)
    → row_at (columns * 16) (cells_bytes cs) row ≡ cells_bytes (row_at columns cs row)
row_at-cells columns row cs =
    ap (λ a. take (columns * 16) (drop a (cells_bytes cs))) {x = row * (columns * 16)}
      {y = row * columns * 16} (omega arith)
    ∙ ap (take (columns * 16)) (cells_bytes-drop (row * columns) cs)
    ∙ cells_bytes-take columns (drop (row * columns) cs)

module _ (grid : ℕ → List Cell) (q : Request) (columns rows : ℕ)
    (width : q.width ≡ columns * 16) where
  -- The span of an update that is sent.
  sent_span :
      (row : ℕ) (cs os : List Cell)
      → length cs ≡ length os
      → row_at q.width q.baseline (baseline_row q.movement row) ≡ cells_bytes os
      → cells_bytes cs ≢ cells_bytes os
      → IsPartIfAny cs os (
          span_of q.width
            (cells_bytes cs)
            (row_at q.width q.baseline (baseline_row q.movement row)))
  sent_span row cs os l e differ =
      subst (λ t. IsPartIfAny cs os (span_of q.width (cells_bytes cs) t)) (sym e)
        (span_of-IsPart q.width cs os l differ)

  there : Drawing → ℕ → List Cell
  there d row = row_at columns d.cells row

  there-length :
      (d : Drawing) (row : ℕ)
      → length d.cells ≡ columns * rows
      → row < rows
      → length (there d row) ≡ columns
  unfolding there
  there-length d row size i = omega (
    arith,
    size,
    length-take columns (drop (row * columns) d.cells),
    length-drop (row * columns) d.cells,
    row_within columns rows row i,
  )

  -- The part of a row that is sent, where it is not sent whole.
  differing_span :
      (row : ℕ) (d : Drawing)
      → length d.cells ≡ columns * rows
      → row < rows
      → length (grid row) ≡ columns
      → HasMoved q (cells_bytes d.cells) row
      → let old = row_at q.width q.baseline (baseline_row q.movement row) in
        not q.full && bytes_eq (cells_bytes (grid row)) old ≡ false
        → not q.full && q.spans ≡ true
        → IsPartIfAny (grid row) (there d row) (span_of q.width (cells_bytes (grid row)) old)
  unfolding there
  differing_span row d size i l h kept spanned =
      sent_span row (grid row) (there d row) (l ∙ sym (there-length d row size i)) old_cells λ same.
        let equal : bytes_eq (cells_bytes (grid row)) old ≡ true =
          ap (bytes_eq (cells_bytes (grid row))) (old_cells ∙ sym same)
          ∙ bytes_eq_refl (cells_bytes (grid row)) in
        ground arith
    where
      old : List ℕ
      old = row_at q.width q.baseline (baseline_row q.movement row)

      old_cells : old ≡ cells_bytes (there d row)
      old_cells =
          sym (h (ground arith))
          ∙ ap (λ w. row_at w (cells_bytes d.cells) row) width
          ∙ row_at-cells columns row d.cells

  -- An update whose bytes are a row of the grid, whole or the part that differs from what is drawn.
  pub record IsSent (d : Drawing) (u : Update) : Type 0 where
    pub cells : u.bytes ≡ cells_bytes (grid u.row)
    pub is_row : IsRow columns rows u.row (grid u.row) u.span d.cells

  pub sent-IsRow :
      (row : ℕ) (d : Drawing)
      → length d.cells ≡ columns * rows
      → row < rows
      → All IsWire (grid row)
      → length (grid row) ≡ columns
      → HasMoved q (cells_bytes d.cells) row
      → let old = row_at q.width q.baseline (baseline_row q.movement row) in
        let bytes = cells_bytes (grid row) in
        not q.full && bytes_eq bytes old ≡ false
        → IsRow columns rows row
            (grid row)
            (if not q.full && q.spans then span_of q.width bytes old else none)
            d.cells
  unfolding there
  sent-IsRow row d size i w l h kept = record {
    wire = w;
    whole = l;
    inside = i;
    part =
        if_both (IsPartIfAny (grid row) (there d row)) (not q.full && q.spans) _ none
          (λ spanned. differing_span row d size i l h kept spanned) (λ _. tt);
  }

  update_row-AreSent :
      (row : ℕ) (d : Drawing)
      → length d.cells ≡ columns * rows
      → row < rows
      → All IsWire (grid row)
      → length (grid row) ≡ columns
      → HasMoved q (cells_bytes d.cells) row
      → let us = update_row q row (cells_bytes (grid row)) in All (IsSent d) us × (length us ≤ 1)
  unfolding update_row
  update_row-AreSent row d size i w l h =
      let old = row_at q.width q.baseline (baseline_row q.movement row) in
      if_both (λ (us : List Update). All (IsSent d) us × (length us ≤ 1))
        (not q.full && bytes_eq (cells_bytes (grid row)) old) [] _ (λ _. (tt, omega arith))
        λ kept.
          let sent : IsSent d (record {
            row = row;
            bytes = cells_bytes (grid row);
            span =
                if not q.full && q.spans
                then span_of q.width (cells_bytes (grid row)) old
                else none;
          }) =
            record { cells = refl; is_row = sent-IsRow row d size i w l h kept } in
          ((sent, tt), omega arith)

  pub fetched_row :
      (row : ℕ) → length (cells_bytes (grid row)) ≡ q.width → length (grid row) ≡ columns
  fetched_row row f = omega (arith, f, width, cells_bytes-length (grid row))

  chosen-AreSent :
      (row : ℕ) (flag : Bool) (o : Option (List ℕ)) (d : Drawing)
      → length d.cells ≡ columns * rows
      → row < rows
      → All IsWire (grid row)
      → IsFetched q.width (cells_bytes (grid row)) o (q.full || flag)
      → HasMoved q (cells_bytes d.cells) row
      → All (IsSent d) (chosen q flag row o) × (length (chosen q flag row o) ≤ 1)
  unfolding chosen
  chosen-AreSent row flag o d size i w f h =
      if_both (λ (us : List Update). All (IsSent d) us × (length us ≤ 1)) (not q.full && not flag)
        [] _ (λ _. (tt, omega arith))
        λ wanted.
          let fetched = f (ground arith) in
          let l = fetched_row row fetched.1 in
          subst (λ bytes. let us = update_row q row bytes in All (IsSent d) us × (length us ≤ 1))
            (sym fetched.0) (update_row-AreSent row d size i w l h)

  -- Each update is a row of the grid, and there is at most one for each row.
  pub updates_from-AreSent :
      (row : ℕ) (flags : List Bool) (current : List (Option (List ℕ))) (d : Drawing)
      → length d.cells ≡ columns * rows
      → row + length flags ≤ rows
      → ((r : ℕ) → All IsWire (grid r))
      → AreFetched q.width (λ r. cells_bytes (grid r)) q.full row flags current
      → ((j : ℕ) → HasMoved q (cells_bytes d.cells) j)
      → let us = updates_from q row flags current in All (IsSent d) us × (length us ≤ length flags)
  unfolding updates_from chosen
  updates_from-AreSent row [] [] d size i w f h = (tt, omega arith)
  updates_from-AreSent row [] (o ∷ current) d size i w f h = absurd f
  updates_from-AreSent row (flag ∷ flags) [] d size i w f h = absurd f
  updates_from-AreSent row (flag ∷ flags) (o ∷ current) d size i w f h =
      let us = chosen q flag row o in
      let here = chosen-AreSent row flag o d size (omega arith) (w row) f.0 (h row) in
      let rest = updates_from-AreSent (suc row) flags current d size (omega arith) w f.1 h in
      (
        All-append (IsSent d) us _ here.0 rest.0,
        omega (arith, here.1, rest.1, length-append us (updates_from q (suc row) flags current)),
      )
