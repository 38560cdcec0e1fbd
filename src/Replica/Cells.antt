-- ===== src/Replica/Cells.antt =====
-- Cells as the bytes of the wire, and back.
use worminal.Prelude.{
  ℕ, zero, suc, ◌+◌, ◌*◌, ◌%◌, ◌^◌, ◌≤◌, ◌<◌, ◌≡◌, refl, sym, ap, ap₂, ◌∙◌, List, [], ◌∷◌, ◌++◌,
  map, arith, length, take, drop, splice, All, append_assoc, take-append_past, drop-append_past,
  length-append, append-nil, if_both, take_all, drop_all, ltb,
}
use worminal.Prelude.Result.{ok}
use worminal.Prelude.Bytes.{u32_mod, to_be_bytes}
use worminal.Protocol.Wire.{wire_cell_bytes}
use worminal.Protocol.Payload.Laws.{u32-to_be_bytes}
use worminal.Engine.Cells.{Cell}
use worminal.Daemon.Frames.Move.{chunks, chunks_exact}
use worminal.Daemon.Frames.Prepare.{cell_bytes}
use worminal.Daemon.Frames.Reading.{cell_bytes-length, cells_bytes, cells_bytes-length}
use worminal.Frontend.Viewport.Apply.{read_cell, read_cells}

pub cells_bytes-append :
    (cs ds : List Cell) → cells_bytes (cs ++ ds) ≡ cells_bytes cs ++ cells_bytes ds
cells_bytes-append [] ds = refl
cells_bytes-append (c ∷ cs) ds =
    ap (λ t. cell_bytes c ++ t) (cells_bytes-append cs ds)
    ∙ sym (append_assoc (cell_bytes c) (cells_bytes cs) (cells_bytes ds))

pub cells_bytes-take :
    (n : ℕ) (cs : List Cell) → take (n * 16) (cells_bytes cs) ≡ cells_bytes (take n cs)
cells_bytes-take zero cs = ap (λ k. take k (cells_bytes cs)) {x = 0 * 16} {y = 0} (omega arith)
cells_bytes-take (suc n) [] = take_all (suc n * 16) [] (omega arith)
cells_bytes-take (suc n) (c ∷ cs) =
    take-append_past (suc n * 16) (n * 16) (cell_bytes c) (cells_bytes cs)
      (omega (arith, cell_bytes-length c))
    ∙ ap (λ t. cell_bytes c ++ t) (cells_bytes-take n cs)

pub cells_bytes-drop :
    (n : ℕ) (cs : List Cell) → drop (n * 16) (cells_bytes cs) ≡ cells_bytes (drop n cs)
cells_bytes-drop zero cs = ap (λ k. drop k (cells_bytes cs)) {x = 0 * 16} {y = 0} (omega arith)
cells_bytes-drop (suc n) [] = drop_all (suc n * 16) [] (omega arith)
cells_bytes-drop (suc n) (c ∷ cs) =
    drop-append_past (suc n * 16) (n * 16) (cell_bytes c) (cells_bytes cs)
      (omega (arith, cell_bytes-length c))
    ∙ cells_bytes-drop n cs

pub cells_bytes-splice :
    (cs ds : List Cell) (n : ℕ)
    → cells_bytes (splice cs n ds) ≡ splice (cells_bytes cs) (n * 16) (cells_bytes ds)
cells_bytes-splice cs ds n =
    cells_bytes-append (take n cs) (ds ++ drop (n + length ds) cs)
    ∙ ap₂ (λ x y. x ++ y) (sym (cells_bytes-take n cs))
        (cells_bytes-append ds (drop (n + length ds) cs)
          ∙ ap (λ t. cells_bytes ds ++ t)
              (sym (cells_bytes-drop (n + length ds) cs)
                ∙ ap (λ k. drop k (cells_bytes cs)) (omega (arith, cells_bytes-length ds))))

-- The chunks of a row are its cells.
chunks-cells :
    (rounds : ℕ) (cs : List Cell)
    → length cs ≤ rounds
    → chunks rounds 16 (cells_bytes cs) ≡ map cell_bytes cs
unfolding chunks
chunks-cells zero [] h = refl
chunks-cells zero (c ∷ cs) h = absurd (omega arith)
chunks-cells (suc rounds) [] h = refl
chunks-cells (suc rounds) (c ∷ cs) h =
    if_both (λ (l : List (List ℕ)). l ≡ map cell_bytes (c ∷ cs))
      (ltb (length (cells_bytes (c ∷ cs))) 16) _ _
      (λ short.
        absurd (ground (arith, cell_bytes-length c, length-append (cell_bytes c) (cells_bytes cs))))
      (λ _.
        ap₂ (λ x y. x ∷ y)
          (take-append_past 16 0 (cell_bytes c) (cells_bytes cs)
              (omega (arith, cell_bytes-length c))
            ∙ append-nil (cell_bytes c))
          (ap (chunks rounds 16) (
              drop-append_past 16 0 (cell_bytes c) (cells_bytes cs)
                (omega (arith, cell_bytes-length c)))
            ∙ chunks-cells rounds cs (omega arith)))

pub chunks_exact-cells :
    (cs : List Cell) → chunks_exact wire_cell_bytes (cells_bytes cs) ≡ map cell_bytes cs
unfolding chunks_exact
chunks_exact-cells cs =
    chunks-cells (length (cells_bytes cs)) cs (omega (arith, cells_bytes-length cs))

-- A cell that the wire has room for.
pub record IsWire (cell : Cell) : Type 0 where
  pub word_rune : cell.rune < u32_mod
  pub half_attributes : cell.attributes < 2 ^ 16
  pub word_foreground : cell.foreground < u32_mod
  pub word_background : cell.background < u32_mod

read_cell-bytes :
    (cell : Cell) (rest : List ℕ)
    → IsWire cell
    → read_cell (cell_bytes cell ++ rest) ≡ (ok cell, rest)
unfolding read_cell cell_bytes
read_cell-bytes cell rest h = rw (
  append_assoc (to_be_bytes cell.rune),
  append_assoc (to_be_bytes cell.attributes),
  append_assoc (to_be_bytes cell.foreground),
  u32-to_be_bytes cell.rune _ h.word_rune,
  u32-to_be_bytes cell.attributes _ (omega (arith, h.half_attributes)),
  u32-to_be_bytes cell.foreground _ h.word_foreground,
  u32-to_be_bytes cell.background _ h.word_background,
  low,
)
  where
    low : cell.attributes % 2 ^ 16 ≡ cell.attributes
    low = omega (arith, h.half_attributes)

pub read_cells-bytes :
    (cells : List Cell) (rest : List ℕ)
    → All IsWire cells
    → read_cells (length cells) (cells_bytes cells ++ rest) ≡ (ok cells, rest)
unfolding read_cells
read_cells-bytes [] rest h = refl
read_cells-bytes (c ∷ cells) rest h = rw (
  append_assoc (cell_bytes c) (cells_bytes cells) rest,
  read_cell-bytes c (cells_bytes cells ++ rest) h.0,
  read_cells-bytes cells rest h.1,
)
