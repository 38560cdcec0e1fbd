-- ===== src/Daemon/Frames/Reading.antt =====
-- What `prepare` reads of the terminal engine.
use worminal.Prelude.{
  ℕ, zero, suc, ◌+◌, ◌*◌, ◌<◌, ◌≡◌, refl, sym, ap, ◌∙◌, subst, Bool, true, false, ◌||◌, Option,
  List, [], ◌∷◌, ◌++◌, arith, length, get_or,
}
use worminal.Prelude.Result.{Result, ok, err, try-eq-ok, ok-injective, >>=-eq-ok}
use worminal.Prelude.Bytes.{to_be_bytes}
use worminal.Protocol.Wire.{wire_cell_bytes}
use worminal.Protocol.Buffer
use worminal.Protocol.Buffer.{Buffer}
use worminal.Protocol.Buffer.Laws.{Fits, Appended, Appended-trans, Appended-nil, put_bytes-ok}
use worminal.Protocol.Packet.{finished-ok}
use worminal.Engine.Cells.{Cell}
use worminal.Daemon.Frames.Prepare.{
  Engine, read_dirty, cell_bytes, put_cells, encode_row, read_row, read_rows,
}
use worminal.Daemon.Frames.Updates.{IsFetched, AreFetched}

-- The bytes of cells.
abbrev pub cells_bytes : List Cell → List ℕ
cells_bytes [] = []
cells_bytes (cell ∷ cells) = cell_bytes cell ++ cells_bytes cells

pub cell_bytes-length : (cell : Cell) → length (cell_bytes cell) ≡ 16
unfolding cell_bytes to_be_bytes
cell_bytes-length cell = refl

pub cells_bytes-length :
    (cells : List Cell) → length (cells_bytes cells) ≡ length cells * wire_cell_bytes
unfolding cell_bytes to_be_bytes
cells_bytes-length [] = omega arith
cells_bytes-length (cell ∷ cells) = omega (arith, cells_bytes-length cells)

-- A row of the screen: its cells, and its bytes.
abbrev pub shown_cells : Result (List Cell) → List Cell
shown_cells (ok cells) = cells
shown_cells (err e) = []

abbrev pub screen_cells : Engine → ℕ → List Cell
screen_cells engine row = shown_cells (engine.row row)

abbrev pub screen_bytes : Engine → ℕ → List ℕ
screen_bytes engine row = cells_bytes (screen_cells engine row)

put_cells-Appended :
    (cells : List Cell) (b : Buffer) {b' : Buffer} {u : Unit}
    → Fits b
    → put_cells cells b ≡ (ok u, b')
    → Appended (cells_bytes cells) b b'
unfolding put_cells
put_cells-Appended [] b h e = subst (Appended [] b) (ap (λ r. r.1) e) (Appended-nil h)
put_cells-Appended (cell ∷ cells) b h e =
    let (u, c, first, rest) = >>=-eq-ok (Buffer.put_bytes (cell_bytes cell)) _ b e in
    let a = put_bytes-ok (cell_bytes cell) h first in
    Appended-trans a (put_cells-Appended cells c a.fits rest)

-- `reserve` changes nothing that is modelled.
pub reserve-same :
    (extra : ℕ) (b : Buffer) {b' : Buffer} {u : Unit} → Buffer.reserve extra b ≡ (ok u, b') → b' ≡ b
unfolding Buffer.reserve
reserve-same extra b e = ground arith

pub default-Fits : Fits Buffer.default
unfolding Buffer.default Buffer.with_limit
default-Fits = omega arith

pub encode_row-ok :
    (width : ℕ) (cells : List Cell) (bytes : List ℕ)
    → encode_row width cells ≡ ok bytes
    → bytes ≡ cells_bytes cells
unfolding encode_row
encode_row-ok width cells bytes e =
    let (u, b, out, same) = finished-ok _ bytes e in
    let (v, c, reserved, written) =
      >>=-eq-ok (Buffer.reserve width) (λ _. put_cells cells) Buffer.default out in
    let start = reserve-same width Buffer.default reserved in
    let a = put_cells-Appended cells c (subst Fits (sym start) default-Fits) written in
    sym same ∙ a.contents ∙ ap (λ (d : Buffer). d.bytes ++ cells_bytes cells) start ∙ empty
  where
    empty : Buffer.default.bytes ++ cells_bytes cells ≡ cells_bytes cells
    empty = unfold Buffer.default Buffer.with_limit in refl

-- The rows of the terminal are as wide as its frame says.
abbrev pub HasColumns : Engine → ℕ → Type 0
HasColumns engine columns =
    (row : ℕ) (cells : List Cell) → engine.row row ≡ ok cells → length cells ≡ columns

read_row-IsFetched :
    (engine : Engine) (columns : ℕ) (wanted : Bool) (row : ℕ) (o : Option (List ℕ))
    → HasColumns engine columns
    → read_row engine (columns * wire_cell_bytes) wanted row ≡ ok o
    → IsFetched (columns * wire_cell_bytes) (screen_bytes engine row) o wanted
unfolding read_row
read_row-IsFetched engine columns false row o h e w = cc
read_row-IsFetched engine columns true row o h e w =
    let (cells, answer, e1) = try-eq-ok (engine.row row) _ e in
    let (bytes, encoded, e2) = try-eq-ok (encode_row (columns * wire_cell_bytes) cells) _ e1 in
    let drawn : screen_bytes engine row ≡ cells_bytes cells =
      ap (λ r. cells_bytes (shown_cells r)) answer in
    (
      rw ((sym (ok-injective e2))) (encode_row-ok _ cells bytes encoded ∙ sym drawn),
      ap length drawn
          ∙ cells_bytes-length cells
          ∙ ap (λ n. n * wire_cell_bytes) (h row cells answer),
    )

pub read_rows-AreFetched :
    (engine : Engine) (columns : ℕ) (every : Bool) (row : ℕ) (flags : List Bool)
    (current : List (Option (List ℕ)))
    → HasColumns engine columns
    → read_rows engine (columns * wire_cell_bytes) every row flags ≡ ok current
    → AreFetched (columns * wire_cell_bytes) (screen_bytes engine) every row flags current
unfolding read_rows
read_rows-AreFetched engine columns every row [] [] h e = tt
read_rows-AreFetched engine columns every row [] (o ∷ current) h e = cc
read_rows-AreFetched engine columns every row (flag ∷ flags) current h e =
    let (o, here, e1) =
      try-eq-ok (read_row engine (columns * wire_cell_bytes) (every || flag) row) _ e in
    let (os, there, e2) =
      try-eq-ok (read_rows engine (columns * wire_cell_bytes) every (suc row) flags) _ e1 in
    subst (AreFetched (columns * wire_cell_bytes) (screen_bytes engine) every row (flag ∷ flags))
      (ok-injective e2)
      (
        read_row-IsFetched engine columns (every || flag) row o h here,
        read_rows-AreFetched engine columns every (suc row) flags os h there,
      )

-- As many flags as rows, each of them the engine's.
abbrev pub AreAnswered : Engine → ℕ → ℕ → List Bool → Type 0
AreAnswered engine rounds row flags =
    (length flags ≡ rounds)
    × ((k : ℕ) → k < rounds → engine.row_dirty (row + k) ≡ ok (get_or flags k false))

pub read_dirty-AreAnswered :
    (engine : Engine) (rounds row : ℕ) (flags : List Bool)
    → read_dirty engine rounds row ≡ ok flags
    → AreAnswered engine rounds row flags
unfolding read_dirty
read_dirty-AreAnswered engine zero row flags e =
    subst (AreAnswered engine 0 row) (ok-injective e) (refl, λ k l. absurd (omega arith))
read_dirty-AreAnswered engine (suc rounds) row flags e =
    let (flag, answer, e1) = try-eq-ok (engine.row_dirty row) _ e in
    let (rest, others, e2) = try-eq-ok (read_dirty engine rounds (suc row)) _ e1 in
    let later = read_dirty-AreAnswered engine rounds (suc row) rest others in
    subst (AreAnswered engine (suc rounds) row) (ok-injective e2)
      (ap suc (later.0), all_answered flag rest answer later.1)
  where
    all_answered :
        (flag : Bool) (rest : List Bool)
        → engine.row_dirty row ≡ ok flag
        → ((k : ℕ) → k < rounds → engine.row_dirty (suc row + k) ≡ ok (get_or rest k false))
        → (k : ℕ) → k < suc rounds
        → engine.row_dirty (row + k) ≡ ok (get_or (flag ∷ rest) k false)
    all_answered flag rest here there zero l = ap engine.row_dirty (omega arith) ∙ here
    all_answered flag rest here there (suc k) l =
        ap engine.row_dirty (omega arith) ∙ there k (omega arith)
