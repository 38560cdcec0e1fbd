-- ===== src/Daemon/Frames/Prepare.antt =====
-- `Screen::prepare`: the packets of the rows that differ from the baseline.
use worminal.Prelude.Bytes.{bytes_eq}
use worminal.Prelude.Grid.{row_at}
use worminal.Prelude.{
  ℕ, zero, suc, ◌+◌, ◌*◌, ◌-◌, Bool, true, false, ◌&&◌, ◌||◌, not, Option, none, some, List, [],
  ◌∷◌, ◌++◌, ltb, leb, ◌==◌, if◌then◌else◌,
}
use worminal.Prelude.Result.{Result, Exec, ok, ◌>>◌, pure, try}
use worminal.Prelude.Bytes.{to_be_bytes}
use worminal.Protocol.Wire.{wire_cell_bytes}
use worminal.Protocol.Buffer
use worminal.Protocol.Buffer.{Buffer}
use worminal.Protocol.Packet.{finished}
use worminal.Engine.Cells.{Cell, Frame}
use worminal.Daemon.Frames.Move.{Move, chunks_exact, unwrap}

unfoldable pub same_frame : Frame → Frame → Bool
same_frame a b =
    a.columns == b.columns
    && (a.rows == b.rows
        && (a.cursor_x == b.cursor_x
            && (a.cursor_y == b.cursor_y && (a.scroll == b.scroll && a.alternate == b.alternate))))

-- `Screen` of src/daemon/src/state.rs: the frame and the rows that the queued packets describe.
pub record Screen : Type 0 where
  pub frame : Frame
  pub bytes : List ℕ

-- The terminal engine's answers while a frame is made.
pub record Engine : Type 0 where
  pub frame : Result Frame
  pub row_dirty : ℕ → Result Bool
  pub row : ℕ → Result (List Cell)
  pub clean : Result (Unit {0})

-- Bytes from the first column that differs to behind the last one.
pub record Span : Type 0 where
  pub start : ℕ
  pub end : ℕ

pub record Update : Type 0 where
  pub row : ℕ
  pub bytes : List ℕ
  pub span : Option Span

pub record Plan : Type 0 where
  pub frame : Frame
  pub full : Bool
  pub movement : Option Move
  pub updates : List Update
  pub bytes : List ℕ

pub data Prepared : Type 0 where
  held : Prepared
  unchanged : Prepared
  changed : Plan → Prepared

-- The loops that collect the engine's answers, with the rounds left and the row.
unfoldable pub read_dirty : Engine → ℕ → ℕ → Result (List Bool)
read_dirty engine zero row = ok []
read_dirty engine (suc rounds) row =
    try (engine.row_dirty row)
      λ flag. try (read_dirty engine rounds (suc row)) λ flags. ok (flag ∷ flags)

unfoldable pub count_dirty : List Bool → ℕ
count_dirty [] = 0
count_dirty (flag ∷ flags) = (if flag then 1 else 0) + count_dirty flags

unfoldable pub cell_bytes : Cell → List ℕ
unfolding to_be_bytes
cell_bytes cell =
    to_be_bytes cell.rune
    ++ (to_be_bytes cell.attributes ++ (to_be_bytes cell.foreground ++ to_be_bytes cell.background))

unfoldable pub put_cells : List Cell → Exec Buffer Unit
put_cells [] = pure tt
put_cells (cell ∷ cells) = do Buffer.put_bytes (cell_bytes cell); put_cells cells

unfoldable pub encode_row : ℕ → List Cell → Result (List ℕ)
encode_row width cells = finished ((do Buffer.reserve width; put_cells cells) Buffer.default)

-- A row is read where it is asked for.
unfoldable pub read_row : Engine → ℕ → Bool → ℕ → Result (Option (List ℕ))
read_row engine width false row = ok none
read_row engine width true row =
    try (engine.row row) λ cells. try (encode_row width cells) λ bytes. ok (some bytes)

unfoldable pub read_rows : Engine → ℕ → Bool → ℕ → List Bool → Result (List (Option (List ℕ)))
read_rows engine width every row [] = ok []
read_rows engine width every row (flag ∷ flags) =
    try (read_row engine width (every || flag) row)
      λ bytes. try (read_rows engine width every (suc row) flags) λ rest. ok (bytes ∷ rest)

unfoldable pub baseline_row : Option Move → ℕ → ℕ
baseline_row none row = row
baseline_row (some m) row =
    if leb m.destination row && ltb row (m.destination + m.count)
    then m.source + row - m.destination
    else row

-- `position` and `rposition` of the cells that differ. Where no whole cell differs the source's `unwrap`
-- panics, and the number here says nothing; in rows of whole cells that differ there are some.
unfoldable pub first_different : List (List ℕ) → List (List ℕ) → ℕ
first_different (a ∷ as') (b ∷ bs) =
    let rest = first_different as' bs in if bytes_eq a b then suc rest else 0
first_different _ _ = 0

unfoldable pub last_different : List (List ℕ) → List (List ℕ) → Option ℕ
last_different (a ∷ as') (b ∷ bs) = elim (last_different as' bs) [
  | some last ↦ some (suc last)
  | none ↦ if bytes_eq a b then none else some 0
]
last_different _ _ = none

abbrev pub behind : Option ℕ → ℕ
behind none = 0
behind (some last) = last + 1

unfoldable pub span_of : ℕ → List ℕ → List ℕ → Option Span
span_of width bytes baseline =
    let cells = chunks_exact wire_cell_bytes bytes in
    let old = chunks_exact wire_cell_bytes baseline in
    let start = first_different cells old * wire_cell_bytes in
    let end = behind (last_different cells old) * wire_cell_bytes in
    if ltb (end - start + 4) width then some (record { start = start; end = end }) else none

-- What the loops and the packets need to know.
pub record Request : Type 0 where
  pub width : ℕ
  pub full : Bool
  pub spans : Bool
  pub movement : Option Move
  pub baseline : List ℕ

unfoldable pub update_row : Request → ℕ → List ℕ → List Update
update_row q row bytes =
    let old = row_at q.width q.baseline (baseline_row q.movement row) in
    if not q.full && bytes_eq bytes old
    then []
    else (record {
      row = row;
      bytes = bytes;
      span = if not q.full && q.spans then span_of q.width bytes old else none;
    })
      ∷ []

unfoldable pub updates_from : Request → ℕ → List Bool → List (Option (List ℕ)) → List Update
updates_from q row (flag ∷ flags) (bytes ∷ current) =
    (if not q.full && not flag then [] else update_row q row (unwrap bytes))
    ++ updates_from q (suc row) flags current
updates_from q row _ _ = []
