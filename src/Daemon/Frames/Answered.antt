-- ===== src/Daemon/Frames/Answered.antt =====
-- What `prepare` reads of a terminal engine that answers, and writers of a buffer that succeed.
use worminal.Prelude.{
  ℕ, zero, suc, ◌+◌, ◌*◌, ◌-◌, ◌≤◌, ◌<◌, ◌≡◌, refl, ◌∙◌, Bool, true, false, ◌||◌, Option, none,
  some, List, [], ◌∷◌, ◌++◌, ltb, leb, arith, length, length-append,
}
use worminal.Prelude.Result.{Exec, ok, ◌>>◌}
use worminal.Protocol.Wire.{wire_cell_bytes, workspace_max_cols}
use worminal.Protocol.Buffer
use worminal.Protocol.Buffer.{Buffer}
use worminal.Protocol.Buffer.Laws.{Call, run, publish, encoding, run-publish}
use worminal.Protocol.Packet.{finished}
use worminal.Engine.Cells.{Cell}
use worminal.Daemon.Frames.Prepare.{
  Engine, read_dirty, cell_bytes, put_cells, encode_row, read_row, read_rows,
}
use worminal.Daemon.Frames.Reading.{cell_bytes-length, HasColumns}

-- The engine tells so many rows, and takes that they were seen.
pub record Answers (engine : Engine) (rows : ℕ) : Type 0 where
  pub dirty : (row : ℕ) → row < rows → (flag : Bool) × (engine.row_dirty row ≡ ok flag)
  pub cells : (row : ℕ) → row < rows → (cells : List Cell) × (engine.row row ≡ ok cells)
  pub clean : (u : Unit {0}) × (engine.clean ≡ ok u)

-- A writer that succeeds, and writes at most so many bytes.
pub record Succeeds (m : Exec Buffer Unit) (size : ℕ) (b : Buffer) : Type 0 where
  pub after : Buffer
  pub result : m b ≡ (ok tt, after)
  pub limit_kept : after.limit ≡ b.limit
  pub grown : length after.bytes ≤ length b.bytes + size

pub Succeeds-then :
    (m n : Exec Buffer Unit) (j k : ℕ) (b : Buffer)
    → Succeeds m j b
    → ((c : Buffer) → c.limit ≡ b.limit → length c.bytes ≤ length b.bytes + j → Succeeds n k c)
    → Succeeds (m >> n) (j + k) b
Succeeds-then m n j k b h next =
    let s = next h.after h.limit_kept h.grown in
    record {
      after = s.after;
      result = rw (h.result) s.result;
      limit_kept = s.limit_kept ∙ h.limit_kept;
      grown = omega (arith, s.grown, h.grown);
    }

pub nothing-Succeeds : (b : Buffer) → Succeeds (λ c. (ok tt, c)) 0 b
nothing-Succeeds b = record { after = b; result = refl; limit_kept = refl; grown = omega arith }

pub reserve-Succeeds :
    (extra : ℕ) (b : Buffer)
    → length b.bytes + extra ≤ b.limit
    → Succeeds (Buffer.reserve extra) 0 b
unfolding Buffer.reserve
reserve-Succeeds extra b h =
    let fine : ltb (b.limit - length b.bytes) extra ≡ false = ground arith in
    record { after = b; result = rw fine refl; limit_kept = refl; grown = omega arith }

pub Succeeds-within :
    {m : Exec Buffer Unit} {j k : ℕ} {b : Buffer} → j ≤ k → Succeeds m j b → Succeeds m k b
Succeeds-within l h = record {
  after = h.after;
  result = h.result;
  limit_kept = h.limit_kept;
  grown = omega (arith, h.grown);
}

-- A call that has an encoding, for which there is room.
pub run-Succeeds :
    (c : Call) (bs : List ℕ) (b : Buffer)
    → encoding c ≡ some bs
    → length b.bytes + length bs ≤ b.limit
    → Succeeds (run c) (length bs) b
unfolding publish
run-Succeeds c bs b e room =
    let fits : leb (length b.bytes + length bs) b.limit ≡ true = ground arith in
    record {
      after = record b { bytes = b.bytes ++ bs };
      result = run-publish c b (omega arith) ∙ rw (e, fits) refl;
      limit_kept = refl;
      grown = omega (arith, length-append b.bytes bs);
    }

put_cells-Succeeds :
    (cells : List Cell) (b : Buffer)
    → length b.bytes + length cells * 16 ≤ b.limit
    → Succeeds (put_cells cells) (length cells * 16) b
unfolding put_cells encoding run
put_cells-Succeeds [] b room = nothing-Succeeds b
put_cells-Succeeds (cell ∷ cells) b room =
    let size : length (cell_bytes cell) ≡ 16 = cell_bytes-length cell in
    Succeeds-within (omega (arith, size)) (
      Succeeds-then (Buffer.put_bytes (cell_bytes cell)) (put_cells cells)
        (length (cell_bytes cell)) (length cells * 16) b
        (run-Succeeds (Call.bytes (cell_bytes cell)) (cell_bytes cell) b refl (omega (arith, size)))
        (λ c limit grown. put_cells-Succeeds cells c (omega (arith, size))))

pub finished-Succeeds :
    {m : Exec Buffer Unit} {n : ℕ} {b : Buffer}
    → Succeeds m n b
    → (bytes : List ℕ) × (finished (m b) ≡ ok bytes)
unfolding finished
finished-Succeeds h = (h.after.bytes, rw (h.result) refl)

encode_row-Succeeds :
    (columns : ℕ) (cells : List Cell)
    → columns ≤ workspace_max_cols
    → length cells ≡ columns
    → (bytes : List ℕ) × (encode_row (columns * wire_cell_bytes) cells ≡ ok bytes)
unfolding encode_row Buffer.default Buffer.with_limit
encode_row-Succeeds columns cells few size = finished-Succeeds (
    Succeeds-then (Buffer.reserve (columns * wire_cell_bytes)) (put_cells cells) 0
      (length cells * 16) Buffer.default
      (reserve-Succeeds (columns * wire_cell_bytes) Buffer.default (omega arith))
      (λ c limit grown. put_cells-Succeeds cells c (omega arith)))

module _ (engine : Engine) (columns rows : ℕ) (few : columns ≤ workspace_max_cols)
    (wide : HasColumns engine columns) (answers : Answers engine rows) where
  pub read_dirty-answered :
      (rounds row : ℕ)
      → row + rounds ≤ rows
      → (flags : List Bool) × (read_dirty engine rounds row ≡ ok flags) × (length flags ≡ rounds)
  unfolding read_dirty
  read_dirty-answered zero row h = ([], refl, refl)
  read_dirty-answered (suc rounds) row h =
      let (flag, asked) = answers.dirty row (omega arith) in
      let (flags, rest, size) = read_dirty-answered rounds (suc row) (omega arith) in
      (flag ∷ flags, rw (asked, rest) refl, omega (arith, size))

  read_row-answered :
      (wanted : Bool) (row : ℕ)
      → row < rows
      → (o : Option (List ℕ)) × (read_row engine (columns * wire_cell_bytes) wanted row ≡ ok o)
  unfolding read_row
  read_row-answered false row h = (none, refl)
  read_row-answered true row h =
      let (cells, told) = answers.cells row h in
      let (bytes, encoded) = encode_row-Succeeds columns cells few (wide row cells told) in
      (some bytes, rw (told, encoded) refl)

  pub read_rows-answered :
      (every : Bool) (row : ℕ) (flags : List Bool)
      → row + length flags ≤ rows
      → (current : List (Option (List ℕ))) × (read_rows engine
            (columns * wire_cell_bytes)
            every
            row
            flags
          ≡ ok current)
  unfolding read_rows
  read_rows-answered every row [] h = ([], refl)
  read_rows-answered every row (flag ∷ flags) h =
      let (o, first) = read_row-answered (every || flag) row (omega arith) in
      let (current, rest) = read_rows-answered every (suc row) flags (omega arith) in
      (o ∷ current, rw (first, rest) refl)
