-- ===== src/Daemon/Frames/Move.antt =====
-- `find_move`: the longest run of rows that have moved on the screen.
use Prim.Native.Nat.{bit_xor}
use worminal.Prelude.Bytes.{bytes_eq}
use worminal.Prelude.Grid.{row_at}
use worminal.Prelude.{
  ℕ, zero, suc, ◌+◌, ◌*◌, ◌-◌, ◌%◌, ◌^◌, Bool, true, false, ◌&&◌, ◌||◌, not, Option, none, some,
  List, [], ◌∷◌, ltb, leb, ◌==◌, if◌then◌else◌, length, take, drop, get_or, map,
}

pub record Move : Type 0 where
  pub source : ℕ
  pub destination : ℕ
  pub count : ℕ

unfoldable pub row_hash_from : ℕ → List ℕ → ℕ
row_hash_from hash [] = hash
row_hash_from hash (byte ∷ bytes) = row_hash_from (bit_xor hash byte * 1099511628211 % 2 ^ 64) bytes

unfoldable pub row_hash : List ℕ → ℕ
unfolding row_hash_from
row_hash bytes = row_hash_from 14695981039346656037 bytes

-- Whole chunks only; a chunk has a byte at least, so as many rounds as bytes are enough.
unfoldable pub chunks : ℕ → ℕ → List ℕ → List (List ℕ)
chunks zero width bytes = []
chunks (suc rounds) width bytes =
    let rest = take width bytes ∷ chunks rounds width (drop width bytes) in
    if ltb (length bytes) width then [] else rest

-- The source's `chunks_exact` panics at a width of 0; the engine's frames have columns, so rows have a width.
unfoldable pub chunks_exact : ℕ → List ℕ → List (List ℕ)
unfolding chunks
chunks_exact width bytes = chunks (length bytes) width bytes

-- `unwrap`: `find_move` is called with all rows there.
abbrev pub unwrap : Option (List ℕ) → List ℕ
unwrap none = []
unwrap (some bytes) = bytes

unfoldable pub changed_rows : ℕ → List ℕ → ℕ → List (Option (List ℕ)) → List Bool
changed_rows width before index [] = []
changed_rows width before index (bytes ∷ current) =
    not (bytes_eq (row_at width before index) (unwrap bytes))
    ∷ changed_rows width before (suc index) current

-- The variables of the loops: `best`, `best_score`, `run` and `score`.
pub record Search : Type 0 where
  pub best : Option Move
  pub best_score : ℕ
  pub run : ℕ
  pub score : ℕ

unfoldable pub is_longer : ℕ → Option Move → Bool
is_longer run none = false
is_longer run (some m) = ltb m.count run

-- The hashes of the rows before and now, and whether a row changed.
pub record Rows : Type 0 where
  pub old : List ℕ
  pub now : List ℕ
  pub changed : List Bool

-- `shift` is the source's, with `rows - 1` added, so that it is not negative: a row comes from `from`, which
-- is there where `row + shift + 1` reaches `rows` and stays below twice that.
unfoldable pub extend_run : Rows → ℕ → ℕ → ℕ → Search → Search
extend_run r rows shift row s =
    let run = s.run + 1 in
    let score = s.score + (if get_or r.changed row false then 1 else 0) in
    let destination = row + 1 - run in
    if ltb s.best_score score || (score == s.best_score && is_longer run s.best)
    then record {
      best = some (record {
        source = destination + (shift + 1) - rows;
        destination = destination;
        count = run;
      });
      best_score = score;
      run = run;
      score = score;
    }
    else record s { run = run; score = score }

unfoldable pub move_step : Rows → ℕ → ℕ → ℕ → Search → Search
unfolding extend_run
move_step r rows shift row s =
    let from = row + (shift + 1) - rows in
    if ltb (row + (shift + 1)) rows
      || (leb rows from || not (get_or r.now row 0 == get_or r.old from 0))
    then record s { run = 0; score = 0 }
    else extend_run r rows shift row s

-- The loop over the rows, with the rounds left.
unfoldable pub rows_loop : Rows → ℕ → ℕ → ℕ → ℕ → Search → Search
rows_loop r rows shift zero row s = s
rows_loop r rows shift (suc rounds) row s =
    rows_loop r rows shift rounds (suc row) (move_step r rows shift row s)

-- The loop over the shifts; no shift at all is passed over.
unfoldable pub shifts_loop : Rows → ℕ → ℕ → ℕ → Search → Search
shifts_loop r rows zero shift s = s
shifts_loop r rows (suc rounds) shift s = shifts_loop r rows rounds (suc shift) (
    if shift + 1 == rows
    then s
    else rows_loop r rows shift rows 0 (record s { run = 0; score = 0 }))

-- Whether the bytes of the rows are those that the move says, from an offset on.
unfoldable pub is_exact : ℕ → List ℕ → List (Option (List ℕ)) → Move → ℕ → ℕ → Bool
is_exact width before current m zero offset = true
is_exact width before current m (suc rounds) offset =
    bytes_eq (row_at width before (m.source + offset))
      (unwrap (get_or current (m.destination + offset) none))
    && is_exact width before current m rounds (suc offset)

unfoldable pub exact : ℕ → List ℕ → List (Option (List ℕ)) → Option Move → Option Move
exact width before current none = none
exact width before current (some m) =
    if is_exact width before current m m.count 0 then some m else none

unfoldable pub find_move : List ℕ → List (Option (List ℕ)) → ℕ → Option Move
find_move before current width =
    let r : Rows = record {
      old = map row_hash (chunks_exact width before);
      now = map (λ bytes. row_hash (unwrap bytes)) current;
      changed = changed_rows width before 0 current;
    } in
    let rows = length current in
    let found =
      shifts_loop r rows (rows + rows - 1) 0
        (record { best = none; best_score = 1; run = 0; score = 0 }) in
    exact width before current found.best
