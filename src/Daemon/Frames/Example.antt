-- ===== src/Daemon/Frames/Example.antt =====
-- A screen of four rows that scrolls up by one row.
use worminal.Prelude.{
  ℕ, zero, suc, ◌+◌, ◌≡◌, refl, subst, false, List, [], ◌∷◌, ◌++◌, ltb, length, arith,
}
use worminal.Prelude.Result.{ok, ok-injective}
use worminal.Engine.Cells.{Cell, Frame}
use worminal.Daemon.Queue
use worminal.Daemon.Queue.{Queue}
use worminal.Daemon.Frames.Prepare.{Screen, Engine, cell_bytes}
use worminal.Daemon.Frames.Reading.{HasColumns, cells_bytes}
use worminal.Daemon.Frames.Answered.{Answers}
use worminal.Daemon.Frames.Planned.{KnowsClean}

abbrev pub letter : ℕ → Cell
letter rune = record { rune = rune; attributes = 0; foreground = 258; background = 259 }

abbrev pub row_of : ℕ → List Cell
row_of rune = letter rune ∷ letter (rune + 1) ∷ []

abbrev pub frame : Frame
frame = record {
  columns = 2;
  rows = 4;
  cursor_x = 0;
  cursor_y = 3;
  scroll = 0;
  alternate = 0;
  redraw_deadline = 0;
}

abbrev pub old_rows : List ℕ
old_rows =
    cells_bytes (row_of 10)
    ++ (cells_bytes (row_of 20) ++ (cells_bytes (row_of 30) ++ cells_bytes (row_of 40)))

abbrev pub new_row : ℕ → List Cell
new_row zero = row_of 20
new_row (suc zero) = row_of 30
new_row _ = row_of 40

abbrev pub engine : Engine
engine = record {
  frame = ok frame;
  row_dirty = λ row. ok (ltb row 3);
  row = λ row. ok (new_row row);
  clean = ok tt;
}

abbrev pub screen : Screen
screen = record { frame = frame; bytes = old_rows }

abbrev pub queue : Queue
queue = Queue.new 4096

pub new_row-length : (row : ℕ) → length (new_row row) ≡ 2
new_row-length zero = refl
new_row-length (suc zero) = refl
new_row-length (suc (suc row)) = refl

pub columns_hold : HasColumns engine 2
columns_hold row cells e = subst (λ l. length l ≡ 2) (ok-injective e) (new_row-length row)

pub clean_holds : KnowsClean engine false screen frame
unfolding cell_bytes
clean_holds partial zero l e = cc
clean_holds partial (suc zero) l e = cc
clean_holds partial (suc (suc zero)) l e = cc
clean_holds partial (suc (suc (suc zero))) l e = refl
clean_holds partial (suc (suc (suc (suc row)))) l e = absurd (omega arith)

-- The engine answers for its four rows.
pub answers : Answers engine 4
answers = record {
  dirty = λ row l. (ltb row 3, refl);
  cells = λ row l. (new_row row, refl);
  clean = (tt, refl);
}
