-- ===== src/Replica/Tests.antt =====
-- A viewport that follows a screen of four rows that scrolls up by one row.
use worminal.Prelude.{
  ℕ, zero, suc, ◌≡◌, ◌≤◌, ◌+◌, ap, refl, inr, true, false, none, some, List, [], ◌∷◌, ◌++◌, concat,
  arith, All,
}
use worminal.Prelude.Result.{ok}
use worminal.Daemon.Frames.Prepare.{Prepared, same_frame, cell_bytes}
use worminal.Daemon.Frames.Encode.{prepare}
use worminal.Daemon.Frames.Example.{
  letter, row_of, frame, engine, screen, columns_hold, clean_holds, answers,
}
use worminal.Frontend.Viewport.State.{Sizes, Viewport}
use worminal.Frontend.Viewport.Finish.{Selecting}
use worminal.Frontend.Viewport.Bounds.{IsFrame}
use worminal.Frontend.Viewport.Safe.{IsWell}
use worminal.Replica.Cells.{IsWire}
use worminal.Replica.Cost.{IsSmall}
use worminal.Replica.Parsed.{IsDrawable}
use worminal.Replica.Mirror.{IsMirror}
use worminal.Replica.Delivered.{AreWire}
use worminal.Replica.Following.{bytes_of, Delivers, prepare-Delivers}

abbrev selecting : Selecting (Unit {0})
selecting = record {
  create = λ frame. ok tt;
  select = λ cells aim s. (ok tt, s);
  clear = λ s. (ok tt, s);
  text = λ cells s. (ok [], s);
  configure = λ frame s. (ok tt, s);
  ranges = λ s selected. (ok tt, s, (0, 2) ∷ []);
}

abbrev sizes : Sizes
sizes = record { operation = 40; cell = 16 }

small : IsSmall sizes
small = record { operation = omega arith; cell = omega arith }

abbrev viewport : Viewport (Unit {0})
viewport = record {
  frame = frame;
  cells = row_of 10 ++ (row_of 20 ++ (row_of 30 ++ row_of 40));
  pending = none;
  live = true;
  selection = some tt;
  selected = [];
}

frame-IsFrame : IsFrame frame
frame-IsFrame = record {
  size = (omega arith, omega arith, omega arith, omega arith);
  cursor_within = (omega arith, omega arith);
}

drawable : IsDrawable frame
drawable = record {
  is_frame = frame-IsFrame;
  few_scrolled = omega arith;
  known_screen = omega arith;
  not_held = refl;
}

viewport-IsWell : IsWell sizes viewport
viewport-IsWell = record { shown_frame = frame-IsFrame; sized = inr refl; pending_well = tt }

mirror : IsMirror screen viewport
unfolding same_frame cell_bytes
mirror = record { same_frame_shown = refl; same_cells = refl }

letter-IsWire : (rune : ℕ) → rune ≤ 41 → IsWire (letter rune)
letter-IsWire rune h = record {
  word_rune = omega arith;
  half_attributes = omega arith;
  word_foreground = omega arith;
  word_background = omega arith;
}

row_of-AreWire : (rune : ℕ) → rune ≤ 40 → All IsWire (row_of rune)
row_of-AreWire rune h =
    let last : All IsWire (letter (rune + 1) ∷ []) = (letter-IsWire (rune + 1) (omega arith), tt) in
    (letter-IsWire rune (omega arith), last)

engine-AreWire : AreWire engine
engine-AreWire zero = row_of-AreWire 20 (omega arith)
engine-AreWire (suc zero) = row_of-AreWire 30 (omega arith)
engine-AreWire (suc (suc row)) = row_of-AreWire 40 (omega arith)

-- Each byte is a chunk.
abbrev one_by_one : List ℕ → List (List ℕ)
one_by_one [] = []
one_by_one (b ∷ bytes) = (b ∷ []) ∷ one_by_one bytes

one_by_one-concat : (bytes : List ℕ) → concat (one_by_one bytes) ≡ bytes
one_by_one-concat [] = refl
one_by_one-concat (b ∷ bytes) = ap (λ bs. b ∷ bs) (one_by_one-concat bytes)

prepare-Delivers_example :
    (p : Prepared) × (prepare engine screen 7 false 9 false ≡ ok p)
    × Delivers selecting sizes engine frame screen viewport p (one_by_one (bytes_of p))
prepare-Delivers_example =
    prepare-Delivers selecting sizes small 7 engine screen frame false 9 false viewport one_by_one
      (omega arith) refl drawable columns_hold answers engine-AreWire clean_holds viewport-IsWell
      refl (refl, λ selected. refl) (λ some_rows. mirror) one_by_one-concat
