-- ===== src/Frontend/Viewport/Tests.antt =====
-- A frame of two columns and two rows, and the theorems at it.
use worminal.Prelude.{true, false, ℕ, refl, inl, some, [], ◌∷◌, arith, All}
use worminal.Prelude.Result.{ok}
use worminal.Protocol.Wire.{wire_frame_finish}
use worminal.Protocol.Packet.{Packet}
use worminal.Engine.Cells.{Cell, Frame}
use worminal.Frontend.Viewport.State.{span, copy, Pending, Sizes, Viewport, fresh, is_empty}
use worminal.Frontend.Viewport.Finish.{Aim, Selecting}
use worminal.Frontend.Viewport.Apply.{packet}
use worminal.Frontend.Viewport.Transaction.{Outcome, packet-Outcome}
use worminal.Frontend.Viewport.Sized.{IsWithin}
use worminal.Frontend.Viewport.Bounds.{IsFrame}
use worminal.Frontend.Viewport.Select.{select}
use worminal.Frontend.Viewport.Safe.{IsWell, packet-IsWell}

-- A selection of the first row.
abbrev selecting : Selecting (Unit {0})
selecting = record {
  create = λ frame. ok tt;
  select = λ cells aim s. (ok tt, s);
  clear = λ s. (ok tt, s);
  text = λ cells s. (ok [], s);
  configure = λ frame s. (ok tt, s);
  ranges = λ s selected. (ok tt, s, (0, 2) ∷ []);
}

abbrev sizes : Sizes
sizes = record { operation = 40; cell = 16 }

abbrev two_by_two : Frame
two_by_two = record {
  columns = 2;
  rows = 2;
  cursor_x = 1;
  cursor_y = 0;
  scroll = 0;
  alternate = 0;
  redraw_deadline = 0;
}

abbrev letter : ℕ → Cell
letter rune = record { rune = rune; attributes = 0; foreground = 258; background = 259 }

-- The second row is written, and copied over the first.
abbrev pending : Pending
pending = record {
  frame = two_by_two;
  operations = span 1 0 (letter 65 ∷ letter 66 ∷ []) ∷ copy 1 0 1 ∷ [];
  bytes = 144;
}

abbrev waiting : Viewport (Unit {0})
waiting = record (fresh 2 2) { pending = some pending }

abbrev finishing : Packet
finishing = record { kind = wire_frame_finish; tab = 3; body = [] }

packet-Outcome_example : Outcome finishing waiting (packet selecting sizes finishing waiting).1
packet-Outcome_example = packet-Outcome selecting sizes finishing waiting

two_by_two-IsFrame : IsFrame two_by_two
two_by_two-IsFrame = record {
  size = (omega arith, omega arith, omega arith, omega arith);
  cursor_within = (omega arith, omega arith);
}

written-IsWithin : IsWithin two_by_two (span 1 0 (letter 65 ∷ letter 66 ∷ []))
written-IsWithin = (omega arith, omega arith, omega arith)

copied-IsWithin : All (IsWithin two_by_two) (copy 1 0 1 ∷ [])
copied-IsWithin = ((omega arith, omega arith, omega arith), tt)

waiting-IsWell : IsWell sizes waiting
unfolding fresh is_empty
waiting-IsWell = record {
  shown_frame = record {
    size = (omega arith, omega arith, omega arith, omega arith);
    cursor_within = (omega arith, omega arith);
  };
  sized = inl refl;
  pending_well = record {
    is_frame = two_by_two-IsFrame;
    within = (written-IsWithin, copied-IsWithin);
    counted = refl;
    bounded = omega arith;
  };
}

packet-IsWell_example : IsWell sizes (packet selecting sizes finishing waiting).1
packet-IsWell_example = packet-IsWell sizes selecting finishing waiting waiting-IsWell

abbrev first_row : Aim
first_row = record {
  column = 0;
  row = 0;
  start = true;
  snap = 2;
  rectangular = false;
  done = false;
}
