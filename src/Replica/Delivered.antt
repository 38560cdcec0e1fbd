-- ===== src/Replica/Delivered.antt =====
-- The packets of a plan show the engine's screen.
use worminal.Prelude.{
  ℕ, ◌≤◌, ◌≡◌, refl, sym, ap₂, ◌∙◌, subst, Bool, true, false, none, some, List, ◌++◌, arith, length,
  All,
}
use worminal.Prelude.Result.{ok}
use worminal.Engine.Cells.{Cell, Frame}
use worminal.Daemon.Frames.Prepare.{Screen, Engine, Update, Plan, changed, Request, updates_from}
use worminal.Daemon.Frames.Reading.{cells_bytes, screen_cells, screen_bytes}
use worminal.Daemon.Frames.Faithful.{AreRows}
use worminal.Daemon.Frames.Planned.{row_bytes, needs_all, request, IsPrepared}
use worminal.Frontend.Viewport.State.{Operation, Sizes, Viewport}
use worminal.Frontend.Viewport.Finish.{Selecting, drawn}
use worminal.Frontend.Viewport.Transaction.{IsShown}
use worminal.Frontend.Viewport.Safe.{IsWell}
use worminal.Daemon.Frames.Search.{FitsIn, IfAny}
use worminal.Protocol.Wire.{max_payload}
use worminal.Replica.Cells.{IsWire}
use worminal.Replica.Operations.{moved}
use worminal.Replica.Sent.{IsSent}
use worminal.Replica.Updates.{operations_of}
use worminal.Replica.Drawn.{moved_drawing, IsBase, fits_moved, updates-AreSent, operations-AreRows}
use worminal.Replica.Parsed.{IsDrawable, told}
use worminal.Frontend.Viewport.Bounds.{cost}
use worminal.Replica.Packets.{move_packets, update_packets, apply_all, with_operations}
use worminal.Replica.Sending.{Adds, Adds-append, move-Adds, updates-Adds}
use worminal.Replica.Cost.{IsSmall, operations-cost}
use worminal.Replica.Shown.{Follows}
use worminal.Replica.Mirror.{
  frame_packets, canvas, begun, taken, IsMirror, canvas-length, canvas-IsMirror,
}

-- Where the engine's rows can be told.
abbrev pub AreWire : Engine → Type 0
AreWire engine = (row : ℕ) → All IsWire (screen_cells engine row)

-- The viewport shows the engine's frame and its rows.
pub record ShowsEngine {S : Type 0} (engine : Engine) (frame : Frame) (v : Viewport S)
    : Type 0 where
  pub frame_shown : v.frame ≡ told frame
  pub rows_shown : AreRows (row_bytes frame) frame.rows (screen_bytes engine) (cells_bytes v.cells)
  pub is_live : v.live ≡ true
  pub none_pending : v.pending ≡ none

module _ {S : Type 0} (selecting : Selecting S) {sizes : Sizes} (small : IsSmall sizes) {tab : ℕ}
    {engine : Engine} {screen : Screen} {frame : Frame} {asked : Bool} {features : ℕ} {plan : Plan}
    (h : IsPrepared engine screen tab frame asked features (changed plan))
    (drawable : IsDrawable frame) (wire : AreWire engine) (v : Viewport S) (well : IsWell sizes v)
    (mirror : needs_all asked screen frame ≡ false → IsMirror screen v) where
  abbrev grid : ℕ → List Cell
  grid = screen_cells engine

  abbrev full : Bool
  full = needs_all asked screen frame

  abbrev asking : Request
  asking = request screen frame full features h.searching h.current

  abbrev updates : List Update
  updates = updates_from asking 0 h.dirty h.current

  abbrev operations : List Operation
  operations = moved asking.movement ++ operations_of grid updates

  canvas-IsBase : IsBase grid frame.columns h.is_asked refl wire (canvas frame v)
  canvas-IsBase = record {
    size = canvas-length frame v well;
    partial = λ some_rows.
        canvas-IsMirror screen frame v well (mirror some_rows)
          (drawable.is_frame.size.0, drawable.is_frame.size.2) (ground arith) (ground arith);
  }

  planned-AreSent :
      let d = moved_drawing grid frame.columns h.is_asked refl wire (canvas frame v) in
      All (IsSent grid asking frame.columns frame.rows refl d) updates
      × (length updates ≤ frame.rows)
  planned-AreSent =
      updates-AreSent grid frame.columns h.is_asked refl wire (canvas frame v) canvas-IsBase

  fits : IfAny (FitsIn frame.rows) asking.movement
  fits = fits_moved grid frame.columns h.is_asked refl wire (canvas frame v) canvas-IsBase

  operations-Adds :
      Adds selecting sizes tab
        (move_packets tab asking.movement ++ update_packets tab updates)
        operations
        (begun frame)
        (record v { pending = some (begun frame) })
  operations-Adds =
      Adds-append selecting sizes tab (move_packets tab asking.movement)
        (update_packets tab updates) (moved asking.movement) (operations_of grid updates)
        (begun frame) (record v { pending = some (begun frame) })
        (move-Adds selecting sizes tab asking.movement (begun frame) _
          (omega (arith, drawable.is_frame.size)) fits)
        (updates-Adds selecting sizes tab grid asking
          (moved_drawing grid frame.columns h.is_asked refl wire (canvas frame v)) updates _ _ refl
          drawable.is_frame.size planned-AreSent.0)

  operations-fit : cost sizes (told frame) operations ≤ max_payload
  operations-fit =
      operations-cost small (told frame) drawable.is_frame.size grid asking frame.rows refl _
        asking.movement updates fits planned-AreSent.0 planned-AreSent.1

  -- What is shown once the operations are drawn.
  shown-ShowsEngine :
      (w v' : Viewport S)
      → w.frame ≡ v.frame
      → w.cells ≡ v.cells
      → IsShown w (with_operations sizes (begun frame) operations) v'
      → ShowsEngine engine frame v'
  unfolding drawn
  shown-ShowsEngine w v' f c s = record {
    frame_shown = s.frame_shown;
    rows_shown =
        subst
          (λ cells. AreRows (row_bytes frame) frame.rows (screen_bytes engine) (cells_bytes cells))
          (sym (
            s.cells_shown
            ∙ ap₂
                (λ old cells.
                  (drawn old cells (with_operations sizes (begun frame) operations)).cells)
                f c))
          (operations-AreRows grid frame.columns h.is_asked refl wire (canvas frame v)
            canvas-IsBase);
    is_live = s.is_live;
    none_pending = s.none_pending;
  }

  pub frame_packets-ShowsEngine :
      v.pending ≡ none
      → Follows selecting (told frame) v.selection
      → (v' : Viewport S) × (apply_all selecting sizes
            (frame_packets tab frame asking.movement updates)
            v
          ≡ (ok tt, v'))
        × ShowsEngine engine frame v'
  frame_packets-ShowsEngine idle follows =
      let (v', applied, shown) =
        taken selecting sizes tab frame asking.movement updates operations v idle drawable follows
          operations-fit operations-Adds in
      (v', applied, shown-ShowsEngine _ v' refl refl shown)
