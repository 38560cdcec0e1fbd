-- ===== src/Replica/Cost.antt =====
-- There is room for all operations of a plan.
use worminal.Prelude.{
  ℕ, ◌*◌, ◌-◌, ◌/◌, ◌≤◌, ◌≡◌, Option, none, some, List, [], ◌∷◌, ◌++◌, arith, length, take, drop,
  All, length-take, length-drop,
}
use native.Mathlib.Nat.{mul_comm, mul-le-mul_right}
use worminal.Protocol.Wire.{max_payload}
use worminal.Engine.Cells.{Cell, Frame}
use worminal.Daemon.Frames.Move.{Move}
use worminal.Daemon.Frames.Prepare.{Span, Update, Request}
use worminal.Daemon.Frames.Search.{FitsIn, IfAny}
use worminal.Frontend.Viewport.State.{Sizes}
use worminal.Frontend.Viewport.Finish.{Drawing}
use worminal.Frontend.Viewport.Bounds.{HasSize}
use worminal.Replica.Operations.{moved, operation_of, IsRow}
use worminal.Replica.Sent.{IsSent}
use worminal.Replica.Updates.{operations_of}
use worminal.Frontend.Viewport.Bounds.{cost, cost-append}

-- An operation and a cell are not larger in memory than on a machine of 64-bit words.
pub record IsSmall (sizes : Sizes) : Type 0 where
  pub operation : sizes.operation ≤ 64
  pub cell : sizes.cell ≤ 16

product_within : (a b x y : ℕ) → a ≤ x → b ≤ y → a * b ≤ x * y
product_within a b x y h k =
    omega (arith, mul-le-mul_right b h, mul-le-mul_right x k, mul_comm b x, mul_comm y x)

module _ {sizes : Sizes} (small : IsSmall sizes) (frame : Frame)
    (size : HasSize frame.columns frame.rows) where
  row-cost :
      (row rows : ℕ) (cs old : List Cell) (s : Option Span)
      → IsRow frame.columns rows row cs s old
      → cost sizes frame (operation_of row cs s ∷ []) ≤ 6464
  row-cost row rows cs old none h = omega (
    arith,
    small.operation,
    product_within (length cs) sizes.cell 400 16 (omega (arith, h.whole, size)) small.cell,
  )
  row-cost row rows cs old (some s) h =
      let part = take ((s.end - s.start) / 16) (drop (s.start / 16) cs) in
      let short : length part ≤ 400 = omega (
        arith,
        length-take ((s.end - s.start) / 16) (drop (s.start / 16) cs),
        length-drop (s.start / 16) cs,
        h.whole,
        size,
      ) in
      omega
        (arith, small.operation, product_within (length part) sizes.cell 400 16 short small.cell)

  updates-cost :
      (grid : ℕ → List Cell) (q : Request) (rows : ℕ) (width : q.width ≡ frame.columns * 16)
      (d : Drawing) (us : List Update)
      → All (IsSent grid q frame.columns rows width d) us
      → cost sizes frame (operations_of grid us) ≤ length us * 6464
  updates-cost grid q rows width d [] h = omega arith
  updates-cost grid q rows width d (u ∷ us) h = omega (
    arith,
    row-cost u.row rows (grid u.row) d.cells u.span h.0.is_row,
    updates-cost grid q rows width d us h.1,
  )

  moved-cost :
      (o : Option Move) → IfAny (FitsIn frame.rows) o → cost sizes frame (moved o) ≤ 1280064
  moved-cost none h = omega arith
  moved-cost (some m) h = omega (
    arith,
    small.operation,
    product_within (m.count * frame.columns) sizes.cell 80000 16
        (product_within m.count frame.columns 200 400 (omega (arith, h.from_inside, size))
          (omega (arith, size)))
        small.cell,
  )

  -- The operations of a move and of at most one update for each row.
  pub operations-cost :
      (grid : ℕ → List Cell) (q : Request) (rows : ℕ) (width : q.width ≡ frame.columns * 16)
      (d : Drawing) (o : Option Move) (us : List Update)
      → IfAny (FitsIn frame.rows) o
      → All (IsSent grid q frame.columns rows width d) us
      → length us ≤ frame.rows
      → cost sizes frame (moved o ++ operations_of grid us) ≤ max_payload
  operations-cost grid q rows width d o us f h l = omega (
    arith,
    cost-append sizes frame (moved o) (operations_of grid us),
    moved-cost o f,
    updates-cost grid q rows width d us h,
    size,
  )
