-- ===== src/Replica/Shown.antt =====
-- The packet that finishes a frame shows it, unless the C selection refuses.
use worminal.Prelude.{ℕ, ◌≡◌, refl, sym, ap, subst, Option, none, some, List}
use worminal.Prelude.Result.{Result, ok, err}
use worminal.Protocol.Payload
use worminal.Engine.Cells.{Frame}
use worminal.Frontend.Viewport.State.{Damage, Pending, Sizes, Viewport}
use worminal.Frontend.Viewport.Finish.{
  Selecting, configured, ranged, configure_selection, publish, read_ranges, finish_pending,
  finish_taken, finish,
}
use worminal.Frontend.Viewport.Apply.{finished, apply_finish, apply, settled, packet}
use worminal.Frontend.Viewport.Transaction.{IsShown}
use worminal.Replica.Packets.{finish_packet}

module _ {S : Type 0} where
  -- The C selection, if there is one, takes the frame and tells its ranges.
  abbrev pub Follows : Selecting S → Frame → Option S → Type 0
  Follows selecting frame none = Unit
  Follows selecting frame (some s) =
      ((selecting.configure frame s).0 ≡ ok tt)
      × ((selected : List (ℕ × ℕ))
          → (selecting.ranges (selecting.configure frame s).1 selected).0 ≡ ok tt)

  -- A packet that showed the frame that was pending.
  abbrev pub Shows : Pending → Viewport S → Result (Option Damage) × Viewport S → Type 0
  Shows p v out = (damage : Damage) × (out.0 ≡ ok (some damage)) × IsShown v p out.1

module _ {S : Type 0} (selecting : Selecting S) (sizes : Sizes) where
  shows :
      (p : Pending) (v : Viewport S) (c : Result (Unit {0}) × Option S)
      (r : Result (Unit {0}) × Option S × List (ℕ × ℕ))
      → v.pending ≡ some p
      → configured selecting p.frame v.selection ≡ c
      → c.0 ≡ ok tt
      → ranged selecting c.1 v.selected ≡ r
      → r.0 ≡ ok tt
      → Shows p v (settled (finished (finish_pending selecting p (record v { pending = none }))))
  unfolding settled finished finish_pending configure_selection publish read_ranges
  shows p v (ok _, o) (ok _, o', selected) e c k r l =
      rw (c, r)
        (
          _,
          refl,
          record {
            was_pending = e;
            frame_shown = refl;
            cells_shown = refl;
            is_live = refl;
            none_pending = refl;
          },
        )
  shows p v (ok _, o) (err x, o', selected) e c k r l = cc
  shows p v (err x, o) r e c k _ l = cc

  selection-Shows :
      (p : Pending) (v : Viewport S) (o : Option S)
      → v.selection ≡ o
      → Follows selecting p.frame o
      → v.pending ≡ some p
      → Shows p v (settled (finished (finish_pending selecting p (record v { pending = none }))))
  unfolding configured ranged
  selection-Shows p v none s h e =
      shows p v (ok tt, none) _ e (ap (configured selecting p.frame) s) refl refl refl
  selection-Shows p v (some x) s h e =
      shows p v _ _ e (ap (configured selecting p.frame) s) h.0 refl (h.1 v.selected)

  pub finish_packet-Shows :
      (tab : ℕ) (p : Pending) (v : Viewport S)
      → v.pending ≡ some p
      → Follows selecting p.frame v.selection
      → Shows p v (packet selecting sizes (finish_packet tab) v)
  unfolding packet apply apply_finish finish finish_taken Payload.finish
  finish_packet-Shows tab p v e h =
      subst
        (λ o.
          Shows p v (settled (finished (finish_taken selecting o (record v { pending = none })))))
        (sym e) (selection-Shows p v v.selection refl h e)
