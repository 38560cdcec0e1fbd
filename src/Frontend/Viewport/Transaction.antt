-- ===== src/Frontend/Viewport/Transaction.antt =====
-- Only the packet that finishes a frame changes what is shown.
use worminal.Prelude.{
  ◌≡◌, refl, sym, subst, ◌⊎◌, inl, inr, true, ◌||◌, Option, none, some, ◌==◌, ==_iff, if_both,
}
use worminal.Prelude.Result.{Result, ok, err, and_then}
use worminal.Protocol.Wire.{wire_frame, wire_row, wire_frame_finish, wire_copy_rows, wire_row_span}
use worminal.Protocol.Packet.{Packet}
use worminal.Protocol.Payload
use worminal.Engine.Cells.{Frame}
use worminal.Frontend.Viewport.State.{Damage, Operation, Pending, Sizes, Viewport}
use worminal.Frontend.Viewport.Finish.{
  Selecting, drawn, configure_selection, publish, read_ranges, configured, finish_pending,
  finish_taken, finish,
}
use worminal.Frontend.Viewport.Apply.{
  begin_frame, begin_unless, pushed, add_operation, add_to, apply_frame, apply_operation_packet,
  read_frame, finished, apply_finish, apply, settled, packet,
}

module _ {S : Type 0} where
  -- The screen that is shown stays.
  pub record IsKept (v v' : Viewport S) : Type 0 where
    pub frame_kept : v'.frame ≡ v.frame
    pub cells_kept : v'.cells ≡ v.cells
    pub live_kept : v'.live ≡ v.live
    pub selected_kept : v'.selected ≡ v.selected

  -- The screen is the pending frame's.
  pub record IsShown (v : Viewport S) (p : Pending) (v' : Viewport S) : Type 0 where
    pub was_pending : v.pending ≡ some p
    pub frame_shown : v'.frame ≡ p.frame
    pub cells_shown : v'.cells ≡ (drawn v.frame v.cells p).cells
    pub is_live : v'.live ≡ true
    pub none_pending : v'.pending ≡ none

  abbrev pub Outcome : Packet → Viewport S → Viewport S → Type 0
  Outcome p v v' =
      IsKept v v' ⊎ ((p.kind ≡ wire_frame_finish) × ((pending : Pending) × IsShown v pending v'))

  settled-Outcome :
      (p : Packet) (v : Viewport S) (out : Result (Option Damage) × Viewport S)
      → Outcome p v out.1
      → Outcome p v (settled out).1
  unfolding settled
  settled-Outcome p v (ok damage, v') h = h
  settled-Outcome p v (err e, v') (inl k) = inl (record {
    frame_kept = k.frame_kept;
    cells_kept = k.cells_kept;
    live_kept = k.live_kept;
    selected_kept = k.selected_kept;
  })
  settled-Outcome p v (err e, v') (inr (k, (q, s))) = inr (
    k,
    (
      q,
      record {
        was_pending = s.was_pending;
        frame_shown = s.frame_shown;
        cells_shown = s.cells_shown;
        is_live = s.is_live;
        none_pending = refl;
      },
    ),
  )

  kept : {v : Viewport S} → IsKept v v
  kept = record { frame_kept = refl; cells_kept = refl; live_kept = refl; selected_kept = refl }

  pending-IsKept : {v : Viewport S} (o : Option Pending) → IsKept v (record v { pending = o })
  pending-IsKept o = record {
    frame_kept = refl;
    cells_kept = refl;
    live_kept = refl;
    selected_kept = refl;
  }

  begin_unless-IsKept :
      (o : Option Pending) (frame : Result Frame) (v : Viewport S)
      → IsKept v (begin_unless o frame v).1
  unfolding begin_unless begin_frame
  begin_unless-IsKept none (ok frame) v = pending-IsKept _
  begin_unless-IsKept none (err e) v = kept
  begin_unless-IsKept (some p) frame v = kept

  pushed-IsKept : (r : Result (Unit {0}) × Pending) (v : Viewport S) → IsKept v (pushed r v).1
  unfolding pushed
  pushed-IsKept (ok _, p) v = pending-IsKept _
  pushed-IsKept (err e, p) v = pending-IsKept _

  add_operation-IsKept :
      (sizes : Sizes) (p : Pending) (operation : Result Operation) (v : Viewport S)
      → IsKept v (add_operation sizes p operation v).1
  unfolding add_operation
  add_operation-IsKept sizes p (ok operation) v = pushed-IsKept _ v
  add_operation-IsKept sizes p (err e) v = kept

  add_to-IsKept :
      (o : Option Pending) (sizes : Sizes) (read : Frame → Result Operation) (v : Viewport S)
      → IsKept v (add_to o sizes read v).1
  unfolding add_to
  add_to-IsKept none sizes read v = kept
  add_to-IsKept (some p) sizes read v = add_operation-IsKept sizes p (read p.frame) v

  keeps_state :
      (r : Result (Unit {0})) (damage : Damage) (v : Viewport S)
      → (and_then r (λ _ w. (ok damage, w)) v).1 ≡ v
  keeps_state (ok _) damage v = refl
  keeps_state (err e) damage v = refl

  -- The selection is configured, the frame is shown, the ranges are read.
  finish_steps :
      (selecting : Selecting S) (p : Pending) (v : Viewport S) (r : Result (Unit {0}) × Option S)
      → configured selecting p.frame v.selection ≡ r
      → v.pending ≡ some p
      → let v' = (finish_pending selecting p (record v { pending = none })).1 in
        IsKept v v' ⊎ IsShown v p v'
  unfolding finish_pending configure_selection publish read_ranges
  finish_steps selecting p v (err e, o) c w = inl (
      rw c
        (record { frame_kept = refl; cells_kept = refl; live_kept = refl; selected_kept = refl }))
  finish_steps selecting p v (ok _, o) c w = inr (
      rw c (
        subst (IsShown v p) (sym (keeps_state _ _ _)) (record {
          was_pending = w;
          frame_shown = refl;
          cells_shown = refl;
          is_live = refl;
          none_pending = refl;
        })))

  finish_taken-Outcome :
      (selecting : Selecting S) (o : Option Pending) (v : Viewport S)
      → v.pending ≡ o
      → let v' = (finish_taken selecting o (record v { pending = none })).1 in
        IsKept v v' ⊎ ((p : Pending) × IsShown v p v')
  unfolding finish_taken
  finish_taken-Outcome selecting none v e = inl (pending-IsKept none)
  finish_taken-Outcome selecting (some p) v e =
      elim (finish_steps selecting p v (configured selecting p.frame v.selection) refl e) [
        | inl kept' ↦ inl kept'
        | inr shown ↦ inr (p, shown)
      ]

  finished_state : (out : Result Damage × Viewport S) → (finished out).1 ≡ out.1
  unfolding finished
  finished_state (ok damage, v) = refl
  finished_state (err e, v) = refl

  apply_finish-Outcome :
      (selecting : Selecting S) (r : Result (Unit {0})) (v : Viewport S)
      → let v' = (apply_finish selecting r v).1 in IsKept v v' ⊎ ((p : Pending) × IsShown v p v')
  unfolding apply_finish finish
  apply_finish-Outcome selecting (err e) v = inl kept
  apply_finish-Outcome selecting (ok _) v =
      rw (finished_state (finish_taken selecting v.pending (record v { pending = none })))
        (finish_taken-Outcome selecting v.pending v refl)

  abbrev Ends : Packet → Viewport S → Result (Option Damage) × Viewport S → Type 0
  Ends p v out = Outcome p v out.1

  apply-Outcome :
      (selecting : Selecting S) (sizes : Sizes) (p : Packet) (v : Viewport S)
      → Outcome p v (apply selecting sizes p v).1
  unfolding apply apply_frame apply_operation_packet
  apply-Outcome selecting sizes p v =
      if_both (Ends p v) (p.kind == wire_frame) _ _
        (λ _. inl (begin_unless-IsKept v.pending (read_frame p.body).0 v))
        (λ _.
          if_both (Ends p v) (p.kind == wire_row || p.kind == wire_row_span) _ _
            (λ _. inl (add_to-IsKept v.pending sizes _ v))
            (λ _.
              if_both (Ends p v) (p.kind == wire_copy_rows) _ _
                (λ _. inl (add_to-IsKept v.pending sizes _ v))
                (λ _.
                  if_both (Ends p v) (p.kind == wire_frame_finish) _ _
                    (λ e. elim (apply_finish-Outcome selecting (Payload.finish p.body).0 v) [
                      | inl kept' ↦ inl kept'
                      | inr shown ↦ inr ((==_iff p.kind wire_frame_finish).0 e, shown)
                    ])
                    (λ _. inl kept))))

  -- A packet leaves the screen that is shown as it is, whether it is taken or refused, unless it finishes
  -- a frame: then the frame that was pending is shown, its cells are what its operations make of the
  -- screen before, and nothing is pending.
  pub packet-Outcome :
      (selecting : Selecting S) (sizes : Sizes) (p : Packet) (v : Viewport S)
      → Outcome p v (packet selecting sizes p v).1
  unfolding packet
  packet-Outcome selecting sizes p v =
      settled-Outcome p v (apply selecting sizes p v) (apply-Outcome selecting sizes p v)
