-- ===== src/Frontend/Viewport/Safe.antt =====
-- What holds of a viewport whatever packets arrive.
use worminal.Prelude.{
  ℕ, ◌+◌, ◌≤◌, ◌≡◌, refl, sym, subst, inl, inr, ◌||◌, Option, none, some, [], ◌∷◌, ◌++◌, ltb, leb,
  ◌==◌, arith, if_both, length, All-append,
}
use worminal.Prelude.Result.{Result, ok, err, and_then, Ensures}
use worminal.Prelude.Bytes.{usize_mod}
use worminal.Protocol.Wire.{
  wire_frame, wire_row, wire_frame_finish, wire_copy_rows, wire_row_span, max_payload,
}
use worminal.Protocol.Packet.{Packet}
use worminal.Engine.Cells.{Frame}
use worminal.Frontend.Viewport.State.{
  dimensions, Damage, Operation, Pending, Sizes, push, Viewport, fresh, checked, new, is_empty,
}
use worminal.Frontend.Viewport.Finish.{
  Selecting, configure_selection, publish, read_ranges, configured, finish_pending, finish_taken,
  finish,
}
use worminal.Frontend.Viewport.Apply.{
  operation_bytes, begin_frame, begin_unless, pushed, add_operation, add_to, apply_frame,
  apply_operation_packet, finished, apply_finish, apply, settled, packet,
}
use worminal.Frontend.Viewport.Transaction.{IsKept, IsShown, packet-Outcome}
use worminal.Frontend.Viewport.Sized.{IsWithin, IsSized, drawn-length}
use worminal.Frontend.Viewport.Bounds.{
  IsFrame, IsPending, cost, cost-append, operation_bytes-footprint, dimensions-HasSize,
  read_frame-IsFrame, read_span-IsWithin, read_copy-IsWithin,
}

abbrev pub IsPendingIfAny : Sizes → Option Pending → Type 0
IsPendingIfAny sizes none = Unit
IsPendingIfAny sizes (some p) = IsPending sizes p

push-IsPending :
    (sizes : Sizes) (operation : Operation) (p : Pending)
    → IsPending sizes p
    → IsWithin p.frame operation
    → IsPending sizes (push sizes operation (operation_bytes sizes p.frame operation) p).1
unfolding push
push-IsPending sizes operation p h k =
    let bytes = p.bytes + (sizes.operation + operation_bytes sizes p.frame operation) in
    let all = p.operations ++ operation ∷ [] in
    let size : bytes ≡ cost sizes p.frame all = omega (
      arith,
      h.counted,
      operation_bytes-footprint sizes p.frame operation,
      cost-append sizes p.frame p.operations (operation ∷ []),
    ) in
    if_both (λ (x : Result (Unit {0}) × Pending). IsPending sizes x.1)
      (leb usize_mod bytes || ltb max_payload bytes) _
      (ok tt, record p { operations = all; bytes = bytes }) (λ _. h)
      λ fits.
        let small : bytes ≤ max_payload = ground arith in
        record {
          is_frame = h.is_frame;
          within = All-append (IsWithin p.frame) p.operations (operation ∷ []) h.within (k, tt);
          counted = size;
          bounded = omega (arith, size, small);
        }

module _ {S : Type 0} where
  keeps_pending :
      (r : Result (Unit {0})) (damage : Damage) (v : Viewport S)
      → v.pending ≡ none
      → (and_then r (λ _ w. (ok damage, w)) v).1.pending ≡ none
  keeps_pending (ok _) damage v h = h
  keeps_pending (err e) damage v h = h

  finish_steps-none :
      (selecting : Selecting S) (p : Pending) (v : Viewport S) (r : Result (Unit {0}) × Option S)
      → configured selecting p.frame v.selection ≡ r
      → (finish_pending selecting p (record v { pending = none })).1.pending ≡ none
  unfolding finish_pending configure_selection publish read_ranges
  finish_steps-none selecting p v (err e, o) c = rw c refl
  finish_steps-none selecting p v (ok _, o) c = rw c (keeps_pending _ _ _ refl)

  finish-none : (selecting : Selecting S) (v : Viewport S) → (finish selecting v).1.pending ≡ none
  unfolding finish
  finish-none selecting v = go v.pending
    where
      go :
          (o : Option Pending)
          → (finish_taken selecting o (record v { pending = none })).1.pending ≡ none
      go none = unfold finish_taken in refl
      go (some p) = unfold finish_taken in finish_steps-none selecting p v _ refl

  finished_pending : (out : Result Damage × Viewport S) → (finished out).1.pending ≡ out.1.pending
  unfolding finished
  finished_pending (ok damage, v) = refl
  finished_pending (err e, v) = refl

module _ {S : Type 0} (sizes : Sizes) where
  -- The frame that is shown has its cells, and a frame that is not finished can be shown.
  pub record IsWell (v : Viewport S) : Type 0 where
    pub shown_frame : IsFrame v.frame
    pub sized : IsSized v.frame v.cells
    pub pending_well : IsPendingIfAny sizes v.pending

  abbrev PendingWell : Result (Option Damage) × Viewport S → Type 0
  PendingWell out = IsPendingIfAny sizes out.1.pending

  begin_unless-PendingWell :
      (o : Option Pending) (frame : Result Frame) (v : Viewport S)
      → Ensures IsFrame frame
      → IsPendingIfAny sizes v.pending
      → PendingWell (begin_unless o frame v)
  unfolding begin_unless begin_frame
  begin_unless-PendingWell none (ok frame) v f h = record {
    is_frame = f;
    within = tt;
    counted = refl;
    bounded = omega arith;
  }
  begin_unless-PendingWell none (err e) v f h = h
  begin_unless-PendingWell (some p) frame v f h = h

  pushed-PendingWell :
      (r : Result (Unit {0}) × Pending) (v : Viewport S)
      → IsPending sizes r.1
      → PendingWell (pushed r v)
  unfolding pushed
  pushed-PendingWell (ok _, p) v h = h
  pushed-PendingWell (err e, p) v h = h

  add_operation-PendingWell :
      (p : Pending) (operation : Result Operation) (v : Viewport S)
      → IsPending sizes p
      → IsPendingIfAny sizes v.pending
      → Ensures (IsWithin p.frame) operation
      → PendingWell (add_operation sizes p operation v)
  unfolding add_operation
  add_operation-PendingWell p (ok operation) v h k w =
      pushed-PendingWell _ v (push-IsPending sizes operation p h w)
  add_operation-PendingWell p (err e) v h k w = k

  add_to-PendingWell :
      (o : Option Pending) (read : Frame → Result Operation) (v : Viewport S)
      → IsPendingIfAny sizes o
      → IsPendingIfAny sizes v.pending
      → ((frame : Frame) → Ensures (IsWithin frame) (read frame))
      → PendingWell (add_to o sizes read v)
  unfolding add_to
  add_to-PendingWell none read v h k w = k
  add_to-PendingWell (some p) read v h k w =
      add_operation-PendingWell p (read p.frame) v h k (w p.frame)

  apply_finish-PendingWell :
      (selecting : Selecting S) (r : Result (Unit {0})) (v : Viewport S)
      → IsPendingIfAny sizes v.pending
      → PendingWell (apply_finish selecting r v)
  unfolding apply_finish
  apply_finish-PendingWell selecting (err e) v h = h
  apply_finish-PendingWell selecting (ok _) v h =
      rw (finished_pending (finish selecting v), finish-none selecting v) tt

  apply-PendingWell :
      (selecting : Selecting S) (p : Packet) (v : Viewport S)
      → IsPendingIfAny sizes v.pending
      → PendingWell (apply selecting sizes p v)
  unfolding apply apply_frame apply_operation_packet
  apply-PendingWell selecting p v h =
      if_both PendingWell (p.kind == wire_frame) _ _
        (λ _. begin_unless-PendingWell v.pending _ v (read_frame-IsFrame p.body) h)
        (λ _.
          if_both PendingWell (p.kind == wire_row || p.kind == wire_row_span) _ _
            (λ _.
              add_to-PendingWell v.pending _ v h h (λ frame.
                read_span-IsWithin (p.kind == wire_row_span) frame (length p.body) p.body))
            (λ _.
              if_both PendingWell (p.kind == wire_copy_rows) _ _
                (λ _.
                  add_to-PendingWell v.pending _ v h h (λ frame. read_copy-IsWithin frame p.body))
                (λ _.
                  if_both PendingWell (p.kind == wire_frame_finish) _ _
                    (λ _. apply_finish-PendingWell selecting _ v h) (λ _. h))))

  settled-PendingWell :
      (out : Result (Option Damage) × Viewport S) → PendingWell out → PendingWell (settled out)
  unfolding settled
  settled-PendingWell (ok damage, v) h = h
  settled-PendingWell (err e, v) h = tt

  packet-PendingWell :
      (selecting : Selecting S) (p : Packet) (v : Viewport S)
      → IsPendingIfAny sizes v.pending
      → PendingWell (packet selecting sizes p v)
  unfolding packet
  packet-PendingWell selecting p v h = settled-PendingWell _ (apply-PendingWell selecting p v h)

  kept-IsWell :
      (v v' : Viewport S) → IsWell v → IsKept v v' → IsPendingIfAny sizes v'.pending → IsWell v'
  kept-IsWell v v' h k q = record {
    shown_frame = subst IsFrame (sym k.frame_kept) h.shown_frame;
    sized = rw (k.frame_kept, k.cells_kept) h.sized;
    pending_well = q;
  }

  shown-IsWell :
      (v v' : Viewport S) (p : Pending)
      → IsWell v
      → IsShown v p v'
      → IsPendingIfAny sizes v'.pending
      → IsWell v'
  shown-IsWell v v' p h s q = record {
    shown_frame = subst IsFrame (sym s.frame_shown) was.is_frame;
    sized =
        inr (rw (s.frame_shown, s.cells_shown) (drawn-length v.frame v.cells p h.sized was.within));
    pending_well = q;
  }
    where
      was : IsPending sizes p
      was = subst (IsPendingIfAny sizes) s.was_pending h.pending_well

  -- Whatever packet arrives, taken or refused: the cursor stays within the frame that is shown, the frame
  -- has all its cells or none, and the operations that wait stay within their frame; what they take in
  -- memory, or copy, is what the counter says and within the bound.
  pub packet-IsWell :
      (selecting : Selecting S) (p : Packet) (v : Viewport S)
      → IsWell v
      → IsWell (packet selecting sizes p v).1
  packet-IsWell selecting p v h = elim (packet-Outcome selecting sizes p v) [
    | inl kept ↦ kept-IsWell v _ h kept well
    | inr (_, (pending, shown)) ↦ shown-IsWell v _ pending h shown well
  ]
    where
      well : PendingWell (packet selecting sizes p v)
      well = packet-PendingWell selecting p v h.pending_well

checked-ok :
    (S : Type 0) (sizes : Sizes) (columns rows : ℕ) (r : Result (Unit {0}))
    → dimensions columns rows ≡ r
    → Ensures (IsWell sizes) (checked r (fresh {S = S} columns rows))
unfolding checked fresh is_empty
checked-ok S sizes columns rows (ok u) e =
    let size = dimensions-HasSize columns rows {u = u} e in
    record {
      shown_frame = record { size = size; cursor_within = (size.0, size.2) };
      sized = inl refl;
      pending_well = tt;
    }
checked-ok S sizes columns rows (err x) e = tt

pub new-IsWell :
    (S : Type 0) (sizes : Sizes) (columns rows : ℕ)
    → Ensures (IsWell sizes) (new {S = S} columns rows)
unfolding new
new-IsWell S sizes columns rows = checked-ok S sizes columns rows (dimensions columns rows) refl
