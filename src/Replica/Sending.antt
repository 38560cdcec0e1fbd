-- ===== src/Replica/Sending.antt =====
-- The packets of a plan's move and updates are taken one by one, and add its operations.
use worminal.Prelude.{
  ℕ, ◌+◌, ◌*◌, ◌-◌, ◌/◌, ◌≤◌, ◌<◌, ◌≡◌, refl, sym, ap, ap₂, ◌∙◌, subst, true, Option, none, some,
  List, [], ◌∷◌, ◌++◌, arith, length, take, drop, All, All-take, All-drop, append_assoc, append-nil,
  length-take, length-drop,
}
use worminal.Prelude.Result.{ok}
use worminal.Prelude.Bytes.{u32_mod, to_be_bytes}
use worminal.Protocol.Wire.{max_payload}
use worminal.Protocol.Packet.{Packet}
use worminal.Engine.Cells.{Cell}
use worminal.Daemon.Frames.Move.{Move}
use worminal.Daemon.Frames.Prepare.{Span, Update, Request}
use worminal.Daemon.Frames.Search.{FitsIn, IfAny}
use worminal.Daemon.Frames.Reading.{cells_bytes}
use worminal.Frontend.Viewport.State.{Operation, copy, Pending, Sizes, Viewport}
use worminal.Frontend.Viewport.Finish.{Selecting, Drawing}
use worminal.Frontend.Viewport.Apply.{read_span, apply, packet}
use worminal.Frontend.Viewport.Bounds.{HasSize}
use worminal.Replica.Cells.{IsWire, cells_bytes-take, cells_bytes-drop}
use worminal.Replica.Spans.{IsPart}
use worminal.Replica.Operations.{moved, operation_of, IsRow}
use worminal.Replica.Sent.{IsSent}
use worminal.Replica.Updates.{operations_of}
use worminal.Replica.Parsed.{read_copy-move_body, read_span-whole, part_body, read_span-part}
use worminal.Frontend.Viewport.Bounds.{cost, cost-append}
use worminal.Replica.Packets.{
  move_packets, update_packet, update_packets, apply_all, apply_all-append, with_operations, added,
}

-- The cells of a part of a row.
abbrev part_of : Span → List Cell → List Cell
part_of s cs = take ((s.end - s.start) / 16) (drop (s.start / 16) cs)

part-bytes :
    (cs os : List Cell) (s : Span)
    → IsPart cs os s
    → take (s.end - s.start) (drop s.start (cells_bytes cs)) ≡ cells_bytes (part_of s cs)
part-bytes cs os s h =
    let column = s.start / 16 in
    let count = (s.end - s.start) / 16 in
    let start : s.start ≡ column * 16 = omega (arith, h.starts) in
    let size : s.end - s.start ≡ count * 16 = omega (arith, h.starts, h.ends) in
    ap₂ (λ n a. take n (drop a (cells_bytes cs))) size start
    ∙ ap (take (count * 16)) (cells_bytes-drop column cs)
    ∙ cells_bytes-take count (drop column cs)

part-length :
    (cs os : List Cell) (s : Span)
    → IsPart cs os s
    → (0 < length (part_of s cs)) × (s.start / 16 + length (part_of s cs) ≤ length cs)
part-length cs os s h =
    let column = s.start / 16 in
    let size = length-take ((s.end - s.start) / 16) (drop column cs) in
    let rest = length-drop column cs in
    (
      omega (arith, size, rest, h.starts, h.ends, h.some_cells, h.inside),
      omega (arith, size, rest, h.starts, h.ends, h.some_cells, h.inside),
    )

module _ {S : Type 0} (selecting : Selecting S) (sizes : Sizes) (tab : ℕ) where
  -- Packets are taken, and add operations to the frame that is not finished.
  abbrev pub Adds : List Packet → List Operation → Pending → Viewport S → Type 0
  Adds ps os p v =
      v.pending ≡ some p
      → p.bytes + cost sizes p.frame os ≤ max_payload
      → apply_all selecting sizes ps v
        ≡ (ok tt, record v { pending = some (with_operations sizes p os) })

  no_operations : (p : Pending) → with_operations sizes p [] ≡ p
  no_operations p =
      let os = append-nil p.operations in
      let n : p.bytes + 0 ≡ p.bytes = omega arith in
      λ i. record { frame = p.frame; operations = os i; bytes = n i }

  with_operations-append :
      (p : Pending) (os ps : List Operation)
      → with_operations sizes (with_operations sizes p os) ps ≡ with_operations sizes p (os ++ ps)
  with_operations-append p os ps =
      let all = append_assoc p.operations os ps in
      let n : p.bytes + cost sizes p.frame os + cost sizes p.frame ps
          ≡ p.bytes + cost sizes p.frame (os ++ ps) =
        omega (arith, cost-append sizes p.frame os ps) in
      λ i. record { frame = p.frame; operations = all i; bytes = n i }

  Adds-nil : (p : Pending) (v : Viewport S) → Adds [] [] p v
  unfolding apply_all
  Adds-nil p v e h =
      let here = e ∙ sym (ap some (no_operations p)) in λ i. (ok tt, record v { pending = here i })

  Adds-cons :
      (k : Packet) (ks : List Packet) (o : Operation) (os : List Operation) (p : Pending)
      (v : Viewport S)
      → (v.pending ≡ some p
          → p.bytes + cost sizes p.frame (o ∷ []) ≤ max_payload
          → packet selecting sizes k v
            ≡ (ok none, record v { pending = some (with_operations sizes p (o ∷ [])) }))
      → Adds ks os
          (with_operations sizes p (o ∷ []))
          (record v { pending = some (with_operations sizes p (o ∷ [])) })
      → Adds (k ∷ ks) (o ∷ os) p v
  unfolding apply_all
  Adds-cons k ks o os p v one rest e h = rw (one e (omega arith)) (
      rest refl (omega arith)
      ∙ ap (λ x. (ok tt, record v { pending = some x })) (with_operations-append p (o ∷ []) os))

  pub Adds-append :
      (ks ls : List Packet) (os ps : List Operation) (p : Pending) (v : Viewport S)
      → Adds ks os p v
      → Adds ls ps
          (with_operations sizes p os)
          (record v { pending = some (with_operations sizes p os) })
      → Adds (ks ++ ls) (os ++ ps) p v
  Adds-append ks ls os ps p v first second e h =
      let total = cost-append sizes p.frame os ps in
      apply_all-append selecting sizes ks ls v _ (first e (omega (arith, total)))
      ∙ second refl (omega (arith, total))
      ∙ ap (λ x. (ok tt, record v { pending = some x })) (with_operations-append p os ps)

  pub move-Adds :
      (o : Option Move) (p : Pending) (v : Viewport S)
      → p.frame.rows < u32_mod
      → IfAny (FitsIn p.frame.rows) o
      → Adds (move_packets tab o) (moved o) p v
  move-Adds none p v r f = Adds-nil p v
  move-Adds (some m) p v r f =
      Adds-cons _ [] _ [] p v
        (λ e h.
          unfold packet apply in
          added selecting sizes _ (copy m.source m.destination m.count) p v e
            (rw append-nil (ap (λ x. x.0) (read_copy-move_body p.frame m r f))) h)
        (Adds-nil _ _)

  -- A row, or a part of it, is read as the operation that it stands for.
  row-Adds :
      (row : ℕ) (cs old : List Cell) (s : Option Span) (p : Pending) (v : Viewport S)
      → HasSize p.frame.columns p.frame.rows
      → IsRow p.frame.columns p.frame.rows row cs s old
      → v.pending ≡ some p
      → p.bytes + cost sizes p.frame (operation_of row cs s ∷ []) ≤ max_payload
      → packet selecting sizes (update_packet tab row (cells_bytes cs) s) v ≡ (
        ok none,
        record v { pending = some (with_operations sizes p (operation_of row cs s ∷ [])) },
      )
  unfolding packet apply
  row-Adds row cs old none p v z h e fits =
      added selecting sizes _ (operation_of row cs none) p v e
        (ap (λ x. x.0)
          (read_span-whole p.frame row _ cs h.inside (omega (arith, z)) z.0 h.whole h.wire refl))
        fits
  row-Adds row cs old (some s) p v z h e fits =
      let ds = part_of s cs in
      let inside = part-length cs _ s h.part in
      let body : to_be_bytes row
            ++ (to_be_bytes (s.start / 16)
                ++ (take (s.end - s.start) (drop s.start (cells_bytes cs)) ++ []))
          ≡ part_body row (s.start / 16) ds =
        ap (λ bytes. to_be_bytes row ++ (to_be_bytes (s.start / 16) ++ (bytes ++ [])))
          (part-bytes cs _ s h.part) in
      added selecting sizes _ (operation_of row cs (some s)) p v e
        (ap (λ bytes. (read_span true p.frame (length bytes) bytes).0) body
          ∙ ap (λ x. x.0)
              (read_span-part p.frame row (s.start / 16) _ ds h.inside (omega (arith, z))
                (omega (arith, z)) inside.0 (omega (arith, inside.1, h.whole))
                (All-take IsWire _ _ (All-drop IsWire _ cs h.wire)) refl))
        fits

  pub updates-Adds :
      (grid : ℕ → List Cell) (q : Request) (d : Drawing) (us : List Update) (p : Pending)
      (v : Viewport S) (width : q.width ≡ p.frame.columns * 16)
      → HasSize p.frame.columns p.frame.rows
      → All (IsSent grid q p.frame.columns p.frame.rows width d) us
      → Adds (update_packets tab us) (operations_of grid us) p v
  updates-Adds grid q d [] p v width z h = Adds-nil p v
  updates-Adds grid q d (u ∷ us) p v width z h =
      Adds-cons _ _ (operation_of u.row (grid u.row) u.span) _ p v
        (λ e fits.
          subst
            (λ bytes. packet selecting sizes (update_packet tab u.row bytes u.span) v ≡ (
              ok none,
              record v {
                pending =
                    some (with_operations sizes p (operation_of u.row (grid u.row) u.span ∷ []));
              },
            ))
            (sym h.0.cells) (row-Adds u.row (grid u.row) d.cells u.span p v z h.0.is_row e fits))
        (updates-Adds grid q d us _ _ width z h.1)
