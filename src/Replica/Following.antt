-- ===== src/Replica/Following.antt =====
-- A frame that the daemon prepares reaches the viewport, through the bytes of its packets.
use worminal.Prelude.{
  ℕ, ◌<◌, ◌≡◌, refl, sym, ap, ◌∙◌, subst, inr, Bool, true, false, Option, none, List, [], concat,
  arith, length,
}
use worminal.Prelude.Result.{ok}
use worminal.Prelude.Bytes.{u32_mod}
use worminal.Protocol.Buffer
use worminal.Protocol.Packet.{finished}
use worminal.Protocol.Decoder.{start}
use worminal.Protocol.Decoder.Open.{start-IsOpen}
use worminal.Protocol.Decoder.Feed.{drained, feed, feed_chunks, feed_chunks-concat}
use worminal.Protocol.Decoder.RoundTrip.{feed-wires}
use worminal.Engine.Cells.{Frame}
use worminal.Daemon.Frames.Move.{Move}
use worminal.Daemon.Frames.Prepare.{
  same_frame, Screen, Engine, Update, Prepared, changed, updates_from,
}
use worminal.Daemon.Frames.Encode.{put_frame, prepare}
use worminal.Daemon.Frames.Commit.{adopt}
use worminal.Daemon.Frames.Reading.{cells_bytes, cells_bytes-length, HasColumns, screen_bytes}
use worminal.Daemon.Frames.Faithful.{AreRows}
use worminal.Daemon.Frames.Answered.{Answers}
use worminal.Daemon.Frames.Total.{prepare-Answered}
use worminal.Daemon.Frames.Planned.{
  row_bytes, needs_all, KnowsClean, IsPlanned, nothing, packets, request, IsPrepared,
  prepare_frame-IsPrepared, prepare_now,
}
use worminal.Daemon.Frames.Replica.{IsReplica, Prepares, prepare-Prepares}
use worminal.Frontend.Viewport.State.{Sizes, Viewport}
use worminal.Frontend.Viewport.Finish.{Selecting, drawn}
use worminal.Frontend.Viewport.Safe.{IsWell, IsPendingIfAny}
use worminal.Frontend.Viewport.Bounds.{IsFrame}
use worminal.Frontend.Viewport.Sized.{area}
use worminal.Replica.Drawn.{AreRows-unique}
use worminal.Replica.Parsed.{IsDrawable, told}
use worminal.Replica.Packets.{apply_all}
use worminal.Replica.Cost.{IsSmall}
use worminal.Replica.Shown.{Follows}
use worminal.Replica.Mirror.{frame_packets, IsMirror}
use worminal.Replica.Wires.{put_frame-wires}
use worminal.Protocol.Decoder.Feed.{feed-nil}
use worminal.Replica.Delivered.{AreWire, ShowsEngine, frame_packets-ShowsEngine}

-- A plan, by what was planned.
abbrev Planned : ℕ → Frame → Bool → Option Move → List Update → Prepared → Type 0
Planned tab frame full movement updates (changed plan) =
    finished (put_frame tab frame movement updates Buffer.default) ≡ ok plan.bytes
Planned tab frame full movement updates Prepared.unchanged = full ≡ false
Planned tab frame full movement updates Prepared.held = Unit

IsPlanned-Planned :
    (tab : ℕ) (frame old : Frame) (full : Bool) (movement : Option Move) (updates : List Update)
    (p : Prepared)
    → IsPlanned tab frame old full movement updates p
    → Planned tab frame full movement updates p
IsPlanned-Planned tab frame old full movement updates _ (nothing f m u s) = f
IsPlanned-Planned tab frame old full movement updates _ (packets bytes e) = e

-- The viewport shows the engine's frame and its rows, and so the baseline; it is ready for the next frame.
pub record IsFollowing {S : Type 0} (sizes : Sizes) (engine : Engine) (frame : Frame)
    (screen : Screen) (v : Viewport S) : Type 0 where
  pub frame_followed : same_frame frame v.frame ≡ true
  pub rows_followed :
      AreRows (row_bytes frame) frame.rows (screen_bytes engine) (cells_bytes v.cells)
  pub mirror : IsMirror screen v
  pub well : IsWell sizes v
  pub idle : v.pending ≡ none

ShowsEngine-IsMirror :
    {S : Type 0} {engine : Engine} {frame : Frame} {screen : Screen} {v : Viewport S}
    → IsReplica engine frame screen
    → ShowsEngine engine frame v
    → IsMirror screen v
unfolding same_frame
ShowsEngine-IsMirror r s = record {
  same_frame_shown = rw s.frame_shown (ground (arith, r.frame_told));
  same_cells = AreRows-unique _ _ _ _ _ s.rows_shown r.rows_told;
}

ShowsEngine-IsWell :
    {S : Type 0} (sizes : Sizes) {engine : Engine} {frame : Frame} {v : Viewport S}
    → IsDrawable frame
    → ShowsEngine engine frame v
    → IsWell sizes v
ShowsEngine-IsWell sizes {frame = frame} {v = v} d s = record {
  shown_frame =
      subst IsFrame (sym s.frame_shown)
        (record { size = d.is_frame.size; cursor_within = d.is_frame.cursor_within });
  sized = inr (
      let cells : length v.cells ≡ area (told frame) =
        omega (arith, s.rows_shown.size, cells_bytes-length v.cells) in
      cells ∙ ap area (sym s.frame_shown));
  pending_well = subst (IsPendingIfAny sizes) (sym s.none_pending) tt;
}

ShowsEngine-IsFollowing :
    {S : Type 0} (sizes : Sizes) {engine : Engine} {frame : Frame} {screen : Screen}
    {v : Viewport S}
    → IsDrawable frame
    → IsReplica engine frame screen
    → ShowsEngine engine frame v
    → IsFollowing sizes engine frame screen v
unfolding same_frame
ShowsEngine-IsFollowing sizes d r s = record {
  frame_followed = rw s.frame_shown (ground arith);
  rows_followed = s.rows_shown;
  mirror = ShowsEngine-IsMirror r s;
  well = ShowsEngine-IsWell sizes d s;
  idle = s.none_pending;
}

-- A viewport that shows a baseline that is the engine's screen.
IsMirror-IsFollowing :
    {S : Type 0} (sizes : Sizes) {engine : Engine} {frame : Frame} {screen : Screen}
    {v : Viewport S}
    → IsReplica engine frame screen
    → IsMirror screen v
    → IsWell sizes v
    → v.pending ≡ none
    → IsFollowing sizes engine frame screen v
unfolding same_frame
IsMirror-IsFollowing sizes {engine = engine} {frame = frame} r m w e = record {
  frame_followed = ground (arith, r.frame_told, m.same_frame_shown);
  rows_followed =
      subst (AreRows (row_bytes frame) frame.rows (screen_bytes engine)) (sym m.same_cells)
        r.rows_told;
  mirror = m;
  well = w;
  idle = e;
}

abbrev pub bytes_of : Prepared → List ℕ
bytes_of (changed plan) = plan.bytes
bytes_of _ = []

abbrev pub screen_after : Prepared → Screen → Screen
screen_after (changed plan) screen = adopt plan screen
screen_after _ screen = screen

module _ {S : Type 0} (selecting : Selecting S) (sizes : Sizes) where
  -- The bytes are packets that the viewport takes, and follows the engine with.
  abbrev pub Delivers : Engine → Frame → Screen → Viewport S → Prepared → List (List ℕ) → Type 0
  Delivers engine frame screen v p chunks =
      let fed = feed_chunks start chunks in
      (v' : Viewport S) × (fed.ending ≡ drained)
      × (apply_all selecting sizes fed.packets v ≡ (ok tt, v'))
      × IsFollowing sizes engine frame (screen_after p screen) v'

  prepared-Delivers :
      (small : IsSmall sizes) (tab : ℕ) (engine : Engine) (screen : Screen) (frame : Frame)
      (asked : Bool) (features : ℕ) (p : Prepared) (v : Viewport S) (chunks : List (List ℕ))
      → tab < u32_mod
      → IsPrepared engine screen tab frame asked features p
      → Prepares engine frame screen p
      → IsDrawable frame
      → AreWire engine
      → IsWell sizes v
      → v.pending ≡ none
      → Follows selecting (told frame) v.selection
      → (needs_all asked screen frame ≡ false → IsMirror screen v)
      → concat chunks ≡ bytes_of p
      → Delivers engine frame screen v p chunks
  prepared-Delivers small tab engine screen frame asked features (changed plan) v chunks t h r d w
        well idle f m e =
      let q = request screen frame (needs_all asked screen frame) features h.searching h.current in
      let us = updates_from q 0 h.dirty h.current in
      let ps = frame_packets tab frame q.movement us in
      let encoded = put_frame-wires tab t frame q.movement us plan.bytes (
        IsPlanned-Planned tab frame screen.frame q.full q.movement us (changed plan)
          h.is_planned) in
      let fed : feed_chunks start chunks
          ≡ record { packets = ps; ending = drained; decoder = start } =
        feed_chunks-concat start chunks start-IsOpen
        ∙ ap (feed start) (e ∙ encoded.1)
        ∙ feed-wires ps encoded.0 in
      let (v', applied, shown) = frame_packets-ShowsEngine selecting small h d w v well m idle f in
      rw fed (v', refl, applied, ShowsEngine-IsFollowing sizes d r shown)
  prepared-Delivers small tab engine screen frame asked features Prepared.unchanged v chunks t h r d
        w well idle f m e =
      let q = request screen frame (needs_all asked screen frame) features h.searching h.current in
      let fed = feed_chunks-concat start chunks start-IsOpen ∙ ap (feed start) e ∙ feed-nil start in
      let some_rows =
        IsPlanned-Planned tab frame screen.frame q.full q.movement
          (updates_from q 0 h.dirty h.current) Prepared.unchanged h.is_planned in
      unfold apply_all in
      rw fed (v, refl, refl, IsMirror-IsFollowing sizes r (m some_rows) well idle)
  prepared-Delivers small tab engine screen frame asked features Prepared.held v chunks t h r d w
        well idle f m e =
      absurd r

  -- Where the tab's number is a 32-bit word and the engine draws now a frame that fits the protocol, of rows
  -- with its columns and of cells whose rune and colours are 32-bit words and whose attributes are below
  -- 2 ^ 16, answers for each of its rows and takes that they were seen (its `clean` succeeds), and a row
  -- that it calls clean is the baseline's, unless all rows are sent; where the viewport is well, has no
  -- frame begun and shows the baseline (unless all rows are sent), its C selection does not fail, and an
  -- operation and a cell take at most 64 and 16 bytes in memory: `prepare` has a result, and however its
  -- bytes are cut into chunks, a fresh decoder gives back packets that the viewport takes one by one without
  -- an error. Then the viewport shows the engine's frame, row by row and byte by byte, and the baseline of
  -- the plan; it is well and has no frame begun.
  pub prepare-Delivers :
      (small : IsSmall sizes) (tab : ℕ) (engine : Engine) (screen : Screen) (frame : Frame)
      (asked : Bool) (features : ℕ) (reply : Bool) (v : Viewport S) (cut : List ℕ → List (List ℕ))
      → tab < u32_mod
      → engine.frame ≡ ok frame
      → IsDrawable frame
      → HasColumns engine frame.columns
      → Answers engine frame.rows
      → AreWire engine
      → KnowsClean engine asked screen frame
      → IsWell sizes v
      → v.pending ≡ none
      → Follows selecting (told frame) v.selection
      → (needs_all asked screen frame ≡ false → IsMirror screen v)
      → ((bytes : List ℕ) → concat (cut bytes) ≡ bytes)
      → (p : Prepared) × (prepare engine screen tab asked features reply ≡ ok p)
        × Delivers engine frame screen v p (cut (bytes_of p))
  prepare-Delivers small tab engine screen frame asked features reply v cut t drawn d wide a w clean
        well idle f m whole =
      let (p, e) =
        prepare-Answered engine screen tab asked features reply frame drawn d.not_held
          d.is_frame.size.0 d.is_frame.size.1 d.is_frame.size.3 wide a in
      let h =
        prepare_frame-IsPrepared engine screen tab asked features reply frame p wide clean
          (sym (prepare_now engine screen tab asked features reply frame drawn d.not_held) ∙ e) in
      (
        p,
        e,
        prepared-Delivers small tab engine screen frame asked features p v (cut (bytes_of p)) t h
            (prepare-Prepares engine screen tab asked features frame p h) d w well idle f m
            (whole (bytes_of p)),
      )
