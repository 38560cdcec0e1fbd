-- ===== src/Daemon/Frames/Planned.antt =====
-- What `prepare` asks of the rows, and what it plans with them.
use worminal.Prelude.{
  ℕ, ◌*◌, ◌<◌, ◌≡◌, refl, ap, ◌∙◌, subst, Bool, true, false, ◌&&◌, ◌||◌, not, Option, none, some,
  List, [], ◌∷◌, leb, ◌==◌, arith, if_both, length,
}
use worminal.Prelude.Result.{Result, ok, try-eq-ok, ok-injective}
use worminal.Prelude.Grid.{row_at}
use worminal.Protocol.Wire.{wire_cell_bytes, wire_feature_copy_rows, wire_feature_row_span}
use worminal.Protocol.Buffer
use worminal.Protocol.Packet.{finished}
use worminal.Engine.Cells.{Frame}
use worminal.Daemon.Frames.Move.{Move, find_move}
use worminal.Daemon.Frames.Prepare.{
  same_frame, Screen, Engine, Update, Prepared, changed, Request, updates_from, read_dirty,
  read_rows, count_dirty,
}
use worminal.Daemon.Frames.Encode.{
  is_none, no_updates, plan, has, movement_of, prepare_frame, prepare, put_frame,
}
use worminal.Daemon.Frames.Search.{IfAny, IsSound, find_move-IsSound}
use worminal.Daemon.Frames.Reading.{
  screen_bytes, HasColumns, read_rows-AreFetched, read_dirty-AreAnswered,
}
use worminal.Daemon.Frames.Faithful.{IsAsked}

abbrev pub row_bytes : Frame → ℕ
row_bytes frame = frame.columns * wire_cell_bytes

-- Whether all rows must be sent.
abbrev pub needs_all : Bool → Screen → Frame → Bool
needs_all asked screen frame =
    asked
    || (not (screen.frame.columns == frame.columns)
        || not (length screen.bytes == row_bytes frame * frame.rows))

-- Where not all rows are sent, a row that the engine calls clean is the baseline's.
abbrev pub KnowsClean : Engine → Bool → Screen → Frame → Type 0
KnowsClean engine asked screen frame =
    needs_all asked screen frame ≡ false
    → (row : ℕ) → row < frame.rows
    → engine.row_dirty row ≡ ok false
    → row_at (row_bytes frame) screen.bytes row ≡ screen_bytes engine row

-- What a plan is, or that none is needed.
pub data IsPlanned (tab : ℕ) (frame old : Frame) (full : Bool) (movement : Option Move)
    (updates : List Update) : Prepared → Type 0 where
  nothing :
      full ≡ false
      → movement ≡ none
      → updates ≡ []
      → same_frame frame old ≡ true
      → IsPlanned tab frame old full movement updates Prepared.unchanged
  packets :
      (bytes : List ℕ)
      → finished (put_frame tab frame movement updates Buffer.default) ≡ ok bytes
      → IsPlanned tab frame old full movement updates (
          changed (record {
            frame = frame;
            full = full;
            movement = movement;
            updates = updates;
            bytes = bytes;
          }))

is_none-none : (o : Option Move) → is_none o ≡ true → o ≡ none
unfolding is_none
is_none-none none h = refl
is_none-none (some m) h = cc

no_updates-none : (us : List Update) → no_updates us ≡ true → us ≡ []
unfolding no_updates
no_updates-none [] h = refl
no_updates-none (u ∷ us) h = cc

plan-IsPlanned :
    (engine : Engine) (tab : ℕ) (frame old : Frame) (full reply : Bool) (movement : Option Move)
    (updates : List Update) (p : Prepared)
    → plan engine tab frame old full reply movement updates ≡ ok p
    → IsPlanned tab frame old full movement updates p
unfolding plan
plan-IsPlanned engine tab frame old full reply movement updates p =
    if_both (λ (r : Result Prepared). r ≡ ok p → IsPlanned tab frame old full movement updates p)
      (not full
        && (is_none movement && (no_updates updates && (same_frame frame old && not reply))))
      _ _
      (λ h e.
        let (u, cleaned, e1) = try-eq-ok engine.clean _ e in
        subst (IsPlanned tab frame old full movement updates) (ok-injective e1) (
          nothing (ground arith) (is_none-none movement (ground arith))
            (no_updates-none updates (ground arith)) (ground arith)))
      (λ h e.
        let (bytes, encoded, e1) =
          try-eq-ok (finished (put_frame tab frame movement updates Buffer.default)) _ e in
        subst (IsPlanned tab frame old full movement updates) (ok-injective e1)
          (packets bytes encoded))

-- Whether a move is looked for.
abbrev pub searches : Bool → ℕ → ℕ → List Bool → Bool
searches full features rows dirty =
    not full
    && (has features wire_feature_copy_rows
        && (leb 3 (count_dirty dirty) && leb rows (count_dirty dirty * 2)))

abbrev pub request : Screen → Frame → Bool → ℕ → Bool → List (Option (List ℕ)) → Request
request screen frame full features searching current = record {
  width = row_bytes frame;
  full = full;
  spans = has features wire_feature_row_span;
  movement = movement_of searching screen.bytes current (row_bytes frame);
  baseline = screen.bytes;
}

holds-IfAny : (P : Type 0) (o : Option Move) → P → IfAny (λ _. P) o
holds-IfAny P none h = tt
holds-IfAny P (some m) h = h

request-IsAsked :
    (engine : Engine) (screen : Screen) (frame : Frame) (asked : Bool) (features : ℕ)
    (dirty : List Bool) (current : List (Option (List ℕ)))
    → HasColumns engine frame.columns
    → KnowsClean engine asked screen frame
    → let full = needs_all asked screen frame in
      let searching = searches full features frame.rows dirty in
      read_dirty engine frame.rows 0 ≡ ok dirty
      → read_rows engine (row_bytes frame) (full || searching) 0 dirty ≡ ok current
      → IsAsked
          (request screen frame full features searching current)
          frame.rows
          (screen_bytes engine)
          (full || searching)
          dirty
          current
unfolding movement_of
request-IsAsked engine screen frame asked features dirty current wide clean d c =
    let full = needs_all asked screen frame in
    let searching = searches full features frame.rows dirty in
    let answered = read_dirty-AreAnswered engine frame.rows 0 dirty d in
    record {
      flagged = answered.0;
      fetched =
          read_rows-AreFetched engine frame.columns (full || searching) 0 dirty current wide c;
      full_every = λ h. ground arith;
      full_unmoved = λ h.
          if_both (λ (o : Option Move). o ≡ none) searching _ _ (λ k. absurd (ground arith))
            (λ _. refl);
      moved =
          if_both (IfAny (IsSound (row_bytes frame) screen.bytes current)) searching _ _
            (λ _. find_move-IsSound screen.bytes current (row_bytes frame)) (λ _. tt);
      moved_every =
          if_both (IfAny (λ _. full || searching ≡ true)) searching _ _
            (λ k. holds-IfAny _ (find_move screen.bytes current (row_bytes frame)) (ground arith))
            (λ _. tt);
      baseline_size = λ h. ground arith;
      clean = λ h row l e.
          clean h row l (ap engine.row_dirty (omega arith) ∙ answered.1 row l ∙ ap ok e);
    }

-- How a frame was prepared: the rows that were asked for, and what was planned with them.
pub record IsPrepared (engine : Engine) (screen : Screen) (tab : ℕ) (frame : Frame) (asked : Bool)
    (features : ℕ) (p : Prepared) : Type 0 where
  pub dirty : List Bool
  pub current : List (Option (List ℕ))
  pub searching : Bool
  pub is_asked :
      IsAsked
        (request screen frame (needs_all asked screen frame) features searching current)
        frame.rows
        (screen_bytes engine)
        (needs_all asked screen frame || searching)
        dirty
        current
  pub is_planned :
      let q = request screen frame (needs_all asked screen frame) features searching current in
      IsPlanned tab frame screen.frame q.full q.movement (updates_from q 0 dirty current) p

-- A frame that is drawn now is prepared.
pub prepare_now :
    (engine : Engine) (screen : Screen) (tab : ℕ) (asked : Bool) (features : ℕ) (reply : Bool)
    (frame : Frame)
    → engine.frame ≡ ok frame
    → frame.redraw_deadline ≡ 0
    → prepare engine screen tab asked features reply
      ≡ prepare_frame engine screen tab asked features reply frame
unfolding prepare
prepare_now engine screen tab asked features reply frame f now = rw (f, now)

pub prepare_frame-IsPrepared :
    (engine : Engine) (screen : Screen) (tab : ℕ) (asked : Bool) (features : ℕ) (reply : Bool)
    (frame : Frame) (p : Prepared)
    → HasColumns engine frame.columns
    → KnowsClean engine asked screen frame
    → prepare_frame engine screen tab asked features reply frame ≡ ok p
    → IsPrepared engine screen tab frame asked features p
unfolding prepare_frame
prepare_frame-IsPrepared engine screen tab asked features reply frame p wide clean e =
    let full = needs_all asked screen frame in
    let (dirty, flags, e2) = try-eq-ok (read_dirty engine frame.rows 0) _ e in
    let searching = searches full features frame.rows dirty in
    let (current, rows, e3) =
      try-eq-ok (read_rows engine (row_bytes frame) (full || searching) 0 dirty) _ e2 in
    record {
      dirty = dirty;
      current = current;
      searching = searching;
      is_asked =
          request-IsAsked engine screen frame asked features dirty current wide clean flags rows;
      is_planned = plan-IsPlanned engine tab frame screen.frame full reply _ _ p e3;
    }
