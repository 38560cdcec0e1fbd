-- ===== src/Replica/Parsed.antt =====
-- The bodies that the daemon writes are read as what they stand for.
use worminal.Prelude.{
  ℕ, ◌+◌, ◌*◌, ◌-◌, ◌/◌, ◌^◌, ◌≤◌, ◌<◌, ◌≡◌, refl, sym, ap, ◌∙◌, ◌⊎◌, inl, inr, Bool, true, false,
  ◌||◌, List, [], ◌++◌, ltb, leb, ◌==◌, arith, length, All, append-nil, length-append,
}
use worminal.Prelude.Result.{ok}
use worminal.Prelude.Bytes.{u32_mod, to_be_bytes}
use worminal.Protocol.Payload
use worminal.Protocol.Payload.Laws.{u32-to_be_bytes}
use worminal.Engine.Cells.{Cell, Frame}
use worminal.Daemon.Frames.Move.{Move}
use worminal.Daemon.Frames.Encode.{frame_body, move_body}
use worminal.Daemon.Frames.Reading.{cells_bytes, cells_bytes-length}
use worminal.Daemon.Frames.Search.{FitsIn}
use worminal.Frontend.Viewport.State.{dimensions, span, copy}
use worminal.Frontend.Viewport.Apply.{read_frame, read_cells, misfits, read_span, read_copy}
use worminal.Frontend.Viewport.Bounds.{IsFrame}
use worminal.Replica.Cells.{IsWire, read_cells-bytes}

pub to_be_bytes-length : (v : ℕ) → length (to_be_bytes v) ≡ 4
unfolding to_be_bytes
to_be_bytes-length v = refl

-- A word at the end.
u32-last : (v : ℕ) → v < u32_mod → Payload.u32 (to_be_bytes v) ≡ (ok v, [])
u32-last v h = ap Payload.u32 (sym (append-nil (to_be_bytes v))) ∙ u32-to_be_bytes v [] h

-- A frame of the engine that the client accepts.
pub record IsDrawable (frame : Frame) : Type 0 where
  pub is_frame : IsFrame frame
  pub few_scrolled : frame.scroll < 2 ^ 31
  pub known_screen : frame.alternate ≤ 1
  pub not_held : frame.redraw_deadline ≡ 0

-- The frame that the client reads.
abbrev pub told : Frame → Frame
told frame = record frame { redraw_deadline = 0 }

dimensions-ok : (frame : Frame) → IsFrame frame → dimensions frame.columns frame.rows ≡ ok tt
unfolding dimensions
dimensions-ok frame h = ground (arith, h.size)

accepted :
    (frame : Frame)
    → IsDrawable frame
    → leb frame.columns frame.cursor_x
        || (leb frame.rows frame.cursor_y
            || (ltb (2 ^ 31 - 1) frame.scroll || ltb 1 frame.alternate))
      ≡ false
accepted frame h = ground (arith, h.is_frame.cursor_within, h.few_scrolled, h.known_screen)

pub read_frame-frame_body :
    (frame : Frame) → IsDrawable frame → read_frame (frame_body frame) ≡ (ok (told frame), [])
unfolding read_frame frame_body Payload.finish
read_frame-frame_body frame h = rw (
  u32-to_be_bytes frame.columns _ (omega (arith, h.is_frame.size)),
  u32-to_be_bytes frame.rows _ (omega (arith, h.is_frame.size)),
  dimensions-ok frame h.is_frame,
  u32-to_be_bytes frame.cursor_x _ (omega (arith, h.is_frame.size, h.is_frame.cursor_within)),
  u32-to_be_bytes frame.cursor_y _ (omega (arith, h.is_frame.size, h.is_frame.cursor_within)),
  u32-to_be_bytes frame.scroll _ (omega (arith, h.few_scrolled)),
  u32-last frame.alternate (omega (arith, h.known_screen)),
  accepted frame h,
)

inside :
    (rows source destination count : ℕ)
    → 0 < count
    → source + count ≤ rows
    → destination + count ≤ rows
    → count == 0
        || (ltb rows count || (ltb (rows - count) source || ltb (rows - count) destination))
      ≡ false
inside rows source destination count h k l = ground arith

pub read_copy-move_body :
    (frame : Frame) (m : Move)
    → frame.rows < u32_mod
    → FitsIn frame.rows m
    → read_copy frame (move_body m) ≡ (ok (copy m.source m.destination m.count), [])
unfolding read_copy move_body Payload.finish
read_copy-move_body frame m r h = rw (
  u32-to_be_bytes m.source _ (omega (arith, h.from_inside)),
  u32-to_be_bytes m.destination _ (omega (arith, h.to_inside)),
  u32-last m.count (omega (arith, h.from_inside)),
  inside frame.rows m.source m.destination m.count h.some_rows h.from_inside h.to_inside,
)

fits :
    (is_span : Bool) (columns column n size : ℕ)
    → 0 < n
    → column + n ≤ columns
    → (is_span ≡ true) ⊎ (n ≡ columns)
    → size ≡ n * 16
    → misfits is_span columns column size ≡ false
unfolding misfits
fits is_span columns column n size h k (inl s) e = ground arith
fits is_span columns column n size h k (inr s) e = ground arith

read_all :
    (cs : List Cell) (n : ℕ)
    → All IsWire cs
    → n ≡ length cs
    → read_cells n (cells_bytes cs ++ []) ≡ (ok cs, [])
read_all cs n w e = ap (λ k. read_cells k (cells_bytes cs ++ [])) e ∙ read_cells-bytes cs [] w

abbrev pub whole_body : ℕ → List Cell → List ℕ
whole_body row cs = to_be_bytes row ++ (cells_bytes cs ++ [])

whole_size : (row : ℕ) (cs : List Cell) → length (whole_body row cs) ≡ 4 + length cs * 16
whole_size row cs = omega (
  arith,
  length-append (to_be_bytes row) (cells_bytes cs ++ []),
  to_be_bytes-length row,
  length-append (cells_bytes cs) [],
  cells_bytes-length cs,
)

pub read_span-whole :
    (frame : Frame) (row size : ℕ) (cs : List Cell)
    → row < frame.rows
    → frame.rows < u32_mod
    → 0 < frame.columns
    → length cs ≡ frame.columns
    → All IsWire cs
    → size ≡ length (whole_body row cs)
    → read_span false frame size (whole_body row cs) ≡ (ok (span row 0 cs), [])
unfolding read_span Payload.finish
read_span-whole frame row size cs i r c l w e =
    let s : size ≡ 4 + length cs * 16 = e ∙ whole_size row cs in
    let test1 : leb frame.rows row ≡ false = ground arith in
    let test2 : ltb size 4 || misfits false frame.columns 0 (size - 4) ≡ false = ground (
      arith,
      fits false frame.columns 0 (length cs) (size - 4) (omega arith) (omega arith) (inr l)
          (omega arith),
    ) in
    rw (
      u32-to_be_bytes row (cells_bytes cs ++ []) (omega arith),
      test1,
      test2,
      read_all cs ((size - 4) / 16) w (omega arith),
    )

abbrev pub part_body : ℕ → ℕ → List Cell → List ℕ
part_body row column ds = to_be_bytes row ++ (to_be_bytes column ++ (cells_bytes ds ++ []))

part_size :
    (row column : ℕ) (ds : List Cell) → length (part_body row column ds) ≡ 8 + length ds * 16
part_size row column ds = omega (
  arith,
  length-append (to_be_bytes row) (whole_body column ds),
  to_be_bytes-length row,
  whole_size column ds,
)

pub read_span-part :
    (frame : Frame) (row column size : ℕ) (ds : List Cell)
    → row < frame.rows
    → frame.rows < u32_mod
    → frame.columns < u32_mod
    → 0 < length ds
    → column + length ds ≤ frame.columns
    → All IsWire ds
    → size ≡ length (part_body row column ds)
    → read_span true frame size (part_body row column ds) ≡ (ok (span row column ds), [])
unfolding read_span Payload.finish
read_span-part frame row column size ds i r c n l w e =
    let s : size ≡ 8 + length ds * 16 = e ∙ part_size row column ds in
    let test1 : leb frame.rows row ≡ false = ground arith in
    let test2 : ltb size 8 || misfits true frame.columns column (size - 8) ≡ false =
      ground (
        arith,
        fits true frame.columns column (length ds) (size - 8) n l (inl refl) (omega arith),
      ) in
    rw (
      u32-to_be_bytes row (whole_body column ds) (omega arith),
      test1,
      u32-to_be_bytes column (cells_bytes ds ++ []) (omega arith),
      test2,
      read_all ds ((size - 8) / 16) w (omega arith),
    )
