-- ===== src/Protocol/Decoder/Open.antt =====
-- The states of a decoder between two calls, and how much a call takes.
use worminal.Prelude.{
  ℕ, ◌+◌, ◌-◌, ◌≤◌, ◌<◌, min, ◌≡◌, refl, none, some, List, [], ltb, length, take, drop, splice,
  length-append, length-take, length-drop, length-splice, arith, ◌⊎◌, inl, inr, Bool-cases, ltb→lt,
  ltb_false→le, subst, sym, ◌∙◌,
}
use worminal.Prelude.Result.{ok, err, invalid_data}
use worminal.Protocol.Wire.{max_payload, header_bytes}
use worminal.Protocol.Decoder.{
  Decoder, header, body, failed, start, Fields, read_header, Pushed, push_body, enter_body,
  push_header, push,
}
use worminal.Protocol.Payload
use worminal.Protocol.Payload.Laws.{u32_long}
use worminal.Protocol.Decoder.Steps.{push_header_more, push_header_done}
use worminal.Protocol.Decoder.Resume.{IsOpen, split_at}

-- What a call promises of its outcome on `n` bytes: the state is one between two calls; a packet has a
-- bounded body and leaves a fresh decoder; without one all of the input is taken, and something is
-- taken of an input that is not empty.
abbrev pub Accounts : ℕ → Pushed → Type 0
Accounts n (ok (used, none), d) = (used ≡ n) × IsOpen d
Accounts n (ok (used, some p), d) =
    (used ≤ n) × (0 < n → 0 < used) × (length p.body ≤ max_payload) × (d ≡ start)
Accounts n (err e, d) = (e ≡ invalid_data) × (d ≡ failed)

pub start-IsOpen : IsOpen start
unfolding start
start-IsOpen = (refl, omega arith)

push_body-Accounts :
    (n kind tab size : ℕ) (bytes input : List ℕ)
    → length bytes ≤ size
    → size ≤ max_payload
    → length input ≤ n
    → (length input < n) ⊎ (length bytes < size)
    → Accounts n (push_body n kind tab size bytes input)
unfolding push_body
push_body-Accounts n kind tab size bytes input h k l m = ground (
  arith,
  length-append bytes (take (min (size - length bytes) (length input)) input),
  length-take (min (size - length bytes) (length input)) input,
  length-drop (min (size - length bytes) (length input)) input,
)

enter_body-Accounts :
    (n : ℕ) (bytes rest : List ℕ) (fields : Fields)
    → length rest < n
    → Accounts n (enter_body n bytes rest (ok fields))
unfolding enter_body
enter_body-Accounts n bytes rest f h =
    ground (arith, push_body-Accounts n f.kind f.tab f.size [] rest)

-- Four words that can be read in a row are the fields.
pub read_header-words :
    (bytes b c d rest : List ℕ) (version kind tab size : ℕ)
    → Payload.u32 bytes ≡ (ok version, b)
    → Payload.u32 b ≡ (ok kind, c)
    → Payload.u32 c ≡ (ok tab, d)
    → Payload.u32 d ≡ (ok size, rest)
    → read_header bytes ≡ ok (record { version = version; kind = kind; tab = tab; size = size })
unfolding read_header
read_header-words bytes b c d rest version kind tab size e f g h = ground arith

-- Sixteen bytes hold the four words.
read_header-ok :
    (bytes : List ℕ) → length bytes ≡ header_bytes → (f : Fields) × (read_header bytes ≡ ok f)
read_header-ok bytes h =
    let (version, e) = u32_long bytes (omega arith) in
    let (kind, f) = u32_long (drop 4 bytes) (omega (arith, length-drop 4 bytes)) in
    let (tab, g) =
      u32_long (drop 4 (drop 4 bytes))
        (omega (arith, length-drop 4 bytes, length-drop 4 (drop 4 bytes))) in
    let (size, k) = u32_long (drop 4 (drop 4 (drop 4 bytes))) (
      omega (
        arith,
        length-drop 4 bytes,
        length-drop 4 (drop 4 bytes),
        length-drop 4 (drop 4 (drop 4 bytes)),
      )) in
    (_, read_header-words bytes _ _ _ _ version kind tab size e f g k)

push_header-Accounts :
    (bytes : List ℕ) (used : ℕ) (input : List ℕ)
    → length bytes ≡ header_bytes
    → used < header_bytes
    → Accounts (length input) (push_header bytes used input)
push_header-Accounts bytes used input h k =
    elim (Bool-cases (ltb (used + length input) header_bytes)) [
      | inl more ↦ rw (push_header_more bytes used input (ltb→lt _ _ more)) (
        refl,
        (length-splice bytes used input (omega (arith, ltb→lt _ _ more)) ∙ h, ltb→lt _ _ more),
      )
      | inr done ↦
          let (a, rest, e, n) =
            split_at (header_bytes - used) input (omega (arith, ltb_false→le _ _ done)) in
          let (f, r) =
            read_header-ok (splice bytes used a) (length-splice bytes used a (omega arith) ∙ h) in
          subst (λ l. Accounts (length l) (push_header bytes used l)) (sym e)
            (rw (push_header_done bytes used a rest (omega arith), r, length-append a rest)
              (enter_body-Accounts (length a + length rest) (splice bytes used a) rest f
                (omega arith)))
    ]

-- Whatever the input, a call keeps its promises.
pub push-Accounts :
    (d : Decoder) (input : List ℕ) → IsOpen d → Accounts (length input) (push d input)
unfolding push
push-Accounts (header bytes used) input h = push_header-Accounts bytes used input h.0 h.1
push-Accounts (body kind tab size bytes) input h =
    push_body-Accounts (length input) kind tab size bytes input (omega arith) h.1 (omega arith)
      (inr h.0)
push-Accounts failed input h = (refl, refl)
