-- ===== src/Protocol/Decoder.antt =====
-- `Decoder`, the incremental framing of src/protocol/src/lib.rs.
pub mod Steps
pub mod Resume
pub mod Open
pub mod Feed
pub mod RoundTrip
pub mod Poison
use worminal.Prelude.{
  ℕ, ◌+◌, ◌-◌, min, ◌||◌, not, Option, none, some, List, [], ◌++◌, ltb, ◌==◌, if◌then◌else◌, length,
  take, drop, splice, replicate,
}
use worminal.Prelude.Result.{Result, Exec, ok, err, invalid_data, ◌>>=◌, pure}
use worminal.Protocol.Wire.{wire_version, max_payload, header_bytes}
use worminal.Protocol.Payload
use worminal.Protocol.Payload.{Payload}
use worminal.Protocol.Packet.{Packet}

-- `State`; `header bytes used` and `body kind tab length bytes` hold the fields in their order.
pub data Decoder : Type 0 where
  header : List ℕ → ℕ → Decoder
  body : ℕ → ℕ → ℕ → List ℕ → Decoder
  failed : Decoder

unfoldable pub start : Decoder
start = header (replicate header_bytes 0) 0

-- The four words of a complete header.
pub record Fields : Type 0 where
  pub version : ℕ
  pub kind : ℕ
  pub tab : ℕ
  pub size : ℕ

unfoldable pub read_fields : Exec Payload Fields
unfolding Payload.u32
read_fields = do
  version ← Payload.u32
  kind ← Payload.u32
  tab ← Payload.u32
  size ← Payload.u32
  pure (record { version = version; kind = kind; tab = tab; size = size })

unfoldable pub read_header : List ℕ → Result Fields
unfolding read_fields
read_header bytes = (read_fields bytes).0

abbrev pub Pushed : Type 0
Pushed = Result (ℕ × Option Packet) × Decoder

-- The loop's round in `State::Body`, which returns on each branch. `original` is the length of the
-- whole input, `input` what a header has left of it.
unfoldable pub push_body : ℕ → ℕ → ℕ → ℕ → List ℕ → List ℕ → Pushed
push_body original kind tab size bytes input =
    let count = min (size - length bytes) (length input) in
    let bytes' = bytes ++ take count input in
    let rest = drop count input in
    if not (length bytes' == size)
    then (ok (original - length rest, none), body kind tab size bytes')
    else (
      ok (original - length rest, some (record { kind = kind; tab = tab; body = bytes' })),
      start,
    )

-- What follows a complete header: an error poisons the decoder, else the loop goes on in the body.
unfoldable pub enter_body : ℕ → List ℕ → List ℕ → Result Fields → Pushed
enter_body original bytes rest (err e) = (err e, header bytes header_bytes)
enter_body original bytes rest (ok fields) =
    if not (fields.version == wire_version) || ltb max_payload fields.size
    then (err invalid_data, failed)
    else push_body original fields.kind fields.tab fields.size [] rest

-- The loop's round in `State::Header`.
unfoldable pub push_header : List ℕ → ℕ → List ℕ → Pushed
push_header bytes used input =
    let count = min (header_bytes - used) (length input) in
    let bytes' = splice bytes used (take count input) in
    let used' = used + count in
    let rest = drop count input in
    if not (used' == header_bytes)
    then (ok (length input - length rest, none), header bytes' used')
    else enter_body (length input) bytes' rest (read_header bytes')

unfoldable pub push : Decoder → List ℕ → Pushed
push (header bytes used) input = push_header bytes used input
push (body kind tab size bytes) input = push_body (length input) kind tab size bytes input
push failed input = (err invalid_data, failed)
