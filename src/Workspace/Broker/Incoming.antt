-- ===== src/Workspace/Broker/Incoming.antt =====
-- `Incoming`: what the owner of the windows has read of a start that connects to it.
pub mod Arrival
pub mod Attend
use worminal.Prelude.{ℕ, zero, suc, ◌+◌, Option, none, some, List, [], ◌∷◌, drop, length}
use worminal.Prelude.Result.{Result, Exec, ok, err, other, unexpected_eof, ◌>>=◌, ◌>>◌, pure, fail}
use worminal.Protocol.Packet.{Packet}
use worminal.Protocol.Decoder.{Decoder, start, Pushed, push}
use worminal.Workspace.Broker.{Request, decode}

pub record Incoming (F : Type 0) : Type 0 where
  pub output : Option F
  pub decoder : Decoder

unfoldable pub default : {F : Type 0} → Incoming F
default = record { output = none; decoder = start }

-- A packet must be the last of what was read.
unfoldable pub last_packet : Packet → List ℕ → Result (Option Packet)
last_packet packet [] = ok (some packet)
last_packet packet (byte ∷ input) = err other

-- What follows a call of `push`; `next` is the loop's next round.
unfoldable pub scanned :
    (Decoder → List ℕ → Result (Option Packet) × Decoder)
    → List ℕ
    → Pushed
    → Result (Option Packet) × Decoder
scanned next input (ok (count, none), d) = next d (drop count input)
scanned next input (ok (count, some packet), d) = (last_packet packet (drop count input), d)
scanned next input (err e, d) = (err e, d)

-- The loop over the bytes of one read. A call of `push` takes a byte at least, so as many rounds as
-- bytes are enough.
unfoldable pub scan : ℕ → Decoder → List ℕ → Result (Option Packet) × Decoder
scan rounds d [] = (ok none, d)
scan zero d (byte ∷ input) = (ok none, d)
scan (suc rounds) d (byte ∷ input) = scanned (scan rounds) (byte ∷ input) (push d (byte ∷ input))

unfoldable pub decoded : {F : Type 0} → Result (Request F) → Result (Option (Request F))
decoded (ok request) = ok (some request)
decoded (err e) = err e

-- `W` is the connection's state.
abbrev pub State : Type 0 → Type 0 → Type 0
State F W = Incoming F × W

module _ {F W : Type 0} where
  unfoldable pub admit : Result (List F) → Exec (State F W) Unit
  admit (ok (file ∷ [])) (incoming, w) = (ok tt, (record incoming { output = some file }, w))
  admit (ok files) s = (err other, s)
  admit (err e) s = (err e, s)

  -- `accept` has set the file, so the second case is the panic of `unwrap` that never happens.
  unfoldable pub deliver : Packet → Exec (State F W) (Option (Request F))
  deliver packet (incoming, w) = elim incoming.output [
    | some file ↦ (decoded (decode packet file), (record incoming { output = none }, w))
    | none ↦ (err other, (incoming, w))
  ]

  unfoldable pub scan_bytes : List ℕ → Exec (State F W) (Option Packet)
  scan_bytes bytes (incoming, w) =
      let (packet, d) = scan (length bytes) incoming.decoder bytes in
      (packet, (record incoming { decoder = d }, w))

  unfoldable pub deliver_or :
      Exec (State F W) (Option (Request F)) → Option Packet → Exec (State F W) (Option (Request F))
  deliver_or next none = next
  deliver_or next (some packet) = deliver packet

  -- The end of the stream, or the bytes of one read.
  unfoldable pub scan_read :
      Exec (State F W) (Option (Request F)) → List ℕ → Exec (State F W) (Option (Request F))
  scan_read next [] = fail unexpected_eof
  scan_read next (byte ∷ bytes) = scan_bytes (byte ∷ bytes) >>= deliver_or next

-- The connection is a parameter: `receive` is `rights::receive_descriptors`, which gives the open
-- files that came, and `peer_read` is the peer's `read` into an array of 16384 bytes.
module _ {F W : Type 0} (receive : W → Result (List F) × W)
    (peer_read : W → Result (List ℕ) × W) where
  unfoldable pub accept : Exec (State F W) Unit
  accept (incoming, w) = elim incoming.output [
    | none ↦ let (files, w') = receive w in admit files (incoming, w')
    | some file ↦ (ok tt, (incoming, w))
  ]

  unfoldable pub peer_bytes : Exec (State F W) (List ℕ)
  peer_bytes (incoming, w) = let (bytes, w') = peer_read w in (bytes, (incoming, w'))

  unfoldable pub read_rounds : ℕ → Exec (State F W) (Option (Request F))
  read_rounds zero = pure none
  read_rounds (suc rounds) = peer_bytes >>= scan_read (read_rounds rounds)

  unfoldable pub read : Exec (State F W) (Option (Request F))
  read = accept >> read_rounds 4
