-- ===== src/Protocol/Packet.antt =====
-- `Packet` of src/protocol/src/lib.rs, and its encoding.
use worminal.Prelude.{ℕ, ◌+◌, List, ◌≡◌, refl, arith}
use worminal.Prelude.Result.{Result, Exec, ok, err}
use worminal.Protocol.Wire.{max_payload, header_bytes}
use worminal.Protocol.Buffer
use worminal.Protocol.Buffer.{Buffer}

pub record Packet : Type 0 where
  pub kind : ℕ
  pub tab : ℕ
  pub body : List ℕ

unfoldable pub append_packet : Packet → Exec Buffer Unit
append_packet packet = Buffer.append_packet_bytes packet.kind packet.tab packet.body

unfoldable pub finished : Result (Unit {0}) × Buffer → Result (List ℕ)
finished (ok _, output) = ok output.bytes
finished (err e, output) = err e

unfoldable pub encode : Packet → Result (List ℕ)
unfolding append_packet Buffer.with_limit finished
encode packet = finished (append_packet packet (Buffer.with_limit (max_payload + header_bytes)))

-- Bytes come out of a buffer that the last call left without an error.
pub finished-ok :
    (out : Result (Unit {0}) × Buffer) (bytes : List ℕ)
    → finished out ≡ ok bytes
    → (u : Unit {0}) × (b : Buffer) × (out ≡ (ok u, b)) × (b.bytes ≡ bytes)
unfolding finished
finished-ok (ok u, b) bytes e = (u, b, refl, ground arith)
finished-ok (err k, b) bytes e = cc
