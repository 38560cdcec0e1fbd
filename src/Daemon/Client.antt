-- ===== src/Daemon/Client.antt =====
-- `Client::queue` of src/daemon/src/state.rs: a packet for a client.
pub mod Laws
mod Tests
use worminal.Prelude.{ℕ, List}
use worminal.Prelude.Result.{Result, Exec, ok, err}
use worminal.Protocol.Buffer
use worminal.Protocol.Buffer.{Buffer}
use worminal.Daemon.Queue
use worminal.Daemon.Queue.{Queue}

unfoldable pub queued : Result (Unit {0}) × Buffer → Exec Queue Unit
queued (err e, encoded) output = (err e, output)
queued (ok _, encoded) output = Queue.append encoded.bytes output

-- The state is the client's output.
unfoldable pub queue : ℕ → ℕ → List ℕ → Exec Queue Unit
unfolding queued
queue kind tab body output =
    queued (Buffer.append_packet_bytes kind tab body (Buffer.with_limit (Queue.remaining output)))
      output
