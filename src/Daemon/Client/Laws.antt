-- ===== src/Daemon/Client/Laws.antt =====
-- A packet is queued whole where it fits, or the queue stays.
use worminal.Prelude.{
  ℕ, ◌+◌, ◌≡◌, sym, ◌∙◌, subst, ◌&&◌, List, [], ◌∷◌, ◌++◌, leb, if◌then◌else◌, length, arith,
  append-nil, length-drop,
}
use worminal.Prelude.Result.{Result, ok, err, invalid_data}
use worminal.Protocol.Wire.{max_payload}
use worminal.Protocol.Buffer
use worminal.Protocol.Buffer.{Buffer, header, append_packet_bytes}
use worminal.Protocol.Buffer.Laws.{packet, run, encoding, publish, run-publish, length-packet}
use worminal.Daemon.Queue
use worminal.Daemon.Queue.{Queue, pending}
use worminal.Daemon.Queue.Valid.{IsValid}
use worminal.Daemon.Queue.Fifo.{view, push, append_refines}
use worminal.Daemon.Client.{queued, queue}

-- A packet as bytes.
abbrev pub packet_bytes : ℕ → ℕ → List ℕ → List ℕ
packet_bytes kind tab body = header kind tab (length body) ++ body

-- The packet behind what waits, where its body is within the protocol's limit and it fits in the queue's.
unfoldable pub send : ℕ → ℕ → List ℕ → ℕ × List ℕ → Result (Unit {0}) × (ℕ × List ℕ)
send kind tab body (limit, waiting) =
    if leb (length body) max_payload && leb (length waiting + (16 + length body)) limit
    then (ok tt, (limit, waiting ++ packet_bytes kind tab body))
    else (err invalid_data, (limit, waiting))

published :
    (kind tab limit : ℕ) (body : List ℕ)
    → publish (encoding (packet kind tab (body ∷ []))) (record { bytes = []; limit = limit }) ≡ (
        if leb (length body) max_payload && leb (16 + length body) limit
        then (ok tt, record { bytes = packet_bytes kind tab body; limit = limit })
        else (err invalid_data, record { bytes = []; limit = limit }))
unfolding publish encoding
published kind tab limit body = rw (append-nil body) (ground (arith, length-packet kind tab body))

encoded :
    (kind tab limit : ℕ) (body : List ℕ)
    → append_packet_bytes kind tab body (Buffer.with_limit limit) ≡ (
        if leb (length body) max_payload && leb (16 + length body) limit
        then (ok tt, record { bytes = packet_bytes kind tab body; limit = limit })
        else (err invalid_data, record { bytes = []; limit = limit }))
unfolding append_packet_bytes Buffer.with_limit run
encoded kind tab limit body =
    run-publish (packet kind tab (body ∷ [])) (record { bytes = []; limit = limit }) (omega arith)
    ∙ published kind tab limit body

queued-send :
    (kind tab : ℕ) (body : List ℕ) (output : Queue)
    → IsValid output
    → let (r, output') =
        queued
          (if leb (length body) max_payload && leb (16 + length body) (Queue.remaining output)
            then (
              ok tt,
              record { bytes = packet_bytes kind tab body; limit = Queue.remaining output },
            )
            else (err invalid_data, record { bytes = []; limit = Queue.remaining output }))
          output in
      (r, view output') ≡ send kind tab body (view output)
unfolding queued send push
queued-send kind tab body output v = ground (
  arith,
  append_refines (packet_bytes kind tab body) v,
  length-packet kind tab body,
  length-drop output.sent output.bytes,
)

-- On a valid queue a packet goes whole behind the bytes that wait where its body is within the protocol's
-- limit and the packet fits in the queue's; else the call fails and the queue's bytes and limit stay.
pub queue-send :
    (kind tab : ℕ) (body : List ℕ) (output : Queue)
    → IsValid output
    → let (r, output') = queue kind tab body output in
      (r, view output') ≡ send kind tab body (view output)
unfolding queue
queue-send kind tab body output v =
    subst
      (λ e.
        let (r, output') = queued e output in (r, view output') ≡ send kind tab body (view output))
      (sym (encoded kind tab (Queue.remaining output) body)) (queued-send kind tab body output v)
