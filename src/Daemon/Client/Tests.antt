-- ===== src/Daemon/Client/Tests.antt =====
-- A packet of three bytes for a client whose output has room for two of them.
use worminal.Prelude.{◌≡◌, [], ◌∷◌, arith}
use worminal.Daemon.Queue.{Queue}
use worminal.Daemon.Queue.Valid.{IsValid}
use worminal.Daemon.Queue.Fifo.{view}
use worminal.Daemon.Client.{queue}
use worminal.Daemon.Client.Laws.{send, queue-send}

abbrev output : Queue
output = record { bytes = 8 ∷ 9 ∷ []; sent = 1; limit = 40 }

output-IsValid : IsValid output
output-IsValid = record { sent_in = omega arith; bounded = omega arith }

queue-send_example :
    let (r, output') = queue 5 2 (1 ∷ 2 ∷ 3 ∷ []) output in
    (r, view output') ≡ send 5 2 (1 ∷ 2 ∷ 3 ∷ []) (view output)
queue-send_example = queue-send 5 2 (1 ∷ 2 ∷ 3 ∷ []) output output-IsValid
