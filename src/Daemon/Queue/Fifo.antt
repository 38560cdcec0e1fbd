-- ===== src/Daemon/Queue/Fifo.antt =====
-- The queue against a first-in first-out queue of at most `limit` bytes.
use worminal.Prelude.{
  ℕ, ◌+◌, ◌≡◌, ◌≢◌, List, ◌++◌, length, leb, if◌then◌else◌, length-drop, drop-append, drop_all,
  arith,
}
use worminal.Prelude.Result.{Result, ok, err, out_of_memory}
use worminal.Daemon.Queue.{Queue, pending, append, append_owned, extend}
use worminal.Daemon.Queue.Valid.{IsValid}

-- What a client knows of a queue: its limit and the bytes that wait.
abbrev pub Fifo : Type 0
Fifo = ℕ × List ℕ

abbrev pub view : Queue → Fifo
view q = (q.limit, pending q)

-- All of the bytes go behind those that wait, or none.
unfoldable pub push : List ℕ → Fifo → Result (Unit {0}) × Fifo
push bytes (limit, waiting) =
    if leb (length waiting + length bytes) limit
    then (ok tt, (limit, waiting ++ bytes))
    else (err out_of_memory, (limit, waiting))

pending-extend :
    (bytes : List ℕ) (q : Queue) → IsValid q → pending (extend bytes q) ≡ pending q ++ bytes
unfolding extend
pending-extend bytes q v = ground (arith, drop-append q.sent q.bytes bytes)

limit-extend : (bytes : List ℕ) (q : Queue) → (extend bytes q).limit ≡ q.limit
unfolding extend
limit-extend bytes q = ground arith

-- `append` is the push of the first-in first-out queue, whether the bytes are compacted or not, and an
-- append that is refused leaves the queue as it was.
pub append_refines :
    (bytes : List ℕ) {q : Queue}
    → IsValid q
    → let (r, q') = append bytes q in ((r, view q') ≡ push bytes (view q)) × (r ≢ ok tt → q' ≡ q)
unfolding append push
append_refines bytes {q} v =
    ground (arith, pending-extend bytes q v, limit-extend bytes q, length-drop q.sent q.bytes)

pub append_owned_refines :
    (bytes : List ℕ) {q : Queue}
    → IsValid q
    → let (r, q') = append_owned bytes q in
      ((r, view q') ≡ push bytes (view q)) × (r ≢ ok tt → q' ≡ q)
unfolding append_owned push
append_owned_refines bytes {q} v = ground (
  arith,
  pending-extend bytes q v,
  limit-extend bytes q,
  length-drop q.sent q.bytes,
  drop_all q.sent q.bytes,
)
