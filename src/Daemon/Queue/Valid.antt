-- ===== src/Daemon/Queue/Valid.antt =====
-- The representation invariant: no index or subtraction of the code leaves its range.
use worminal.Prelude.{ℕ, ◌≤◌, List, length, drop, length-append, length-drop, arith}
use worminal.Daemon.Queue.{Queue, append, append_owned, extend}

pub record IsValid (q : Queue) : Type 0 where
  pub sent_in : q.sent ≤ length q.bytes
  pub bounded : length q.bytes ≤ q.limit

pub append-IsValid : (bytes : List ℕ) {q : Queue} → IsValid q → IsValid (append bytes q).1
unfolding append extend
append-IsValid bytes {q} v = ground (
  arith,
  length-append q.bytes bytes,
  length-drop q.sent q.bytes,
  length-append (drop q.sent q.bytes) bytes,
)

pub append_owned-IsValid :
    (bytes : List ℕ) {q : Queue} → IsValid q → IsValid (append_owned bytes q).1
unfolding append_owned extend
append_owned-IsValid bytes {q} v = ground (
  arith,
  length-append q.bytes bytes,
  length-drop q.sent q.bytes,
  length-append (drop q.sent q.bytes) bytes,
)
