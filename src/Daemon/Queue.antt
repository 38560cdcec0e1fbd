-- ===== src/Daemon/Queue.antt =====
-- src/daemon/src/queue.rs: the bounded byte queue of client output, PTY input and the bridge.
-- The capacity that `Vec` keeps beside its bytes is not modelled: `reserve_exact` changes only that.
pub mod Valid
pub mod Fifo
pub mod Flush
pub mod History
mod Tests
use worminal.Prelude.{
  ℕ, zero, suc, ◌+◌, ◌-◌, ◌≤◌, ◌<◌, min, Bool, not, ◌&&◌, ◌||◌, Option, none, some, List, [], ◌++◌,
  ltb, leb, ◌==◌, if◌then◌else◌, length, take, drop,
}
use worminal.Prelude.Result.{
  Result, ErrorKind, Exec, ok, err, invalid_data, out_of_memory, write_zero, interrupted,
  would_block, ◌>>=◌, ◌>>◌,
}

pub record Queue : Type 0 where
  pub bytes : List ℕ
  pub sent : ℕ
  pub limit : ℕ

unfoldable pub from_bytes : List ℕ → ℕ → Result Queue
from_bytes bytes limit =
    if ltb limit (length bytes)
    then err invalid_data
    else ok (record { bytes = bytes; sent = 0; limit = limit })

unfoldable pub new : ℕ → Queue
new limit = record { bytes = []; sent = 0; limit = limit }

abbrev pub pending : Queue → List ℕ
pending q = drop q.sent q.bytes

abbrev pub len : Queue → ℕ
len q = length q.bytes - q.sent

abbrev pub is_empty : Queue → Bool
is_empty q = len q == 0

abbrev pub remaining : Queue → ℕ
remaining q = q.limit - len q

unfoldable pub check_append : ℕ → Exec Queue Unit
check_append count q = if ltb (remaining q) count then (err out_of_memory, q) else (ok tt, q)

-- The compaction: the sent prefix goes when half of the bytes are sent, or when the new bytes would not
-- fit behind it.
unfoldable pub compact : ℕ → Queue → Queue
compact count q =
    if not (q.sent == 0) && (leb (len q) q.sent || ltb (q.limit - length q.bytes) count)
    then record q { bytes = drop q.sent q.bytes; sent = 0 }
    else q

unfoldable pub extend : List ℕ → Queue → Queue
unfolding compact
extend bytes q = let c = compact (length bytes) q in record c { bytes = c.bytes ++ bytes }

unfoldable pub append : List ℕ → Exec Queue Unit
unfolding check_append
append bytes = do check_append (length bytes); λ q. (ok tt, extend bytes q)

unfoldable pub append_owned : List ℕ → Exec Queue Unit
unfolding check_append append
append_owned bytes q =
    if is_empty q
    then (do check_append (length bytes); λ p. (ok tt, record p { bytes = bytes; sent = 0 })) q
    else append bytes q

-- What `Write::write` answers.
pub data Written : Type 0 where
  wrote : ℕ → Written
  refused : ErrorKind → Written

-- An output of the program's choosing, as the function that a call of its `write` is.
module _ {W : Type 0} (write : W → List ℕ → Written × W) where
  abbrev pub Flushed : Type 0
  Flushed = Result ℕ × Queue × W

  -- The `match` on the answer; `next` is the next round.
  unfoldable pub react :
      (Queue → W → ℕ → ℕ → Option Flushed) → Queue → ℕ → ℕ → Written × W → Option Flushed
  react next q budget total (wrote zero, w) = some (err write_zero, q, w)
  react next q budget total (wrote (suc n), w) =
      next (record q { sent = q.sent + suc n }) w (budget - suc n) (total + suc n)
  react next q budget total (refused interrupted, w) = next q w budget total
  react next q budget total (refused would_block, w) = some (ok total, q, w)
  react next q budget total (refused e, w) = some (err e, q, w)

  -- The loop; `none` means that the rounds allowed were too few.
  unfoldable pub flush_loop : ℕ → Queue → W → ℕ → ℕ → Option Flushed
  unfolding react
  flush_loop zero q w budget total = none
  flush_loop (suc rounds) q w budget total =
      if not (budget == 0) && not (is_empty q)
      then react (flush_loop rounds) q budget total
          (write w (take (min budget (len q)) (pending q)))
      else some (ok total, q, w)

  -- A queue that is sent whole is cleared, unless an error left the function early.
  unfoldable pub settle : Flushed → Flushed
  settle (ok total, q, w) =
      (ok total, if q.sent == length q.bytes then record q { bytes = []; sent = 0 } else q, w)
  settle (err e, q, w) = (err e, q, w)

  unfoldable pub flush : ℕ → Queue → W → ℕ → Option Flushed
  unfolding flush_loop settle
  flush rounds q w budget = elim (flush_loop rounds q w budget 0) [
    | none ↦ none
    | some out ↦ some (settle out)
  ]
