-- ===== src/Daemon/Frames/Tests.antt =====
-- The theorems at a screen that scrolls.
use worminal.Prelude.{ℕ, ◌≡◌, refl, false, Option, some, List, [], ◌∷◌, arith}
use worminal.Daemon.Queue
use worminal.Daemon.Queue.{Queue}
use worminal.Daemon.Queue.Valid.{IsValid}
use worminal.Daemon.Frames.Move.{
  find_move, exact, shifts_loop, rows_loop, move_step, extend_run, is_longer, row_hash,
  row_hash_from, chunks_exact, chunks, changed_rows, is_exact,
}
use worminal.Prelude.Bytes.{to_be_bytes, bytes_eq}
use worminal.Daemon.Frames.Prepare.{cell_bytes}
use worminal.Daemon.Frames.Encode.{prepare}
use worminal.Daemon.Frames.Commit.{replicate_encoded}
use worminal.Daemon.Frames.Search.{IfAny, IsSound, find_move-IsSound}
use worminal.Daemon.Frames.Atomic.{Ending, replicate_encoded-Ending}
use worminal.Daemon.Frames.Reading.{cells_bytes}
use worminal.Daemon.Frames.Example.{
  row_of, frame, old_rows, engine, screen, queue, columns_hold, clean_holds, answers,
}
use worminal.Daemon.Frames.Total.{Answered, prepare-Answered}
use worminal.Daemon.Frames.Replica.{Replicates, replicate_encoded-Replicates}

replicate_encoded-Replicates_example :
    Replicates engine frame (replicate_encoded engine 7 false 9 false (screen, queue))
replicate_encoded-Replicates_example =
    replicate_encoded-Replicates engine 7 false 9 false screen queue frame refl refl columns_hold
      clean_holds

queue-IsValid : IsValid queue
unfolding Queue.new
queue-IsValid = record { sent_in = omega arith; bounded = omega arith }

replicate_encoded-Ending_example :
    Ending
      (prepare engine screen 7 false 9 false)
      false
      screen
      queue
      (replicate_encoded engine 7 false 9 false (screen, queue))
replicate_encoded-Ending_example =
    replicate_encoded-Ending engine 7 false 9 false screen queue queue-IsValid

abbrev current : List (Option (List ℕ))
current =
    some (cells_bytes (row_of 20))
    ∷ some (cells_bytes (row_of 30))
    ∷ some (cells_bytes (row_of 40))
    ∷ some (cells_bytes (row_of 40))
    ∷ []

find_move-IsSound_example : IfAny (IsSound 32 old_rows current) (find_move old_rows current 32)
find_move-IsSound_example = find_move-IsSound old_rows current 32

-- The three rows that scrolled are found.
find_move_run :
    find_move old_rows current 32 ≡ some (record { source = 1; destination = 0; count = 3 })
unfolding find_move cell_bytes exact shifts_loop rows_loop move_step extend_run is_longer row_hash
    row_hash_from chunks_exact chunks changed_rows is_exact to_be_bytes bytes_eq
find_move_run = refl

prepare-Answered_example : Answered (prepare engine screen 7 false 9 false)
prepare-Answered_example =
    prepare-Answered engine screen 7 false 9 false frame refl refl (omega arith) (omega arith)
      (omega arith) columns_hold answers
