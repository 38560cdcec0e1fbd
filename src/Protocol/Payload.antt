-- ===== src/Protocol/Payload.antt =====
-- `Payload`, the reader of src/protocol/src/lib.rs: its state is the bytes that are left.
pub mod Laws
use worminal.Prelude.{ℕ, ◌<◌, List, [], ◌∷◌, ltb, if◌then◌else◌, length}
use worminal.Prelude
use worminal.Prelude.Result.{Result, Exec, ok, err, invalid_data, ◌>>=◌, pure}
use worminal.Prelude.Bytes.{from_be_bytes}

abbrev pub Payload : Type 0
Payload = List ℕ

unfoldable pub take : ℕ → Exec Payload (List ℕ)
take size bytes =
    if ltb (length bytes) size
    then (err invalid_data, bytes)
    else (ok (Prelude.take size bytes), Prelude.drop size bytes)

-- `try_into().unwrap()` to four bytes: `take 4` has given four.
unfoldable pub word : List ℕ → ℕ
unfolding from_be_bytes
word (a ∷ b ∷ c ∷ d ∷ []) = from_be_bytes a b c d
word _ = 0

unfoldable pub u32 : Exec Payload ℕ
unfolding take word
u32 = do four ← take 4; pure (word four)

unfoldable pub string : Exec Payload (List ℕ)
string = do size ← u32; take size

-- `finish` takes the reader; what is left of it is not seen again.
unfoldable pub finish : Exec Payload Unit
finish [] = (ok tt, [])
finish (b ∷ bytes) = (err invalid_data, b ∷ bytes)
