-- ===== src/Protocol/Buffer.antt =====
-- `Buffer`, the bounded encoder of src/protocol/src/lib.rs. A method returns its result and the
-- buffer that it leaves. What `Vec::reserve` allocates is not observable and is left out.
pub mod Laws
use worminal.Prelude.{
  ℕ, ◌+◌, ◌-◌, ◌%◌, ◌≤◌, Option, none, some, List, [], ◌∷◌, ◌++◌, map, ltb, if◌then◌else◌, length,
  concat,
}
use worminal.Prelude.Result.{Result, Exec, ok, err, invalid_data, ◌>>=◌, ◌>>◌, fail}
use worminal.Prelude.Bytes.{u32_mod, usize_mod, to_be_bytes}
use worminal.Protocol.Wire.{wire_version, max_payload, header_bytes}

pub record Buffer : Type 0 where
  pub bytes : List ℕ
  pub limit : ℕ

unfoldable pub with_limit : ℕ → Buffer
with_limit limit = record { bytes = []; limit = limit }

unfoldable pub default : Buffer
unfolding with_limit
default = with_limit max_payload

-- `saturating_sub` is the subtraction that stops at 0.
unfoldable pub reserve : ℕ → Exec Buffer Unit
reserve extra b = if ltb (b.limit - length b.bytes) extra then (err invalid_data, b) else (ok tt, b)

-- `self.bytes.extend_from_slice(bytes)`
unfoldable pub extend : List ℕ → Exec Buffer Unit
extend bytes b = (ok tt, record b { bytes = b.bytes ++ bytes })

unfoldable pub put_bytes : List ℕ → Exec Buffer Unit
unfolding reserve extend
put_bytes bytes = do reserve (length bytes); extend bytes

unfoldable pub put_u32 : ℕ → Exec Buffer Unit
unfolding put_bytes to_be_bytes
put_u32 value = put_bytes (to_be_bytes value)

-- `u32::try_from(bytes.len())` fails from 2 ^ 32 on.
unfoldable pub put_string : List ℕ → Exec Buffer Unit
unfolding reserve extend to_be_bytes
put_string bytes =
    if ltb (length bytes) u32_mod
    then (do reserve (4 + length bytes); extend (to_be_bytes (length bytes)); extend bytes)
    else fail invalid_data

-- `try_fold` with `checked_add`
unfoldable pub total_length : ℕ → List (List ℕ) → Option ℕ
total_length length' [] = some length'
total_length length' (part ∷ parts) =
    let sum = length' + length part in
    let rest = total_length sum parts in if ltb sum usize_mod then rest else none

-- Four header words, then the parts.
unfoldable pub header : ℕ → ℕ → ℕ → List ℕ
header kind tab size =
    to_be_bytes wire_version
    ++ (to_be_bytes kind ++ (to_be_bytes tab ++ to_be_bytes (size % u32_mod)))

unfoldable pub put_packet : ℕ → ℕ → ℕ → List (List ℕ) → Exec Buffer Unit
unfolding reserve extend
put_packet kind tab size parts =
    if ltb max_payload size
    then fail invalid_data
    else (do reserve (header_bytes + size); extend (header kind tab size); extend (concat parts))

unfoldable pub append_packet_parts : ℕ → ℕ → List (List ℕ) → Exec Buffer Unit
append_packet_parts kind tab parts = elim (total_length 0 parts) [
  | none ↦ fail invalid_data
  | some size ↦ put_packet kind tab size parts
]

unfoldable pub append_packet_bytes : ℕ → ℕ → List ℕ → Exec Buffer Unit
append_packet_bytes kind tab body = append_packet_parts kind tab (body ∷ [])
