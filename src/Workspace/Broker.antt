-- ===== src/Workspace/Broker.antt =====
-- src/workspace/src/broker.rs: the envelope in which a start of the program hands its arguments, its
-- directory and its environment to the process that owns the windows.
pub mod RoundTrip
pub mod Bounds
pub mod Incoming
mod Tests
use worminal.Prelude.{
  ℕ, zero, suc, Bool, true, false, not, ◌||◌, List, [], ◌∷◌, ltb, ◌==◌, if◌then◌else◌, length,
}
use worminal.Prelude.Result.{Result, Exec, ok, err, other, ◌>>=◌, ◌>>◌, pure, fail}
use worminal.Prelude.Bytes.{u32_mod}
use worminal.Protocol.Wire.{wire_hello}
use worminal.Protocol.Buffer
use worminal.Protocol.Buffer.{Buffer}
use worminal.Protocol.Payload
use worminal.Protocol.Payload.{Payload}
use worminal.Protocol.Packet.{Packet}
use worminal.Protocol.Packet
use worminal.Workspace.Recovery.{starts_with_slash}

-- A string of the system is its bytes. `F` is the type of open files.
pub record Request (F : Type 0) : Type 0 where
  pub args : List (List ℕ)
  pub directory : List ℕ
  pub environment : List (List ℕ)
  pub output : F

-- `len().try_into().map_err(io::Error::other)?`
unfoldable pub put_count : ℕ → Exec Buffer Unit
put_count count = if ltb count u32_mod then Buffer.put_u32 count else fail other

unfoldable pub put_strings : List (List ℕ) → Exec Buffer Unit
put_strings [] = pure tt
put_strings (s ∷ ss) = do Buffer.put_string s; put_strings ss

unfoldable pub put_list : List (List ℕ) → Exec Buffer Unit
put_list ss = do put_count (length ss); put_strings ss

unfoldable pub envelope : Result (Unit {0}) × Buffer → Result (List ℕ)
envelope (ok _, body) = Packet.encode (record { kind = wire_hello; tab = 0; body = body.bytes })
envelope (err e, body) = err e

-- The loop and the bound of `strings`.
unfoldable pub read_strings : ℕ → Exec Payload (List (List ℕ))
read_strings zero = pure []
read_strings (suc count) = do s ← Payload.string; ss ← read_strings count; pure (s ∷ ss)

unfoldable pub strings : Exec Payload (List (List ℕ))
strings = do count ← Payload.u32; if ltb 65536 count then fail other else read_strings count

unfoldable pub is_empty : List (List ℕ) → Bool
is_empty [] = true
is_empty (s ∷ ss) = false

module _ {F : Type 0} where
  unfoldable pub put_request : Request F → Exec Buffer Unit
  put_request r = do Buffer.put_string r.directory; put_list r.args; put_list r.environment

  unfoldable pub encode : Request F → Result (List ℕ)
  encode r = envelope (put_request r Buffer.default)

  unfoldable pub read_request : F → Exec Payload (Request F)
  read_request output = do
    directory ← Payload.string
    args ← strings
    environment ← strings
    Payload.finish
    if is_empty args || not (starts_with_slash directory)
        then fail other
        else pure (record {
          args = args;
          directory = directory;
          environment = environment;
          output = output;
        })

  unfoldable pub decode : Packet → F → Result (Request F)
  decode packet output =
      if not (packet.kind == wire_hello) || not (packet.tab == 0)
      then err other
      else (read_request output packet.body).0
