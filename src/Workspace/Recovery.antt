-- ===== src/Workspace/Recovery.antt =====
-- src/workspace/src/recovery.rs: the recipes from which tabs are made again, their file format, and the
-- cache that decides whether the file is written.
pub mod Format
pub mod RoundTrip
pub mod Save
mod Tests
use worminal.Prelude.{
  ℕ, zero, suc, ◌+◌, ◌*◌, Bool, true, false, not, ◌&&◌, ◌||◌, List, [], ◌∷◌, ltb, leb, ◌==◌,
  if◌then◌else◌, length,
}
use worminal.Prelude.Result.{
  Result, ErrorKind, Exec, ok, err, invalid_data, ◌>>=◌, ◌>>◌, pure, fail,
}
use worminal.Protocol.Buffer
use worminal.Protocol.Buffer.{Buffer}
use worminal.Protocol.Payload
use worminal.Protocol.Payload.{Payload}
use worminal.Protocol.Packet.{finished}

-- src/workspace/restore_format.h
abbrev pub restore_version : ℕ
restore_version = 1

abbrev pub restore_limit : ℕ
restore_limit = 8 * 1024 * 1024

abbrev pub restore_tabs : ℕ
restore_tabs = 4096

abbrev pub restore_url_limit : ℕ
restore_url_limit = 65536

pub record Recipe : Type 0 where
  pub directory : List ℕ
  pub url : List ℕ

unfoldable pub starts_with_slash : List ℕ → Bool
starts_with_slash [] = false
starts_with_slash (byte ∷ bytes) = byte == b'/'

-- `contains(&0)`
unfoldable pub contains_nul : List ℕ → Bool
contains_nul [] = false
contains_nul (byte ∷ bytes) = byte == 0 || contains_nul bytes

unfoldable pub is_empty : List ℕ → Bool
is_empty [] = true
is_empty (byte ∷ bytes) = false

unfoldable pub for_tab : List ℕ → List ℕ → List ℕ → Recipe
for_tab directory url home =
    let candidate = if is_empty directory then home else directory in
    record { directory = if starts_with_slash candidate then candidate else b'/' ∷ []; url = url }

-- `RESTORE_DIRECTORY_LIMIT` is the system's PATH_MAX.
module _ (directory_limit : ℕ) where
  unfoldable pub valid : Recipe → Bool
  valid r =
      ltb (length r.directory) directory_limit
      && (leb (length r.url) restore_url_limit
          && (not (contains_nul r.directory)
              && (not (contains_nul r.url)
                  && ((is_empty r.directory || starts_with_slash r.directory)
                      && not (is_empty r.directory && is_empty r.url)))))

  -- The loop of `decode`.
  unfoldable pub read_recipes : ℕ → Exec Payload (List Recipe)
  read_recipes zero = pure []
  read_recipes (suc count) = do
    directory ← Payload.string
    url ← Payload.string
    let recipe : Recipe = record { directory = directory; url = url }
    if not (valid recipe)
        then fail invalid_data
        else do recipes ← read_recipes count; pure (recipe ∷ recipes)

  unfoldable pub read_file : Exec Payload (List Recipe)
  read_file = do
    version ← Payload.u32
    if not (version == restore_version) then fail invalid_data else do
      count ← Payload.u32
      if ltb restore_tabs count
          then fail invalid_data
          else do recipes ← read_recipes count; Payload.finish; pure recipes

  unfoldable pub decode : List ℕ → Result (List Recipe)
  decode bytes = if ltb restore_limit (length bytes) then err invalid_data else (read_file bytes).0

  -- The loop of `encode`.
  unfoldable pub put_recipes : List Recipe → Exec Buffer Unit
  put_recipes [] = pure tt
  put_recipes (recipe ∷ recipes) =
      if not (valid recipe)
      then fail invalid_data
      else do Buffer.put_string recipe.directory; Buffer.put_string recipe.url; put_recipes recipes

  unfoldable pub put_file : List Recipe → Exec Buffer Unit
  put_file recipes = do
    Buffer.put_u32 restore_version
    Buffer.put_u32 (length recipes)
    put_recipes recipes

  unfoldable pub encode : List Recipe → Result (List ℕ)
  encode recipes =
      if ltb restore_tabs (length recipes)
      then err invalid_data
      else finished (put_file recipes (Buffer.with_limit restore_limit))
