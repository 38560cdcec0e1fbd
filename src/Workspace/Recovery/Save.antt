-- ===== src/Workspace/Recovery/Save.antt =====
-- `Recovery::open` and `Recovery::save`. What the file system answers is a value; the contents of the
-- recipe file change at the rename only.
pub mod Reopen
use worminal.Prelude.Bytes.{bytes_eq}
use worminal.Prelude.{
  ℕ, zero, suc, ◌+◌, Bool, true, false, not, ◌&&◌, ◌||◌, Option, none, some, List, [], ◌∷◌, ltb,
  ◌==◌, if◌then◌else◌, length,
}
use worminal.Prelude.Result.{
  Result, ErrorKind, Exec, ok, err, invalid_data, not_found, already_exists, ◌>>=◌, ◌>>◌, pure,
  fail,
}
use worminal.Workspace.Recovery.{Recipe, restore_limit, decode, encode}

-- What opening the file answers: an error, or whether it is a regular file, its size, and what reading
-- that many bytes answers.
pub data File : Type 0 where
  unopened : ErrorKind → File
  opened : Bool → ℕ → Result (List ℕ) → File

pub data Cache : Type 0 where
  fresh : Cache
  valid : List ℕ → Cache
  disabled : Cache

module _ (directory_limit : ℕ) where
  unfoldable pub decoded : List ℕ → Result (List Recipe) → Result (List ℕ × List Recipe)
  decoded bytes (ok recipes) = ok (bytes, recipes)
  decoded bytes (err e) = err e

  -- The closure `read` of `open`.
  unfoldable pub read : File → Result (List ℕ × List Recipe)
  unfolding decoded
  read (unopened e) = err e
  read (opened is_file size (err e)) =
      if not is_file || (ltb size 8 || ltb restore_limit size) then err invalid_data else err e
  read (opened is_file size (ok bytes)) =
      if not is_file || (ltb size 8 || ltb restore_limit size)
      then err invalid_data
      else decoded bytes (decode directory_limit bytes)

  unfoldable pub opening : Result (List ℕ × List Recipe) → Cache × Result (List Recipe)
  opening (ok (bytes, recipes)) = (valid bytes, ok recipes)
  opening (err not_found) = (fresh, ok [])
  opening (err e) = (disabled, err e)

  unfoldable pub open_file : File → Cache × Result (List Recipe)
  unfolding read opening
  open_file file = opening (read file)

-- The answers of the system calls of one `save`; `create` by the number of the temporary file.
pub record System : Type 0 where
  pub prepare : Result (Unit {0})
  pub create : ℕ → Result (Unit {0})
  pub write_all : Result (Unit {0})
  pub sync_all : Result (Unit {0})
  pub rename : Result (Unit {0})

-- `TEMPORARY_ID` is `sequence`; `disk` is what the recipe file holds.
pub record Store : Type 0 where
  pub cache : Cache
  pub sequence : ℕ
  pub disk : Option (List ℕ)

unfoldable pub answer : Result (Unit {0}) → Exec Store Unit
answer r s = (r, s)

-- The loop over names of temporary files.
unfoldable pub reserve : ℕ → System → Exec Store Unit
reserve zero system s = (err already_exists, s)
reserve (suc rounds) system s = elim (system.create s.sequence) [
  | ok _ ↦ (ok tt, record s { sequence = s.sequence + 1 })
  | err already_exists ↦ reserve rounds system (record s { sequence = s.sequence + 1 })
  | err e ↦ (err e, record s { sequence = s.sequence + 1 })
]

unfoldable pub publish : System → List ℕ → Exec Store Bool
unfolding answer
publish system bytes = do
  answer system.prepare
  reserve 64 system
  answer system.write_all
  answer system.sync_all
  answer system.rename
  λ s. (ok true, record s { cache = valid bytes; disk = some bytes })

unfoldable pub save_bytes : System → Cache → Result (List ℕ) → Exec Store Bool
save_bytes system cache (err e) = fail e
save_bytes system (valid saved) (ok bytes) =
    if bytes_eq saved bytes then pure false else publish system bytes
save_bytes system cache (ok bytes) = publish system bytes

unfoldable pub skips : Cache → List Recipe → Bool
skips disabled recipes = true
skips fresh [] = true
skips cache recipes = false

module _ (directory_limit : ℕ) where
  unfoldable pub save : System → List Recipe → Exec Store Bool
  unfolding save_bytes
  save system recipes s =
      if skips s.cache recipes
      then (ok false, s)
      else save_bytes system s.cache (encode directory_limit recipes) s
