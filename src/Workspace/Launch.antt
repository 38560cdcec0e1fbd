-- ===== src/Workspace/Launch.antt =====
-- `Launch` of src/workspace/src/launch.rs: what a client asks of the daemon for a new tab.
pub mod Entries
pub mod Bounds
pub mod Restore
mod Tests
use worminal.Prelude.Bytes.{bytes_eq}
use worminal.Prelude.{
  ℕ, zero, suc, Bool, true, false, not, ◌||◌, ◌+◌, ◌++◌, Option, none, some, List, [], ◌∷◌, ltb,
  ◌==◌, if◌then◌else◌, length,
}
use worminal.Prelude.Result.{Result, Exec, ok, err, invalid_data, ◌>>=◌, ◌>>◌, pure, fail}
use worminal.Prelude
use worminal.Protocol.Wire.{
  workspace_max_cols, workspace_max_rows, workspace_max_args, workspace_max_env,
}
use worminal.Protocol.Payload
use worminal.Protocol.Payload.{Payload}

-- A name and a value of the environment.
abbrev pub Entry : Type 0
Entry = List ℕ × List ℕ

pub record Launch : Type 0 where
  pub columns : ℕ
  pub rows : ℕ
  pub allow_alternate : Bool
  pub title : List ℕ
  pub directory : List ℕ
  pub line : List ℕ
  pub output : List ℕ
  pub window_id : List ℕ
  pub arguments : List (List ℕ)
  pub environment : Option (List Entry)

-- `split(|byte| *byte == 0).next()`
unfoldable pub until_nul : List ℕ → List ℕ
until_nul [] = []
until_nul (byte ∷ bytes) = let rest = until_nul bytes in if byte == 0 then [] else byte ∷ rest

unfoldable pub c_string : Exec Payload (List ℕ)
c_string = do bytes ← Payload.string; pure (until_nul bytes)

-- `RESTORE_COLUMNS` and `RESTORE_ROWS` of src/workspace/restore_format.h
abbrev pub restore_columns : ℕ
restore_columns = 80

abbrev pub restore_rows : ℕ
restore_rows = 24

unfoldable pub restore : List ℕ → Launch
restore directory = record {
  columns = restore_columns;
  rows = restore_rows;
  allow_alternate = true;
  title = [];
  directory = directory;
  line = [];
  output = [];
  window_id = [];
  arguments = [];
  environment = none;
}

-- `iter().position(|byte| *byte == b'=')`
unfoldable pub position : List ℕ → Option ℕ
position [] = none
position (byte ∷ bytes) =
    let rest = position bytes in
    if byte == b'=' then some 0 else elim rest [ none ↦ none | some n ↦ some (suc n) ]

-- An entry without a separator, or with an empty name, is dropped.
unfoldable pub push_entry : List ℕ → Option ℕ → List Entry → List Entry
push_entry entry none entries = entries
push_entry entry (some zero) entries = entries
push_entry entry (some (suc n)) entries =
    (Prelude.take (suc n) entry, Prelude.drop (suc n + 1) entry) ∷ entries

-- The loops over the arguments and the entries.
unfoldable pub read_arguments : ℕ → Exec Payload (List (List ℕ))
read_arguments zero = pure []
read_arguments (suc count) = do
  argument ← c_string
  arguments ← read_arguments count
  pure (argument ∷ arguments)

unfoldable pub read_entries : ℕ → Exec Payload (List Entry)
read_entries zero = pure []
read_entries (suc count) = do
  entry ← c_string
  entries ← read_entries count
  pure (push_entry entry (position entry) entries)

-- No entries at all stand for the environment of the daemon.
unfoldable pub given : ℕ → List Entry → Option (List Entry)
given zero entries = none
given (suc count) entries = some entries

unfoldable pub out_of_bounds : ℕ → ℕ → ℕ → ℕ → Bool
out_of_bounds columns rows argument_count environment_count =
    columns == 0
    || (ltb workspace_max_cols columns
        || (rows == 0
            || (ltb workspace_max_rows rows
                || (ltb workspace_max_args argument_count
                    || ltb workspace_max_env environment_count))))

unfoldable pub read_fields : ℕ → ℕ → ℕ → ℕ → ℕ → Exec Payload Launch
read_fields columns rows allow_alternate argument_count environment_count = do
  title ← c_string
  directory ← c_string
  line ← c_string
  output ← c_string
  window_id ← c_string
  arguments ← read_arguments argument_count
  entries ← read_entries environment_count
  Payload.finish
  pure (record {
    columns = columns;
    rows = rows;
    allow_alternate = not (allow_alternate == 0);
    title = title;
    directory = directory;
    line = line;
    output = output;
    window_id = window_id;
    arguments = arguments;
    environment = given environment_count entries;
  })

unfoldable pub read_launch : Exec Payload Launch
read_launch = do
  columns ← Payload.u32
  rows ← Payload.u32
  allow_alternate ← Payload.u32
  argument_count ← Payload.u32
  environment_count ← Payload.u32
  if out_of_bounds columns rows argument_count environment_count
      then fail invalid_data
      else read_fields columns rows allow_alternate argument_count environment_count

unfoldable pub decode : List ℕ → Result Launch
decode bytes = (read_launch bytes).0

abbrev pub restore_marker : List ℕ
restore_marker =
    b'W' ∷ b'O' ∷ b'R' ∷ b'M' ∷ b'I' ∷ b'N' ∷ b'A' ∷ b'L' ∷ b'_' ∷ b'R' ∷ b'E' ∷ b'S' ∷ b'T' ∷ b'O'
    ∷ b'R' ∷ b'E' ∷ []

-- `retain(|(key, _)| *key != marker)`
unfoldable pub without : List ℕ → List Entry → List Entry
without marker [] = []
without marker ((key, value) ∷ entries) =
    let rest = without marker entries in if bytes_eq key marker then rest else (key, value) ∷ rest

abbrev pub or_inherited : Option (List Entry) → List Entry → List Entry
or_inherited none inherited = inherited
or_inherited (some entries) inherited = entries

-- `inherited` is the daemon's own environment.
unfoldable pub environment_for_restore : List Entry → Launch → List Entry
environment_for_restore inherited launch =
    without restore_marker (or_inherited launch.environment inherited)
    ++ (restore_marker, b'1' ∷ []) ∷ []
