-- ===== src/Workspace/Launch/Bounds.antt =====
-- What a launch that was decoded is like.
use worminal.Protocol.Wire.{
  workspace_max_cols, workspace_max_rows, workspace_max_args, workspace_max_env,
}
use worminal.Prelude.{
  ◌<◌, ℕ, zero, suc, ◌≤◌, ◌≡◌, refl, ap, false, Option, none, some, List, ◌==◌, arith, Bool-cases,
  inl, inr, subst, not,
}
use worminal.Prelude.Result.{ok, >>=-eq-ok}
use worminal.Protocol.Payload
use worminal.Workspace.Launch.{
  Launch, Entry, c_string, read_arguments, read_entries, given, out_of_bounds, read_fields,
  read_launch, decode,
}
use worminal.Workspace.Launch.Entries.{
  IsCString, AreCStrings, AreEntries, c_string-IsCString, read_arguments-AreCStrings,
  read_entries-AreEntries,
}

abbrev pub IsEnvironment : ℕ → Option (List Entry) → Type 0
IsEnvironment n none = n ≡ 0
IsEnvironment n (some entries) = AreEntries n entries

given-IsEnvironment :
    (n : ℕ) (entries : List Entry) → AreEntries n entries → IsEnvironment n (given n entries)
unfolding given
given-IsEnvironment zero entries h = refl
given-IsEnvironment (suc n) entries h = h

-- A launch with these numbers of arguments and of entries.
pub record IsLaunch (columns rows arguments entries : ℕ) (l : Launch) : Type 0 where
  pub columns_kept : l.columns ≡ columns
  pub rows_kept : l.rows ≡ rows
  pub title_ok : IsCString l.title
  pub directory_ok : IsCString l.directory
  pub line_ok : IsCString l.line
  pub output_ok : IsCString l.output
  pub window_id_ok : IsCString l.window_id
  pub arguments_ok : AreCStrings arguments l.arguments
  pub environment_ok : IsEnvironment entries l.environment

read_fields-IsLaunch :
    (columns rows allow arguments entries : ℕ) (bytes : List ℕ) {l : Launch} {rest : List ℕ}
    → read_fields columns rows allow arguments entries bytes ≡ (ok l, rest)
    → IsLaunch columns rows arguments entries l
unfolding read_fields
read_fields-IsLaunch columns rows allow arguments entries bytes {l} e =
    let (title, b1, e1, k1) = >>=-eq-ok c_string _ bytes e in
    let (directory, b2, e2, k2) = >>=-eq-ok c_string _ b1 k1 in
    let (line, b3, e3, k3) = >>=-eq-ok c_string _ b2 k2 in
    let (output, b4, e4, k4) = >>=-eq-ok c_string _ b3 k3 in
    let (window_id, b5, e5, k5) = >>=-eq-ok c_string _ b4 k4 in
    let (args, b6, e6, k6) = >>=-eq-ok (read_arguments arguments) _ b5 k5 in
    let (env, b7, e7, k7) = >>=-eq-ok (read_entries entries) _ b6 k6 in
    let (u, b8, e8, k8) = >>=-eq-ok Payload.finish _ b7 k7 in
    let read : Launch = record {
      columns = columns;
      rows = rows;
      allow_alternate = not (allow == 0);
      title = title;
      directory = directory;
      line = line;
      output = output;
      window_id = window_id;
      arguments = args;
      environment = given entries env;
    } in
    let same : read ≡ l = ground arith in
    subst (IsLaunch columns rows arguments entries) same (record {
      columns_kept = refl;
      rows_kept = refl;
      title_ok = c_string-IsCString bytes e1;
      directory_ok = c_string-IsCString b1 e2;
      line_ok = c_string-IsCString b2 e3;
      output_ok = c_string-IsCString b3 e4;
      window_id_ok = c_string-IsCString b4 e5;
      arguments_ok = read_arguments-AreCStrings arguments b5 e6;
      environment_ok = given-IsEnvironment entries env (read_entries-AreEntries entries b6 e7);
    })

abbrev pub AreBounds : ℕ → ℕ → ℕ → ℕ → Type 0
AreBounds columns rows arguments entries =
    (0 < columns)
    × (columns ≤ workspace_max_cols)
    × (0 < rows)
    × (rows ≤ workspace_max_rows)
    × (arguments ≤ workspace_max_args)
    × (entries ≤ workspace_max_env)

in_bounds :
    (columns rows arguments entries : ℕ)
    → out_of_bounds columns rows arguments entries ≡ false
    → AreBounds columns rows arguments entries
unfolding out_of_bounds
in_bounds columns rows arguments entries e = ground arith

abbrev pub IsDecoded : Launch → Type 0
IsDecoded l =
    (columns rows arguments entries : ℕ) × AreBounds columns rows arguments entries
    × IsLaunch columns rows arguments entries l

read_launch-IsLaunch :
    (bytes : List ℕ) {l : Launch} {rest : List ℕ} → read_launch bytes ≡ (ok l, rest) → IsDecoded l
unfolding read_launch
read_launch-IsLaunch bytes {l} e =
    let (columns, b1, e1, k1) = >>=-eq-ok Payload.u32 _ bytes e in
    let (rows, b2, e2, k2) = >>=-eq-ok Payload.u32 _ b1 k1 in
    let (allow, b3, e3, k3) = >>=-eq-ok Payload.u32 _ b2 k2 in
    let (arguments, b4, e4, k4) = >>=-eq-ok Payload.u32 _ b3 k3 in
    let (entries, b5, e5, k5) = >>=-eq-ok Payload.u32 _ b4 k4 in
    elim (Bool-cases (out_of_bounds columns rows arguments entries)) [
      | inl bad ↦ absurd (ground arith)
      | inr fine ↦ (
        columns,
        rows,
        arguments,
        entries,
        in_bounds columns rows arguments entries fine,
        read_fields-IsLaunch columns rows allow arguments entries b5 (rw fine at k5),
      )
    ]

-- A launch that `decode` returns has 1 to 400 columns, 1 to 200 rows, at most 1024 arguments and, where it
-- gives an environment, at most 8192 entries, each with a name that is not empty and has no separator;
-- none of its strings has a NUL byte.
pub decode-IsLaunch : (bytes : List ℕ) (l : Launch) → decode bytes ≡ ok l → IsDecoded l
unfolding decode
decode-IsLaunch bytes l e = read_launch-IsLaunch bytes (ap (λ x. (x, (read_launch bytes).1)) e)
