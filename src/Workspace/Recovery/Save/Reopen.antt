-- ===== src/Workspace/Recovery/Save/Reopen.antt =====
-- The recipe file is replaced whole or left alone, and a saved state can be opened again.
use worminal.Prelude.Bytes.{bytes_eq, bytes_eq-eq}
use worminal.Prelude.{
  ℕ, zero, suc, ◌+◌, ◌≤◌, ◌≡◌, ◌≢◌, refl, ap, ◌∙◌, Bool, true, false, Option, none, some, List, [],
  ◌∷◌, length, arith, ◌⊎◌, Bool-cases, inl, inr, subst,
}
use worminal.Prelude.Result.{Result, ErrorKind, ok, err, not_found}
use worminal.Prelude.Bytes.{to_be_bytes}
use worminal.Workspace.Recovery.{Recipe, restore_limit, encode}
use worminal.Workspace.Recovery.RoundTrip.{decode-encode, encode-ok}
use worminal.Workspace.Recovery.Save.{
  File, unopened, opened, Cache, fresh, valid, disabled, read, opening, open_file, System, Store,
  reserve, publish, save_bytes, skips, save,
}

-- The recipe file as the next start finds it.
abbrev pub file_of : Option (List ℕ) → File
file_of none = unopened not_found
file_of (some bytes) = opened true (length bytes) (ok bytes)

abbrev pub SyncedAs : Cache → Option (List ℕ) → Type 0
SyncedAs fresh disk = disk ≡ none
SyncedAs (valid bytes) disk = disk ≡ some bytes
SyncedAs disabled disk = Unit

-- The cache is what the file holds.
abbrev pub Synced : Store → Type 0
Synced s = SyncedAs s.cache s.disk

reserve_keeps :
    (rounds : ℕ) (system : System) (s : Store)
    → ((reserve rounds system s).1.cache ≡ s.cache) × ((reserve rounds system s).1.disk ≡ s.disk)
unfolding reserve
reserve_keeps zero system s = (refl, refl)
reserve_keeps (suc rounds) system s =
    ground (arith, reserve_keeps rounds system (record s { sequence = s.sequence + 1 }))

-- A publication that fails leaves the cache and the file; one that succeeds replaces both.
abbrev pub Published : List ℕ → Store → Result Bool × Store → Type 0
Published bytes s (ok wrote, t) = (wrote ≡ true) × (t.cache ≡ valid bytes) × (t.disk ≡ some bytes)
Published bytes s (err e, t) = (t.cache ≡ s.cache) × (t.disk ≡ s.disk)

publish-Published :
    (system : System) (bytes : List ℕ) (s : Store) → Published bytes s (publish system bytes s)
unfolding publish
publish-Published system bytes s = ground (arith, reserve_keeps 64 system s)

module _ (directory_limit : ℕ) where
  length-encode :
      (rs : List Recipe) (bytes : List ℕ)
      → encode directory_limit rs ≡ ok bytes
      → (8 ≤ length bytes) × (length bytes ≤ restore_limit)
  unfolding to_be_bytes
  length-encode rs bytes e =
      let (few, all, contents, fits) = encode-ok directory_limit rs bytes e in
      (omega (arith, ap length contents), fits)

  -- Opening a file that holds encoded recipes.
  open_encoded :
      (rs : List Recipe) (bytes : List ℕ)
      → encode directory_limit rs ≡ ok bytes
      → open_file directory_limit (file_of (some bytes)) ≡ (valid bytes, ok rs)
  unfolding open_file
  open_encoded rs bytes e =
      ground (arith, length-encode rs bytes e, decode-encode directory_limit rs bytes e)

  -- Why a save may write nothing: it is disabled, there is nothing to save yet, or the file holds the
  -- encoded recipes already.
  abbrev pub Unneeded : List Recipe → Cache → Type 0
  Unneeded rs cache =
      (cache ≡ disabled)
      ⊎ (cache ≡ fresh) × (rs ≡ [])
      ⊎ (bytes : List ℕ) × (encode directory_limit rs ≡ ok bytes) × (cache ≡ valid bytes)

  -- What a save does, by its answer.
  abbrev pub Saved : List Recipe → Store → Result Bool × Store → Type 0
  Saved rs s (ok true, t) =
      (bytes : List ℕ) × (encode directory_limit rs ≡ ok bytes)
      × (t.cache ≡ valid bytes)
      × (t.disk ≡ some bytes)
  Saved rs s (ok false, t) = (t.cache ≡ s.cache) × (t.disk ≡ s.disk) × Unneeded rs s.cache
  Saved rs s (err e, t) = (t.cache ≡ s.cache) × (t.disk ≡ s.disk)

  Published-Saved :
      (rs : List Recipe) (bytes : List ℕ) (s : Store) (out : Result Bool × Store)
      → encode directory_limit rs ≡ ok bytes
      → Published bytes s out
      → Saved rs s out
  Published-Saved rs bytes s (ok true, t) e p = (bytes, e, p.1, p.2)
  Published-Saved rs bytes s (ok false, t) e p = cc
  Published-Saved rs bytes s (err k, t) e p = p

  save_bytes-Saved :
      (rs : List Recipe) (system : System) (s : Store) (cache : Cache) (r : Result (List ℕ))
      → s.cache ≡ cache
      → encode directory_limit rs ≡ r
      → Saved rs s (save_bytes system cache r s)
  unfolding save_bytes
  save_bytes-Saved rs system s cache (err k) c e = (refl, refl)
  save_bytes-Saved rs system s (valid saved) (ok bytes) c e =
      elim (Bool-cases (bytes_eq saved bytes)) [
        | inl same ↦
            rw same (refl, refl, inr (inr (bytes, e, c ∙ ap valid (bytes_eq-eq saved bytes same))))
        | inr other ↦ rw other (Published-Saved rs bytes s _ e (publish-Published system bytes s))
      ]
  save_bytes-Saved rs system s fresh (ok bytes) c e =
      Published-Saved rs bytes s _ e (publish-Published system bytes s)
  save_bytes-Saved rs system s disabled (ok bytes) c e =
      Published-Saved rs bytes s _ e (publish-Published system bytes s)

  skips-Unneeded : (cache : Cache) (rs : List Recipe) → skips cache rs ≡ true → Unneeded rs cache
  unfolding skips
  skips-Unneeded disabled rs h = inl refl
  skips-Unneeded fresh [] h = inr (inl (refl, refl))
  skips-Unneeded fresh (r ∷ rs) h = cc
  skips-Unneeded (valid bytes) rs h = cc

  pub save-Saved :
      (system : System) (rs : List Recipe) (s : Store)
      → Saved rs s (save directory_limit system rs s)
  unfolding save
  save-Saved system rs s = elim (Bool-cases (skips s.cache rs)) [
    | inl skip ↦ rw skip (refl, refl, skips-Unneeded s.cache rs skip)
    | inr go ↦ rw go (save_bytes-Saved rs system s s.cache _ refl refl)
  ]

  opening-disabled :
      (r : Result (List ℕ × List Recipe)) (k : ErrorKind)
      → (opening directory_limit r).1 ≡ err k
      → (opening directory_limit r).0 ≡ disabled
  unfolding opening
  opening-disabled (ok (bytes, recipes)) k h = cc
  opening-disabled (err not_found) k h = cc
  opening-disabled (err _) k h = refl

  -- The saves of a run, each with what the system answers it.
  pub run : List (System × List Recipe) → Store → Store
  run [] s = s
  run ((system, rs) ∷ saves) s = run saves (save directory_limit system rs s).1

  run-disabled :
      (saves : List (System × List Recipe)) (n : ℕ) (disk : Option (List ℕ))
      → run saves (record { cache = disabled; sequence = n; disk = disk })
        ≡ record { cache = disabled; sequence = n; disk = disk }
  unfolding run save skips
  run-disabled [] n disk = refl
  run-disabled ((system, rs) ∷ saves) n disk = run-disabled saves n disk

  -- A recipe file that does not open is never written by the saves that follow, whatever the recipes
  -- and whatever the system answers; neither is the cache enabled again.
  pub damaged_file_kept :
      (file : File) (k : ErrorKind) (saves : List (System × List Recipe)) (n : ℕ)
      (disk : Option (List ℕ))
      → (open_file directory_limit file).1 ≡ err k
      → run saves (record { cache = (open_file directory_limit file).0; sequence = n; disk = disk })
        ≡ record { cache = disabled; sequence = n; disk = disk }
  unfolding open_file
  damaged_file_kept file k saves n disk h =
      ap (λ c. run saves (record { cache = c; sequence = n; disk = disk }))
        (opening-disabled (read directory_limit file) k h)
      ∙ kept saves
    where
      kept :
          (saves : List (System × List Recipe))
          → run saves (record { cache = disabled; sequence = n; disk = disk })
            ≡ record { cache = disabled; sequence = n; disk = disk }
      kept saves = run-disabled saves n disk

  -- Where the cache is what the file holds, a save keeps it so, with an error as without.
  pub save-Synced :
      (system : System) (rs : List Recipe) (s : Store)
      → Synced s
      → Synced (save directory_limit system rs s).1
  save-Synced system rs s h = go (save directory_limit system rs s) (save-Saved system rs s)
    where
      go : (out : Result Bool × Store) → Saved rs s out → Synced out.1
      go (ok true, t) (bytes, e, c, d) = rw c d
      go (ok false, t) (c, d, u) = rw (c, d) h
      go (err k, t) (c, d) = rw (c, d) h

  -- Where the cache is what the file holds and writing is not disabled, a save that returns without an
  -- error, whether it wrote or found nothing to write, leaves a file that opens with exactly the saved
  -- recipes.
  pub reopen-save :
      (system : System) (rs : List Recipe) (s t : Store) (wrote : Bool)
      → Synced s
      → s.cache ≢ disabled
      → save directory_limit system rs s ≡ (ok wrote, t)
      → (open_file directory_limit (file_of t.disk)).1 ≡ ok rs
  reopen-save system rs s t wrote h d e = go wrote (subst (Saved rs s) e (save-Saved system rs s))
    where
      reopened :
          (cache : Cache) (disk : Option (List ℕ))
          → s.cache ≡ cache
          → SyncedAs cache disk
          → Unneeded rs cache
          → (open_file directory_limit (file_of disk)).1 ≡ ok rs
      reopened cache disk c h (inl e) = absurd (d (c ∙ e))
      reopened cache disk c h (inr (inl (f, e))) =
          rw (subst (λ x. SyncedAs x disk) f h, e) (unfold open_file read opening in refl)
      reopened cache disk c h (inr (inr (bytes, k, f))) =
          rw (subst (λ x. SyncedAs x disk) f h) (ap (λ o. o.1) (open_encoded rs bytes k))

      go :
          (w : Bool) → Saved rs s (ok w, t) → (open_file directory_limit (file_of t.disk)).1 ≡ ok rs
      go true (bytes, k, c, f) = rw f (ap (λ o. o.1) (open_encoded rs bytes k))
      go false (c, f, u) = rw f (reopened s.cache s.disk refl h u)
