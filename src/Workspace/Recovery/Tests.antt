-- ===== src/Workspace/Recovery/Tests.antt =====
-- Recipes of a shell tab and of a browser tab, and the theorems at them. The limit is Linux's PATH_MAX.
use worminal.Prelude.{
  ℕ, ◌≤◌, ◌≡◌, refl, true, none, some, List, [], ◌∷◌, All, length, arith, ◌==◌, if◌then◌else◌,
}
use worminal.Prelude.Result.{ok, err, invalid_data, already_exists}
use worminal.Protocol.Buffer
use worminal.Protocol.Packet.{finished}
use worminal.Workspace.Recovery.{
  Recipe, for_tab, valid, decode, encode, put_file, put_recipes, starts_with_slash, contains_nul,
  is_empty,
}
use worminal.Workspace.Recovery.Format.{for_tab-valid, decode-valid}
use worminal.Workspace.Recovery.RoundTrip.{decode-encode}
use worminal.Workspace.Recovery.Save.{
  opened, fresh, disabled, Cache, System, Store, save, open_file, publish, reserve, skips,
}
use worminal.Workspace.Recovery.Save.Reopen.{
  Synced, Saved, file_of, run, save-Saved, save-Synced, damaged_file_kept, reopen-save,
}

abbrev home_tab : Recipe
home_tab = record { directory = b'/' ∷ b'h' ∷ []; url = [] }

abbrev web_tab : Recipe
web_tab = record { directory = b'/' ∷ []; url = b'x' ∷ b':' ∷ [] }

abbrev tabs : List Recipe
tabs = home_tab ∷ web_tab ∷ []

abbrev tabs_bytes : List ℕ
tabs_bytes =
    0 ∷ 0 ∷ 0 ∷ 1 ∷ 0 ∷ 0 ∷ 0 ∷ 2 ∷ 0 ∷ 0 ∷ 0 ∷ 2 ∷ b'/' ∷ b'h' ∷ 0 ∷ 0 ∷ 0 ∷ 0 ∷ 0 ∷ 0 ∷ 0 ∷ 1
    ∷ b'/' ∷ 0 ∷ 0 ∷ 0 ∷ 2 ∷ b'x' ∷ b':' ∷ []

encode-tabs : encode 4096 tabs ≡ ok tabs_bytes
unfolding encode finished put_file put_recipes valid starts_with_slash contains_nul is_empty
    Buffer.put_u32 Buffer.put_string Buffer.with_limit
encode-tabs = refl

decode-encode_example : decode 4096 tabs_bytes ≡ ok tabs
decode-encode_example = decode-encode 4096 tabs tabs_bytes encode-tabs

decode-valid_example : (length tabs ≤ 4096) × All (λ r. valid 4096 r ≡ true) tabs
decode-valid_example = decode-valid 4096 tabs_bytes decode-encode_example

for_tab-valid_example : valid 4096 (for_tab [] (b'x' ∷ []) (b'/' ∷ b'h' ∷ [])) ≡ true
unfolding contains_nul
for_tab-valid_example =
    for_tab-valid 4096 [] (b'x' ∷ []) (b'/' ∷ b'h' ∷ []) (omega arith) (omega arith) (omega arith)
      refl refl

-- The first name of a temporary file is taken.
abbrev healthy : System
healthy = record {
  prepare = ok tt;
  create = λ n. if n == 0 then err already_exists else ok tt;
  write_all = ok tt;
  sync_all = ok tt;
  rename = ok tt;
}

abbrev begun : Store
begun = record { cache = fresh; sequence = 0; disk = none }

abbrev saved : Store
saved = record { cache = Cache.valid tabs_bytes; sequence = 2; disk = some tabs_bytes }

save-tabs : save 4096 healthy tabs begun ≡ (ok true, saved)
unfolding save publish reserve skips encode finished put_file put_recipes valid starts_with_slash
    contains_nul is_empty Buffer.put_u32 Buffer.put_string Buffer.with_limit
save-tabs = refl

reopen-save_example : (open_file 4096 (file_of (some tabs_bytes))).1 ≡ ok tabs
reopen-save_example = reopen-save 4096 healthy tabs begun saved true refl (λ e. cc) save-tabs

save-Saved_example : Saved 4096 tabs begun (save 4096 healthy tabs begun)
save-Saved_example = save-Saved 4096 healthy tabs begun

save-Synced_example : Synced (save 4096 healthy tabs begun).1
save-Synced_example = save-Synced 4096 healthy tabs begun refl

-- A file that is too short.
short_file : (open_file 4096 (opened true 3 (ok (1 ∷ 2 ∷ 3 ∷ [])))).1 ≡ err invalid_data
unfolding open_file
short_file = refl

damaged_file_kept_example :
    run 4096 ((healthy, tabs) ∷ []) (record {
      cache = (open_file 4096 (opened true 3 (ok (1 ∷ 2 ∷ 3 ∷ [])))).0;
      sequence = 0;
      disk = some (1 ∷ 2 ∷ 3 ∷ []);
    })
    ≡ record { cache = disabled; sequence = 0; disk = some (1 ∷ 2 ∷ 3 ∷ []) }
damaged_file_kept_example =
    damaged_file_kept 4096 (opened true 3 (ok (1 ∷ 2 ∷ 3 ∷ []))) invalid_data ((healthy, tabs) ∷ [])
      0 (some (1 ∷ 2 ∷ 3 ∷ [])) short_file
