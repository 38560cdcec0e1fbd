-- ===== src/Daemon/Handoff/Receive.antt =====
-- `receive`: the tabs of a snapshot are staged, then published at once.
use worminal.Prelude.{
  ℕ, zero, suc, ◌+◌, Bool, true, false, ◌&&◌, ◌||◌, not, Option, none, some, List, [], ◌∷◌, ◌++◌,
  ltb, leb, ◌==◌, if◌then◌else◌, length, get_or, map,
}
use worminal.Prelude.Result.{
  Result, Exec, ok, err, invalid_data, interrupted, ◌>>=◌, ◌>>◌, pure, fail, try,
}
use worminal.Prelude.Bytes.{u32_mod}
use worminal.Daemon.Handoff.Tab.{number, remaining}
use worminal.Daemon.Handoff.Terminal.{
  Host, PreparedTerminal, StagedTab, Rest, lift, on_cursor, decode_tab,
}

abbrev pub handoff_magic : ℕ
handoff_magic = 1464356657

abbrev pub handoff_manual_version : ℕ
handoff_manual_version = 1

abbrev pub handoff_upgrade_version : ℕ
handoff_upgrade_version = 2

abbrev pub handoff_max_tabs : ℕ
handoff_max_tabs = 100

-- The identifiers, `next_id` and `retiring_pid` of a mapped handoff.
pub data Incoming : Type 0 where
  append : Incoming
  upgrade : Incoming
  mapped : List ℕ → ℕ → ℕ → Incoming

abbrev pub is_upgrade : Incoming → Bool
is_upgrade upgrade = true
is_upgrade _ = false

abbrev pub is_append : Incoming → Bool
is_append append = true
is_append _ = false

unfoldable pub is_empty : {A : Type 0} → List A → Bool
is_empty [] = true
is_empty (x ∷ xs) = false

-- What the system answers while tabs are received: `retiring` is the check of the process that the tabs
-- leave, and `reserve`, `reaper`, `ready` and `commit` are the last calls that can fail.
pub record System (D : Type 0) : Type 0 where
  pub session : Result (Unit {0})
  pub descriptors : Result (List D)
  pub mapping : D → Result (List ℕ)
  pub retiring : ℕ → Result (Unit {0})
  pub reserve : ℕ → Result (Unit {0})
  pub reaper : ℕ → Result (Unit {0})
  pub shutdown_requested : Result Bool
  pub ready : Result (Unit {0})
  pub commit : Result (Unit {0})

-- The numbers at the head of the snapshot, and whether they are refused.
unfoldable pub misheaded : Incoming → Bool → ℕ → ℕ → ℕ → ℕ → Bool
misheaded incoming no_tabs next_id magic version count =
    not (magic == handoff_magic)
    || (not (
          version
          == (if is_upgrade incoming then handoff_upgrade_version else handoff_manual_version))
        || (ltb handoff_max_tabs count
            || ((not (is_upgrade incoming) && count == 0)
                || (leb u32_mod (next_id + count) || (not (is_append incoming) && not no_tabs)))))

module _ {D : Type 0} where
  unfoldable pub saved_next : Incoming → ℕ → ℕ → Exec (Rest D) ℕ
  saved_next upgrade next_id count = on_cursor number
  saved_next append next_id count = pure (next_id + count)
  saved_next (mapped ids next_id' retiring_pid) next_id count =
      if length ids == count then pure next_id' else fail invalid_data

  unfoldable pub read_id : Incoming → ℕ → ℕ → Exec (Rest D) ℕ
  read_id upgrade next_id index = on_cursor number
  read_id append next_id index = pure (next_id + index)
  read_id (mapped ids next_id' retiring_pid) next_id index = pure (get_or ids index 0)

  unfoldable pub check_retiring : System D → Incoming → Result (Unit {0})
  check_retiring system (mapped ids next_id retiring_pid) =
      if retiring_pid == 0 then ok tt else system.retiring retiring_pid
  check_retiring system _ = ok tt

  unfoldable pub none_left : Exec (Rest D) Unit
  none_left (cursor, descriptors) =
      if is_empty (remaining cursor) && is_empty descriptors
      then (ok tt, (cursor, descriptors))
      else (err invalid_data, (cursor, descriptors))

  -- From the reservation to the commit.
  unfoldable pub transfer : System D → ℕ → Result (Unit {0})
  transfer system count = try (system.reserve count) λ _. try (system.reaper count) λ _.
      try system.shutdown_requested
        λ requested. if requested then err interrupted else try system.ready λ _. system.commit

module _ {E D P Y : Type 0} (host : Host E D P Y) (color_names : ℕ) where
  -- The loop over the tabs, with the rounds left, the index, and the identifier before.
  unfoldable pub stage_tabs : Incoming → ℕ → ℕ → ℕ → ℕ → ℕ → Exec (Rest D) (List (StagedTab E D Y))
  stage_tabs incoming next_id saved zero index previous = pure []
  stage_tabs incoming next_id saved (suc rounds) index previous = do
    id ← read_id incoming next_id index
    if not (is_append incoming) && (leb id previous || leb saved id) then fail invalid_data else do
      staged ← decode_tab host color_names id
      others ← stage_tabs incoming next_id saved rounds (suc index) id
      pure (staged ∷ others)

  -- What is staged: the next identifier and the tabs.
  unfoldable pub stage : System D → Incoming → Bool → ℕ → Exec (Rest D) (ℕ × List (StagedTab E D Y))
  unfolding saved_next
  stage system incoming no_tabs next_id = do
    magic ← on_cursor number
    version ← on_cursor number
    count ← on_cursor number
    if misheaded incoming no_tabs next_id magic version count then fail invalid_data else do
      saved ← saved_next incoming next_id count
      if saved == 0 then fail invalid_data else do
        lift (check_retiring system incoming)
        tabs ← stage_tabs incoming next_id saved count 0 0
        none_left
        pure (saved, tabs)

module _ {E D Y Z : Type 0} (adopt : Y → Z) where
  unfoldable pub commit_terminal : PreparedTerminal E D Y → PreparedTerminal E D Z
  commit_terminal t = record {
    engine = t.engine;
    pty = adopt t.pty;
    input = t.input;
    pending = t.pending;
    remote_scroll = t.remote_scroll;
    printer = t.printer;
  }

  unfoldable pub commit_any : Option (PreparedTerminal E D Y) → Option (PreparedTerminal E D Z)
  commit_any none = none
  commit_any (some t) = some (commit_terminal t)

  -- `StagedTab::commit`; `adopt` is what it does with the terminal's descriptor and process.
  unfoldable pub commit_tab : StagedTab E D Y → StagedTab E D Z
  unfolding commit_any
  commit_tab staged = record { tab = staged.tab; terminal = commit_any staged.terminal }

-- The tabs of a daemon, and the next identifier.
pub record Tabs (T : Type 0) : Type 0 where
  pub tabs : List T
  pub next_id : ℕ

module _ {E D P Y Z : Type 0} (host : Host E D P Y) (adopt : Y → Z) (color_names : ℕ) where
  unfoldable pub map_snapshot : System D → List D → Result (Rest D)
  map_snapshot system [] = err invalid_data
  map_snapshot system (descriptor ∷ descriptors) =
      try (system.mapping descriptor)
        λ bytes. ok (record { bytes = bytes; offset = 0 }, descriptors)

  unfoldable pub prepared :
      System D → Incoming → Tabs (StagedTab E D Z) → Result (ℕ × List (StagedTab E D Y))
  unfolding map_snapshot stage
  prepared system incoming store = try system.session λ _. try system.descriptors λ descriptors.
      try (map_snapshot system descriptors) λ rest.
        try (stage host color_names system incoming (is_empty store.tabs) store.next_id rest).0
          λ staged. try (transfer system (length staged.1)) λ _. ok staged

  unfoldable pub published :
      Result (ℕ × List (StagedTab E D Y)) → Exec (Tabs (StagedTab E D Z)) Unit
  published (err e) store = (err e, store)
  published (ok (saved, staged)) store =
      (ok tt, record { tabs = store.tabs ++ map (commit_tab adopt) staged; next_id = saved })

  unfoldable pub receive : System D → Incoming → Exec (Tabs (StagedTab E D Z)) Unit
  unfolding prepared published
  receive system incoming store = published (prepared system incoming store) store
