-- ===== src/Daemon/Handoff/Reception.antt =====
-- A handoff is received whole or not at all, and keeps the identifiers apart.
use worminal.Prelude.{
  ℕ, ◌≡◌, refl, sym, ap, subst, true, false, List, [], ◌∷◌, ◌++◌, arith, length, map,
}
use worminal.Prelude.Result.{Result, ErrorKind, ok, err, Ensures, Ensures-try}
use worminal.Daemon.Handoff.Terminal.{Host, StagedTab}
use worminal.Daemon.Handoff.Receive.{
  Incoming, append, upgrade, mapped, is_append, is_empty, System, transfer, stage, commit_tab, Tabs,
  map_snapshot, prepared, published, receive,
}
use worminal.Daemon.Handoff.Numbers.{
  Ascending, Ascending-append, Ascending-weaken, ids_of, first_id, IsStaged, stage-IsStaged,
  IsWhole,
}

-- The tabs have identifiers that ascend and are below the next one.
abbrev pub IsNumbered : {E D Z : Type 0} → Tabs (StagedTab E D Z) → Type 0
IsNumbered store = Ascending 0 (ids_of store.tabs) store.next_id

module _ {E D P Y Z : Type 0} (host : Host E D P Y) (adopt : Y → Z) (color_names : ℕ) where
  ids_of-commit :
      (old : List (StagedTab E D Z)) (staged : List (StagedTab E D Y))
      → ids_of (old ++ map (commit_tab adopt) staged) ≡ ids_of old ++ ids_of staged
  unfolding commit_tab
  ids_of-commit [] [] = refl
  ids_of-commit [] (s ∷ staged) = ap (λ ids. s.tab.id ∷ ids) (ids_of-commit [] staged)
  ids_of-commit (t ∷ old) staged = ap (λ ids. t.tab.id ∷ ids) (ids_of-commit old staged)

  -- How a reception ends: what was prepared has failed, and the daemon's tabs stay as they are, or
  -- it has staged tabs, and those follow the daemon's own.
  pub data Reception (system : System D) (incoming : Incoming) (store : Tabs (StagedTab E D Z))
      : Result (Unit {0}) × Tabs (StagedTab E D Z) → Type 0 where
    refused :
        (e : ErrorKind)
        → prepared host adopt color_names system incoming store ≡ err e
        → Reception system incoming store (err e, store)
    received :
        (saved : ℕ) (staged : List (StagedTab E D Y))
        → prepared host adopt color_names system incoming store ≡ ok (saved, staged)
        → IsWhole incoming store.next_id saved (length staged)
        → Ascending (first_id incoming store.next_id) (ids_of staged) saved
        → Ascending 0 (ids_of (store.tabs ++ map (commit_tab adopt) staged)) saved
        → Reception system incoming store
            (ok tt, record { tabs = store.tabs ++ map (commit_tab adopt) staged; next_id = saved })

  behind :
      (incoming : Incoming) (tabs : List (StagedTab E D Z)) (next_id saved : ℕ) (ids : List ℕ)
      → Ascending 0 (ids_of tabs) next_id
      → (is_append incoming ≡ false → is_empty tabs ≡ true)
      → Ascending (first_id incoming next_id) ids saved
      → Ascending 0 (ids_of tabs ++ ids) saved
  unfolding is_empty
  behind append tabs next_id saved ids n h a =
      Ascending-append 0 next_id saved (ids_of tabs) ids n a
  behind upgrade [] next_id saved ids n h a = Ascending-weaken 0 1 saved ids (omega arith) a
  behind upgrade (t ∷ tabs) next_id saved ids n h a = absurd (ground (arith, h refl))
  behind (mapped js m r) [] next_id saved ids n h a = Ascending-weaken 0 1 saved ids (omega arith) a
  behind (mapped js m r) (t ∷ tabs) next_id saved ids n h a = absurd (ground (arith, h refl))

  prepared-IsStaged :
      (system : System D) (incoming : Incoming) (store : Tabs (StagedTab E D Z))
      → Ensures
          (IsStaged host color_names incoming (is_empty store.tabs) store.next_id)
          (prepared host adopt color_names system incoming store)
  unfolding prepared
  prepared-IsStaged system incoming store =
      let P = IsStaged host color_names incoming (is_empty store.tabs) store.next_id in
      Ensures-try P system.session _ λ u _. Ensures-try P system.descriptors _ λ descriptors _.
        Ensures-try P (map_snapshot host adopt color_names system descriptors) _ λ rest _.
          Ensures-try P
            (stage host color_names system incoming (is_empty store.tabs) store.next_id rest).0 _
            λ staged e. Ensures-try P (transfer system (length staged.1)) _ λ u' _.
              subst (λ r. Ensures P r) e
                (stage-IsStaged host color_names system incoming (is_empty store.tabs) store.next_id
                  rest)

  published-Reception :
      (system : System D) (incoming : Incoming) (store : Tabs (StagedTab E D Z))
      (r : Result (ℕ × List (StagedTab E D Y)))
      → prepared host adopt color_names system incoming store ≡ r
      → IsNumbered store
      → Ensures (IsStaged host color_names incoming (is_empty store.tabs) store.next_id) r
      → Reception system incoming store (published host adopt color_names r store)
  unfolding published
  published-Reception system incoming store (err e) p n h = refused e p
  published-Reception system incoming store (ok (saved, staged)) p n h =
      received saved staged p h.2 h.0 (
        subst (λ ids. Ascending 0 ids saved) (sym (ids_of-commit store.tabs staged))
          (behind incoming store.tabs store.next_id saved (ids_of staged) n h.1 h.0))

  -- Whatever the snapshot holds and the system answers, where the daemon's identifiers ascend and are below
  -- the next one: where preparing fails, the reception fails with the same error, and the tabs and the next
  -- identifier stay as they are; else the tabs that were staged, all of them and committed, follow the
  -- daemon's own, and the next identifier is the prepared one: the old one and the number of the staged
  -- tabs for an append, the given one for a mapped handoff, whose identifiers are as many as the staged
  -- tabs. Then the identifiers ascend and are below the new next identifier, those of an append start at
  -- the old one, and the others are not zero.
  pub receive-Reception :
      (system : System D) (incoming : Incoming) (store : Tabs (StagedTab E D Z))
      → IsNumbered store
      → Reception system incoming store (receive host adopt color_names system incoming store)
  unfolding receive
  receive-Reception system incoming store n =
      published-Reception system incoming store
        (prepared host adopt color_names system incoming store) refl n
        (prepared-IsStaged system incoming store)
