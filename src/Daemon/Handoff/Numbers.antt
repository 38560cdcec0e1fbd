-- ===== src/Daemon/Handoff/Numbers.antt =====
-- The identifiers of the tabs that are received.
use worminal.Prelude.{
  length, ℕ, zero, suc, ◌+◌, ◌≤◌, ◌<◌, ◌≡◌, refl, sym, ap, subst, Bool, true, false, ◌&&◌, ◌||◌,
  not, List, [], ◌∷◌, ◌++◌, leb, ◌==◌, arith, if_both, map,
}
use worminal.Prelude.Result.{Exec, ok, Ensures, Ensures-bind}
use worminal.Daemon.Handoff.Tab.{number}
use worminal.Daemon.Handoff.Terminal.{Host, StagedTab, Rest, lift, on_cursor, decode_tab}
use worminal.Daemon.Handoff.Receive.{
  Incoming, append, upgrade, mapped, is_append, System, misheaded, saved_next, read_id,
  check_retiring, none_left, stage_tabs, stage,
}
use worminal.Daemon.Handoff.Named.{IsNamed, decode_tab-IsNamed}

-- Identifiers from `low` on, each above the one before it, and all below `next`.
abbrev pub Ascending : ℕ → List ℕ → ℕ → Type 0
Ascending low [] next = low ≤ next
Ascending low (id ∷ ids) next = (low ≤ id) × Ascending (suc id) ids next

pub Ascending-append :
    (low mid next : ℕ) (ids jds : List ℕ)
    → Ascending low ids mid
    → Ascending mid jds next
    → Ascending low (ids ++ jds) next
Ascending-append low mid next [] [] h k = omega arith
Ascending-append low mid next [] (jd ∷ jds) h k = (omega (arith, k.0), k.1)
Ascending-append low mid next (id ∷ ids) jds h k =
    (h.0, Ascending-append (suc id) mid next ids jds h.1 k)

pub Ascending-weaken :
    (low low' next : ℕ) (ids : List ℕ)
    → low ≤ low'
    → Ascending low' ids next
    → Ascending low ids next
Ascending-weaken low low' next [] l h = omega arith
Ascending-weaken low low' next (id ∷ ids) l h = (omega (arith, h.0), h.1)

abbrev pub ids_of : {E D Y : Type 0} → List (StagedTab E D Y) → List ℕ
ids_of = map (λ staged. staged.tab.id)

-- Where identifiers may start: an append goes on from its own, the others from the one before.
abbrev lowest : Incoming → ℕ → ℕ → ℕ → ℕ
lowest append next_id index previous = next_id + index
lowest _ next_id index previous = suc previous

-- That there is room for the rounds that are left.
abbrev HasRoom : Incoming → ℕ → ℕ → ℕ → ℕ → ℕ → Type 0
HasRoom append next_id saved rounds index previous = next_id + index + rounds ≡ saved
HasRoom _ next_id saved rounds index previous = previous < saved

room_end :
    (incoming : Incoming) (next_id saved index previous : ℕ)
    → HasRoom incoming next_id saved 0 index previous
    → lowest incoming next_id index previous ≤ saved
room_end append next_id saved index previous h = omega arith
room_end upgrade next_id saved index previous h = omega arith
room_end (mapped ids n r) next_id saved index previous h = omega arith

-- An identifier that passes the check.
room_step :
    {D : Type 0} (incoming : Incoming) (next_id saved rounds index previous id : ℕ) (rest : Rest D)
    {rest' : Rest D}
    → HasRoom incoming next_id saved (suc rounds) index previous
    → read_id incoming next_id index rest ≡ (ok id, rest')
    → not (is_append incoming) && (leb id previous || leb saved id) ≡ false
    → (lowest incoming next_id index previous ≤ id)
      × HasRoom incoming next_id saved rounds (suc index) id
      × (lowest incoming next_id (suc index) id ≡ suc id)
unfolding read_id
room_step append next_id saved rounds index previous id rest h e c =
    let same : next_id + index ≡ id = ground arith in
    (omega (arith, same), omega (arith, same), omega (arith, same))
room_step upgrade next_id saved rounds index previous id rest h e c =
    (ground arith, ground arith, refl)
room_step (mapped ids n r) next_id saved rounds index previous id rest h e c =
    (ground arith, ground arith, refl)

module _ {E D P Y : Type 0} (host : Host E D P Y) (color_names : ℕ) where
  abbrev AreNamed : ℕ → ℕ → List (StagedTab E D Y) → Type 0
  AreNamed low saved staged = Ascending low (ids_of staged) saved

  stage_tabs-Ascending :
      (incoming : Incoming) (next_id saved rounds index previous : ℕ) (rest : Rest D)
      → HasRoom incoming next_id saved rounds index previous
      → Ensures
          (AreNamed (lowest incoming next_id index previous) saved)
          (stage_tabs host color_names incoming next_id saved rounds index previous rest).0
  unfolding stage_tabs
  stage_tabs-Ascending incoming next_id saved zero index previous rest h =
      room_end incoming next_id saved index previous h
  stage_tabs-Ascending incoming next_id saved (suc rounds) index previous rest h =
      let low = lowest incoming next_id index previous in
      Ensures-bind (AreNamed low saved) (read_id incoming next_id index) _ rest λ id r1 e1.
        if_both
          (λ (m : Exec (Rest D) (List (StagedTab E D Y))). Ensures (AreNamed low saved) (m r1).0)
          (not (is_append incoming) && (leb id previous || leb saved id)) _ _ (λ _. tt)
          λ passes.
            Ensures-bind (AreNamed low saved) (decode_tab host color_names id) _ r1 λ staged r2 e2.
              Ensures-bind (AreNamed low saved)
                (stage_tabs host color_names incoming next_id saved rounds (suc index) id) _ r2
                λ others r3 e3.
                  let step =
                    room_step incoming next_id saved rounds index previous id rest h e1 passes in
                  let named : staged.tab.id ≡ id =
                    subst (λ r. Ensures (IsNamed host id) r) (ap (λ r. r.0) e2)
                      (decode_tab-IsNamed host color_names id r1) in
                  let later : Ascending (suc id) (ids_of others) saved =
                    subst (λ n. Ascending n (ids_of others) saved) step.2
                      (subst
                        (λ r. Ensures (AreNamed (lowest incoming next_id (suc index) id) saved) r)
                        (ap (λ r. r.0) e3)
                        (stage_tabs-Ascending incoming next_id saved rounds (suc index) id r2
                          step.1)) in
                  (
                    subst (λ n. low ≤ n) (sym named) step.0,
                    subst (λ n. Ascending (suc n) (ids_of others) saved) (sym named) later,
                  )

  stage_tabs-length :
      (incoming : Incoming) (next_id saved rounds index previous : ℕ) (rest : Rest D)
      → Ensures
          (λ tabs. length tabs ≡ rounds)
          (stage_tabs host color_names incoming next_id saved rounds index previous rest).0
  unfolding stage_tabs
  stage_tabs-length incoming next_id saved zero index previous rest = refl
  stage_tabs-length incoming next_id saved (suc rounds) index previous rest =
      let P = λ (tabs : List (StagedTab E D Y)). length tabs ≡ suc rounds in
      Ensures-bind P (read_id incoming next_id index) _ rest λ id r1 e1.
        if_both (λ (m : Exec (Rest D) (List (StagedTab E D Y))). Ensures P (m r1).0)
          (not (is_append incoming) && (leb id previous || leb saved id)) _ _ (λ _. tt)
          λ _. Ensures-bind P (decode_tab host color_names id) _ r1 λ staged r2 e2.
            Ensures-bind P
              (stage_tabs host color_names incoming next_id saved rounds (suc index) id) _ r2
              λ others r3 e3. ap suc (
                subst (λ r. Ensures (λ tabs. length tabs ≡ rounds) r) (ap (λ r. r.0) e3)
                  (stage_tabs-length incoming next_id saved rounds (suc index) id r2))

-- That so many tabs are all that there should be: an append's next identifier counts them, and the
-- identifiers of a mapped handoff are as many.
abbrev pub IsWhole : Incoming → ℕ → ℕ → ℕ → Type 0
IsWhole append next_id saved count = saved ≡ next_id + count
IsWhole upgrade next_id saved count = Unit {0}
IsWhole (mapped ids next_id' retiring_pid) next_id saved count =
    (length ids ≡ count) × (saved ≡ next_id')

saved_next-IsWhole :
    {D : Type 0} (incoming : Incoming) (next_id count saved : ℕ) (rest : Rest D) {rest' : Rest D}
    → saved_next incoming next_id count rest ≡ (ok saved, rest')
    → IsWhole incoming next_id saved count
unfolding saved_next
saved_next-IsWhole append next_id count saved rest e = ground arith
saved_next-IsWhole upgrade next_id count saved rest e = tt
saved_next-IsWhole (mapped ids n r) next_id count saved rest e = (ground arith, ground arith)

-- The first identifier that there may be.
abbrev pub first_id : Incoming → ℕ → ℕ
first_id append next_id = next_id
first_id _ next_id = 1

room_start :
    {D : Type 0} (incoming : Incoming) (next_id count saved : ℕ) (rest : Rest D) {rest' : Rest D}
    → saved_next incoming next_id count rest ≡ (ok saved, rest')
    → (saved == 0) ≡ false
    → HasRoom incoming next_id saved count 0 0
      × (first_id incoming next_id ≤ lowest incoming next_id 0 0)
unfolding saved_next
room_start append next_id count saved rest e z =
    let same : next_id + count ≡ saved = ground arith in (omega (arith, same), omega arith)
room_start upgrade next_id count saved rest e z = (ground arith, omega arith)
room_start (mapped ids n r) next_id count saved rest e z = (ground arith, omega arith)

headed_empty :
    (incoming : Incoming) (no_tabs : Bool) (next_id magic version count : ℕ)
    → misheaded incoming no_tabs next_id magic version count ≡ false
    → is_append incoming ≡ false
    → no_tabs ≡ true
unfolding misheaded
headed_empty incoming no_tabs next_id magic version count h a = ground arith

module _ {E D P Y : Type 0} (host : Host E D P Y) (color_names : ℕ) where
  -- What is staged fits behind the tabs that there are.
  abbrev pub IsStaged : Incoming → Bool → ℕ → ℕ × List (StagedTab E D Y) → Type 0
  IsStaged incoming no_tabs next_id (saved, tabs) =
      Ascending (first_id incoming next_id) (ids_of tabs) saved
      × (is_append incoming ≡ false → no_tabs ≡ true)
      × IsWhole incoming next_id saved (length tabs)

  pub stage-IsStaged :
      (system : System D) (incoming : Incoming) (no_tabs : Bool) (next_id : ℕ) (rest : Rest D)
      → Ensures
          (IsStaged incoming no_tabs next_id)
          (stage host color_names system incoming no_tabs next_id rest).0
  unfolding stage
  stage-IsStaged system incoming no_tabs next_id rest =
      let P = IsStaged incoming no_tabs next_id in
      Ensures-bind P (on_cursor number) _ rest λ magic r1 _.
        Ensures-bind P (on_cursor number) _ r1 λ version r2 _.
          Ensures-bind P (on_cursor number) _ r2 λ count r3 _.
            if_both (λ (m : Exec (Rest D) (ℕ × List (StagedTab E D Y))). Ensures P (m r3).0)
              (misheaded incoming no_tabs next_id magic version count) _ _ (λ _. tt)
              λ headed. Ensures-bind P (saved_next incoming next_id count) _ r3 λ saved r4 e.
                if_both (λ (m : Exec (Rest D) (ℕ × List (StagedTab E D Y))). Ensures P (m r4).0)
                  (saved == 0) _ _ (λ _. tt)
                  λ some_next. Ensures-bind P (lift (check_retiring system incoming)) _ r4 λ u r5 _.
                    Ensures-bind P (stage_tabs host color_names incoming next_id saved count 0 0) _
                      r5
                      λ tabs r6 f. Ensures-bind P none_left _ r6 λ u' r7 _.
                        let room = room_start incoming next_id count saved r3 e some_next in
                        (
                          Ascending-weaken _ _ saved (ids_of tabs) room.1 (
                              subst
                                (λ r.
                                  Ensures
                                    (λ t. Ascending (lowest incoming next_id 0 0) (ids_of t) saved)
                                    r)
                                (ap (λ r. r.0) f)
                                (stage_tabs-Ascending host color_names incoming next_id saved count
                                  0 0 r5 room.0)),
                          λ other.
                              headed_empty incoming no_tabs next_id magic version count headed
                                other,
                          subst (IsWhole incoming next_id saved)
                              (sym (
                                subst (λ r. Ensures (λ tabs. length tabs ≡ count) r)
                                  (ap (λ r. r.0) f)
                                  (stage_tabs-length host color_names incoming next_id saved count 0
                                    0 r5)))
                              (saved_next-IsWhole incoming next_id count saved r3 e),
                        )
