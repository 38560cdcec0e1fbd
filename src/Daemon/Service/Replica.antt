-- ===== src/Daemon/Service/Replica.antt =====
-- A frame that `send_frame` says it has sent leaves the tab's baseline at the terminal's screen.
use worminal.Prelude.{
  ℕ, zero, suc, ◌≡◌, refl, sym, subst, Bool, true, false, ◌==◌, ◌||◌, not, Option, none, some, List,
  [], ◌∷◌, leb, set, get_elem?, if_both,
}
use worminal.Prelude.Result.{Result, ok, err}
use worminal.Engine.Cells.{Frame}
use worminal.Daemon.Queue
use worminal.Daemon.Frames.Prepare.{Engine}
use worminal.Daemon.Frames.Commit.{Outcome, held, unchanged, sent, State, replicate_encoded}
use worminal.Daemon.Frames.Reading.{HasColumns}
use worminal.Daemon.Frames.Planned.{KnowsClean}
use worminal.Daemon.Frames.Replica.{IsReplica, Replicates, replicate_encoded-Replicates}
use worminal.Daemon.Service.{Client, Tab, Service, release_tab, frame_backlog}
use worminal.Daemon.Service.Table.{find}
use worminal.Daemon.Service.Send.{
  Terminals, with_tab, gated, sent_to, forget_cleaned, forget_framed, forget_damage, replicated,
  send_to, send_controlled, send_tab, send_frame,
}

get_elem?-set :
    {A : Type 0} (xs : List A) (i : ℕ) {x : A} (y : A)
    → get_elem? xs i ≡ some x
    → get_elem? (set xs i y) i ≡ some y
get_elem?-set [] i y e = absurd (cc)
get_elem?-set (x ∷ xs) zero y e = refl
get_elem?-set (x ∷ xs) (suc i) y e = get_elem?-set xs i y e

module _ {E : Type 0} (engine : Engine) (frame : Frame) (index : ℕ) where
  -- Where a frame was sent, the tab's baseline is the engine's screen.
  abbrev pub Told : Result Bool × Service E → Type 0
  Told (ok true, s) =
      (tab : Tab E) × (get_elem? s.tabs index ≡ some tab) × IsReplica engine frame tab.screen
  Told (ok false, s) = Unit
  Told (err e, s) = Unit

  sent_to-Told :
      (tab old : Tab E) (id : ℕ) (r : Result Outcome) (s : Service E)
      → get_elem? s.tabs index ≡ some old
      → (r ≡ ok sent → IsReplica engine frame tab.screen)
      → Told (sent_to index tab id r s)
  unfolding sent_to with_tab
  sent_to-Told tab old id (err e) s there h = tt
  sent_to-Told tab old id (ok held) s there h = tt
  sent_to-Told tab old id (ok unchanged) s there h = tt
  sent_to-Told tab old id (ok sent) s there h = (_, get_elem?-set s.tabs index _ there, h refl)

  forget_framed-Told :
      (tab : Tab E) (f : Result Frame) (clean : Result (Unit {0})) (s : Service E)
      → Told (forget_framed index tab f clean s)
  unfolding forget_framed
  forget_framed-Told tab (err e) clean s = tt
  forget_framed-Told tab (ok f) clean s =
      if_both Told (f.redraw_deadline == 0) (forget_cleaned index tab clean s)
        (ok false, with_tab index tab s) (λ _. cleaned clean) (λ _. tt)
    where
      cleaned : (r : Result (Unit {0})) → Told (forget_cleaned index tab r s)
      cleaned (err e) = unfold forget_cleaned in tt
      cleaned (ok u) = unfold forget_cleaned in tt

sent_screen :
    (engine : Engine) (frame : Frame) (out : Result Outcome × State)
    → Replicates engine frame out
    → out.0 ≡ ok sent
    → IsReplica engine frame out.1.0
sent_screen engine frame (ok held, s) h e = absurd h
sent_screen engine frame (ok unchanged, (screen, queue)) h e = h
sent_screen engine frame (ok sent, (screen, queue)) h e = h
sent_screen engine frame (err x, s) h e = cc

module _ {E : Type 0} (terminals : Terminals E) (index : ℕ) (tab : Tab E) (terminal : E)
    (full : Bool) (now : ℕ) (frame : Frame) (s : Service E)
    (there : get_elem? s.tabs index ≡ some tab)
    (drawn : (terminals.answers terminal now).frame ≡ ok frame) (due : frame.redraw_deadline ≡ 0)
    (wide : HasColumns (terminals.answers terminal now) frame.columns)
    (clean : KnowsClean (terminals.answers terminal now) full tab.screen frame) where
  abbrev answering : Engine
  answering = terminals.answers terminal now

  replicated-Told :
      (id : ℕ) (c : Client)
      → Told answering frame index (replicated terminals index tab terminal id c full now s)
  unfolding replicated
  replicated-Told id c =
      let out =
        replicate_encoded answering tab.id full c.features tab.frame_reply (tab.screen, c.output) in
      sent_to-Told answering frame index _ tab id out.0 _ there (
        sent_screen answering frame out (
          replicate_encoded-Replicates answering tab.id full c.features tab.frame_reply tab.screen
            c.output frame drawn due wide clean))

  send_to-Told :
      (id : ℕ) (c : Client)
      → Told answering frame index (send_to terminals index tab terminal id c full now s)
  unfolding send_to
  send_to-Told id c =
      if_both (Told answering frame index) (not c.ready) (ok false, s) _ (λ _. tt)
        λ _.
          if_both (Told answering frame index)
            (c.needs_resync || leb frame_backlog (Queue.len c.output)) (gated index tab id c full s)
            (replicated terminals index tab terminal id c full now s) (λ _. unfold gated in tt)
            (λ _. replicated-Told id c)

  send_controlled-Told :
      (controller : Option ℕ)
      → Told answering frame index
          (send_controlled terminals index tab terminal controller full now s)
  unfolding send_controlled forget_damage
  send_controlled-Told none = forget_framed-Told answering frame index _ _ _ s
  send_controlled-Told (some id) = to (find id s.clients)
    where
      to :
          (o : Option Client)
          → Told answering frame index (elim o as (λ _. Result Bool × Service E) [
            | none ↦ (ok false, with_tab index (release_tab tab) s)
            | some c ↦ send_to terminals index tab terminal id c full now s
          ])
      to none = tt
      to (some c) = send_to-Told id c

  send_tab-Told :
      tab.terminal ≡ some terminal
      → Told answering frame index (send_tab terminals index tab full now s)
  unfolding send_tab
  send_tab-Told has =
      subst
        (λ o. Told answering frame index (elim o as (λ _. Result Bool × Service E) [
          | none ↦ (ok false, s)
          | some t ↦ send_controlled terminals index tab t tab.controller full now s
        ]))
        (sym has) (send_controlled-Told tab.controller)

-- Where a tab has a terminal whose engine draws a frame now, of rows with its columns, and a row that it
-- calls clean is the one that the baseline has (unless all rows are sent): `send_frame` returns, and if
-- it says that the frame was sent, the tab's baseline is the engine's screen.
pub send_frame-Told :
    {E : Type 0} (terminals : Terminals E) (index : ℕ) (tab : Tab E) (terminal : E) (full : Bool)
    (now : ℕ) (frame : Frame) (s : Service E)
    → get_elem? s.tabs index ≡ some tab
    → tab.terminal ≡ some terminal
    → (terminals.answers terminal now).frame ≡ ok frame
    → frame.redraw_deadline ≡ 0
    → HasColumns (terminals.answers terminal now) frame.columns
    → KnowsClean (terminals.answers terminal now) full tab.screen frame
    → (r : Result Bool × Service E) × (send_frame terminals index full now s ≡ some r)
      × Told (terminals.answers terminal now) frame index r
unfolding send_frame
send_frame-Told terminals index tab terminal full now frame s there has drawn due wide clean = (
  send_tab terminals index tab full now s,
  rw (send_frame, there) refl,
  send_tab-Told terminals index tab terminal full now frame s there drawn due wide clean has,
)
