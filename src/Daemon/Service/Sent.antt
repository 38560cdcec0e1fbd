-- ===== src/Daemon/Service/Sent.antt =====
-- Sending a frame keeps what always holds of the service.
use worminal.Prelude.{
  ℕ, ◌≡◌, refl, ◌∙◌, Bool, true, false, ◌==◌, ◌||◌, not, Option, none, some, leb, arith, if_both,
}
use worminal.Prelude.Result.{Result, ok, err}
use worminal.Engine.Cells.{Frame}
use worminal.Daemon.Queue
use worminal.Daemon.Frames.Commit.{Outcome, held, unchanged, sent, replicate_encoded}
use worminal.Daemon.Service.{Client, Tab, Service, release_tab, frame_backlog}
use worminal.Daemon.Service.Table.{find, put, contains_key-put}
use worminal.Daemon.Service.Send.{
  Terminals, with_tab, gated, sent_to, forget_cleaned, forget_framed, forget_damage, replicated,
  send_to, send_controlled, send_tab,
}
use worminal.Daemon.Service.Sound.{
  IsServed, IsServed-Stays, IsSound, put-IsSound, set-IsSound, drop_client-IsSound,
}
use worminal.Daemon.Service.Kept.{release_tab-IsServed}

module _ {E : Type 0} where
  -- A tab with the same identifier and the same clients.
  alike-IsServed :
      (s : Service E) (tab tab' : Tab E)
      → tab'.id ≡ tab.id
      → tab'.controller ≡ tab.controller
      → tab'.print_client ≡ tab.print_client
      → IsServed s.clients s.next_id tab
      → IsServed s.clients s.next_id tab'
  alike-IsServed s tab tab' i c p t = record {
    known_id = omega (arith, i, t.known_id);
    controlled = rw c t.controlled;
    printing = rw p t.printing;
  }

  with_tab-IsSound :
      (index : ℕ) (tab : Tab E) (s : Service E)
      → IsServed s.clients s.next_id tab
      → IsSound s
      → IsSound (with_tab index tab s)
  unfolding with_tab
  with_tab-IsSound index tab s t h = set-IsSound s index tab h t

  gated-IsSound :
      (index : ℕ) (tab : Tab E) (id : ℕ) (c : Client) (full : Bool) (s : Service E)
      → IsServed s.clients s.next_id tab
      → IsSound s
      → IsSound (gated index tab id c full s).1
  unfolding gated with_tab
  gated-IsSound index tab id c full s t h =
      put-IsSound _ id (record c { needs_resync = true })
        (set-IsSound s index _ h (alike-IsServed s tab _ refl refl refl t))

  sent_to-IsSound :
      (index : ℕ) (tab : Tab E) (id : ℕ) (r : Result Outcome) (s : Service E)
      → IsServed s.clients s.next_id tab
      → IsSound s
      → IsSound (sent_to index tab id r s).1
  unfolding sent_to
  sent_to-IsSound index tab id (err e) s t h =
      drop_client-IsSound id _ (with_tab-IsSound index tab s t h)
  sent_to-IsSound index tab id (ok held) s t h =
      with_tab-IsSound index _ s (alike-IsServed s tab _ refl refl refl t) h
  sent_to-IsSound index tab id (ok unchanged) s t h =
      with_tab-IsSound index _ s (alike-IsServed s tab _ refl refl refl t) h
  sent_to-IsSound index tab id (ok sent) s t h =
      with_tab-IsSound index _ s (alike-IsServed s tab _ refl refl refl t) h

  forget_cleaned-IsSound :
      (index : ℕ) (tab : Tab E) (clean : Result (Unit {0})) (s : Service E)
      → IsServed s.clients s.next_id tab
      → IsSound s
      → IsSound (forget_cleaned index tab clean s).1
  unfolding forget_cleaned
  forget_cleaned-IsSound index tab (err e) s t h = with_tab-IsSound index tab s t h
  forget_cleaned-IsSound index tab (ok _) s t h =
      with_tab-IsSound index _ s (alike-IsServed s tab _ refl refl refl t) h

  forget_framed-IsSound :
      (index : ℕ) (tab : Tab E) (frame : Result Frame) (clean : Result (Unit {0})) (s : Service E)
      → IsServed s.clients s.next_id tab
      → IsSound s
      → IsSound (forget_framed index tab frame clean s).1
  unfolding forget_framed
  forget_framed-IsSound index tab (err e) clean s t h = with_tab-IsSound index tab s t h
  forget_framed-IsSound index tab (ok frame) clean s t h =
      if_both (λ (r : Result Bool × Service E). IsSound r.1) (frame.redraw_deadline == 0)
        (forget_cleaned index tab clean s) (ok false, with_tab index tab s)
        (λ _. forget_cleaned-IsSound index tab clean s t h) (λ _. with_tab-IsSound index tab s t h)

  module _ (terminals : Terminals E) where
    replicated-IsSound :
        (index : ℕ) (tab : Tab E) (terminal : E) (id : ℕ) (c : Client) (full : Bool) (now : ℕ)
        (s : Service E)
        → IsServed s.clients s.next_id tab
        → IsSound s
        → IsSound (replicated terminals index tab terminal id c full now s).1
    unfolding replicated
    replicated-IsSound index tab terminal id c full now s t h =
        let e = terminals.answers terminal now in
        let out =
          replicate_encoded e tab.id full c.features tab.frame_reply (tab.screen, c.output) in
        let s1 : Service E = record s {
          clients = put id (record c { output = out.1.1 }) s.clients;
        } in
        sent_to-IsSound index _ id out.0 s1
          (IsServed-Stays s.clients s1.clients s.next_id s.next_id _
            (λ key there. contains_key-put key id (record c { output = out.1.1 }) s.clients ∙ there)
            (omega arith) (alike-IsServed s tab _ refl refl refl t))
          (put-IsSound s id (record c { output = out.1.1 }) h)

    send_to-IsSound :
        (index : ℕ) (tab : Tab E) (terminal : E) (id : ℕ) (c : Client) (full : Bool) (now : ℕ)
        (s : Service E)
        → IsServed s.clients s.next_id tab
        → IsSound s
        → IsSound (send_to terminals index tab terminal id c full now s).1
    unfolding send_to
    send_to-IsSound index tab terminal id c full now s t h =
        if_both (λ (r : Result Bool × Service E). IsSound r.1) (not c.ready) (ok false, s) _
          (λ _. h)
          λ _.
            if_both (λ (r : Result Bool × Service E). IsSound r.1)
              (c.needs_resync || leb frame_backlog (Queue.len c.output))
              (gated index tab id c full s)
              (replicated terminals index tab terminal id c full now s)
              (λ _. gated-IsSound index tab id c full s t h)
              (λ _. replicated-IsSound index tab terminal id c full now s t h)

    send_controlled-IsSound :
        (index : ℕ) (tab : Tab E) (terminal : E) (controller : Option ℕ) (full : Bool) (now : ℕ)
        (s : Service E)
        → IsServed s.clients s.next_id tab
        → IsSound s
        → IsSound (send_controlled terminals index tab terminal controller full now s).1
    unfolding send_controlled
    send_controlled-IsSound index tab terminal none full now s t h =
        unfold forget_damage in
        forget_framed-IsSound index _ _ _ s (alike-IsServed s tab _ refl refl refl t) h
    send_controlled-IsSound index tab terminal (some id) full now s t h = to (find id s.clients)
      where
        to :
            (o : Option Client)
            → IsSound {E = E}
                (elim o as (λ _. Result Bool × Service E) [
                  | none ↦ (ok false, with_tab index (release_tab tab) s)
                  | some c ↦ send_to terminals index tab terminal id c full now s
                ]).1
        to none = with_tab-IsSound index (release_tab tab) s (release_tab-IsServed s tab t) h
        to (some c) = send_to-IsSound index tab terminal id c full now s t h

    pub send_tab-IsSound :
        (index : ℕ) (tab : Tab E) (full : Bool) (now : ℕ) (s : Service E)
        → IsServed s.clients s.next_id tab
        → IsSound s
        → IsSound (send_tab terminals index tab full now s).1
    unfolding send_tab
    send_tab-IsSound index tab full now s t h = to tab.terminal
      where
        to :
            (o : Option E)
            → IsSound {E = E}
                (elim o as (λ _. Result Bool × Service E) [
                  | none ↦ (ok false, s)
                  | some terminal ↦
                      send_controlled terminals index tab terminal tab.controller full now s
                ]).1
        to none = h
        to (some terminal) =
            send_controlled-IsSound index tab terminal tab.controller full now s t h
