-- ===== src/Daemon/Service/Kept.antt =====
-- Every operation of the service keeps what always holds of it.
use worminal.Prelude.{
  ℕ, ◌+◌, ◌<◌, ◌≡◌, true, ◌==◌, Option, none, some, List, [], ◌∷◌, leb, take, drop, set, arith,
  if_both, All-take, All-drop, All-append, All-weaken,
}
use worminal.Prelude.Result.{Result, ok, err}
use worminal.Prelude.Bytes.{u32_mod, usize_mod}
use worminal.Protocol.Wire.{wire_release}
use worminal.Daemon.Client
use worminal.Daemon.Queue.{Queue}
use worminal.Daemon.Service.{Client, Tab, Replacement, Service, release_tab}
use worminal.Daemon.Service.Table.{
  find, contains_key, insert, contains_key-insert, Keys, Keys-insert,
}
use worminal.Daemon.Service.Control.{
  new_id, answered, queue_to, queue, Notice, notices, packet, diagnostic, release_at, tell_previous,
  give_control, retain, close_at, new_client, admit,
}
use worminal.Daemon.Service.Sound.{
  IsServed, IsSound, IsSound-Stays, put-IsSound, set-IsSound, drop_client-IsSound,
}

retain-Keys :
    (P : ℕ → Type 0) (closed : ℕ) (entries : List (ℕ × Replacement))
    → Keys P entries
    → Keys P (retain closed entries)
unfolding retain
retain-Keys P closed [] h = tt
retain-Keys P closed ((client, r) ∷ entries) h =
    if_both (Keys P) (r.id == closed) (retain closed entries) ((client, r) ∷ retain closed entries)
      (λ _. retain-Keys P closed entries h.1) (λ _. (h.0, retain-Keys P closed entries h.1))

module _ {E : Type 0} where
  pub queue-IsSound :
      (client kind tab : ℕ) (body : List ℕ) (s : Service E)
      → IsSound s
      → IsSound (queue client kind tab body s)
  unfolding queue
  queue-IsSound client kind tab body s h = to (find client s.clients)
    where
      after : (c : Client) (r : Result (Unit {0}) × Queue) → IsSound (answered client c r s)
      after c (ok _, output) =
          unfold answered in put-IsSound s client (record c { output = output }) h
      after c (err e, output) = unfold answered in drop_client-IsSound client s h

      to : (o : Option Client) → IsSound (queue_to o client kind tab body s)
      to none = unfold queue_to in h
      to (some c) = unfold queue_to in after c (Client.queue kind tab body c.output)

  pub notices-IsSound :
      (tab : ℕ) (all : List Notice) (s : Service E) → IsSound s → IsSound (notices tab all s)
  unfolding notices
  notices-IsSound tab [] s h = h
  notices-IsSound tab (packet client kind body ∷ rest) s h =
      notices-IsSound tab rest _ (queue-IsSound client kind tab body s h)
  notices-IsSound tab (diagnostic bytes ∷ rest) s h = notices-IsSound tab rest s h

  -- A tab that is released.
  pub release_tab-IsServed :
      (s : Service E) (tab : Tab E)
      → IsServed s.clients s.next_id tab
      → IsServed s.clients s.next_id (release_tab tab)
  unfolding release_tab
  release_tab-IsServed s tab t = record {
    known_id = t.known_id;
    controlled = tt;
    printing = t.printing;
  }

  pub release_at-IsSound :
      (index : ℕ) (tab : Tab E) (s : Service E)
      → IsServed s.clients s.next_id tab
      → IsSound s
      → IsSound (release_at index tab s)
  unfolding release_at
  release_at-IsSound index tab s t h =
      set-IsSound s index (release_tab tab) h (release_tab-IsServed s tab t)

  tell_previous-IsSound :
      (o : Option ℕ) (tab : ℕ) (s : Service E) → IsSound s → IsSound (tell_previous o tab s)
  unfolding tell_previous
  tell_previous-IsSound none tab s h = h
  tell_previous-IsSound (some previous) tab s h = queue-IsSound previous wire_release tab [] s h

  taken-IsServed :
      (s : Service E) (tab : Tab E) (client : ℕ)
      → contains_key client s.clients ≡ true
      → IsServed s.clients s.next_id tab
      → IsServed s.clients s.next_id (record (release_tab tab) { controller = some client })
  unfolding release_tab
  taken-IsServed s tab client there t = record {
    known_id = t.known_id;
    controlled = there;
    printing = t.printing;
  }

  pub give_control-IsSound :
      (index client : ℕ) (tab : Tab E) (s : Service E)
      → IsServed s.clients s.next_id tab
      → IsSound s
      → IsSound (give_control index client tab s)
  unfolding give_control release_at
  give_control-IsSound index client tab s t h =
      let released = release_at index tab s in
      let r = release_at-IsSound index tab s t h in
      let given = record (release_tab tab) { controller = some client } in
      tell_previous-IsSound tab.controller tab.id _ (
        if_both IsSound (contains_key client s.clients)
          (record released { tabs = set released.tabs index given }) released
          (λ there. set-IsSound released index given r (taken-IsServed s tab client there t))
          (λ _. r))

  pub close_at-IsSound :
      (index : ℕ) (tab : Tab E) (s : Service E) → IsSound s → IsSound (close_at index tab s)
  unfolding close_at
  close_at-IsSound index tab s h = record {
    clients_below = h.clients_below;
    served =
        All-append _ (take index s.tabs) (drop (index + 1) s.tabs)
          (All-take _ index s.tabs h.served) (All-drop _ (index + 1) s.tabs h.served);
    replacing = retain-Keys _ tab.id s.pending_replace h.replacing;
  }

  pub admit-IsSound : (pid : ℕ) (s : Service E) → IsSound s → IsSound (admit pid s).1
  unfolding admit
  admit-IsSound pid s h =
      let id = s.next_client in
      if_both (λ (r : Result (Unit {0}) × Service E). IsSound r.1) (leb usize_mod (id + 1)) _
        (
          ok tt,
          record s { next_client = id + 1; clients = insert id (new_client id pid) s.clients },
        )
        (λ _. h)
        (λ _.
          IsSound-Stays s (insert id (new_client id pid) s.clients) (id + 1) s.next_id h
            (λ key there. contains_key-insert key id (new_client id pid) s.clients there)
            (Keys-insert (λ k. k < id + 1) id (new_client id pid) s.clients (omega arith)
              (All-weaken _ _ s.clients (λ e below. omega (arith, below)) h.clients_below))
            (omega arith))

  pub new_id-IsSound : (s : Service E) → IsSound s → IsSound (new_id s).1
  unfolding new_id
  new_id-IsSound s h =
      if_both (λ (r : Result ℕ × Service E). IsSound r.1) (leb u32_mod (s.next_id + 1)) _
        (ok s.next_id, record s { next_id = s.next_id + 1 }) (λ _. h)
        (λ _.
          IsSound-Stays s s.clients s.next_client (s.next_id + 1) h (λ key there. there)
            h.clients_below (omega arith))
