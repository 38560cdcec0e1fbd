-- ===== src/Daemon/Service/Sound.antt =====
-- What always holds of the service: who controls a tab is a client, and identifiers are not used again.
use worminal.Prelude.{
  ℕ, ◌<◌, ◌≤◌, ◌≡◌, ◌∙◌, true, false, Option, none, some, List, if◌then◌else◌, set, arith, if_both,
  All, All-map, All-weaken, All-set,
}
use worminal.Daemon.Service.{Client, Tab, Service, release_tab}
use worminal.Daemon.Service.Table.{
  contains_key, remove, put, contains_key-put, contains_key-remove, Keys, Keys-put, Keys-remove,
  Keys-remove_other,
}
use worminal.Daemon.Service.Control.{is_client, drop_from, drop_client}

abbrev pub IsLive : {A : Type 0} → List (ℕ × A) → Option ℕ → Type 0
IsLive clients none = Unit
IsLive clients (some client) = contains_key client clients ≡ true

-- A tab that is controlled by a client that is there, if by any, and prints to one.
pub record IsServed {E : Type 0} (clients : List (ℕ × Client)) (next : ℕ) (tab : Tab E)
    : Type 0 where
  pub known_id : tab.id < next
  pub controlled : IsLive clients tab.controller
  pub printing : IsLive clients tab.print_client

pub record IsSound {E : Type 0} (s : Service E) : Type 0 where
  pub clients_below : Keys (λ id. id < s.next_client) s.clients
  pub served : All (IsServed s.clients s.next_id) s.tabs
  pub replacing : Keys (λ id. contains_key id s.clients ≡ true) s.pending_replace

-- Clients that are all there still.
abbrev pub Stays : {A B : Type 0} → List (ℕ × A) → List (ℕ × B) → Type 0
Stays xs ys = (id : ℕ) → contains_key id xs ≡ true → contains_key id ys ≡ true

module _ {A B : Type 0} where
  IsLive-Stays :
      (xs : List (ℕ × A)) (ys : List (ℕ × B)) (o : Option ℕ)
      → Stays xs ys
      → IsLive xs o
      → IsLive ys o
  IsLive-Stays xs ys none stay h = tt
  IsLive-Stays xs ys (some id) stay h = stay id h

other_left :
    (client : ℕ) (clients : List (ℕ × Client)) (o : Option ℕ)
    → is_client o client ≡ false
    → IsLive clients o
    → IsLive (remove client clients) o
unfolding is_client
other_left client clients none e h = tt
other_left client clients (some id) e h = contains_key-remove id client clients (ground arith) h

module _ {E : Type 0} where
  pub IsServed-Stays :
      (xs ys : List (ℕ × Client)) (n m : ℕ) (tab : Tab E)
      → Stays xs ys
      → n ≤ m
      → IsServed xs n tab
      → IsServed ys m tab
  IsServed-Stays xs ys n m tab stay more h = record {
    known_id = omega (arith, h.known_id);
    controlled = IsLive-Stays xs ys tab.controller stay h.controlled;
    printing = IsLive-Stays xs ys tab.print_client stay h.printing;
  }

  -- More clients, of lower identifiers.
  pub IsSound-Stays :
      (s : Service E) (ys : List (ℕ × Client)) (next_client next_id : ℕ)
      → IsSound s
      → Stays s.clients ys
      → Keys (λ id. id < next_client) ys
      → s.next_id ≤ next_id
      → IsSound (record s { clients = ys; next_client = next_client; next_id = next_id })
  IsSound-Stays s ys next_client next_id h stay below more = record {
    clients_below = below;
    served =
        All-weaken _ _ s.tabs (λ tab. IsServed-Stays s.clients ys s.next_id next_id tab stay more)
          h.served;
    replacing = All-weaken _ _ s.pending_replace (λ e. stay e.0) h.replacing;
  }

  pub put-IsSound :
      (s : Service E) (id : ℕ) (c : Client)
      → IsSound s
      → IsSound (record s { clients = put id c s.clients })
  put-IsSound s id c h =
      IsSound-Stays s (put id c s.clients) s.next_client s.next_id h
        (λ key there. contains_key-put key id c s.clients ∙ there)
        (Keys-put (λ k. k < s.next_client) id c s.clients h.clients_below) (omega arith)

  pub set-IsSound :
      (s : Service E) (index : ℕ) (tab : Tab E)
      → IsSound s
      → IsServed s.clients s.next_id tab
      → IsSound (record s { tabs = set s.tabs index tab })
  set-IsSound s index tab h t = record {
    clients_below = h.clients_below;
    served = All-set (IsServed s.clients s.next_id) s.tabs index tab t h.served;
    replacing = h.replacing;
  }

  drop_from-IsServed :
      (client next : ℕ) (clients : List (ℕ × Client)) (tab : Tab E)
      → IsServed clients next tab
      → IsServed (remove client clients) next (drop_from client tab)
  unfolding drop_from release_tab
  drop_from-IsServed client next clients tab h =
      let left = remove client clients in
      let released = if is_client tab.controller client then release_tab tab else tab in
      let half : (released.id < next)
          × IsLive left released.controller
          × IsLive clients released.print_client =
        if_both
          (λ (t : Tab E). (t.id < next) × IsLive left t.controller × IsLive clients t.print_client)
          (is_client tab.controller client) (release_tab tab) tab
          (λ _. (h.known_id, tt, h.printing))
          (λ kept.
            (h.known_id, other_left client clients tab.controller kept h.controlled, h.printing)) in
      if_both (IsServed left next) (is_client released.print_client client)
        (record released { print_client = none }) released
        (λ _. record { known_id = half.0; controlled = half.1; printing = tt })
        (λ kept. record {
          known_id = half.0;
          controlled = half.1;
          printing = other_left client clients released.print_client kept half.2;
        })

  pub drop_client-IsSound :
      (client : ℕ) (s : Service E) → IsSound s → IsSound (drop_client client s)
  unfolding drop_client
  drop_client-IsSound client s h = record {
    clients_below = Keys-remove (λ id. id < s.next_client) client s.clients h.clients_below;
    served =
        All-map _ _ (drop_from client) s.tabs (drop_from-IsServed client s.next_id s.clients)
          h.served;
    replacing =
        Keys-remove_other (λ id. contains_key id (remove client s.clients) ≡ true) client
          s.pending_replace
          (All-weaken _ _ s.pending_replace
            (λ e there left. contains_key-remove e.0 client s.clients left there) h.replacing);
  }
