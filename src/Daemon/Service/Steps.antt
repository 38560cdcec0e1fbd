-- ===== src/Daemon/Service/Steps.antt =====
-- The operations of the service, one at a time.
use worminal.Prelude.{
  ℕ, zero, suc, ◌<◌, ◌≡◌, refl, Bool, Option, none, some, List, [], ◌∷◌, if◌then◌else◌, length,
  get_elem?, arith, if_both, All-get_elem?,
}
use worminal.Daemon.Service.{Tab, Service}
use worminal.Daemon.Service.Control.{
  is_client, new_id, drop_client, queue, Notice, notices, release_at, release, give_control,
  take_control, close_at, close, admit,
}
use worminal.Daemon.Service.Send.{Terminals, send_tab, send_frame}
use worminal.Daemon.Service.Sound.{IsServed, IsSound, drop_client-IsSound}
use worminal.Daemon.Service.Kept.{
  queue-IsSound, notices-IsSound, release_at-IsSound, give_control-IsSound, close_at-IsSound,
  admit-IsSound, new_id-IsSound,
}
use worminal.Daemon.Service.Sent.{send_tab-IsSound}

-- The calls, with their arguments: those that name a tab have its index or its identifier.
pub data Call : Type 0 where
  identify : Call
  admitted : ℕ → Call
  queued : ℕ → ℕ → ℕ → List ℕ → Call
  noticed : ℕ → List Notice → Call
  dropped : ℕ → Call
  released : ℕ → Call
  taken : ℕ → ℕ → Call
  closed : ℕ → Call
  framed : ℕ → Bool → ℕ → Call

module _ {E : Type 0} where
  -- The index of a call is that of a tab.
  abbrev pub InRange : Call → Service E → Type 0
  InRange (released index) s = index < length s.tabs
  InRange (taken index client) s = index < length s.tabs
  InRange (closed index) s = index < length s.tabs
  InRange (framed index full now) s = index < length s.tabs
  InRange _ s = Unit

  tab_there :
      (tabs : List (Tab E)) (index : ℕ)
      → index < length tabs
      → (tab : Tab E) × (get_elem? tabs index ≡ some tab)
  tab_there [] index h = absurd (omega arith)
  tab_there (tab ∷ tabs) zero h = (tab, refl)
  tab_there (tab ∷ tabs) (suc index) h = tab_there tabs index (omega arith)

  abbrev pub Results : Service E → Option (Service E) → Type 0
  Results s o = (s' : Service E) × (o ≡ some s') × IsSound s'

  -- A call on a tab that is there.
  found :
      (s : Service E) (index : ℕ) (f : Tab E → Service E)
      → index < length s.tabs
      → IsSound s
      → ((tab : Tab E) → IsServed s.clients s.next_id tab → IsSound (f tab))
      → Results s (elim (get_elem? s.tabs index) as (λ _. Option (Service E)) [
        | none ↦ none
        | some tab ↦ some (f tab)
      ])
  found s index f l h k =
      let (tab, there) = tab_there s.tabs index l in
      (f tab, rw there refl, k tab (All-get_elem? _ s.tabs index h.served there))

module _ {E : Type 0} (terminals : Terminals E) where
  -- The state behind a call, also behind one that fails.
  unfoldable pub run : Call → Service E → Option (Service E)
  run identify s = some (new_id s).1
  run (admitted pid) s = some (admit pid s).1
  run (queued client kind tab body) s = some (queue client kind tab body s)
  run (noticed tab all) s = some (notices tab all s)
  run (dropped client) s = some (drop_client client s)
  run (released index) s = release index s
  run (taken index client) s = take_control index client s
  run (closed index) s = close index s
  run (framed index full now) s = elim (send_frame terminals index full now s) [
    | none ↦ none
    | some r ↦ some r.1
  ]

  -- Whatever is called, and whether it fails or not, where an index is that of a tab: a sound service has a
  -- next state, which is sound. In it a client that controls a tab, that a tab prints to, or that is to
  -- replace a browser, is there, and the identifiers of clients and tabs are below the next ones.
  pub run-IsSound : (c : Call) (s : Service E) → IsSound s → InRange c s → Results s (run c s)
  unfolding run release take_control close send_frame
  run-IsSound identify s h l = (_, refl, new_id-IsSound s h)
  run-IsSound (admitted pid) s h l = (_, refl, admit-IsSound pid s h)
  run-IsSound (queued client kind tab body) s h l =
      (_, refl, queue-IsSound client kind tab body s h)
  run-IsSound (noticed tab all) s h l = (_, refl, notices-IsSound tab all s h)
  run-IsSound (dropped client) s h l = (_, refl, drop_client-IsSound client s h)
  run-IsSound (released index) s h l =
      found s index (λ tab. release_at index tab s) l h
        (λ tab t. release_at-IsSound index tab s t h)
  run-IsSound (taken index client) s h l =
      found s index
        (λ tab. if is_client tab.controller client then s else give_control index client tab s) l h
        (λ tab t.
          if_both IsSound (is_client tab.controller client) s (give_control index client tab s)
            (λ _. h) (λ _. give_control-IsSound index client tab s t h))
  run-IsSound (closed index) s h l =
      found s index (λ tab. close_at index tab s) l h (λ tab t. close_at-IsSound index tab s h)
  run-IsSound (framed index full now) s h l =
      let (tab, there) = tab_there s.tabs index l in
      (
        (send_tab terminals index tab full now s).1,
        rw (run, send_frame, there) refl,
        send_tab-IsSound terminals index tab full now s
            (All-get_elem? _ s.tabs index h.served there) h,
      )
