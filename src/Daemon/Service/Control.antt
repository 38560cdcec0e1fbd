-- ===== src/Daemon/Service/Control.antt =====
-- Packets to clients, and the control of tabs. An operation on a tab is `none` where its index is out
-- of range, for which the source panics.
use worminal.Prelude.{
  ℕ, zero, suc, ◌+◌, Bool, false, ◌==◌, Option, none, some, List, [], ◌∷◌, ◌++◌, leb, if◌then◌else◌,
  map, take, drop, set, get_elem?,
}
use worminal.Prelude.Result.{Result, Exec, ok, err, other}
use worminal.Prelude.Bytes.{u32_mod, usize_mod}
use worminal.Protocol.Wire.{wire_release}
use worminal.Protocol.Decoder.{start}
use worminal.Daemon.Queue
use worminal.Daemon.Queue.{Queue}
use worminal.Daemon.Client
use worminal.Daemon.Service.{Client, Tab, Replacement, Service, release_tab, client_queue}
use worminal.Daemon.Service.Table.{find, contains_key, insert, remove, put}

unfoldable pub is_client : Option ℕ → ℕ → Bool
is_client none client = false
is_client (some c) client = c == client

pub data Notice : Type 0 where
  -- client, kind, body
  packet : ℕ → ℕ → List ℕ → Notice
  diagnostic : List ℕ → Notice

unfoldable pub retain : ℕ → List (ℕ × Replacement) → List (ℕ × Replacement)
retain closed [] = []
retain closed ((client, r) ∷ entries) =
    let rest = retain closed entries in if r.id == closed then rest else (client, r) ∷ rest

unfoldable pub new_client : ℕ → ℕ → Client
new_client id pid = record {
  id = id;
  pid = pid;
  ready = false;
  features = 0;
  decoder = start;
  output = Queue.new client_queue;
  needs_resync = false;
  selection = none;
}

module _ {E : Type 0} where
  -- `position`, from a number on.
  unfoldable pub position : ℕ → ℕ → List (Tab E) → Option ℕ
  position id index [] = none
  position id index (tab ∷ tabs) =
      let rest = position id (suc index) tabs in if tab.id == id then some index else rest

  unfoldable pub index_of : ℕ → Service E → Option ℕ
  index_of id s = position id 0 s.tabs

  unfoldable pub new_id : Exec (Service E) ℕ
  new_id s =
      if leb u32_mod (s.next_id + 1)
      then (err other, s)
      else (ok s.next_id, record s { next_id = s.next_id + 1 })

  unfoldable pub drop_from : ℕ → Tab E → Tab E
  drop_from client tab =
      let released = if is_client tab.controller client then release_tab tab else tab in
      if is_client released.print_client client
      then record released { print_client = none }
      else released

  unfoldable pub drop_client : ℕ → Service E → Service E
  drop_client client s = record s {
    clients = remove client s.clients;
    pending_replace = remove client s.pending_replace;
    tabs = map (drop_from client) s.tabs;
  }

  unfoldable pub answered : ℕ → Client → Result (Unit {0}) × Queue → Service E → Service E
  answered client c (ok _, output) s = record s {
    clients = put client (record c { output = output }) s.clients;
  }
  answered client c (err e, output) s = drop_client client s

  -- A client that is not there gets nothing; one whose packet fails is dropped.
  unfoldable pub queue_to : Option Client → ℕ → ℕ → ℕ → List ℕ → Service E → Service E
  queue_to none client kind tab body s = s
  queue_to (some c) client kind tab body s =
      answered client c (Client.queue kind tab body c.output) s

  unfoldable pub queue : ℕ → ℕ → ℕ → List ℕ → Service E → Service E
  queue client kind tab body s = queue_to (find client s.clients) client kind tab body s

  -- A diagnostic is printed.
  unfoldable pub notices : ℕ → List Notice → Service E → Service E
  notices tab [] s = s
  notices tab (packet client kind body ∷ rest) s = notices tab rest (queue client kind tab body s)
  notices tab (diagnostic bytes ∷ rest) s = notices tab rest s

  unfoldable pub release_at : ℕ → Tab E → Service E → Service E
  release_at index tab s = record s { tabs = set s.tabs index (release_tab tab) }

  unfoldable pub release : ℕ → Service E → Option (Service E)
  release index s = elim (get_elem? s.tabs index) [
    | none ↦ none
    | some tab ↦ some (release_at index tab s)
  ]

  unfoldable pub tell_previous : Option ℕ → ℕ → Service E → Service E
  tell_previous none tab s = s
  tell_previous (some previous) tab s = queue previous wire_release tab [] s

  unfoldable pub give_control : ℕ → ℕ → Tab E → Service E → Service E
  give_control index client tab s =
      let released = release_at index tab s in
      let given =
        if contains_key client s.clients
        then record released {
          tabs = set released.tabs index (record (release_tab tab) { controller = some client });
        }
        else released in
      tell_previous tab.controller tab.id given

  unfoldable pub take_control : ℕ → ℕ → Service E → Option (Service E)
  take_control index client s = elim (get_elem? s.tabs index) [
    | none ↦ none
    | some tab ↦
        some (if is_client tab.controller client then s else give_control index client tab s)
  ]

  abbrev pub id_or_zero : Option (Tab E) → ℕ
  id_or_zero none = 0
  id_or_zero (some tab) = tab.id

  -- The tab behind, or else the one before, or none.
  unfoldable pub fallback_of : ℕ → List (Tab E) → ℕ
  fallback_of index tabs = elim (get_elem? tabs (index + 1)) [
    | some tab ↦ tab.id
    | none ↦ elim index [ zero ↦ 0 | suc before ↦ id_or_zero (get_elem? tabs before) ]
  ]

  unfoldable pub close_at : ℕ → Tab E → Service E → Service E
  close_at index tab s = record s {
    closed = tab.id;
    pending_replace = retain tab.id s.pending_replace;
    fallback = fallback_of index s.tabs;
    tabs = take index s.tabs ++ drop (index + 1) s.tabs;
  }

  unfoldable pub close : ℕ → Service E → Option (Service E)
  close index s = elim (get_elem? s.tabs index) [
    | none ↦ none
    | some tab ↦ some (close_at index tab s)
  ]

  -- What `accept` does with a connection whose process is known.
  unfoldable pub admit : ℕ → Exec (Service E) Unit
  admit pid s =
      let id = s.next_client in
      if leb usize_mod (id + 1) then (err other, s) else (
        ok tt,
        record s { next_client = id + 1; clients = insert id (new_client id pid) s.clients },
      )
