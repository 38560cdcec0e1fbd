-- ===== src/Daemon/Handoff/Tests.antt =====
-- A browser tab that comes behind the daemon's own tab.
use worminal.Prelude.{some, ℕ, ◌≡◌, refl, false, none, List, [], ◌∷◌, arith}
use worminal.Prelude.Result.{ok}
use worminal.Prelude.Bytes.{from_be_bytes, to_be_bytes}
use worminal.Protocol.Payload
use worminal.Daemon.Queue
use worminal.Workspace.Launch.{until_nul}
use worminal.Protocol.Buffer
use worminal.Protocol.Packet.{finished}
use worminal.Daemon.Handoff.Send.{
  or_default, is_browser, put_fields, color_fields, fields, put_tail, color_at, put_metadata,
  metadata_bytes,
}
use worminal.Daemon.Handoff.RoundTrip.{IsSendable, read_metadata-metadata_bytes}
use worminal.Daemon.Handoff.Described.{cut_metadata}
use worminal.Daemon.Handoff.Tab.{
  Tab, number, read_metadata, string, read_colors, read_input, any_color, native, recorded,
  remaining, some_color, take,
}
use worminal.Daemon.Handoff.Terminal.{
  Host, StagedTab, on_cursor, decode_tab, decode_terminal, next, printer_of,
}
use worminal.Daemon.Handoff.Receive.{
  append, System, Tabs, receive, misheaded, check_retiring, stage_tabs, read_id, none_left,
  commit_any, commit_tab, commit_terminal, is_empty, map_snapshot, prepared, published, saved_next,
  stage, transfer,
}
use worminal.Daemon.Handoff.Numbers.{ids_of}
use worminal.Daemon.Handoff.Reception.{IsNumbered, Reception, receive-Reception}

-- Engines, processes and terminals that are numbers.
abbrev host : Host ℕ ℕ ℕ ℕ
host = record {
  import_prefix = λ bytes. ok (0, 0);
  output_kind = λ engine. 1;
  pending = λ engine. [];
  remote_scroll = λ engine. 0;
  prepare = λ child. ok child;
  validate = λ descriptor process. ok descriptor;
}

abbrev metadata : List ℕ
metadata =
    0 ∷ 0 ∷ 0 ∷ 1 ∷ 0 ∷ 0 ∷ 0 ∷ 0 ∷ 0 ∷ 0 ∷ 0 ∷ 2 ∷ 0 ∷ 0 ∷ 0 ∷ 0 ∷ 0 ∷ 0 ∷ 0 ∷ 1 ∷ 65 ∷ 0 ∷ 0 ∷ 0
    ∷ 1 ∷ 66 ∷ 0 ∷ 0 ∷ 0 ∷ 0 ∷ 0 ∷ 0 ∷ 0 ∷ 0 ∷ 0 ∷ 0 ∷ 0 ∷ 1 ∷ 67 ∷ 0 ∷ 0 ∷ 0 ∷ 1 ∷ 0 ∷ 0 ∷ 0 ∷ 0
    ∷ 0 ∷ 0 ∷ 0 ∷ 0 ∷ []

abbrev snapshot : List ℕ
snapshot = 49 ∷ 79 ∷ 72 ∷ 87 ∷ 1 ∷ 0 ∷ 0 ∷ 0 ∷ 1 ∷ 0 ∷ 0 ∷ 0 ∷ 51 ∷ 0 ∷ 0 ∷ 0 ∷ metadata

abbrev system : System ℕ
system = record {
  session = ok tt;
  descriptors = ok (9 ∷ []);
  mapping = λ descriptor. ok snapshot;
  retiring = λ pid. ok tt;
  reserve = λ count. ok tt;
  reaper = λ count. ok tt;
  shutdown_requested = ok false;
  ready = ok tt;
  commit = ok tt;
}

abbrev own_tab : StagedTab ℕ ℕ ℕ
own_tab = record {
  tab = record {
    id = 3;
    title = [];
    initial_title = [];
    directory = [];
    clipboard = [];
    url = none;
    colors = none;
    mode = 0;
    cursor = 0;
  };
  terminal = none;
}

abbrev store : Tabs (StagedTab ℕ ℕ ℕ)
store = record { tabs = own_tab ∷ []; next_id = 5 }

store-IsNumbered : IsNumbered store
store-IsNumbered = (omega arith, omega arith)

receive-Reception_example :
    Reception host
      (λ (pty : ℕ). pty)
      1
      system
      append
      store
      (receive host (λ (pty : ℕ). pty) 1 system append store)
receive-Reception_example =
    receive-Reception host (λ (pty : ℕ). pty) 1 system append store store-IsNumbered

-- The tab is received as the fifth one.
received_ids : ids_of (receive host (λ (pty : ℕ). pty) 1 system append store).1.tabs ≡ 3 ∷ 5 ∷ []
unfolding number read_metadata string read_colors read_input any_color native recorded remaining
    some_color take on_cursor decode_tab decode_terminal next printer_of receive misheaded
    check_retiring stage_tabs read_id none_left commit_any commit_tab commit_terminal is_empty
    map_snapshot prepared published saved_next stage transfer Payload.u32 Payload.string
    Payload.finish Payload.take Payload.word Queue.from_bytes from_be_bytes until_nul
received_ids = refl

-- A browser tab with a page and one colour.
abbrev page : Tab
page = record {
  id = 5;
  title = 65 ∷ [];
  initial_title = 66 ∷ 0 ∷ 67 ∷ [];
  directory = [];
  clipboard = [];
  url = some (67 ∷ []);
  colors = some (some (35 ∷ []) ∷ []);
  mode = 1;
  cursor = 2;
}

abbrev page_bytes : List ℕ
page_bytes =
    0 ∷ 0 ∷ 0 ∷ 1 ∷ 0 ∷ 0 ∷ 0 ∷ 1 ∷ 0 ∷ 0 ∷ 0 ∷ 2 ∷ 0 ∷ 0 ∷ 0 ∷ 0 ∷ 0 ∷ 0 ∷ 0 ∷ 1 ∷ 65 ∷ 0 ∷ 0 ∷ 0
    ∷ 3 ∷ 66 ∷ 0 ∷ 67 ∷ 0 ∷ 0 ∷ 0 ∷ 0 ∷ 0 ∷ 0 ∷ 0 ∷ 0 ∷ 0 ∷ 0 ∷ 0 ∷ 1 ∷ 67 ∷ 0 ∷ 0 ∷ 0 ∷ 1 ∷ 0 ∷ 0
    ∷ 0 ∷ 1 ∷ 35 ∷ 0 ∷ 0 ∷ 0 ∷ 1 ∷ 10 ∷ []

page-IsSendable : IsSendable 1 page 0 (10 ∷ [])
page-IsSendable = record {
  word_mode = omega arith;
  known_cursor = omega arith;
  positive_pid = omega arith;
  word_names = omega arith;
  short_input = omega arith;
}

page_encoded : metadata_bytes 1 page 0 (10 ∷ []) ≡ ok page_bytes
unfolding metadata_bytes put_metadata put_tail put_fields fields color_fields color_at or_default
    is_browser finished Buffer.with_limit Buffer.put_u32 Buffer.put_string Buffer.put_bytes
    Buffer.reserve Buffer.extend to_be_bytes
page_encoded = refl

read_metadata-metadata_bytes_example :
    read_metadata 1 5 page_bytes ≡ (ok (cut_metadata 1 page 0 (10 ∷ [])), [])
read_metadata-metadata_bytes_example =
    read_metadata-metadata_bytes 1 page 0 (10 ∷ []) page_bytes page-IsSendable page_encoded
