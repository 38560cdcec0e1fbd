-- ===== src/Daemon/Service/Tests.antt =====
-- Two clients and two tabs: the second client takes the first tab from the first client.
use worminal.Prelude.{Bool, ◌≡◌, ℕ, refl, false, true, Option, none, some, [], ◌∷◌, arith}
use worminal.Prelude.Result.{Result, ok}
use worminal.Daemon.Frames.Example.{engine, screen, frame, columns_hold, clean_holds}
use worminal.Protocol.Decoder.{start}
use worminal.Daemon.Queue
use worminal.Daemon.Service.{Client, Tab, Service, client_queue}
use worminal.Daemon.Frames.Prepare.{
  same_frame, read_dirty, count_dirty, cell_bytes, put_cells, encode_row, read_row, read_rows,
  baseline_row, first_different, last_different, span_of, update_row, updates_from,
}
use worminal.Daemon.Frames.Encode.{
  put_frame, is_none, no_updates, plan, movement_of, prepare_frame, prepare, frame_body,
  update_bytes, put_span, put_updates, move_body, put_move,
}
use worminal.Daemon.Frames.Commit.{
  adopt, queue_bytes, adopted, commit, replicate_prepared, replicate_encoded, baseline_after,
  copy_updates, copy_within, resize,
}
use worminal.Prelude.Bytes.{to_be_bytes, bytes_eq}
use worminal.Protocol.Buffer
use worminal.Protocol.Packet.{finished}
use worminal.Daemon.Service.Table.{contains_key, find, put}
use worminal.Daemon.Service.Control.{new_client}
use worminal.Daemon.Service.Send.{
  Terminals, send_frame, send_tab, send_controlled, send_to, replicated, sent_to, with_tab,
}
use worminal.Daemon.Service.Replica.{Told, send_frame-Told}
use worminal.Daemon.Service.Sound.{IsServed, IsSound}
use worminal.Daemon.Service.Steps.{taken, run, Results, run-IsSound}

abbrev terminals : Terminals (Unit {0})
terminals = record { answers = λ t now. engine; after = λ t now. t }

abbrev tab : ℕ → Option ℕ → Tab (Unit {0})
tab id controller = record {
  id = id;
  terminal = some tt;
  title = [];
  initial_title = [];
  directory = [];
  next_output_directory = 0;
  clipboard = [];
  url = none;
  colors = none;
  mode = 0;
  cursor = 0;
  controller = controller;
  print_client = none;
  screen = screen;
  catalog = [];
  catalog_pending = false;
  catalog_dirty = true;
  pending_frame = true;
  input_frame = false;
  frame_reply = false;
}

-- A client that has said hello, and one that has not.
abbrev greeted : Client
greeted = record {
  id = 4;
  pid = 100;
  ready = true;
  features = 0;
  decoder = start;
  output = Queue.new client_queue;
  needs_resync = false;
  selection = none;
}

abbrev service : Service (Unit {0})
service = record {
  clients = (4, greeted) ∷ (5, new_client 5 101) ∷ [];
  tabs = tab 1 (some 4) ∷ tab 2 none ∷ [];
  next_id = 3;
  next_client = 6;
  running = true;
  restored_launch = false;
  pending_replace = [];
  published = [];
  closed = 0;
  fallback = 0;
}

first-IsServed : IsServed service.clients 3 (tab 1 (some 4))
unfolding contains_key
first-IsServed = record { known_id = omega arith; controlled = refl; printing = tt }

second-IsServed : IsServed service.clients 3 (tab 2 none)
second-IsServed = record { known_id = omega arith; controlled = tt; printing = tt }

service-IsSound : IsSound service
service-IsSound = record {
  clients_below = (omega arith, (omega arith, tt));
  served = (first-IsServed, (second-IsServed, tt));
  replacing = tt;
}

run-IsSound_example : Results service (run terminals (taken 0 5) service)
run-IsSound_example = run-IsSound terminals (taken 0 5) service service-IsSound (omega arith)

send_frame-Told_example :
    (r : Result Bool × Service (Unit {0})) × (send_frame terminals 0 false 1 service ≡ some r)
    × Told engine frame 0 r
send_frame-Told_example =
    send_frame-Told terminals 0 (tab 1 (some 4)) tt false 1 frame service refl refl refl refl
      columns_hold clean_holds

-- What is said by `send_frame`.
abbrev said : Option (Result Bool × Service (Unit {0})) → Option (Result Bool)
said none = none
said (some r) = some r.0

-- The frame is sent.
sent_frame : said (send_frame terminals 0 false 1 service) ≡ some (ok true)
unfolding send_frame send_tab send_controlled send_to replicated sent_to with_tab find put
    replicate_encoded replicate_prepared commit adopted queue_bytes adopt prepare prepare_frame plan
    Queue.new read_dirty read_rows read_row cell_bytes encode_row finished Buffer.reserve
    Buffer.default put_cells Buffer.put_bytes is_none no_updates updates_from update_row bytes_eq
    baseline_row put_frame baseline_after copy_updates copy_within resize frame_body move_body
    movement_of put_move put_span put_updates update_bytes count_dirty first_different
    last_different same_frame span_of Queue.append Queue.append_owned Queue.check_append
    Queue.compact Queue.extend to_be_bytes Buffer.append_packet_bytes Buffer.append_packet_parts
    Buffer.extend Buffer.header Buffer.put_packet Buffer.total_length Buffer.with_limit
    Buffer.put_u32
sent_frame = refl
