-- ===== src/Daemon/Service.antt =====
-- `Service` of src/daemon/src/service.rs: the clients and the tabs, and who controls which.
pub mod Table
pub mod Control
pub mod Send
pub mod Sound
pub mod Kept
pub mod Sent
pub mod Steps
pub mod Replica
mod Tests
use worminal.Prelude.{ℕ, ◌*◌, Bool, false, Option, none, List, []}
use worminal.Protocol.Decoder.{Decoder}
use worminal.Engine.Cells.{Frame}
use worminal.Daemon.Queue.{Queue}
use worminal.Daemon.Frames.Prepare.{Screen}

-- `Client` of src/daemon/src/state.rs, without its socket.
pub record Client : Type 0 where
  pub id : ℕ
  pub pid : ℕ
  pub ready : Bool
  pub features : ℕ
  pub decoder : Decoder
  pub output : Queue
  pub needs_resync : Bool
  pub selection : Option (ℕ × ℕ × List ℕ × ℕ)

-- `Tab` of src/daemon/src/state.rs; `E` is the type of terminals. A time that has a sign is given by its
-- 64 bits.
pub record Tab (E : Type 0) : Type 0 where
  pub id : ℕ
  pub terminal : Option E
  pub title : List ℕ
  pub initial_title : List ℕ
  pub directory : List ℕ
  pub next_output_directory : ℕ
  pub clipboard : List ℕ
  pub url : Option (List ℕ)
  pub colors : Option (List (Option (List ℕ)))
  pub mode : ℕ
  pub cursor : ℕ
  pub controller : Option ℕ
  pub print_client : Option ℕ
  pub screen : Screen
  pub catalog : List ℕ
  pub catalog_pending : Bool
  pub catalog_dirty : Bool
  pub pending_frame : Bool
  pub input_frame : Bool
  pub frame_reply : Bool

-- A browser that a client is going to replace: the tab and the URL.
pub record Replacement : Type 0 where
  pub id : ℕ
  pub url : List ℕ

-- What the service knows of clients and tabs; its listeners, its reaper and the recovery file are left
-- out. A map is a list of keys and values.
pub record Service (E : Type 0) : Type 0 where
  pub clients : List (ℕ × Client)
  pub tabs : List (Tab E)
  pub next_id : ℕ
  pub next_client : ℕ
  pub running : Bool
  pub restored_launch : Bool
  pub pending_replace : List (ℕ × Replacement)
  pub published : List ℕ
  pub closed : ℕ
  pub fallback : ℕ

-- `WORKSPACE_CLIENT_QUEUE_BYTES` and `WORKSPACE_FRAME_BACKLOG_BYTES` of src/workspace/service_policy.h
abbrev pub client_queue : ℕ
client_queue = 4 * 1024 * 1024

abbrev pub frame_backlog : ℕ
frame_backlog = 128 * 1024

-- `Screen::default`
abbrev pub no_screen : Screen
no_screen = record {
  frame = record {
    columns = 0;
    rows = 0;
    cursor_x = 0;
    cursor_y = 0;
    scroll = 0;
    alternate = 0;
    redraw_deadline = 0;
  };
  bytes = [];
}

-- `Tab::release`
unfoldable pub release_tab : {E : Type 0} → Tab E → Tab E
release_tab tab = record tab { controller = none; frame_reply = false; screen = no_screen }
