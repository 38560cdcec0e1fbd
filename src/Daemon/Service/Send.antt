-- ===== src/Daemon/Service/Send.antt =====
-- `Service::send_frame`: a frame of a tab for its controller.
use worminal.Prelude.{
  ℕ, Bool, true, false, ◌==◌, ◌||◌, not, Option, none, some, [], leb, if◌then◌else◌, set, get_elem?,
}
use worminal.Prelude.Result.{Result, ok, err}
use worminal.Engine.Cells.{Frame}
use worminal.Daemon.Queue
use worminal.Daemon.Queue.{Queue}
use worminal.Daemon.Frames.Prepare.{Engine}
use worminal.Daemon.Frames.Commit.{Outcome, held, unchanged, sent, replicate_encoded}
use worminal.Daemon.Service.{Client, Tab, Service, release_tab, frame_backlog}
use worminal.Daemon.Service.Table.{find, put}
use worminal.Daemon.Service.Control.{drop_client}

-- What a terminal's engine answers at a time while a frame is made, and the terminal behind it.
pub record Terminals (E : Type 0) : Type 0 where
  pub answers : E → ℕ → Engine
  pub after : E → ℕ → E

module _ {E : Type 0} where
  unfoldable pub with_tab : ℕ → Tab E → Service E → Service E
  with_tab index tab s = record s { tabs = set s.tabs index tab }

  -- The baseline stays, unless a full frame was asked for.
  unfoldable pub gated : ℕ → Tab E → ℕ → Client → Bool → Service E → Result Bool × Service E
  gated index tab id c full s =
      let screen = if full then record tab.screen { bytes = [] } else tab.screen in
      (
        ok false,
        record (with_tab index (record tab { screen = screen; pending_frame = false }) s) {
          clients = put id (record c { needs_resync = true }) s.clients;
        },
      )

  unfoldable pub sent_to : ℕ → Tab E → ℕ → Result Outcome → Service E → Result Bool × Service E
  sent_to index tab id (err e) s = (ok false, drop_client id (with_tab index tab s))
  sent_to index tab id (ok held) s =
      (ok false, with_tab index (record tab { pending_frame = true }) s)
  sent_to index tab id (ok unchanged) s =
      (ok false, with_tab index (record tab { pending_frame = false }) s)
  sent_to index tab id (ok sent) s =
      (ok true, with_tab index (record tab { pending_frame = false; frame_reply = false }) s)

  unfoldable pub forget_cleaned :
      ℕ → Tab E → Result (Unit {0}) → Service E → Result Bool × Service E
  forget_cleaned index tab (err e) s = (err e, with_tab index tab s)
  forget_cleaned index tab (ok _) s =
      (ok false, with_tab index (record tab { pending_frame = false }) s)

  -- Without a controller the damage is forgotten, unless the frame is held.
  unfoldable pub forget_framed :
      ℕ → Tab E → Result Frame → Result (Unit {0}) → Service E → Result Bool × Service E
  forget_framed index tab (err e) clean s = (err e, with_tab index tab s)
  forget_framed index tab (ok frame) clean s =
      if frame.redraw_deadline == 0
      then forget_cleaned index tab clean s
      else (ok false, with_tab index tab s)

module _ {E : Type 0} (terminals : Terminals E) where
  open terminals use {answers, after}

  abbrev pub touched : Tab E → E → ℕ → Tab E
  touched tab terminal now = record tab { terminal = some (after terminal now) }

  unfoldable pub forget_damage : ℕ → Tab E → E → ℕ → Service E → Result Bool × Service E
  forget_damage index tab terminal now s =
      let engine = answers terminal now in
      forget_framed index (touched tab terminal now) engine.frame engine.clean s

  unfoldable pub replicated :
      ℕ → Tab E → E → ℕ → Client → Bool → ℕ → Service E → Result Bool × Service E
  replicated index tab terminal id c full now s =
      let (r, (screen, output)) =
        replicate_encoded (answers terminal now) tab.id full c.features tab.frame_reply
          (tab.screen, c.output) in
      sent_to index (record (touched tab terminal now) { screen = screen }) id r
        (record s { clients = put id (record c { output = output }) s.clients })

  unfoldable pub send_to :
      ℕ → Tab E → E → ℕ → Client → Bool → ℕ → Service E → Result Bool × Service E
  send_to index tab terminal id c full now s =
      if not c.ready
      then (ok false, s)
      else if c.needs_resync || leb frame_backlog (Queue.len c.output)
      then gated index tab id c full s
      else replicated index tab terminal id c full now s

  unfoldable pub send_controlled :
      ℕ → Tab E → E → Option ℕ → Bool → ℕ → Service E → Result Bool × Service E
  send_controlled index tab terminal none full now s = forget_damage index tab terminal now s
  send_controlled index tab terminal (some id) full now s = elim (find id s.clients) [
    | none ↦ (ok false, with_tab index (release_tab tab) s)
    | some c ↦ send_to index tab terminal id c full now s
  ]

  unfoldable pub send_tab : ℕ → Tab E → Bool → ℕ → Service E → Result Bool × Service E
  send_tab index tab full now s = elim tab.terminal [
    | none ↦ (ok false, s)
    | some terminal ↦ send_controlled index tab terminal tab.controller full now s
  ]

  unfoldable pub send_frame : ℕ → Bool → ℕ → Service E → Option (Result Bool × Service E)
  send_frame index full now s = elim (get_elem? s.tabs index) [
    | none ↦ none
    | some tab ↦ some (send_tab index tab full now s)
  ]
