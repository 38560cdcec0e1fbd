-- ===== src/Lib.antt =====
-- Worminal is a terminal of tabs: a daemon owns the shells and their screens, a frontend
-- shows them, and both talk in framed packets over a socket. A recovery file keeps the
-- directories and the pages of the tabs over a crash.
--
-- Files and code, with paths from the repository's root:
--   Prelude     no code of the program: numbers, lists, results and byte order. A fallible
--               method of `&mut self` is an `Exec`, a function from the state to a result and
--               the state left, so an error leaves whatever the method had already changed.
--   Protocol    src/protocol/src/lib.rs. Protocol/Wire has its constants; Protocol/Buffer is
--               `Buffer`, the bounded encoder (`put_u32`, `put_bytes`, `put_string`,
--               `append_packet_parts`); Protocol/Payload is `Payload`, the reader of a body;
--               Protocol/Packet is `Packet::encode`; Protocol/Decoder is `Decoder::push`, one
--               call of which is one turn of its loop on a header, or the header's and then the
--               body's. Decoder/Steps and the files beside it hold the proofs.
--   Daemon      Daemon/Queue is `Queue` of src/daemon/src/queue.rs, the bounded queue between a
--               socket or a terminal and the daemon. `flush` takes the output as a parameter,
--               a function of the kind of `std::io::Write::write`.
--               Daemon/Frames is `Screen` of src/daemon/src/frames.rs, which sends a screen to a
--               client: Frames/Move is `find_move`, Frames/Prepare and Frames/Encode are
--               `prepare`, Frames/Commit is `commit` and `replicate_encoded`; the files beside
--               them hold the proofs, Frames/Example a screen for the tests. What the terminal
--               engine answers is a record of values.
--               Daemon/Client is `Client::queue` of src/daemon/src/state.rs.
--               Daemon/Service is `Service` of src/daemon/src/service.rs: Service/Control has
--               `queue`, `take_control`, `drop_client`, `close` and what they use, Service/Send
--               `send_frame`, Service/Table the maps; Service/Steps has the calls one at a time. An
--               operation on a tab is `none` where the source panics for its index.
--               Daemon/Handoff is `Cursor`, `decode_tab`, `encode_tab` and `receive`
--               of src/daemon/src/handoff.rs, by which a daemon takes over the tabs of another;
--               Handoff/Described says what is to arrive, without the code of either side.
--   Engine      Engine/Cells has `Cell` and `Frame` of src/terminal/engine.h. Engine/Paste is
--               `PasteFilter` of src/engine/src/paste.rs. The loop works in place on its array
--               as the source does; Engine/Paste/InPlace is about that.
--   Frontend    Frontend/Tabs is `first_visible` of src/frontend/src/tabs.rs, which tabs of the
--               strip are drawn. Frontend/Viewport is `Viewport` of
--               src/frontend/src/viewport.rs, the client's replica of a screen: Viewport/Apply is
--               `packet` and `apply`, Viewport/Finish is `finish`, Viewport/Select the selection.
--               The calls of the C selection and the sizes of the types in memory are parameters.
--   Workspace   Workspace/Recovery is src/workspace/src/recovery.rs: recipes, the format of the
--               file, `Recovery::open` and `Recovery::save`. The answers of the file system are
--               values that the operations take. Workspace/Broker is `Request` and `Incoming`
--               of src/workspace/src/broker.rs, the envelope in which a second start of the
--               program hands its arguments to the first; Workspace/Launch is `Launch` of
--               src/workspace/src/launch.rs, what a client asks of the daemon for a new tab;
--               Workspace/BrowserTarget is `authority` and `resolve_in` of
--               src/workspace/src/browser_target.rs.
--   Replica     no code of its own: Daemon/Frames and Frontend/Viewport together. Replica/Packets
--               has the packets of a plan, and hands packets to a viewport one by one up to the
--               first that is refused; Replica/Cells, Spans, Operations, Sent, Updates and Drawn
--               compare what the daemon writes into its baseline with what the client draws;
--               Parsed, Sending, Cost, Shown, Mirror, Wires and Delivered follow the packets
--               through the encoder, the reader and `Viewport::packet` to Replica/Following.
--
-- Numbers are natural numbers. A byte is not bounded by its type; where a theorem needs bytes
-- or 32-bit words, the bound is a hypothesis. Additions that the source checks are compared
-- with the bound of the machine's word.
--
-- Fuel: `flush` runs for a number of rounds that the caller gives, since an output may answer
-- that it was interrupted for ever; the budget and the number of interruptions together are
-- enough. The client loop over `Decoder::push` has as fuel the number of bytes, which is enough,
-- since each call takes a byte or ends the loop; the loop inside `Incoming::read` is the same.
-- Saving tries 64 names and `Incoming::read` reads 4 times, as the source does.
--
-- Not modelled: the catalog and the loop of the service, the commands and the transport of a
-- handoff of the daemon; the windows of the frontend; calls of GTK, WebKit, the operating system
-- and the C terminal engine; the capacity of vectors, which decides allocation only; the panics of
-- a frame whose rows are not of its width, which the engine does not draw. What an output or a file system does is a parameter.
pub mod Prelude
pub mod Protocol
pub mod Daemon
pub mod Engine
pub mod Frontend
pub mod Workspace
pub mod Replica
