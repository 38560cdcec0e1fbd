-- ===== src/Daemon/Handoff.antt =====
-- src/daemon/src/handoff.rs: a daemon takes over the tabs of another. The snapshot's bytes are the state
-- of the readers; descriptors, processes and the terminal engine are parameters.
pub mod Described
pub mod Tab
pub mod Terminal
pub mod Receive
pub mod Send
pub mod RoundTrip
pub mod Named
pub mod Numbers
pub mod Reception
mod Tests
