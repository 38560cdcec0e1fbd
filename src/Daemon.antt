-- ===== src/Daemon.antt =====
-- src/daemon/src: the service that owns the shells.
pub mod Queue
pub mod Frames
pub mod Handoff
pub mod Service
pub mod Client
