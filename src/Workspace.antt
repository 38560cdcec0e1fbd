-- ===== src/Workspace.antt =====
-- src/workspace/src: what the daemon and the launchers share.
pub mod Recovery
pub mod Broker
pub mod Launch
pub mod BrowserTarget
