-- ===== src/Daemon/Frames.antt =====
-- src/daemon/src/frames.rs: what the daemon sends of a screen, against the baseline that the queued
-- packets describe.
pub mod Move
pub mod Prepare
pub mod Encode
pub mod Commit
pub mod Search
pub mod Baseline
pub mod Updates
pub mod Atomic
pub mod Reading
pub mod Faithful
pub mod Answered
pub mod Room
pub mod Written
pub mod Planned
pub mod Replica
pub mod Total
pub mod Example
mod Tests
