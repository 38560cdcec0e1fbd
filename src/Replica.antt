-- ===== src/Replica.antt =====
-- The daemon's frames (src/daemon/src/frames.rs) and the client's viewport (src/frontend/src/viewport.rs)
-- together: no code of its own, but what the two promise each other.
pub mod Cells
pub mod Spans
pub mod Operations
pub mod Sent
pub mod Updates
pub mod Drawn
pub mod Parsed
pub mod Packets
pub mod Sending
pub mod Cost
pub mod Shown
pub mod Mirror
pub mod Wires
pub mod Delivered
pub mod Following
mod Tests
