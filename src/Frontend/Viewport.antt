-- ===== src/Frontend/Viewport.antt =====
-- `Viewport` of src/frontend/src/viewport.rs: the replica of a terminal's screen. The packets of a frame
-- are kept aside until the frame is finished.
pub mod State
pub mod Finish
pub mod Apply
pub mod Transaction
pub mod Sized
pub mod Bounds
pub mod Safe
mod Tests
pub mod Select
pub mod Selected
