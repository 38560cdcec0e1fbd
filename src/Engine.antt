-- ===== src/Engine.antt =====
-- src/engine/src: the safe side of the terminal engine.
pub mod Paste
pub mod Cells
