-- ===== src/Frontend.antt =====
-- src/frontend/src: the program's windows.
pub mod Tabs
pub mod Viewport
