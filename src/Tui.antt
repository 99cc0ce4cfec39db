-- ===== src/Tui.antt =====
-- src/tui: the terminal interface, without its drawing.
pub mod Data
pub mod Viewer
pub mod Terminal
