-- ===== src/Wm.antt =====
-- The window manager, cuts.c.
pub mod Layout
pub mod Focus
pub mod Settings
