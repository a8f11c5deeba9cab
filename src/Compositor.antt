-- ===== src/Compositor.antt =====
-- The compositor, compositor/.
pub mod Scene
