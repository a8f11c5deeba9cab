-- ===== src/Util.antt =====
-- The modules of util/.
pub mod Bitmap
pub mod Map
pub mod List
pub mod Mem
