-- ===== src/Wayland.antt =====
-- The modules of wayland/.
pub mod Objects
pub mod Wire
pub mod Message
pub mod Outbox
pub mod Dispatch
pub mod Receive
pub mod Impl
