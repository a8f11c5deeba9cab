-- ===== src/Wayland/Impl.antt =====
-- wayland/impl: the implementations of the requests.
pub mod State
pub mod World
pub mod Surface
pub mod Requests
pub mod Commit
pub mod Buffering
pub mod Calls
pub mod Shm
pub mod Blocks
pub mod Positioner
pub mod Children
pub mod Xdg
pub mod Subsurface
pub mod Popup
pub mod Viewporter
pub mod Layer
