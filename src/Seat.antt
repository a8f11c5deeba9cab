-- ===== src/Seat.antt =====
-- The seat daemon, seat/session/impl/diazepam.
pub mod Kernel
pub mod Clients
pub mod Paths
pub mod Daemon
