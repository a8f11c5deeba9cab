-- ===== src/Examples.antt =====
-- The theorems at concrete inputs, and runs of the definitions.
mod Lists
mod Tables
mod Registries
mod Messages
mod Outboxes
mod References
mod Requests
mod Layouts
mod Seats
mod Scenes
mod Surfaces
mod Buffers
mod Toplevels
mod Trees
