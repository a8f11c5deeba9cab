-- ===== src/Wayland/Impl/Subsurface/Tree.antt =====
-- The recursion of `wl_subsurface_set_sync` and `wl_subsurface_set_desync` on a tree ends, and
-- changes nothing but the modes.
use cuts.Base.{◌≡◌, Bool, List, Exec, ok}
use mathlib.Core.List.{Memᴰ}
use mathlib.Core.List.Memᴰ
use cuts.Wayland.Impl.World.{Wl}
use cuts.Wayland.Impl.Subsurface.Modes.{OnlyModes}

-- A run that returns a state in which only modes differ
abbrev Returns : Bool → Wl → Exec Wl → (Wl → Type 0) → Type 0
Returns sync s run Q = (s' : Wl) × (run ≡ ok s') × OnlyModes sync s s' × Q s'
