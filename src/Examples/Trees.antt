-- ===== src/Examples/Trees.antt =====
-- wayland/impl/wayland.c: a surface with one subsurface, itself a subsurface.
use cuts.Base.{ℕ, Bool, true, none, some, [], ◌∷◌, ◌==◌, if◌then◌else◌}
use cuts.Util.Mem.{Metadata}
use cuts.Util.Map.{Map}
use cuts.Wayland.Impl.State.{Surface}
use cuts.Wayland.Impl.World.{Wl}
use cuts.Wayland.Impl.Commit.{new_surface}
use cuts.Examples.Surfaces.{server, world, sub}

-- The object 6 stands for the subsurface at 60, a child of the surface at 90; the object 7 for that
-- at 70, whose surface is the one at 90.
abbrev parent : Surface
parent = record new_surface { children = some (60 ∷ []) }

abbrev tree : Wl
tree = record server {
  world = record world {
    surfaces = λ a. if a == 90 then some parent else some new_surface;
    subsurfaces = λ x. if x == 60 then some (sub 6 50 90) else some (sub 7 90 50);
  };
}

abbrev in_tree : ℕ → Bool
in_tree id = if id == 6 then true else id == 7

abbrev rank : ℕ → ℕ
rank id = if id == 6 then 0 else 1

abbrev held : Metadata
held = record { ref_count = 1; defer = none }
