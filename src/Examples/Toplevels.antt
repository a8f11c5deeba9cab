-- ===== src/Examples/Toplevels.antt =====
-- wayland/impl/xdg-shell.c: a toplevel with a title is destroyed.
use cuts.Base.{◌≡◌, refl, none, some, [], ◌∷◌, ◌==◌, if◌then◌else◌, undefined}
use cuts.Util.Mem.{Metadata, metadata_of}
use cuts.Util.Map.{Map}
use cuts.Util.Bitmap.{Bitmap}
use cuts.Wayland.Message.{o_val, s_val}
use cuts.Wayland.Objects.{object_get, object_del}
use cuts.Wayland.Impl.State.{Text, chars, freed}
use cuts.Wayland.Impl.World.{Wl, at, object_data_of}
use cuts.Wayland.Impl.Xdg.{new_xdg_surface, toplevel_destroy, set_title}
use cuts.Wayland.Impl.Xdg.Titles.{title_freed_twice}
use cuts.Examples.Surfaces.{server, world}

-- The xdg surface at 60 of the surface at 50, for which the object 6 stands
abbrev with_title : Text → Wl
with_title title = record server {
  world = record world {
    memory = record {
      metadata = λ a. some (record { ref_count = 3; defer = none });
      deferred = [];
    };
    xdg_surfaces =
        λ a. if a == 60 then some (record (new_xdg_surface 8 50) { title = title }) else none;
  };
}

title_freed_twice_example :
    set_title (o_val 6 ∷ s_val (99 ∷ []) ∷ []) (with_title freed) ≡ undefined
unfolding toplevel_destroy at object_data_of object_del object_get cuts.Util.Map.get
    cuts.Util.Map.find_pair cuts.Util.Map.remove cuts.Util.Bitmap.unset metadata_of
    cuts.Util.Mem.unref
title_freed_twice_example =
    title_freed_twice 6 6 60 (with_title (chars (97 ∷ 98 ∷ []))) (99 ∷ []) refl refl refl refl refl
      (with_title freed) refl refl refl
