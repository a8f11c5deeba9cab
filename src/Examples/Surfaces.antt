-- ===== src/Examples/Surfaces.antt =====
-- wayland/impl/wayland.c: a client draws on a surface, and nests it.
use cuts.Base.{
  ℕ, ◌≡◌, refl, sym, subst, inl, inr, Bool, true, false, none, some, List, [], ◌∷◌, ◌==◌,
  if◌then◌else◌, ==_iff, Bool-cases, aborted, out_of_fuel, pos,
}
use cuts.Util.Mem.{Metadata, metadata_of}
use cuts.Util.Map.{Map}
use cuts.Base.Bytes.{zeros}
use cuts.Wayland.Message.{o_val}
use cuts.Wayland.Objects.{Object, Registry, object_get}
use cuts.Wayland.Impl.State.{Region, Size, Surface, Subsurface}
use cuts.Wayland.Impl.World.{World, Wl, at, object_data_of}
use cuts.Wayland.Impl.Surface.{no_region}
use cuts.Wayland.Impl.Commit.{new_surface}
use cuts.Wayland.Impl.Buffering.{
  Step, scale_set, input_set, damaged, commited, run_steps, run_spec, view, view-run_steps,
  damage_never_active,
}
use cuts.Wayland.Impl.Calls.{Call, set_scale, set_transform, input_of, clear_opaque, commit}
use cuts.Wayland.Impl.Subsurface.{set_mode, place}
use cuts.Wayland.Impl.Subsurface.Endless.{LeadsOn, IsEndless, set_mode_endless}
use cuts.Wayland.Impl.Subsurface.Place.{IsPlaceable, place_aborts}

abbrev rect : Region
rect = record { x = pos 1; y = pos 2; width = pos 30; height = pos 40 }

abbrev some_steps : List Step
some_steps = scale_set (pos 2) ∷ damaged rect ∷ commited ∷ input_set rect ∷ []

-- A scale that is committed, and an input region that is not
view-run_steps_example :
    view (run_steps some_steps new_surface) ≡ run_spec some_steps (view new_surface)
view-run_steps_example = view-run_steps some_steps new_surface

damage_never_active_example : (run_steps some_steps new_surface).active.damage ≡ no_region
damage_never_active_example = damage_never_active some_steps

abbrev held : Metadata
held = record { ref_count = 1; defer = none }

-- Objects 5, 6 and 7 stand for the blocks at 50, 60 and 70.
abbrev object_at : ℕ → ℕ → Object
object_at id a = record { id = id; version = 1; iface = 500; object_data = some a }

abbrev registry : Registry
registry = record {
  objects = record {
    pairs = λ i.
        if i == 5
        then record { copied = true; key = 5; value = some (object_at 5 50) } ∷ []
        else if i == 6
        then record { copied = true; key = 6; value = some (object_at 6 60) } ∷ []
        else if i == 7
        then record { copied = true; key = 7; value = some (object_at 7 70) } ∷ []
        else [];
    size = 1024;
  };
  client_id_pool = record { bytes = zeros 512; size = 4096 };
  server_id_pool = record { bytes = zeros 512; size = 4096 };
}

-- The surface at 50 is a child of the one at 60, and that one of the one at 50.
abbrev inner : Surface
inner = record new_surface { subsurface = some 70; children = some (80 ∷ []) }

abbrev outer : Surface
outer = record new_surface { children = some (70 ∷ []) }

abbrev pub sub : ℕ → ℕ → ℕ → Subsurface
sub id a parent = record {
  id = id;
  x = pos 0;
  y = pos 0;
  sync = true;
  surface = some a;
  parent = some parent;
}

abbrev pub world : World
world = record {
  memory = record { metadata = λ a. some held; deferred = [] };
  free_addresses = [];
  surfaces = λ a.
      if a == 50
      then some new_surface
      else if a == 60
      then some outer
      else if a == 90
      then some inner
      else none;
  subsurfaces =
      λ a. if a == 70 then some (sub 7 90 60) else if a == 80 then some (sub 7 60 90) else none;
  regions = λ a. if a == 60 then some rect else none;
  pools = λ a. none;
  buffers = λ a. none;
  rawbufs = λ a. none;
  dmabufs = λ a. none;
  xdg_surfaces = λ a. none;
  positioners = λ a. none;
  layer_surfaces = λ a. none;
  viewports = λ a. none;
}

abbrev pub server : Wl
server = record { registry = registry; error = none; serial = 1; events = []; world = world }

abbrev never_exceeds : Region → Size → Bool
never_exceeds r s = false

abbrev some_calls : List Call
some_calls = set_scale 2 ∷ set_transform 7 ∷ input_of 6 rect ∷ clear_opaque ∷ commit ∷ []

abbrev is_seven : ℕ → Bool
is_seven id = id == 7

server-IsEndless : IsEndless is_seven server
unfolding at object_data_of object_get cuts.Util.Map.get cuts.Util.Map.find_pair metadata_of
server-IsEndless id holds =
    subst (λ i. LeadsOn is_seven i server) (sym ((==_iff id 7).0 holds))
      record {
        address = 70;
        subsurface = sub 7 90 60;
        surface_at = 90;
        surface = inner;
        child_at = 80;
        child = sub 7 60 90;
        others = [];
        object = refl;
        stored = refl;
        surfaced = refl;
        surface_stored = refl;
        children = refl;
        child_stored = refl;
        again = refl;
      }

set_mode_endless_example : set_mode 9 false 7 server ≡ out_of_fuel
set_mode_endless_example = set_mode_endless is_seven 9 false 7 server server-IsEndless refl

-- The surface at 60 has two subsurfaces, of the surfaces at 90 and, with the object 5, at 50.
abbrev both : Surface
both = record new_surface { children = some (70 ∷ 80 ∷ []) }

abbrev siblings : Wl
siblings = record server {
  world = record world {
    surfaces = λ a.
        if a == 50
        then some new_surface
        else if a == 60
        then some both
        else if a == 90
        then some inner
        else none;
    subsurfaces =
        λ a. if a == 70 then some (sub 7 90 60) else if a == 80 then some (sub 8 50 60) else none;
  };
}

typed_lem :
    (a : ℕ) {u : Surface} → siblings.world.surfaces a ≡ some u → siblings.world.subsurfaces a ≡ none
typed_lem a {u} e = elim (Bool-cases (a == 70)) [
  | inl t ↦
      let same : a ≡ 70 = (==_iff a 70).0 t in
      let none_there = subst (λ b. siblings.world.surfaces b ≡ some u) same e in absurd cc
  | inr f ↦ elim (Bool-cases (a == 80)) [
    | inl t ↦
        let same : a ≡ 80 = (==_iff a 80).0 t in
        let none_there = subst (λ b. siblings.world.surfaces b ≡ some u) same e in absurd cc
    | inr g ↦ rw (f, g) refl
  ]
]

server-IsPlaceable : IsPlaceable 7 5 siblings
unfolding at object_data_of object_get cuts.Util.Map.get cuts.Util.Map.find_pair metadata_of
server-IsPlaceable = record {
  sibling = object_at 5 50;
  sibling_at = 50;
  address = 70;
  subsurface = sub 7 90 60;
  parent_at = 60;
  parent = both;
  children = 70 ∷ 80 ∷ [];
  registered = refl;
  sibling_data = refl;
  object = refl;
  stored = refl;
  parented = refl;
  parent_stored = refl;
  listed = refl;
  surface = new_surface;
  is_surface = refl;
  typed = λ a u e. typed_lem a e;
  all_subsurfaces = ((sub 7 90 60, refl), ((sub 8 50 60, refl), tt));
}

place_aborts_example : place 1 (o_val 7 ∷ o_val 5 ∷ []) siblings ≡ aborted
place_aborts_example = place_aborts 1 7 5 siblings server-IsPlaceable
