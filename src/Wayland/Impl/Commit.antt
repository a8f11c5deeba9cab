-- ===== src/Wayland/Impl/Commit.antt =====
-- wayland/impl/wayland.c: `wl_surface.commit`, and the requests that make surfaces and regions.
use cuts.Base.{
  ℕ, Bool, true, false, none, some, List, [], ◌∷◌, ltb, ◌==◌, if◌then◌else◌, Exec, ok, undefined,
  ◌>>=◌, ◌>>◌, require, ℤ, pos, negsuc,
}
use cuts.Wayland.Message.{Arg, i_val, o_val, n_val}
use cuts.Wayland.Impl.State.{Region, Size, SurfaceState, Surface}
use cuts.Wayland.Impl.World.{
  World, Wl, some_or_undefined, at, set_surface, set_region, self_object, object_data_of, refuse,
  check_if_not_registered, allocate, add_object, delete_object,
}
use cuts.Wayland.Impl.Surface.{no_region, surface_state_apply}
use cuts.Wayland.Impl.Requests.{whole_region, implementation}

abbrev pub is_zero : ℤ → Bool
is_zero (pos n) = n == 0
is_zero (negsuc n) = false

module _ (exceeds : Region → Size → Bool) where
  -- The loop over the children, which ends at the first error
  unfoldable pub commit_children : List ℕ → Wl → Exec (ℤ × Wl)
  unfolding surface_state_apply
  commit_children [] s = ok (pos 0, s)
  commit_children (ss ∷ children) s = do
    child ← at World.subsurfaces ss s
    (error, s') ←
        if child.sync
        then (do a ← some_or_undefined child.surface; surface_state_apply exceeds a s)
        else ok (pos 0, s)
    let rest = commit_children children s'
    if is_zero error then rest else ok (error, s')

  -- `surface->subsurface && surface->subsurface->sync`
  unfoldable pub is_synchronized : Surface → Wl → Exec Bool
  is_synchronized u s = elim u.subsurface [
    | none ↦ ok false
    | some ss ↦ do sub ← at World.subsurfaces ss s; ok sub.sync
  ]

  -- The state of the surface and, where that is no error, of its children
  unfoldable pub commit_surface : ℕ → Wl → Exec (ℤ × Wl)
  unfolding commit_children surface_state_apply
  commit_surface a s = do
    (error, s') ← surface_state_apply exceeds a s
    u ← at World.surfaces a s'
    if is_zero error
        then elim u.children [ none ↦ ok (error, s') | some children ↦ commit_children children s' ]
        else ok (error, s')

  unfoldable pub surface_commit : List Arg → Wl → Exec (ℤ × Wl)
  unfolding commit_surface is_synchronized
  surface_commit (o_val self ∷ []) s = do
    a ← object_data_of self s
    u ← at World.surfaces a s
    wait ← is_synchronized u s
    if wait then ok (pos 0, s) else commit_surface a s
  surface_commit _ s = undefined

-- The block as `calloc` leaves it
abbrev pub empty_state : SurfaceState
empty_state = record {
  commited = record {
    damage = false;
    input = false;
    opaque = false;
    buffer = false;
    scale = false;
    transform = false;
  };
  scale = pos 0;
  transform = 0;
  damage = no_region;
  input = no_region;
  opaque = no_region;
  buffer = none;
}

-- What `wl_compositor.create_surface` writes into it
abbrev pub new_surface : Surface
new_surface = record {
  pending = record empty_state {
    scale = pos 1;
    input = whole_region;
    commited = record (empty_state.commited) { scale = true; transform = true; input = true };
  };
  active = empty_state;
  frames = [];
  role = 0;
  xdg_surface = none;
  layer_surface = none;
  viewport = none;
  subsurface = none;
  children = none;
}

module _ (iface : ℕ) where
  -- The result of `c_malloc` is not tested.
  unfoldable pub create_surface : List Arg → Wl → Exec (ℤ × Wl)
  unfolding check_if_not_registered allocate add_object
  create_surface (o_val self ∷ n_val id ∷ []) s = check_if_not_registered self id s (do
    o ← self_object self s
    (a, s1) ← allocate s
    require (ltb 0 a)
    s2 ← add_object id o.version iface a s1
    ok (pos 0, set_surface a new_surface s2))
  create_surface _ s = undefined

  unfoldable pub create_region : List Arg → Wl → Exec (ℤ × Wl)
  unfolding check_if_not_registered allocate add_object
  create_region (o_val self ∷ n_val id ∷ []) s = check_if_not_registered self id s (do
    o ← self_object self s
    (a, s1) ← allocate s
    if a == 0
        then refuse self implementation s1
        else (do s2 ← add_object id o.version iface a (set_region a no_region s1); ok (pos 0, s2)))
  create_region _ s = undefined

-- A region is the rectangle added last.
unfoldable pub region_add : List Arg → Wl → Exec (ℤ × Wl)
region_add (o_val self ∷ i_val x ∷ i_val y ∷ i_val width ∷ i_val height ∷ []) s = do
  a ← object_data_of self s
  r ← at World.regions a s
  ok (pos 0, set_region a (record { x = x; y = y; width = width; height = height }) s)
region_add _ s = undefined

unfoldable pub region_destroy : List Arg → Wl → Exec (ℤ × Wl)
unfolding delete_object
region_destroy (o_val self ∷ []) s = do s' ← delete_object self s; ok (pos 0, s')
region_destroy _ s = undefined
