-- ===== src/Wayland/Impl/World.antt =====
-- wayland/impl: the blocks behind the objects, and the lookups with which a request begins.
use cuts.Base.{
  ℕ, Option, none, some, List, [], ◌∷◌, ◌++◌, ◌==◌, if◌then◌else◌, Exec, ok, undefined, ◌>>=◌, ℤ,
}
use cuts.Util.Mem.{Memory, metadata_of, malloc, set_defer, ref, unref}
use cuts.Wayland.Objects.{Object, Effect, delete_id, object_get, object_add, object_del}
use cuts.Wayland.Dispatch.{Server, registry_effect, proto_err, error_set}
use cuts.Wayland.Impl.State.{
  Region, Surface, Subsurface, ShmPool, RawBuf, Extent, Buffer, Positioner, XdgSurface,
  LayerSurface, Viewport,
}

-- The reference counts of the blocks, and what stands in them. `free_addresses`
-- are those that `calloc` returns next.
pub record World : Type 0 where
  pub memory : Memory
  pub free_addresses : List ℕ
  pub surfaces : ℕ → Option Surface
  pub subsurfaces : ℕ → Option Subsurface
  pub regions : ℕ → Option Region
  pub pools : ℕ → Option ShmPool
  pub buffers : ℕ → Option Buffer
  pub rawbufs : ℕ → Option RawBuf
  pub dmabufs : ℕ → Option Extent
  pub xdg_surfaces : ℕ → Option XdgSurface
  pub positioners : ℕ → Option Positioner
  pub layer_surfaces : ℕ → Option LayerSurface
  pub viewports : ℕ → Option Viewport

abbrev pub Wl : Type 0
Wl = Server World

-- A null pointer, or one to a block of another type, cannot be followed.
abbrev pub some_or_undefined {ℓ} : {A : Type ℓ} → Option A → Exec A
some_or_undefined none = undefined
some_or_undefined (some a) = ok a

-- What stands in a block that is allocated.
unfoldable pub at : {A : Type 0} → (World → ℕ → Option A) → ℕ → Wl → Exec A
at table a s = do m ← metadata_of a s.world.memory; some_or_undefined (table s.world a)

abbrev pub put_at {ℓ} : {A : Type ℓ} → ℕ → A → (ℕ → Option A) → ℕ → Option A
put_at a x table b = if b == a then some x else table b

abbrev pub set_surface : ℕ → Surface → Wl → Wl
set_surface a x s = record s { world = record (s.world) { surfaces = put_at a x s.world.surfaces } }

abbrev pub set_subsurface : ℕ → Subsurface → Wl → Wl
set_subsurface a x s = record s {
  world = record (s.world) { subsurfaces = put_at a x s.world.subsurfaces };
}

abbrev pub set_region : ℕ → Region → Wl → Wl
set_region a x s = record s { world = record (s.world) { regions = put_at a x s.world.regions } }

abbrev pub set_pool : ℕ → ShmPool → Wl → Wl
set_pool a x s = record s { world = record (s.world) { pools = put_at a x s.world.pools } }

abbrev pub set_buffer : ℕ → Buffer → Wl → Wl
set_buffer a x s = record s { world = record (s.world) { buffers = put_at a x s.world.buffers } }

abbrev pub set_rawbuf : ℕ → RawBuf → Wl → Wl
set_rawbuf a x s = record s { world = record (s.world) { rawbufs = put_at a x s.world.rawbufs } }

abbrev pub set_xdg_surface : ℕ → XdgSurface → Wl → Wl
set_xdg_surface a x s = record s {
  world = record (s.world) { xdg_surfaces = put_at a x s.world.xdg_surfaces };
}

abbrev pub set_positioner : ℕ → Positioner → Wl → Wl
set_positioner a x s = record s {
  world = record (s.world) { positioners = put_at a x s.world.positioners };
}

abbrev pub set_layer_surface : ℕ → LayerSurface → Wl → Wl
set_layer_surface a x s = record s {
  world = record (s.world) { layer_surfaces = put_at a x s.world.layer_surfaces };
}

abbrev pub set_viewport : ℕ → Viewport → Wl → Wl
set_viewport a x s = record s {
  world = record (s.world) { viewports = put_at a x s.world.viewports };
}

-- `c_wl_object_get(conn, id)->data`
unfoldable pub object_data_of : ℕ → Wl → Exec ℕ
object_data_of id s = do
  found ← object_get s.registry id
  o ← some_or_undefined found
  some_or_undefined o.object_data

-- `c_wl_self`, which is read through
unfoldable pub self_object : ℕ → Wl → Exec Object
self_object id s = do found ← object_get s.registry id; some_or_undefined found

-- `c_wl_error_set_and_return`
abbrev pub refuse : ℕ → ℕ → Wl → Exec (ℤ × Wl)
refuse id code s = ok (proto_err, error_set id code s)

-- C_WL_CHECK_IF_NOT_REGISTERED and C_WL_CHECK_IF_REGISTERED, in front of the rest of a request
-- that `self` makes
unfoldable pub check_if_not_registered : ℕ → ℕ → Wl → Exec (ℤ × Wl) → Exec (ℤ × Wl)
check_if_not_registered self id s rest = do
  found ← object_get s.registry id
  elim found [ some _ ↦ refuse self 0 s | none ↦ rest ]

unfoldable pub check_if_registered : ℕ → ℕ → Wl → (Object → Exec (ℤ × Wl)) → Exec (ℤ × Wl)
check_if_registered self id s rest = do
  found ← object_get s.registry id
  elim found [ none ↦ refuse self 0 s | some o ↦ rest o ]

-- `c_malloc`; the result is 0 when there is no memory.
unfoldable pub allocate_from : List ℕ → Wl → Exec (ℕ × Wl)
allocate_from [] s = ok (0, s)
allocate_from (fresh ∷ rest) s = do
  (a, memory) ← malloc fresh s.world.memory
  ok (a, record s { world = record (s.world) { memory = memory; free_addresses = rest } })

unfoldable pub allocate : Wl → Exec (ℕ × Wl)
unfolding allocate_from
allocate s = allocate_from (s.world.free_addresses) s

-- `c_defer`
unfoldable pub defer : ℕ → ℕ → Wl → Exec Wl
defer a func s = do
  memory ← set_defer a func s.world.memory
  ok (record s { world = record (s.world) { memory = memory } })

-- `c_ref`
unfoldable pub take_reference : ℕ → Wl → Exec Wl
take_reference a s = do
  memory ← ref a s.world.memory
  ok (record s { world = record (s.world) { memory = memory } })

-- `c_wl_object_add` of an object that stands for the block at `a`
unfoldable pub add_object : (id version iface a : ℕ) → Wl → Exec Wl
add_object id version iface a s = do
  (registry, _) ← object_add s.registry id version (some iface) (some a)
  ok (record s { registry = registry })

-- The functions given to `c_defer`: `defer_pool` unmaps the memory of a pool and closes its file,
-- and `defer_wl_buffer` gives up the references of a buffer.
abbrev pub defer_pool : ℕ
defer_pool = 1

abbrev pub defer_wl_buffer : ℕ
defer_wl_buffer = 2

unfoldable pub unref_field : Option ℕ → Memory → Exec Memory
unref_field none m = ok m
unref_field (some a) m = unref (λ func a m. ok m) a m

unfoldable pub run_deferred : World → ℕ → ℕ → Memory → Exec Memory
unfolding unref_field
run_deferred w func a m =
    if func == defer_wl_buffer
    then (do
      b ← some_or_undefined (w.buffers a)
      m1 ← unref_field b.dma m
      m2 ← unref_field b.shm m1
      unref_field b.pool m2)
    else ok m

-- `c_unref`
unfoldable pub give_reference : ℕ → Wl → Exec Wl
unfolding run_deferred
give_reference a s = do
  memory ← unref (run_deferred s.world) a s.world.memory
  ok (record s { world = record (s.world) { memory = memory } })

-- `c_wl_object_del` with the reference it gives up and the event it sends
unfoldable pub give_effects : List Effect → Wl → Exec Wl
unfolding give_reference
give_effects [] s = ok s
give_effects (Effect.unref a ∷ effects) s = do s' ← give_reference a s; give_effects effects s'
give_effects (delete_id id ∷ effects) s =
    give_effects effects (record s { events = s.events ++ registry_effect (delete_id id) ∷ [] })

unfoldable pub delete_object : ℕ → Wl → Exec Wl
unfolding give_effects
delete_object id s = do
  (registry, _, effects) ← object_del s.registry id
  give_effects effects (record s { registry = registry })
