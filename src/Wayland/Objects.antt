-- ===== src/Wayland/Objects.antt =====
-- The object registry of a connection, in wayland/server.c: `c_wl_object_add`, `c_wl_object_get`,
-- `c_wl_object_del` and the tables that `c_wl_connection_init` makes.
pub mod Invariant
pub mod Add
pub mod Del
pub mod Reach
pub mod Rounds
use cuts.Base.{
  ℕ, ◌+◌, ◌-◌, ◌*◌, ◌%◌, ◌^◌, ◌&&◌, Option, none, some, List, [], ◌∷◌, ◌++◌, ltb, ◌==◌,
  if◌then◌else◌, Exec, ok, aborted, ◌>>=◌, ◌>>◌,
}
use cuts.Util.Map
use cuts.Util.Map.{Map}
use cuts.Util.Bitmap
use cuts.Util.Bitmap.{Bitmap}

-- `struct c_wl_object`, its interface and data by their addresses
pub record Object : Type 0 where
  pub id : ℕ
  pub version : ℕ
  pub iface : ℕ
  pub object_data : Option ℕ

-- The fields of `struct c_wl_connection` that hold the registry
pub record Registry : Type 0 where
  pub objects : Map Object
  pub client_id_pool : Bitmap
  pub server_id_pool : Bitmap

-- Calls that leave the registry: a reference given up, and the event that frees an id.
pub data Effect : Type 0 where
  unref : ℕ → Effect
  delete_id : ℕ → Effect

abbrev pub first_server_id : ℕ
first_server_id = 0xFF000000

-- `id - 1` on a `uint32_t`
abbrev pub pred32 : ℕ → ℕ
pred32 n = (n + 2 ^ 32 - 1) % 2 ^ 32

abbrev pub object_size : ℕ
object_size = 48

unfoldable pub object_get : Registry → ℕ → Exec (Option Object)
object_get reg id = Map.get reg.objects id

-- Which id the new object gets, and the pools with it. 0 asks for a free server id.
unfoldable pub take_id : Registry → ℕ → Exec (ℕ × Registry)
take_id reg id =
    if ltb 0 id && ltb id first_server_id
    then (do
      (_, pool) ← Bitmap.set reg.client_id_pool (pred32 id)
      ok (id, record reg { client_id_pool = pool }))
    else if id == 0
    then (do
      free_id ← Bitmap.get_free reg.server_id_pool
      (_, pool) ← Bitmap.set reg.server_id_pool free_id
      ok ((free_id + first_server_id) % 2 ^ 32, record reg { server_id_pool = pool }))
    else (do
      (_, pool) ← Bitmap.set reg.server_id_pool (pred32 id)
      ok (id, record reg { server_id_pool = pool }))

-- The stored object, or `none` for NULL if the id is taken.
unfoldable pub object_add : Registry → ℕ → ℕ → Option ℕ → Option ℕ → Exec (Registry × Option Object)
unfolding object_get take_id
object_add reg id version interface object_data = do
  old ← object_get reg id
  elim old [
    | some _ ↦ ok (reg, none)
    | none ↦ elim interface [
      | none ↦ aborted
      | some iface ↦ do
        (new_id, reg') ← take_id reg id
        (objects, stored) ←
            Map.set reg'.objects new_id
              (some (record {
                id = new_id;
                version = version;
                iface = iface;
                object_data = object_data;
              }))
              object_size
        ok (record reg' { objects = objects }, stored)
    ]
  ]

abbrev pub unref_data : Option ℕ → List Effect
unref_data none = []
unref_data (some p) = unref p ∷ []

-- The pools once `id` is given back.
unfoldable pub give_id : Registry → ℕ → Exec (Registry × List Effect)
give_id reg id =
    if ltb id first_server_id
    then (do
      (_, pool) ← Bitmap.unset reg.client_id_pool (pred32 id)
      ok (record reg { client_id_pool = pool }, delete_id id ∷ []))
    else (do
      (_, pool) ← Bitmap.unset reg.server_id_pool (id - first_server_id)
      ok (record reg { server_id_pool = pool }, []))

-- The result is 1 if there is no such object.
unfoldable pub object_del : Registry → ℕ → Exec (Registry × ℕ × List Effect)
unfolding give_id
object_del reg id = do
  old ← Map.get reg.objects id
  elim old [
    | none ↦ ok (reg, 1, [])
    | some o ↦ do
      (objects, _) ← Map.remove reg.objects id
      (reg', events) ← give_id (record reg { objects = objects }) id
      ok (reg', 0, unref_data o.object_data ++ events)
  ]

-- `c_wl_connection_init`: three empty tables, and the display object under id 1.
unfoldable pub init : ℕ → ℕ → Exec (Registry × Option Object)
unfolding object_add
init display_iface display_version =
    object_add
      (record {
        objects = Map.new 1024;
        client_id_pool = Bitmap.new (1024 * 4);
        server_id_pool = Bitmap.new (1024 * 4);
      })
      1 display_version (some display_iface) none
