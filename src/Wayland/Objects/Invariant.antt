-- ===== src/Wayland/Objects/Invariant.antt =====
-- When a registry is well formed: the pools say exactly which ids have an object.
use cuts.Base.{ℕ, ◌+◌, ◌≤◌, ◌<◌, ◌≡◌, ◌⊎◌, Bool, true, false, Option, none, some, ok}
use cuts.Util.Map.Laws.{IsMap, lookup, get_lem}
use cuts.Util.Bitmap.Laws.{IsBitmap, has}
use cuts.Wayland.Objects.{Object, Registry, first_server_id, object_get}

abbrev pub is_some {ℓ} : {A : Type ℓ} → Option A → Bool
is_some none = false
is_some (some _) = true

abbrev pub pool_size : ℕ
pool_size = 4096

-- The object under an id.
abbrev pub find : Registry → ℕ → Option Object
find reg id = lookup reg.objects id

-- A member of the client pool stands for the id after it, one of the server pool for an offset.
pub record IsRegistry (reg : Registry) : Type 0 where
  pub map : IsMap reg.objects
  pub client_pool : IsBitmap reg.client_id_pool
  pub server_pool : IsBitmap reg.server_id_pool
  pub client_size : reg.client_id_pool.size ≡ pool_size
  pub server_size : reg.server_id_pool.size ≡ pool_size
  pub no_zero : find reg 0 ≡ none
  pub client_ids : (n : ℕ) → n < pool_size → has reg.client_id_pool n ≡ is_some (find reg (n + 1))
  pub server_ids :
      (n : ℕ) → n < pool_size → has reg.server_id_pool n ≡ is_some (find reg (n + first_server_id))

pub object_get_lem :
    (reg : Registry) (id : ℕ) → IsRegistry reg → object_get reg id ≡ ok (find reg id)
unfolding object_get
object_get_lem reg id v = get_lem reg.objects id v.map.nonempty

-- An id that the pools can keep: 1 to 4096 for a client's, 4096 of them from 0xFF000000 for the
-- server's.
abbrev pub IsKept : ℕ → Type 0
IsKept id =
    ((0 < id) × (id ≤ pool_size)) ⊎ ((first_server_id ≤ id) × (id < first_server_id + pool_size))
