-- ===== src/Wayland/Objects/Add.antt =====
-- `c_wl_object_add`.
use cuts.Base.{
  ℕ, ◌+◌, ◌-◌, ◌*◌, ◌/◌, ◌%◌, ◌^◌, ◌≤◌, ◌<◌, ◌≡◌, refl, sym, ap, ◌∙◌, subst, inl, inr, true, false,
  ◌&&◌, Option, none, some, arith, ltb, ◌==◌, if◌then◌else◌, ltb→lt, Bool-cases, ok, undefined,
}
use cuts.Util.Map.Laws.{IsMap, after_set, set_lem, after_set-IsMap, lookup-after_set}
use cuts.Util.Bitmap
use cuts.Util.Bitmap.{Bitmap}
use cuts.Util.Bitmap.Laws.{
  has, set_lem as bitmap_set_lem, after_set as bit_set, after_set-IsBitmap, has-after_set,
  set_past_end,
}
use cuts.Util.Bitmap.Free.{get_free-LeastFree}
use cuts.Wayland.Objects.{Object, Registry, first_server_id, object_size, object_add, take_id}
use cuts.Wayland.Objects.Invariant.{is_some, find, IsRegistry, object_get_lem, pool_size}

abbrev pub object : ℕ → ℕ → ℕ → Option ℕ → Object
object id version iface object_data = record {
  id = id;
  version = version;
  iface = iface;
  object_data = object_data;
}

-- What is added: the object under its id, and the id in its pool.
abbrev with_object : Registry → Object → Registry
with_object reg o = record reg { objects = after_set reg.objects o.id o object_size }

-- The registry grew by this object alone.
pub record Added (reg : Registry) (o : Object) (reg' : Registry) : Type 0 where
  pub is : IsRegistry reg'
  pub finds : (j : ℕ) → find reg' j ≡ (if o.id == j then some o else find reg j)

-- Once the id is taken.
add_taken :
    (reg reg' : Registry) (id new_id version iface : ℕ) (d : Option ℕ)
    → IsRegistry reg
    → find reg id ≡ none
    → take_id reg id ≡ ok (new_id, reg')
    → reg'.objects ≡ reg.objects
    → object_add reg id version (some iface) d
      ≡ ok (with_object reg' (object new_id version iface d), some (object new_id version iface d))
unfolding object_add
add_taken reg reg' id new_id version iface d v fresh taken same =
    let m = subst IsMap (sym same) v.map in
    rw (
      object_get_lem reg id v,
      fresh,
      taken,
      set_lem reg'.objects new_id (object new_id version iface d) object_size m,
    )

-- An id that has an object is refused, and the registry stays as it is.
pub add_known :
    (reg : Registry) (id version iface : ℕ) (d : Option ℕ) (o : Object)
    → IsRegistry reg
    → find reg id ≡ some o
    → object_add reg id version (some iface) d ≡ ok (reg, none)
unfolding object_add
add_known reg id version iface d o v e = rw (object_get_lem reg id v, e)

client_taken :
    (reg : Registry) (id : ℕ)
    → IsRegistry reg
    → 0 < id
    → id ≤ pool_size
    → take_id reg id ≡ ok (id, record reg { client_id_pool = bit_set reg.client_id_pool (id - 1) })
unfolding take_id
client_taken reg id v lo hi =
    let e : (id + 2 ^ 32 - 1) % 2 ^ 32 ≡ id - 1 = omega arith in
    let t : (ltb 0 id && ltb id first_server_id) ≡ true = ground arith in
    rw (e, t, bitmap_set_lem v.client_pool (id - 1) (omega (arith, v.client_size)))

-- Adding a client's object: under a new id from 1 to 4096 the call succeeds and returns the stored
-- object, the registry stays well formed, and it grows by that object alone.
pub add_client :
    (reg : Registry) (id version iface : ℕ) (d : Option ℕ)
    → IsRegistry reg
    → 0 < id
    → id ≤ pool_size
    → find reg id ≡ none
    → (reg' : Registry) × (object_add reg id version (some iface) d
        ≡ ok (reg', some (object id version iface d)))
      × Added reg (object id version iface d) reg'
add_client reg id version iface d v lo hi fresh =
    let o = object id version iface d in
    let pool = reg.client_id_pool in
    let r : id - 1 < pool.size / 8 * 8 = omega (arith, v.client_size) in
    let reg1 = record reg { client_id_pool = bit_set pool (id - 1) } in
    let finds = λ (j : ℕ). lookup-after_set reg.objects id j o object_size in
    (
      with_object reg1 o,
      add_taken reg reg1 id id version iface d v fresh (client_taken reg id v lo hi) refl,
      record {
        is = record {
          map = after_set-IsMap reg.objects id o object_size v.map fresh;
          client_pool = after_set-IsBitmap v.client_pool (id - 1) r;
          server_pool = v.server_pool;
          client_size = v.client_size;
          server_size = v.server_size;
          no_zero = ground (arith, finds 0, v.no_zero);
          client_ids = λ n hn.
              ground
                (arith, has-after_set v.client_pool (id - 1) r n, finds (n + 1), v.client_ids n);
          server_ids = λ n hn. ground (arith, finds (n + first_server_id), v.server_ids n);
        };
        finds = finds;
      },
    )

-- The least free offset of the server pool, where one is left.
server_taken :
    (reg : Registry) (k : ℕ)
    → IsRegistry reg
    → k < pool_size
    → find reg (k + first_server_id) ≡ none
    → (r : ℕ) × (r ≤ k)
      × (has reg.server_id_pool r ≡ false)
      × (take_id reg 0
          ≡ ok (r + first_server_id, record reg { server_id_pool = bit_set reg.server_id_pool r }))
unfolding take_id
server_taken reg k v hk free =
    let pool = reg.server_id_pool in
    let (r, run, least) = get_free-LeastFree pool v.server_pool (omega (arith, v.server_size)) in
    let held : has pool k ≡ false = v.server_ids k hk ∙ ap is_some free in
    let size = v.server_size in
    let below : (r ≤ k) × (has pool r ≡ false) = elim least [
      | inl (bit, lt, full) ↦ (least_le r full held, bit)
      | inr (zero_r, full) ↦
          let in_range : k < pool.size / 8 * 8 = omega (arith, size) in
          let set_k : has pool k ≡ true = full k in_range in absurd (cc (set_k, held))
    ] in
    let e : (r + first_server_id) % 2 ^ 32 ≡ r + first_server_id = omega arith in
    (r, below.0, below.1, rw (run, bitmap_set_lem v.server_pool r (omega (arith, below.0)), e))
  where
    least_le :
        (r : ℕ)
        → ((m : ℕ) → m < r → has reg.server_id_pool m ≡ true)
        → has reg.server_id_pool k ≡ false
        → r ≤ k
    least_le r full held = elim (Bool-cases (ltb k r)) [
      | inl t ↦ absurd (cc (full k (ltb→lt k r t), held))
      | inr t ↦ ground arith
    ]

-- Adding an object of the server's own (id 0): while some id from 0xFF000000 to 0xFF000FFF is free,
-- the call succeeds, picks the least free one, and the registry grows by that object alone.
pub add_server :
    (reg : Registry) (k version iface : ℕ) (d : Option ℕ)
    → IsRegistry reg
    → k < pool_size
    → find reg (k + first_server_id) ≡ none
    → (r : ℕ) × (reg' : Registry) × (object_add reg 0 version (some iface) d
        ≡ ok (reg', some (object (r + first_server_id) version iface d)))
      × (r ≤ k)
      × (find reg (r + first_server_id) ≡ none)
      × Added reg (object (r + first_server_id) version iface d) reg'
add_server reg k version iface d v hk free =
    let (r, le, bit, taken) = server_taken reg k v hk free in
    let id = r + first_server_id in
    let o = object id version iface d in
    let pool = reg.server_id_pool in
    let in_range : r < pool.size / 8 * 8 = omega (arith, v.server_size) in
    let reg1 = record reg { server_id_pool = bit_set pool r } in
    let finds = λ (j : ℕ). lookup-after_set reg.objects id j o object_size in
    let fresh : find reg id ≡ none = ground (arith, v.server_ids r, bit) in
    (
      r,
      with_object reg1 o,
      add_taken reg reg1 0 id version iface d v v.no_zero taken refl,
      le,
      fresh,
      record {
        is = record {
          map = after_set-IsMap reg.objects id o object_size v.map fresh;
          client_pool = v.client_pool;
          server_pool = after_set-IsBitmap v.server_pool r in_range;
          client_size = v.client_size;
          server_size = v.server_size;
          no_zero = ground (arith, finds 0, v.no_zero);
          client_ids = λ n hn. ground (arith, finds (n + 1), v.client_ids n);
          server_ids = λ n hn. ground (
            arith,
            has-after_set v.server_pool r in_range n,
            finds (n + first_server_id),
            v.server_ids n,
          );
        };
        finds = finds;
      },
    )

-- The bitmap's missing bound reaches a client: a new id 4097 writes past the pool.
pub add_past_pool :
    (reg : Registry) (version iface : ℕ) (d : Option ℕ)
    → IsRegistry reg
    → find reg (pool_size + 1) ≡ none
    → object_add reg (pool_size + 1) version (some iface) d ≡ undefined
unfolding object_add take_id
add_past_pool reg version iface d v fresh =
    let past = set_past_end reg.client_id_pool v.client_pool (omega (arith, v.client_size)) in
    let bad : Bitmap.set reg.client_id_pool pool_size ≡ undefined =
      subst (λ n. Bitmap.set reg.client_id_pool n ≡ undefined) v.client_size past.0 in
    rw (object_get_lem reg (pool_size + 1) v, fresh, bad)
