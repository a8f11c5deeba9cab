-- ===== src/Wayland/Objects/Del.antt =====
-- `c_wl_object_del`, and what it undoes.
use cuts.Base.{
  ℕ, ◌+◌, ◌-◌, ◌*◌, ◌/◌, ◌%◌, ◌^◌, ◌≤◌, ◌<◌, ◌≡◌, ◌∙◌, inl, inr, true, false, Option, none, some,
  List, [], ◌∷◌, ◌++◌, arith, ltb, ◌==◌, if◌then◌else◌, Bool-cases, ok,
}
use cuts.Util.Map.Laws.{get_lem, remove_lem, after_remove, after_remove-IsMap, lookup-after_remove}
use cuts.Util.Bitmap.Laws.{
  unset_lem as bitmap_unset_lem, after_unset as bit_unset, after_unset-IsBitmap, has-after_unset,
}
use cuts.Wayland.Objects.{
  Object, Registry, Effect, delete_id, unref_data, first_server_id, object_add, object_del,
}
use cuts.Wayland.Objects.Invariant.{find, IsRegistry, IsKept, pool_size}
use cuts.Wayland.Objects.Add.{object, add_client}

-- The registry lost this id alone.
pub record Deleted (reg : Registry) (id : ℕ) (reg' : Registry) : Type 0 where
  pub is : IsRegistry reg'
  pub finds : (j : ℕ) → find reg' j ≡ (if id == j then none else find reg j)

-- The event that gives a client's id back.
abbrev pub id_event : ℕ → List Effect
id_event id = if ltb id first_server_id then delete_id id ∷ [] else []

abbrev without : Registry → ℕ → Registry
without reg id =
    let reg1 = record reg { objects = after_remove reg.objects id } in
    if ltb id first_server_id
    then record reg1 { client_id_pool = bit_unset reg.client_id_pool (id - 1) }
    else record reg1 { server_id_pool = bit_unset reg.server_id_pool (id - first_server_id) }

module _ (reg : Registry) (id : ℕ) (o : Object) (v : IsRegistry reg)
    (there : find reg id ≡ some o) where
  removed : (j : ℕ) → find (without reg id) j ≡ (if id == j then none else find reg j)
  removed j = elim (Bool-cases (ltb id first_server_id)) [
    | inl t ↦ rw t (lookup-after_remove reg.objects id j v.map)
    | inr t ↦ rw t (lookup-after_remove reg.objects id j v.map)
  ]

  given :
      IsKept id
      → object_del reg id ≡ ok (without reg id, 0, unref_data o.object_data ++ id_event id)
  unfolding object_del
  given (inl (lo, hi)) =
      let t : ltb id first_server_id ≡ true = ground arith in
      let e : (id + 2 ^ 32 - 1) % 2 ^ 32 ≡ id - 1 = omega arith in
      rw (
        get_lem reg.objects id v.map.nonempty,
        there,
        remove_lem reg.objects id o v.map there,
        t,
        e,
        bitmap_unset_lem v.client_pool (id - 1) (omega (arith, v.client_size)),
      )
  given (inr (lo, hi)) =
      let t : ltb id first_server_id ≡ false = ground arith in
      rw (
        get_lem reg.objects id v.map.nonempty,
        there,
        remove_lem reg.objects id o v.map there,
        t,
        bitmap_unset_lem v.server_pool (id - first_server_id) (omega (arith, v.server_size)),
      )

  kept : IsKept id → IsRegistry (without reg id)
  kept (inl (lo, hi)) =
      let t : ltb id first_server_id ≡ true = ground arith in
      let r : id - 1 < reg.client_id_pool.size / 8 * 8 = omega (arith, v.client_size) in
      let finds = λ (j : ℕ). lookup-after_remove reg.objects id j v.map in
      rw t record {
        map = after_remove-IsMap reg.objects id v.map;
        client_pool = after_unset-IsBitmap v.client_pool (id - 1) r;
        server_pool = v.server_pool;
        client_size = v.client_size;
        server_size = v.server_size;
        no_zero = ground (arith, finds 0, v.no_zero);
        client_ids = λ n hn.
            ground
              (arith, has-after_unset v.client_pool (id - 1) r n, finds (n + 1), v.client_ids n);
        server_ids = λ n hn. ground (arith, finds (n + first_server_id), v.server_ids n);
      }
  kept (inr (lo, hi)) =
      let t : ltb id first_server_id ≡ false = ground arith in
      let k = id - first_server_id in
      let r : k < reg.server_id_pool.size / 8 * 8 = omega (arith, v.server_size) in
      let finds = λ (j : ℕ). lookup-after_remove reg.objects id j v.map in
      rw t record {
        map = after_remove-IsMap reg.objects id v.map;
        client_pool = v.client_pool;
        server_pool = after_unset-IsBitmap v.server_pool k r;
        client_size = v.client_size;
        server_size = v.server_size;
        no_zero = ground (arith, finds 0, v.no_zero);
        client_ids = λ n hn. ground (arith, finds (n + 1), v.client_ids n);
        server_ids = λ n hn. ground (
          arith,
          has-after_unset v.server_pool k r n,
          finds (n + first_server_id),
          v.server_ids n,
        );
      }

  -- Deleting an object whose id the pools can keep returns 0, gives up the reference to its data and
  -- tells the client of its own id; the registry stays well formed and loses that id alone.
  pub del_lem :
      IsKept id
      → (reg' : Registry) × (object_del reg id
          ≡ ok (reg', 0, unref_data o.object_data ++ id_event id))
        × Deleted reg id reg'
  del_lem k = (without reg id, given k, record { is = kept k; finds = removed })

-- Deleting what is not there returns 1 and changes nothing.
pub del_missing :
    (reg : Registry) (id : ℕ)
    → IsRegistry reg
    → find reg id ≡ none
    → object_del reg id ≡ ok (reg, 1, [])
unfolding object_del
del_missing reg id v e = rw (get_lem reg.objects id v.map.nonempty, e)

-- Adding a client's object and deleting it again gives the registry's lookups back.
pub del-add :
    (reg : Registry) (id version iface : ℕ) (d : Option ℕ)
    → IsRegistry reg
    → 0 < id
    → id ≤ pool_size
    → find reg id ≡ none
    → (reg1 : Registry) × (reg2 : Registry) × (object_add reg id version (some iface) d
        ≡ ok (reg1, some (object id version iface d)))
      × (object_del reg1 id ≡ ok (reg2, 0, unref_data d ++ delete_id id ∷ []))
      × IsRegistry reg2
      × ((j : ℕ) → find reg2 j ≡ find reg j)
del-add reg id version iface d v lo hi fresh =
    let (reg1, run, a) = add_client reg id version iface d v lo hi fresh in
    let o = object id version iface d in
    let there : find reg1 id ≡ some o = a.finds id ∙ ground arith in
    let (reg2, run2, b) = del_lem reg1 id o a.is there (inl (lo, hi)) in
    let t : ltb id first_server_id ≡ true = ground arith in
    (reg1, reg2, run, rw t at run2, b.is, λ j. ground (arith, b.finds j, a.finds j, fresh))
