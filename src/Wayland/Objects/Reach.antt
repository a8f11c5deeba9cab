-- ===== src/Wayland/Objects/Reach.antt =====
-- The registry over the life of a connection: from `c_wl_connection_init` through any sequence of
-- additions and deletions whose ids the pools can keep.
use cuts.Base.{
  ℕ, ◌+◌, ◌*◌, ◌≤◌, ◌<◌, ◌≡◌, refl, sym, ap, ◌∙◌, subst, inl, inr, Option, none, some, List, arith,
  ◌==◌, if◌then◌else◌, Option-cases, ok, ok_injective,
}
use cuts.Util.Map
use cuts.Util.Map.Laws.{new-IsMap, lookup-new}
use cuts.Util.Bitmap
use cuts.Util.Bitmap.Laws.{new-IsBitmap, has-new}
use cuts.Wayland.Objects.{Object, Registry, Effect, first_server_id, object_add, object_del, init}
use cuts.Wayland.Objects.Invariant.{is_some, find, IsRegistry, IsKept, pool_size}
use cuts.Wayland.Objects.Add.{object, add_client, add_server, add_known}
use cuts.Wayland.Objects.Del.{del_lem, del_missing}

abbrev empty : Registry
empty = record {
  objects = Map.new 1024;
  client_id_pool = Bitmap.new (1024 * 4);
  server_id_pool = Bitmap.new (1024 * 4);
}

empty-IsRegistry : IsRegistry empty
unfolding Map.new Bitmap.new
empty-IsRegistry = record {
  map = new-IsMap 1024 (omega arith);
  client_pool = new-IsBitmap 4096;
  server_pool = new-IsBitmap 4096;
  client_size = refl;
  server_size = refl;
  no_zero = lookup-new 1024 0;
  client_ids = λ n hn. has-new 4096 n ∙ ap is_some (sym (lookup-new 1024 (n + 1)));
  server_ids = λ n hn. has-new 4096 n ∙ ap is_some (sym (lookup-new 1024 (n + first_server_id)));
}

-- A new connection has a well-formed registry that holds the display object, under id 1, alone.
pub init_lem :
    (iface version : ℕ)
    → (reg : Registry) × (init iface version ≡ ok (reg, some (object 1 version iface none)))
      × IsRegistry reg
      × ((j : ℕ) → find reg j ≡ (if 1 == j then some (object 1 version iface none) else none))
unfolding init
init_lem iface version =
    let free = lookup-new {V = Object} 1024 1 in
    let (reg, run, a) =
      add_client empty 1 version iface none empty-IsRegistry (omega arith) (omega arith) free in
    (
      reg,
      run,
      a.is,
      λ j.
          a.finds j
          ∙ ap (λ (k : Option Object). if 1 == j then some (object 1 version iface none) else k)
              (lookup-new 1024 j),
    )

-- The calls that change the registry. A client picks its ids, the server asks for a free one while
-- there is one, and either deletes.
pub data Step : Registry → Registry → Type 0 where
  client_adds :
      {reg reg' : Registry} (id version iface : ℕ) (d : Option ℕ) {o : Option Object}
      → 0 < id
      → id ≤ pool_size
      → object_add reg id version (some iface) d ≡ ok (reg', o)
      → Step reg reg'
  server_adds :
      {reg reg' : Registry} (k version iface : ℕ) (d : Option ℕ) {o : Option Object}
      → k < pool_size
      → find reg (k + first_server_id) ≡ none
      → object_add reg 0 version (some iface) d ≡ ok (reg', o)
      → Step reg reg'
  deletes :
      {reg reg' : Registry} (id status : ℕ) (effects : List Effect)
      → IsKept id
      → object_del reg id ≡ ok (reg', status, effects)
      → Step reg reg'

pub data Reach (start : Registry) : Registry → Type 0 where
  here : Reach start start
  next : {reg reg' : Registry} → Reach start reg → Step reg reg' → Reach start reg'

Step-IsRegistry : {reg reg' : Registry} → Step reg reg' → IsRegistry reg → IsRegistry reg'
Step-IsRegistry {reg} (client_adds id version iface d lo hi run) v =
    elim (Option-cases (find reg id)) [
      | inl e ↦
          let (reg1, run1, a) = add_client reg id version iface d v lo hi e in
          subst IsRegistry (ap (λ p. p.0) (ok_injective run1 run)) a.is
      | inr (o, e) ↦
          subst IsRegistry
            (ap (λ p. p.0) (ok_injective (add_known reg id version iface d o v e) run)) v
    ]
Step-IsRegistry {reg} (server_adds k version iface d hk e run) v =
    let (r, reg1, run1, le, fresh, a) = add_server reg k version iface d v hk e in
    subst IsRegistry (ap (λ p. p.0) (ok_injective run1 run)) a.is
Step-IsRegistry {reg} (deletes id status effects k run) v = elim (Option-cases (find reg id)) [
  | inl e ↦ subst IsRegistry (ap (λ p. p.0) (ok_injective (del_missing reg id v e) run)) v
  | inr (o, e) ↦
      let (reg1, run1, a) = del_lem reg id o v e k in
      subst IsRegistry (ap (λ p. p.0) (ok_injective run1 run)) a.is
]

-- Through any sequence of calls of `c_wl_object_del`, and of `c_wl_object_add` with an id that the
-- pools can keep or, for an id of the server, while one is free, a well-formed registry stays well
-- formed: each pool says exactly which of its ids have an object, and no id has two.
pub Reach-IsRegistry : {start reg : Registry} → Reach start reg → IsRegistry start → IsRegistry reg
Reach-IsRegistry here v = v
Reach-IsRegistry (next r st) v = Step-IsRegistry st (Reach-IsRegistry r v)
