-- ===== src/Wayland/Impl/Subsurface/Place.antt =====
-- `wl_subsurface_place_above` and `wl_subsurface_place_below`: the list of the parent's subsurfaces
-- is searched for the surface of the sibling.
use cuts.Base.{
  ℕ, ◌+◌, ◌≡◌, refl, sym, ap, ◌∙◌, subst, inl, inr, Bool, true, false, Option, none, some, List, [],
  ◌∷◌, ◌==◌, if◌then◌else◌, ==_iff, ==_refl, Bool-cases, Exec, ok, aborted, >>=-eq-ok, >>=-after, ℤ,
}
use cuts.Util.Mem.{metadata_of}
use cuts.Wayland.Message.{o_val}
use cuts.Wayland.Objects.{Object, object_get}
use cuts.Wayland.Impl.State.{Surface, Subsurface}
use cuts.Wayland.Impl.World.{
  World, Wl, some_or_undefined, at, set_surface, object_data_of, check_if_registered,
}
use cuts.Wayland.Impl.Children.{remove_child, erase_child, index_of}
use cuts.Wayland.Impl.Subsurface.{on_surface_children, place}

-- Each of these addresses is that of a subsurface.
abbrev pub AllSubsurfaces : List ℕ → Wl → Type 0
AllSubsurfaces [] s = Unit
AllSubsurfaces (c ∷ cs) s =
    ((sub : Subsurface) × (s.world.subsurfaces c ≡ some sub)) × AllSubsurfaces cs s

-- A subsurface with a parent, and a sibling that is the object of a wl_surface. A block is not both a
-- surface and a subsurface, and the list of the parent holds subsurfaces.
pub record IsPlaceable (self sibling_id : ℕ) (s : Wl) : Type 0 where
  pub sibling : Object
  pub sibling_at : ℕ
  pub address : ℕ
  pub subsurface : Subsurface
  pub parent_at : ℕ
  pub parent : Surface
  pub children : List ℕ
  pub registered : object_get s.registry sibling_id ≡ ok (some sibling)
  pub sibling_data : sibling.object_data ≡ some sibling_at
  pub object : object_data_of self s ≡ ok address
  pub stored : at World.subsurfaces address s ≡ ok subsurface
  pub parented : subsurface.parent ≡ some parent_at
  pub parent_stored : at World.surfaces parent_at s ≡ ok parent
  pub listed : parent.children ≡ some children
  pub surface : Surface
  pub is_surface : s.world.surfaces sibling_at ≡ some surface
  pub typed : (a : ℕ) (u : Surface) → s.world.surfaces a ≡ some u → s.world.subsurfaces a ≡ none
  pub all_subsurfaces : AllSubsurfaces children s

not_listed :
    (b : ℕ) (cs : List ℕ) (s : Wl)
    → s.world.subsurfaces b ≡ none
    → AllSubsurfaces cs s
    → index_of b cs ≡ none
not_listed b [] s absent all = refl
not_listed b (c ∷ cs) s absent ((sub, e), all) = elim (Bool-cases (c == b)) [
  | inl t ↦
      let same : c ≡ b = (==_iff c b).0 t in
      let found : s.world.subsurfaces b ≡ some sub =
        subst (λ a. s.world.subsurfaces a ≡ some sub) same e in
      let wrong = sym absent ∙ found in absurd cc
  | inr f ↦ rw (f, not_listed b cs s absent all) refl
]

split_index :
    (t : Bool) (o : Option ℕ)
    → (if t then some 0 else elim o [ none ↦ none | some i ↦ some (i + 1) ]) ≡ none
    → (t ≡ false) × (o ≡ none)
split_index true o e = cc
split_index false none e = (refl, refl)
split_index false (some i) e = cc

index_cons :
    (b c : ℕ) (cs : List ℕ)
    → index_of b (c ∷ cs) ≡ none
    → ((c == b) ≡ false) × (index_of b cs ≡ none)
index_cons b c cs e = split_index (c == b) (index_of b cs) e

index_of-erase :
    (b a : ℕ) (cs : List ℕ) → index_of b cs ≡ none → index_of b (erase_child a cs) ≡ none
index_of-erase b a [] e = e
index_of-erase b a (c ∷ cs) e =
    let (f, rest) = index_cons b c cs e in
    elim (Bool-cases (c == a)) [
      | inl t ↦ rw t rest
      | inr t ↦ rw (t, f, index_of-erase b a cs rest) refl
    ]

-- The rest of the request, on the list without the subsurface
registered_lem :
    (self sibling_id : ℕ) (s : Wl) {o : Object} (rest : Object → Exec (ℤ × Wl))
    → object_get s.registry sibling_id ≡ ok (some o)
    → check_if_registered self sibling_id s rest ≡ rest o
unfolding check_if_registered
registered_lem self sibling_id s rest e = >>=-after _ e refl

removed_lem :
    (ss p : ℕ) (s : Wl) {u : Surface} {children : List ℕ}
    → at World.surfaces p s ≡ ok u
    → u.children ≡ some children
    → (s' : Wl) × (u' : Surface) × (on_surface_children (remove_child ss) p s ≡ ok s')
      × (at World.surfaces p s' ≡ ok u')
      × (u'.children ≡ some (erase_child ss children))
unfolding on_surface_children at
removed_lem ss p s {u} {children} e listed =
    let (m, em, _) = >>=-eq-ok (metadata_of p s.world.memory) _ e in
    let u' = record u { children = remove_child ss u.children } in
    (
      set_surface p u' s,
      u',
      >>=-after _ e refl,
      >>=-after _ em (rw (==_refl p) refl),
      ap (remove_child ss) listed,
    )

absent_aborts :
    {o : Option ℕ} (f : ℕ → Exec (ℤ × Wl))
    → o ≡ none
    → (elim o [ none ↦ aborted | some i ↦ f i ]) ≡ aborted
absent_aborts f e = rw e refl

-- wl_subsurface.place_above and place_below end the compositor by a failed assertion whenever the
-- sibling is given by its wl_surface, as the protocol asks, and the parent's list is one of
-- subsurfaces: wherever the two stand in it.
pub place_aborts :
    (offset self sibling_id : ℕ) (s : Wl)
    → IsPlaceable self sibling_id s
    → place offset (o_val self ∷ o_val sibling_id ∷ []) s ≡ aborted
unfolding place
place_aborts offset self sibling_id s p =
    let (s', u', e, stored, listed) =
      removed_lem p.address p.parent_at s p.parent_stored p.listed in
    let missing =
      not_listed p.sibling_at p.children s (p.typed p.sibling_at p.surface p.is_surface)
        p.all_subsurfaces in
    let absent = index_of-erase p.sibling_at p.address p.children missing in
    registered_lem self sibling_id s _ p.registered
    ∙ >>=-after _ p.object (
        >>=-after _ p.stored (
          >>=-after _ (ap some_or_undefined p.parented) (
            >>=-after _ e (
              >>=-after _ stored (
                >>=-after _ (ap some_or_undefined listed)
                  (>>=-after _ (ap some_or_undefined p.sibling_data) (absent_aborts _ absent)))))))
