-- ===== src/Wayland/Impl/Subsurface/Endless.antt =====
-- The recursion of `wl_subsurface_set_sync` and `wl_subsurface_set_desync` on children that lead back
-- to themselves, as `get_subsurface` lets a client make them.
use cuts.Base.{
  ℕ, zero, suc, ◌≡◌, refl, ap, ◌∙◌, subst, inl, inr, Bool, true, Option, none, some, List, ◌∷◌,
  ◌==◌, ==_iff, Bool-cases, Exec, ok, out_of_fuel, ◌>>=◌, >>=-eq-ok, >>=-after, ok_injective,
}
use cuts.Util.Mem.{metadata_of}
use cuts.Wayland.Impl.State.{Surface, Subsurface}
use cuts.Wayland.Impl.World.{World, Wl, some_or_undefined, at, set_subsurface, object_data_of}
use cuts.Wayland.Impl.Subsurface.{for_children, set_mode}

-- The subsurface of an object, whose surface has a first child that satisfies `P`
pub record LeadsOn (P : ℕ → Bool) (id : ℕ) (s : Wl) : Type 0 where
  pub address : ℕ
  pub subsurface : Subsurface
  pub surface_at : ℕ
  pub surface : Surface
  pub child_at : ℕ
  pub child : Subsurface
  pub others : List ℕ
  pub object : object_data_of id s ≡ ok address
  pub stored : at World.subsurfaces address s ≡ ok subsurface
  pub surfaced : subsurface.surface ≡ some surface_at
  pub surface_stored : at World.surfaces surface_at s ≡ ok surface
  pub children : surface.children ≡ some (child_at ∷ others)
  pub child_stored : at World.subsurfaces child_at s ≡ ok child
  pub again : P child.id ≡ true

-- From each object that satisfies `P` the first child is another one.
abbrev pub IsEndless : (ℕ → Bool) → Wl → Type 0
IsEndless P s = (id : ℕ) → P id ≡ true → LeadsOn P id s

abbrev with_sync : Bool → Subsurface → Subsurface
with_sync sync sub = record sub { sync = sync }

module _ (s : Wl) (ss : ℕ) {sub : Subsurface} (sync : Bool)
    (here : at World.subsurfaces ss s ≡ ok sub) where
  -- Another subsurface, or this one with its mode changed
  kept :
      (x : ℕ) {y : Subsurface}
      → at World.subsurfaces x s ≡ ok y
      → (y' : Subsurface) × (at World.subsurfaces x (set_subsurface ss (with_sync sync sub) s)
          ≡ ok y')
        × (y'.surface ≡ y.surface)
        × (y'.id ≡ y.id)
  unfolding at
  kept x {y} e =
      let (m, em, ey) = >>=-eq-ok (metadata_of x s.world.memory) _ e in
      elim (Bool-cases (x == ss)) [
        | inl t ↦
            let same : x ≡ ss = (==_iff x ss).0 t in
            let sub_y : sub ≡ y =
              ok_injective here (subst (λ z. at World.subsurfaces z s ≡ ok y) same e) in
            (
              with_sync sync sub,
              >>=-after _ em (rw t refl),
              ap (λ z. z.surface) sub_y,
              ap (λ z. z.id) sub_y,
            )
        | inr t ↦ (y, >>=-after _ em (rw t ey), refl, refl)
      ]

  kept-IsEndless :
      (P : ℕ → Bool) → IsEndless P s → IsEndless P (set_subsurface ss (with_sync sync sub) s)
  unfolding object_data_of at
  kept-IsEndless P endless id holds =
      let l = endless id holds in
      let (sub', e, same, _) = kept l.address l.stored in
      let (child', f, _, same_id) = kept l.child_at l.child_stored in
      record {
        address = l.address;
        subsurface = sub';
        surface_at = l.surface_at;
        surface = l.surface;
        child_at = l.child_at;
        child = child';
        others = l.others;
        object = l.object;
        stored = e;
        surfaced = same ∙ l.surfaced;
        surface_stored = l.surface_stored;
        children = l.children;
        child_stored = f;
        again = ap P same_id ∙ l.again;
      }

first_child :
    (visit : ℕ → Wl → Exec Wl) (c : ℕ) (rest : List ℕ) (s : Wl) {sub : Subsurface}
    → at World.subsurfaces c s ≡ ok sub
    → visit sub.id s ≡ out_of_fuel
    → for_children visit (c ∷ rest) s ≡ out_of_fuel
unfolding for_children
first_child visit c rest s here e = >>=-after _ here (ap (λ r. r >>= for_children visit rest) e)

surface_kept :
    (a ss : ℕ) (x : Subsurface) (s : Wl)
    → at World.surfaces a (set_subsurface ss x s) ≡ at World.surfaces a s
unfolding at
surface_kept a ss x s = refl

with_children :
    (visit : ℕ → Wl → Exec Wl) (o : Option (List ℕ)) (cs : List ℕ) (s : Wl)
    → o ≡ some cs
    → (elim o [ none ↦ ok s | some children ↦ for_children visit children s ])
      ≡ for_children visit cs s
with_children visit o cs s e = rw e refl

-- Where the first children lead on for ever, wl_subsurface.set_sync and set_desync never return: no
-- depth of the recursion is enough.
pub set_mode_endless :
    (P : ℕ → Bool) (fuel : ℕ) (sync : Bool) (self : ℕ) (s : Wl)
    → IsEndless P s
    → P self ≡ true
    → set_mode fuel sync self s ≡ out_of_fuel
unfolding set_mode
set_mode_endless P zero sync self s endless holds = refl
set_mode_endless P (suc fuel) sync self s endless holds =
    let l = endless self holds in
    let s1 = set_subsurface l.address (with_sync sync l.subsurface) s in
    let endless1 = kept-IsEndless s l.address sync l.stored P endless in
    let (child', f, _, same_id) = kept s l.address sync l.stored l.child_at l.child_stored in
    >>=-after _ l.object (
      >>=-after _ l.stored (
        >>=-after _ (ap some_or_undefined l.surfaced) (
          >>=-after _ (surface_kept l.surface_at l.address _ s ∙ l.surface_stored) (
            with_children (set_mode fuel sync) l.surface.children (l.child_at ∷ l.others) s1
              l.children
            ∙ first_child (set_mode fuel sync) l.child_at l.others s1 f
                (set_mode_endless P fuel sync child'.id s1 endless1 (ap P same_id ∙ l.again))))))
