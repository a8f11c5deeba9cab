-- ===== src/Wayland/Impl/Subsurface/Modes.antt =====
-- What `wl_subsurface_set_sync` and `wl_subsurface_set_desync` may change: the modes.
use cuts.Base.{
  ℕ, ◌≡◌, refl, sym, ap, ◌∙◌, subst, ◌⊎◌, inl, inr, Bool, false, Option, some, ◌==◌, ==_iff,
  Bool-cases, ok, >>=-after,
}
use cuts.Util.Mem.{Metadata, metadata_of}
use cuts.Wayland.Impl.State.{Subsurface}
use cuts.Wayland.Impl.World.{World, Wl, some_or_undefined, at, set_subsurface, object_data_of}

abbrev pub with_sync : Bool → Subsurface → Subsurface
with_sync sync sub = record sub { sync = sync }

abbrev pub with_subsurfaces : (ℕ → Option Subsurface) → Wl → Wl
with_subsurfaces table s = record s { world = record (s.world) { subsurfaces = table } }

pub unsome : {a b : Subsurface} → some a ≡ some b → a ≡ b
unsome e = cc

pub unsome_at : {a b : ℕ} → some a ≡ some b → a ≡ b
unsome_at e = cc

-- The second state is the first with another table of subsurfaces, in which each has at most its
-- mode changed, to `sync`.
pub record OnlyModes (sync : Bool) (s s' : Wl) : Type 0 where
  pub rest : s' ≡ with_subsurfaces s'.world.subsurfaces s
  pub modes :
      (x : ℕ)
      → (s'.world.subsurfaces x ≡ s.world.subsurfaces x)
        ⊎ ((sub : Subsurface) × (s.world.subsurfaces x ≡ some sub)
            × (s'.world.subsurfaces x ≡ some (with_sync sync sub)))

pub OnlyModes-refl : (sync : Bool) (s : Wl) → OnlyModes sync s s
OnlyModes-refl sync s = record { rest = refl; modes = λ x. inl refl }

pub OnlyModes-trans :
    (sync : Bool) {s t u : Wl} → OnlyModes sync s t → OnlyModes sync t u → OnlyModes sync s u
OnlyModes-trans sync {s} {t} {u} h k = record {
  rest = k.rest ∙ ap (with_subsurfaces u.world.subsurfaces) h.rest;
  modes = λ x. both x (h.modes x) (k.modes x);
}
  where
    both :
        (x : ℕ)
        → (t.world.subsurfaces x ≡ s.world.subsurfaces x)
          ⊎ ((sub : Subsurface) × (s.world.subsurfaces x ≡ some sub)
              × (t.world.subsurfaces x ≡ some (with_sync sync sub)))
        → (u.world.subsurfaces x ≡ t.world.subsurfaces x)
          ⊎ ((sub : Subsurface) × (t.world.subsurfaces x ≡ some sub)
              × (u.world.subsurfaces x ≡ some (with_sync sync sub)))
        → (u.world.subsurfaces x ≡ s.world.subsurfaces x)
          ⊎ ((sub : Subsurface) × (s.world.subsurfaces x ≡ some sub)
              × (u.world.subsurfaces x ≡ some (with_sync sync sub)))
    both x (inl e) (inl f) = inl (f ∙ e)
    both x (inl e) (inr (sub, f, g)) = inr (sub, sym e ∙ f, g)
    both x (inr (sub, e, f)) (inl g) = inr (sub, e, g ∙ f)
    both x (inr (sub, e, f)) (inr (sub', g, k)) =
        inr (sub, e, k ∙ ap (λ o. some (with_sync sync o)) (unsome (sym g ∙ f)))

pub set_subsurface-OnlyModes :
    (s : Wl) (ss : ℕ) {sub : Subsurface} (sync : Bool)
    → s.world.subsurfaces ss ≡ some sub
    → OnlyModes sync s (set_subsurface ss (with_sync sync sub) s)
set_subsurface-OnlyModes s ss {sub} sync here = record {
  rest = refl;
  modes = λ x. elim (Bool-cases (x == ss)) [
    | inl t ↦
        let same : ss ≡ x = sym ((==_iff x ss).0 t) in
        inr (sub, subst (λ z. s.world.subsurfaces z ≡ some sub) same here, rw t refl)
    | inr t ↦ inl (rw t refl)
  ];
}

module _ {sync : Bool} {s s' : Wl} (h : OnlyModes sync s s') where
  pub object_kept : (id : ℕ) → object_data_of id s' ≡ object_data_of id s
  unfolding object_data_of
  object_kept id = ap (λ t. object_data_of id t) h.rest

  pub memory_kept : (a : ℕ) → metadata_of a s'.world.memory ≡ metadata_of a s.world.memory
  memory_kept a = ap (λ t. metadata_of a t.world.memory) h.rest

  pub surface_kept : (a : ℕ) → at World.surfaces a s' ≡ at World.surfaces a s
  unfolding at
  surface_kept a = ap (λ t. at World.surfaces a t) h.rest

  -- A subsurface is still there, with its mode changed at most.
  pub subsurface_kept :
      (x : ℕ) {sub : Subsurface}
      → s.world.subsurfaces x ≡ some sub
      → (sub' : Subsurface) × (s'.world.subsurfaces x ≡ some sub')
        × (with_sync sync sub' ≡ with_sync sync sub)
  subsurface_kept x {sub} e = elim (h.modes x) [
    | inl f ↦ (sub, f ∙ e, refl)
    | inr (old, f, g) ↦ (with_sync sync old, g, ap (with_sync sync) (unsome (sym f ∙ e)))
  ]

pub at_lem :
    (x : ℕ) (s : Wl) {m : Metadata} {sub : Subsurface}
    → metadata_of x s.world.memory ≡ ok m
    → s.world.subsurfaces x ≡ some sub
    → at World.subsurfaces x s ≡ ok sub
unfolding at
at_lem x s em e = >>=-after _ em (ap some_or_undefined e)

-- A mode that is `sync` already stays.
pub mode_kept :
    (sync : Bool) {s s' : Wl} (x : ℕ) (sub : Subsurface)
    → OnlyModes sync s s'
    → s.world.subsurfaces x ≡ some (with_sync sync sub)
    → s'.world.subsurfaces x ≡ some (with_sync sync sub)
mode_kept sync x sub h e = elim (h.modes x) [
  | inl f ↦ f ∙ e
  | inr (old, f, g) ↦ g ∙ ap (λ z. some (with_sync sync z)) (unsome (sym f ∙ e))
]

pub set_subsurface-apart :
    (s : Wl) (ss : ℕ) (sub : Subsurface) (x : ℕ)
    → (x == ss) ≡ false
    → (set_subsurface ss sub s).world.subsurfaces x ≡ s.world.subsurfaces x
set_subsurface-apart s ss sub x apart = rw apart refl
