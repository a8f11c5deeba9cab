-- ===== src/Wayland/Impl/Xdg/Titles.antt =====
-- The strings of an xdg_toplevel, which outlive it.
use cuts.Base.{
  ℕ, ◌≡◌, refl, ap, ◌∙◌, Option, none, some, List, [], ◌∷◌, ==_refl, Exec, ok, undefined, ◌>>=◌,
  >>=-eq-ok, >>=-after, ok_injective, ℤ,
}
use cuts.Util.Mem.{Metadata, metadata_of, unref}
use cuts.Wayland.Message.{o_val, s_val}
use cuts.Wayland.Objects.{Effect, object_del}
use cuts.Wayland.Impl.State.{XdgSurface, Text, chars, freed}
use cuts.Wayland.Impl.World.{
  World, Wl, some_or_undefined, at, object_data_of, run_deferred, give_reference, give_effects,
  delete_object,
}
use cuts.Wayland.Impl.Xdg.{
  leave_toplevel, clear_role, free_text, free_texts, toplevel_destroy, set_title,
}

-- What stands in the blocks of xdg surfaces is the same.
abbrev Same : Wl → Wl → Type 0
Same s s' = s'.world.xdg_surfaces ≡ s.world.xdg_surfaces

reference-Same : (a : ℕ) (s : Wl) {s' : Wl} → give_reference a s ≡ ok s' → Same s s'
unfolding give_reference
reference-Same a s e =
    let (memory, _, f) = >>=-eq-ok (unref (run_deferred s.world) a s.world.memory) _ e in
    ap (λ t. t.world.xdg_surfaces) (ok_injective f refl)

effects-Same :
    (effects : List Effect) (s : Wl) {s' : Wl} → give_effects effects s ≡ ok s' → Same s s'
unfolding give_effects
effects-Same [] s e = ap (λ t. t.world.xdg_surfaces) (ok_injective e refl)
effects-Same (Effect.unref a ∷ effects) s e =
    let (s1, f, g) = >>=-eq-ok (give_reference a s) _ e in
    effects-Same effects s1 g ∙ reference-Same a s f
effects-Same (Effect.delete_id id ∷ effects) s e = effects-Same effects _ e

delete-Same : (id : ℕ) (s : Wl) {s' : Wl} → delete_object id s ≡ ok s' → Same s s'
unfolding delete_object
delete-Same id s e =
    let ((registry, _, effects), _, f) = >>=-eq-ok (object_del s.registry id) _ e in
    effects-Same effects _ f

role-Same : (o : Option ℕ) (s : Wl) {s' : Wl} → clear_role o s ≡ ok s' → Same s s'
unfolding clear_role
role-Same none s e = ap (λ t. t.world.xdg_surfaces) (ok_injective e refl)
role-Same (some a) s e =
    let (u, _, f) = >>=-eq-ok (at World.surfaces a s) _ e in
    ap (λ t. t.world.xdg_surfaces) (ok_injective f refl)

module _ (x : ℕ) (s : Wl) {xs : XdgSurface} (stored : s.world.xdg_surfaces x ≡ some xs) where
  at_same : {y : XdgSurface} → at World.xdg_surfaces x s ≡ ok y → y ≡ xs
  unfolding at
  at_same e =
      let (m, _, f) = >>=-eq-ok (metadata_of x s.world.memory) _ e in
      ok_injective f (ap some_or_undefined stored)

  texts_freed :
      {cs : List ℕ} {s' : Wl}
      → xs.title ≡ chars cs
      → free_texts x s ≡ ok s'
      → (xs' : XdgSurface) × (s'.world.xdg_surfaces x ≡ some xs') × (xs'.title ≡ freed)
  unfolding free_texts
  texts_freed titled e =
      let (y, e1, f1) = >>=-eq-ok (at World.xdg_surfaces x s) _ e in
      let (title, e2, f2) = >>=-eq-ok (free_text y.title) _ f1 in
      let (app_id, _, f3) = >>=-eq-ok (free_text y.app_id) _ f2 in
      let title_y : y.title ≡ chars _ = ap (λ z. z.title) (at_same e1) ∙ titled in
      let xs' = record y { title = title; app_id = app_id } in
      (
        xs',
        ap (λ t. t.world.xdg_surfaces x) (ok_injective f3 refl) ∙ rw (==_refl x) refl,
        ok_injective e2 (ap free_text title_y),
      )

stay : (x : ℕ) (s : Wl) {o : Option ℕ} → o ≡ none → leave_toplevel x o s ≡ ok s
unfolding leave_toplevel
stay x s e = rw e refl

twice :
    {t : Text} {A : Type 0} (next : Text → Exec A) → t ≡ freed → (free_text t >>= next) ≡ undefined
twice next e = ap (λ t. free_text t >>= next) e

-- After xdg_toplevel.destroy of a toplevel with a title, and without a parent, the xdg_surface keeps
-- the pointer to the freed title.
title_kept :
    (self x : ℕ) (s : Wl) {xs : XdgSurface} {cs : List ℕ} {r : ℤ} {s' : Wl}
    → object_data_of self s ≡ ok x
    → s.world.xdg_surfaces x ≡ some xs
    → xs.parent ≡ none
    → xs.title ≡ chars cs
    → toplevel_destroy (o_val self ∷ []) s ≡ ok (r, s')
    → (xs' : XdgSurface) × (s'.world.xdg_surfaces x ≡ some xs') × (xs'.title ≡ freed)
unfolding toplevel_destroy
title_kept self x s {xs} {s' = s'} object stored parent titled e =
    let f0 = rw object at e in
    let (y, e1, f1) = >>=-eq-ok (at World.xdg_surfaces x s) _ f0 in
    let same : y ≡ xs = at_same x s stored e1 in
    let (s1, e2, f2) = >>=-eq-ok (leave_toplevel x y.parent s) _ f1 in
    let (s2, e3, f3) = >>=-eq-ok (clear_role y.surface s1) _ f2 in
    let (s3, e4, f4) = >>=-eq-ok (free_texts x s2) _ f3 in
    let (s4, e5, f5) = >>=-eq-ok (delete_object self s3) _ f4 in
    let s1_s : s1 ≡ s = ok_injective e2 (stay x s (ap (λ z. z.parent) same ∙ parent)) in
    let stored2 : s2.world.xdg_surfaces x ≡ some xs =
      ap (λ t. t x) (role-Same y.surface s1 e3)
      ∙ (ap (λ t. t.world.xdg_surfaces x) s1_s ∙ stored) in
    let (xs', stored3, gone) = texts_freed x s2 stored2 titled e4 in
    let last : s' ≡ s4 = ap (λ t. t.1) (ok_injective f5 refl) in
    (
      xs',
      ap (λ t. t.world.xdg_surfaces x) last ∙ (ap (λ t. t x) (delete-Same self s3 e5) ∙ stored3),
      gone,
    )

-- When a toplevel with a title is destroyed, without a parent, and the same xdg_surface gets a
-- toplevel again, its first xdg_toplevel.set_title frees the old title a second time.
pub title_freed_twice :
    (self again x : ℕ) (s : Wl) {xs : XdgSurface} {cs : List ℕ} {r : ℤ} {s' : Wl} {m : Metadata}
    (title : List ℕ)
    → object_data_of self s ≡ ok x
    → s.world.xdg_surfaces x ≡ some xs
    → xs.parent ≡ none
    → xs.title ≡ chars cs
    → toplevel_destroy (o_val self ∷ []) s ≡ ok (r, s')
    → (s'' : Wl) → s''.world.xdg_surfaces x ≡ s'.world.xdg_surfaces x
    → object_data_of again s'' ≡ ok x
    → metadata_of x s''.world.memory ≡ ok m
    → set_title (o_val again ∷ s_val title ∷ []) s'' ≡ undefined
unfolding set_title at
title_freed_twice self again x s title object stored parent titled e s'' kept object'' alive =
    let (xs', stored', gone) = title_kept self x s object stored parent titled e in
    >>=-after _ object''
      (>>=-after _ (>>=-after _ alive (ap some_or_undefined (kept ∙ stored'))) (twice _ gone))
