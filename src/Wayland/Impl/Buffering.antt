-- ===== src/Wayland/Impl/Buffering.antt =====
-- The double buffering of a surface: what the requests set is pending until a commit. The abstract
-- view keeps the contents that are shown and the contents that the next commit will show.
use cuts.Base.{ℕ, ◌≡◌, refl, ap, ◌∙◌, false, Option, List, [], ◌∷◌, ℤ}
use cuts.Wayland.Impl.State.{Region, SurfaceState, Surface}
use cuts.Wayland.Impl.Surface.{no_region, taken, apply_pending}
use cuts.Wayland.Impl.Requests.{
  pend_scale, pend_transform, pend_input, pend_opaque, pend_damage, pend_buffer,
}
use cuts.Wayland.Impl.Commit.{new_surface}

-- A request on a surface, or the commit of it
pub data Step : Type 0 where
  scale_set : ℤ → Step
  transform_set : ℕ → Step
  input_set opaque_set damaged : Region → Step
  attached : Option ℕ → Step
  commited : Step

unfoldable pub step : Step → Surface → Surface
unfolding apply_pending pend_scale pend_transform pend_input pend_opaque pend_damage pend_buffer
step (scale_set scale) u = pend_scale scale u
step (transform_set transform) u = pend_transform transform u
step (input_set region) u = pend_input region u
step (opaque_set region) u = pend_opaque region u
step (damaged region) u = pend_damage region u
step (attached buffer) u = pend_buffer buffer u
step commited u = apply_pending u

unfoldable pub run_steps : List Step → Surface → Surface
unfolding step
run_steps [] u = u
run_steps (q ∷ steps) u = run_steps steps (step q u)

-- What a commit brings up to date
pub record Contents : Type 0 where
  pub scale : ℤ
  pub transform : ℕ
  pub input : Region
  pub opaque : Region

pub record Buffered : Type 0 where
  pub shown : Contents
  pub next : Contents

-- A request changes the next contents only; a commit shows them.
unfoldable pub spec_step : Step → Buffered → Buffered
spec_step (scale_set scale) b = record b { next = record (b.next) { scale = scale } }
spec_step (transform_set transform) b = record b {
  next = record (b.next) { transform = transform };
}
spec_step (input_set region) b = record b { next = record (b.next) { input = region } }
spec_step (opaque_set region) b = record b { next = record (b.next) { opaque = region } }
spec_step (damaged region) b = b
spec_step (attached buffer) b = b
spec_step commited b = record { shown = b.next; next = b.next }

unfoldable pub run_spec : List Step → Buffered → Buffered
unfolding spec_step
run_spec [] b = b
run_spec (q ∷ steps) b = run_spec steps (spec_step q b)

abbrev contents_of : SurfaceState → Contents
contents_of a = record {
  scale = a.scale;
  transform = a.transform;
  input = a.input;
  opaque = a.opaque;
}

unfoldable pub view : Surface → Buffered
unfolding apply_pending
view u = record { shown = contents_of u.active; next = contents_of ((apply_pending u).active) }

view-step : (q : Step) (u : Surface) → view (step q u) ≡ spec_step q (view u)
unfolding view step spec_step
view-step (scale_set scale) u = refl
view-step (transform_set transform) u = refl
view-step (input_set region) u = refl
view-step (opaque_set region) u = refl
view-step (damaged region) u = refl
view-step (attached buffer) u = refl
view-step commited u = refl

-- After any requests and commits, in any order, what a surface shows and what its next commit will
-- show are those of the double buffer of the abstract view.
pub view-run_steps :
    (steps : List Step) (u : Surface) → view (run_steps steps u) ≡ run_spec steps (view u)
unfolding run_steps run_spec
view-run_steps [] u = refl
view-run_steps (q ∷ steps) u = view-run_steps steps (step q u) ∙ ap (run_spec steps) (view-step q u)

-- The damage neither waits for a commit nor was applied by one.
record IsUndamaged (u : Surface) : Type 0 where
  unflagged : u.pending.commited.damage ≡ false
  unapplied : u.active.damage ≡ no_region

step-IsUndamaged : (q : Step) {u : Surface} → IsUndamaged u → IsUndamaged (step q u)
unfolding step
step-IsUndamaged (scale_set scale) h = record { unflagged = h.unflagged; unapplied = h.unapplied }
step-IsUndamaged (transform_set transform) h = record {
  unflagged = h.unflagged;
  unapplied = h.unapplied;
}
step-IsUndamaged (input_set region) h = record { unflagged = h.unflagged; unapplied = h.unapplied }
step-IsUndamaged (opaque_set region) h = record { unflagged = h.unflagged; unapplied = h.unapplied }
step-IsUndamaged (damaged region) h = record { unflagged = h.unflagged; unapplied = h.unapplied }
step-IsUndamaged (attached buffer) h = record { unflagged = h.unflagged; unapplied = h.unapplied }
step-IsUndamaged commited {u} h = record {
  unflagged = refl;
  unapplied = ap (λ b. taken b u.pending.damage u.active.damage) h.unflagged ∙ h.unapplied;
}

run_steps-IsUndamaged :
    (steps : List Step) {u : Surface} → IsUndamaged u → IsUndamaged (run_steps steps u)
unfolding run_steps
run_steps-IsUndamaged [] h = h
run_steps-IsUndamaged (q ∷ steps) h = run_steps-IsUndamaged steps (step-IsUndamaged q h)

-- Whatever the client requests and commits on a new surface, no damage becomes active.
pub damage_never_active :
    (steps : List Step) → (run_steps steps new_surface).active.damage ≡ no_region
damage_never_active steps =
    (run_steps-IsUndamaged steps (record { unflagged = refl; unapplied = refl })).unapplied
