-- ===== src/Wayland/Impl/Requests.antt =====
-- wayland/impl/wayland.c: the requests of wl_surface, wl_region and wl_compositor, with
-- `damage_surface`. The arguments of a request come by its signature, and the numbers of the errors
-- are those of the protocol.
use cuts.Base.{
  ℕ, Bool, true, false, ◌&&◌, ◌||◌, Option, none, some, List, [], ◌∷◌, ◌++◌, ltb, ◌==◌,
  if◌then◌else◌, Exec, ok, undefined, ◌>>=◌, ℤ, pos, negsuc,
}
use cuts.Base.Lists.{length}
use cuts.Wayland.Message.{Arg, i_val, o_val, n_val, e_val}
use cuts.Wayland.Objects.{object_add}
use cuts.Wayland.Receive.{CallbackInterface}
use cuts.Wayland.Impl.State.{Region, SurfaceState, Surface}
use cuts.Wayland.Impl.World.{
  World, Wl, some_or_undefined, at, set_surface, self_object, object_data_of, refuse,
  check_if_not_registered, check_if_registered, take_reference, give_reference,
}
use cuts.Wayland.Impl.Surface.{no_region}

-- The pending state after a request; each request but the damage sets a flag with its value.
abbrev pub pend : (SurfaceState → SurfaceState) → Surface → Surface
pend f u = record u { pending = f u.pending }

unfoldable pub pend_scale : ℤ → Surface → Surface
pend_scale scale =
    pend (λ p. record p { scale = scale; commited = record (p.commited) { scale = true } })

unfoldable pub pend_transform : ℕ → Surface → Surface
pend_transform transform =
    pend
      (λ p. record p { transform = transform; commited = record (p.commited) { transform = true } })

unfoldable pub pend_input : Region → Surface → Surface
pend_input region =
    pend (λ p. record p { input = region; commited = record (p.commited) { input = true } })

unfoldable pub pend_opaque : Region → Surface → Surface
pend_opaque region =
    pend (λ p. record p { opaque = region; commited = record (p.commited) { opaque = true } })

-- `damage_surface`
unfoldable pub pend_damage : Region → Surface → Surface
pend_damage region = pend (λ p. record p { damage = region })

-- A change of the surface that `self` stands for
unfoldable pub on_surface : (Surface → Surface) → ℕ → Wl → Exec (ℤ × Wl)
on_surface f self s = do
  a ← object_data_of self s
  u ← at World.surfaces a s
  ok (pos 0, set_surface a (f u) s)

abbrev pub invalid_scale : ℕ
invalid_scale = 0

abbrev pub invalid_transform : ℕ
invalid_transform = 1

abbrev pub invalid_offset : ℕ
invalid_offset = 3

abbrev pub implementation : ℕ
implementation = 3

abbrev pub flipped_270 : ℕ
flipped_270 = 7

abbrev pub is_positive : ℤ → Bool
is_positive (pos n) = ltb 0 n
is_positive (negsuc n) = false

unfoldable pub set_buffer_scale : List Arg → Wl → Exec (ℤ × Wl)
unfolding on_surface pend_scale
set_buffer_scale (o_val self ∷ i_val (negsuc n) ∷ []) s = do
  o ← self_object self s
  refuse self invalid_scale s
set_buffer_scale (o_val self ∷ i_val (pos scale) ∷ []) s =
    on_surface (pend_scale (pos scale)) self s
set_buffer_scale _ s = undefined

unfoldable pub set_buffer_transform : List Arg → Wl → Exec (ℤ × Wl)
unfolding on_surface pend_transform
set_buffer_transform (o_val self ∷ e_val transform ∷ []) s =
    if ltb flipped_270 transform
    then (do o ← self_object self s; refuse self invalid_transform s)
    else on_surface (pend_transform transform) self s
set_buffer_transform _ s = undefined

unfoldable pub surface_damage : List Arg → Wl → Exec (ℤ × Wl)
unfolding on_surface pend_damage
surface_damage (o_val self ∷ i_val x ∷ i_val y ∷ i_val width ∷ i_val height ∷ []) s =
    on_surface (pend_damage (record { x = x; y = y; width = width; height = height })) self s
surface_damage _ s = undefined

-- The region of an object that must be registered
unfoldable pub with_region : ℕ → ℕ → Wl → (Region → Exec (ℤ × Wl)) → Exec (ℤ × Wl)
unfolding check_if_registered
with_region self id s rest =
    check_if_registered self id s
      λ o. do a ← some_or_undefined o.object_data; region ← at World.regions a s; rest region

unfoldable pub set_opaque_region : List Arg → Wl → Exec (ℤ × Wl)
unfolding on_surface pend_opaque with_region
set_opaque_region (o_val self ∷ o_val region ∷ []) s =
    if region == 0
    then on_surface (pend_opaque no_region) self s
    else with_region self region s (λ r. on_surface (pend_opaque r) self s)
set_opaque_region _ s = undefined

-- The region that has no end
abbrev pub whole_region : Region
whole_region = record { x = pos 0; y = pos 0; width = negsuc 0; height = negsuc 0 }

unfoldable pub set_input_region : List Arg → Wl → Exec (ℤ × Wl)
unfolding on_surface pend_input with_region
set_input_region (o_val self ∷ o_val region ∷ []) s =
    if region == 0
    then on_surface (pend_input whole_region) self s
    else with_region self region s (λ r. on_surface (pend_input r) self s)
set_input_region _ s = undefined

abbrev pub max_frames : ℕ
max_frames = 8

module _ (callback : CallbackInterface) where
  unfoldable pub surface_frame : List Arg → Wl → Exec (ℤ × Wl)
  unfolding check_if_not_registered
  surface_frame (o_val self ∷ n_val id ∷ []) s = check_if_not_registered self id s (do
    a ← object_data_of self s
    u ← at World.surfaces a s
    if ltb (length u.frames) max_frames
        then (do
          (registry, _) ← object_add s.registry id callback.version (some callback.address) none
          ok (
            pos 0,
            set_surface a (record u { frames = u.frames ++ id ∷ [] })
                (record s { registry = registry }),
          ))
        else refuse self implementation s)
  surface_frame _ s = undefined

-- The reference to the buffer that was attached before
unfoldable pub drop_pending : Surface → Wl → Exec Wl
drop_pending u s =
    if u.pending.commited.buffer
    then elim u.pending.buffer [ none ↦ ok s | some b ↦ give_reference b s ]
    else ok s

unfoldable pub pend_buffer : Option ℕ → Surface → Surface
pend_buffer buffer =
    pend (λ p. record p { buffer = buffer; commited = record (p.commited) { buffer = true } })

abbrev pub refer : Option ℕ → Wl → Exec Wl
refer none s = ok s
refer (some b) s = take_reference b s

unfoldable pub attach_buffer : ℕ → Option ℕ → Wl → Exec (ℤ × Wl)
unfolding drop_pending pend_buffer
attach_buffer a buffer s = do
  u ← at World.surfaces a s
  s1 ← drop_pending u s
  s2 ← refer buffer (set_surface a (pend_buffer buffer u) s1)
  ok (pos 0, s2)

unfoldable pub surface_attach : List Arg → Wl → Exec (ℤ × Wl)
unfolding attach_buffer check_if_registered
surface_attach (o_val self ∷ o_val buffer ∷ i_val x ∷ i_val y ∷ []) s = do
  o ← self_object self s
  a ← some_or_undefined o.object_data
  if ltb 4 o.version && (is_positive x || is_positive y)
      then refuse self invalid_offset s
      else if ltb 0 buffer
      then check_if_registered self buffer s (λ b. attach_buffer a b.object_data s)
      else attach_buffer a none s
surface_attach _ s = undefined
