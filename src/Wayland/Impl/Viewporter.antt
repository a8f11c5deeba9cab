-- ===== src/Wayland/Impl/Viewporter.antt =====
-- wayland/impl/viewporter.c: wp_viewporter and wp_viewport. The source rectangle is kept in the 256ths
-- in which it arrives; the tests of the `double` values are tests of these.
use cuts.Base.{
  ℕ, ◌+◌, Bool, true, false, ◌&&◌, ◌||◌, not, Option, none, some, List, [], ◌∷◌, ltb, ◌==◌,
  if◌then◌else◌, Exec, ok, undefined, ◌>>=◌, ◌>>◌, require, ℤ, pos, negsuc,
}
use cuts.Wayland.Message.{Arg, i_val, f_val, o_val, n_val}
use cuts.Wayland.Impl.State.{ViewportState}
use cuts.Wayland.Impl.World.{
  World, Wl, some_or_undefined, at, set_surface, set_viewport, self_object, refuse,
  check_if_not_registered, check_if_registered, allocate, take_reference, give_reference,
  add_object,
}
use cuts.Wayland.Impl.Surface.{no_region}
use cuts.Wayland.Impl.Requests.{is_positive}
use cuts.Wayland.Impl.Shm.{destroy_object}
use cuts.Wayland.Impl.Xdg.{no_size}

abbrev pub no_viewport_state : ViewportState
no_viewport_state = record { src_set = false; dst_set = false; src = no_region; dst = no_size }

module _ (iface : ℕ) where
  -- The result of `c_malloc` is not tested.
  unfoldable pub get_viewport : List Arg → Wl → Exec (ℤ × Wl)
  unfolding check_if_not_registered check_if_registered allocate take_reference add_object
  get_viewport (o_val self ∷ n_val id ∷ o_val surface_id ∷ []) s =
      check_if_not_registered self id s (
        check_if_registered self surface_id s λ surface. (do
          a ← some_or_undefined surface.object_data
          u ← at World.surfaces a s
          elim u.viewport [
            | some _ ↦ refuse self 0 s
            | none ↦ do
              (v, s1) ← allocate s
              require (ltb 0 v)
              s2 ← take_reference a s1
              s3 ← take_reference v (set_surface a (record u { viewport = some v }) s2)
              o ← self_object self s3
              s4 ← add_object id o.version iface v s3
              ok (
                pos 0,
                set_viewport v
                    (record {
                      id = id;
                      surface = some a;
                      pending = no_viewport_state;
                      active = no_viewport_state;
                    })
                    s4,
              )
          ]))
  get_viewport _ s = undefined

abbrev pub is_negative : ℤ → Bool
is_negative (pos n) = false
is_negative (negsuc n) = true

-- The source -1 in 256ths, and the destination -1
abbrev pub is_minus_one : ℕ → ℤ → Bool
is_minus_one one (pos n) = false
is_minus_one one (negsuc n) = n + 1 == one

-- The error that the tests of `wp_viewport_set_source` report
unfoldable pub source_error : (x y width height : ℤ) → Option ℕ
source_error x y width height =
    if is_minus_one 256 x && is_minus_one 256 y && is_minus_one 256 width && is_minus_one 256 height
    then none
    else if is_negative x || is_negative y
    then some 1
    else if not (is_positive width) || not (is_positive height)
    then some 0
    else none

unfoldable pub destination_error : (width height : ℤ) → Option ℕ
destination_error width height =
    if is_minus_one 1 width && is_minus_one 1 height
    then none
    else if not (is_positive width) || not (is_positive height)
    then some 0
    else none

-- A request on the viewport that `self` stands for, where its surface is still there
unfoldable pub on_viewport : Option ℕ → (ViewportState → ViewportState) → ℕ → Wl → Exec (ℤ × Wl)
on_viewport error f self s = do
  o ← self_object self s
  a ← some_or_undefined o.object_data
  v ← at World.viewports a s
  elim v.surface [
    | none ↦ refuse self 3 s
    | some _ ↦ elim error [
      | some code ↦ refuse self code s
      | none ↦ ok (pos 0, set_viewport a (record v { pending = f v.pending }) s)
    ]
  ]

unfoldable pub set_source : List Arg → Wl → Exec (ℤ × Wl)
unfolding on_viewport source_error
set_source (o_val self ∷ f_val x ∷ f_val y ∷ f_val width ∷ f_val height ∷ []) s =
    on_viewport (source_error x y width height)
      (λ p. record p {
        src = record { x = x; y = y; width = width; height = height };
        src_set = true;
      })
      self s
set_source _ s = undefined

unfoldable pub set_destination : List Arg → Wl → Exec (ℤ × Wl)
unfolding on_viewport destination_error
set_destination (o_val self ∷ i_val width ∷ i_val height ∷ []) s =
    on_viewport (destination_error width height)
      (λ p. record p { dst = record { width = width; height = height }; dst_set = true }) self s
set_destination _ s = undefined

unfoldable pub leave_viewport : ℕ → Option ℕ → Wl → Exec Wl
unfolding give_reference
leave_viewport v none s = ok s
leave_viewport v (some a) s = do
  u ← at World.surfaces a s
  s1 ← give_reference v (set_surface a (record u { viewport = none }) s)
  give_reference a s1

unfoldable pub viewport_destroy : List Arg → Wl → Exec (ℤ × Wl)
unfolding leave_viewport destroy_object
viewport_destroy (o_val self ∷ []) s = do
  o ← self_object self s
  a ← some_or_undefined o.object_data
  v ← at World.viewports a s
  s1 ← leave_viewport a v.surface s
  v1 ← at World.viewports a s1
  destroy_object (o_val self ∷ []) (set_viewport a (record v1 { surface = none }) s1)
viewport_destroy _ s = undefined
