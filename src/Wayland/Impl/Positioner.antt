-- ===== src/Wayland/Impl/Positioner.antt =====
-- wayland/impl/xdg-shell.c: xdg_positioner, and `calc_popup_coords`. An `int32_t`
-- that overflows is undefined.
pub mod Place
use cuts.Base.{
  ℕ, zero, suc, List, [], ◌∷◌, ◌==◌, if◌then◌else◌, Exec, ok, undefined, ◌>>=◌, ◌>>◌, ℤ, pos,
}
use cuts.Base.Int.{◌+ℤ◌, ◌-ℤ◌, half, int}
use cuts.Wayland.Message.{Arg, i_val, o_val, n_val, e_val}
use cuts.Wayland.Impl.State.{Region, Positioner}
use cuts.Wayland.Impl.World.{
  World, Wl, at, set_positioner, self_object, object_data_of, refuse, check_if_not_registered,
  allocate, add_object,
}
use cuts.Wayland.Impl.Surface.{no_region}

-- The values of an anchor and of a gravity, with one for 0 and all that the protocol does not name
pub data Edge : Type 0 where
  top bottom left right top_left bottom_left top_right bottom_right nowhere : Edge

-- The numbers of the protocol
unfoldable pub edge_from : List Edge → ℕ → Edge
edge_from [] n = nowhere
edge_from (e ∷ edges) zero = e
edge_from (e ∷ edges) (suc n) = edge_from edges n

unfoldable pub edge_of : ℕ → Edge
unfolding edge_from
edge_of n =
    edge_from
      (nowhere ∷ top ∷ bottom ∷ left ∷ right ∷ top_left ∷ bottom_left ∷ top_right ∷ bottom_right
        ∷ [])
      n

-- The four `switch` statements of `calc_popup_coords`
unfoldable pub anchor_x : (anchor : Edge) (width : ℤ) → ℤ
anchor_x right width = width
anchor_x top_right width = width
anchor_x bottom_right width = width
anchor_x top width = half width
anchor_x bottom width = half width
anchor_x _ width = pos 0

unfoldable pub anchor_y : (anchor : Edge) (height : ℤ) → ℤ
anchor_y bottom height = height
anchor_y bottom_left height = height
anchor_y bottom_right height = height
anchor_y left height = half height
anchor_y right height = half height
anchor_y _ height = pos 0

-- `-a`
abbrev pub negated : ℤ → Exec ℤ
negated a = int (pos 0 -ℤ a)

unfoldable pub gravity_x : (gravity : Edge) (width : ℤ) → Exec ℤ
gravity_x left width = negated width
gravity_x top_left width = negated width
gravity_x bottom_left width = negated width
gravity_x top width = do a ← negated width; ok (half a)
gravity_x bottom width = do a ← negated width; ok (half a)
gravity_x _ width = ok (pos 0)

unfoldable pub gravity_y : (gravity : Edge) (height : ℤ) → Exec ℤ
gravity_y top height = negated height
gravity_y top_left height = negated height
gravity_y top_right height = negated height
gravity_y left height = do a ← negated height; ok (half a)
gravity_y right height = do a ← negated height; ok (half a)
gravity_y _ height = ok (pos 0)

-- `a + b + c + d`
unfoldable pub sum_of : (a b c d : ℤ) → Exec ℤ
sum_of a b c d = do ab ← int (a +ℤ b); abc ← int (ab +ℤ c); int (abc +ℤ d)

unfoldable pub calc_popup_coords : Positioner → Exec (ℤ × ℤ)
unfolding anchor_x anchor_y gravity_x gravity_y sum_of edge_of
calc_popup_coords p = do
  dx ← gravity_x (edge_of p.gravity) p.width
  dy ← gravity_y (edge_of p.gravity) p.height
  x ← sum_of p.anchor_rect.x p.x (anchor_x (edge_of p.anchor) p.anchor_rect.width) dx
  y ← sum_of p.anchor_rect.y p.y (anchor_y (edge_of p.anchor) p.anchor_rect.height) dy
  ok (x, y)

-- The block as `calloc` leaves it
abbrev pub new_positioner : Positioner
new_positioner = record {
  x = pos 0;
  y = pos 0;
  width = pos 0;
  height = pos 0;
  gravity = 0;
  anchor = 0;
  constraint_adjustment = 0;
  anchor_rect = no_region;
}

module _ (iface : ℕ) where
  unfoldable pub create_positioner : List Arg → Wl → Exec (ℤ × Wl)
  unfolding check_if_not_registered allocate add_object
  create_positioner (o_val self ∷ n_val id ∷ []) s = check_if_not_registered self id s (do
    (a, s1) ← allocate s
    if a == 0 then refuse self 2 s1 else (do
      o ← self_object self s1
      s2 ← add_object id o.version iface a (set_positioner a new_positioner s1)
      ok (pos 0, s2)))
  create_positioner _ s = undefined

-- A change of the positioner that `self` stands for
unfoldable pub on_positioner : (Positioner → Positioner) → ℕ → Wl → Exec (ℤ × Wl)
on_positioner f self s = do
  a ← object_data_of self s
  p ← at World.positioners a s
  ok (pos 0, set_positioner a (f p) s)

unfoldable pub set_size : List Arg → Wl → Exec (ℤ × Wl)
unfolding on_positioner
set_size (o_val self ∷ i_val width ∷ i_val height ∷ []) s =
    on_positioner (λ p. record p { width = width; height = height }) self s
set_size _ s = undefined

unfoldable pub set_offset : List Arg → Wl → Exec (ℤ × Wl)
unfolding on_positioner
set_offset (o_val self ∷ i_val x ∷ i_val y ∷ []) s =
    on_positioner (λ p. record p { x = x; y = y }) self s
set_offset _ s = undefined

unfoldable pub set_gravity : List Arg → Wl → Exec (ℤ × Wl)
unfolding on_positioner
set_gravity (o_val self ∷ e_val gravity ∷ []) s =
    on_positioner (λ p. record p { gravity = gravity }) self s
set_gravity _ s = undefined

unfoldable pub set_constraint_adjustment : List Arg → Wl → Exec (ℤ × Wl)
unfolding on_positioner
set_constraint_adjustment (o_val self ∷ e_val adjustment ∷ []) s =
    on_positioner (λ p. record p { constraint_adjustment = adjustment }) self s
set_constraint_adjustment _ s = undefined

unfoldable pub set_anchor : List Arg → Wl → Exec (ℤ × Wl)
unfolding on_positioner
set_anchor (o_val self ∷ e_val anchor ∷ []) s =
    on_positioner (λ p. record p { anchor = anchor }) self s
set_anchor _ s = undefined

unfoldable pub set_anchor_rect : List Arg → Wl → Exec (ℤ × Wl)
unfolding on_positioner
set_anchor_rect (o_val self ∷ i_val x ∷ i_val y ∷ i_val width ∷ i_val height ∷ []) s =
    on_positioner
      (λ p. record p { anchor_rect = record { x = x; y = y; width = width; height = height } }) self
      s
set_anchor_rect _ s = undefined
