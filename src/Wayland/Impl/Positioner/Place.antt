-- ===== src/Wayland/Impl/Positioner/Place.antt =====
-- Where a popup is placed: its anchor names a point of the anchor rectangle, and its gravity the side
-- of that point on which it lies.
use cuts.Base.{
  ℕ, ◌/◌, ◌^◌, ◌<◌, ◌≡◌, refl, ap, ◌∙◌, Bool, true, false, arith, ok, ◌>>=◌, >>=-after, ℤ, pos,
  negsuc,
}
use cuts.Base.Int.{◌+ℤ◌, ◌-ℤ◌, half, int, is_int, int_lem, sub_ℕ}
use cuts.Wayland.Impl.State.{Positioner}
use cuts.Wayland.Impl.Positioner.{
  Edge, top, bottom, left, right, top_left, bottom_left, top_right, bottom_right, nowhere, edge_of,
  negated, anchor_x, anchor_y, gravity_x, gravity_y, sum_of, calc_popup_coords,
}

-- Where a side or corner of the protocol lies in a rectangle of two by two
pub data Side : Type 0 where
  low middle high : Side

abbrev pub side_x : Edge → Side
side_x left = low
side_x top_left = low
side_x bottom_left = low
side_x right = high
side_x top_right = high
side_x bottom_right = high
side_x _ = middle

abbrev pub side_y : Edge → Side
side_y top = low
side_y top_left = low
side_y top_right = low
side_y bottom = high
side_y bottom_left = high
side_y bottom_right = high
side_y _ = middle

-- That point of a length
abbrev pub point : Side → ℕ → ℕ
point low n = 0
point middle n = n / 2
point high n = n

-- How far a popup begins before the anchor point, when it lies on that side of it
abbrev pub reach : Side → ℕ → ℕ
reach low n = n
reach middle n = n / 2
reach high n = 0

-- One of the eight sides and corners
abbrev pub is_side : Edge → Bool
is_side nowhere = false
is_side _ = true

half_pos : (n : ℕ) → half (pos n) ≡ pos (n / 2)
half_pos n = ground arith

negated_pos : (n : ℕ) → n < 2 ^ 31 → negated (pos n) ≡ ok (sub_ℕ 0 n)
negated_pos n fits = ground arith

half_negated : (n : ℕ) → half (sub_ℕ 0 n) ≡ sub_ℕ 0 (n / 2)
half_negated n = ground arith

negated-half : (n : ℕ) → n < 2 ^ 31 → (do a ← negated (pos n); ok (half a)) ≡ ok (sub_ℕ 0 (n / 2))
negated-half n fits = >>=-after _ (negated_pos n fits) (ap ok (half_negated n))

anchor_x_lem : (a : Edge) (n : ℕ) → is_side a ≡ true → anchor_x a (pos n) ≡ pos (point (side_x a) n)
unfolding anchor_x
anchor_x_lem top n h = half_pos n
anchor_x_lem bottom n h = half_pos n
anchor_x_lem left n h = refl
anchor_x_lem right n h = refl
anchor_x_lem top_left n h = refl
anchor_x_lem bottom_left n h = refl
anchor_x_lem top_right n h = refl
anchor_x_lem bottom_right n h = refl
anchor_x_lem nowhere n h = cc

anchor_y_lem : (a : Edge) (n : ℕ) → is_side a ≡ true → anchor_y a (pos n) ≡ pos (point (side_y a) n)
unfolding anchor_y
anchor_y_lem top n h = refl
anchor_y_lem bottom n h = refl
anchor_y_lem left n h = half_pos n
anchor_y_lem right n h = half_pos n
anchor_y_lem top_left n h = refl
anchor_y_lem bottom_left n h = refl
anchor_y_lem top_right n h = refl
anchor_y_lem bottom_right n h = refl
anchor_y_lem nowhere n h = cc

gravity_x_lem :
    (g : Edge) (n : ℕ)
    → is_side g ≡ true
    → n < 2 ^ 31
    → gravity_x g (pos n) ≡ ok (sub_ℕ 0 (reach (side_x g) n))
unfolding gravity_x
gravity_x_lem top n h f = negated-half n f
gravity_x_lem bottom n h f = negated-half n f
gravity_x_lem left n h f = negated_pos n f
gravity_x_lem right n h f = refl
gravity_x_lem top_left n h f = negated_pos n f
gravity_x_lem bottom_left n h f = negated_pos n f
gravity_x_lem top_right n h f = refl
gravity_x_lem bottom_right n h f = refl
gravity_x_lem nowhere n h f = cc

gravity_y_lem :
    (g : Edge) (n : ℕ)
    → is_side g ≡ true
    → n < 2 ^ 31
    → gravity_y g (pos n) ≡ ok (sub_ℕ 0 (reach (side_y g) n))
unfolding gravity_y
gravity_y_lem top n h f = negated_pos n f
gravity_y_lem bottom n h f = refl
gravity_y_lem left n h f = negated-half n f
gravity_y_lem right n h f = negated-half n f
gravity_y_lem top_left n h f = negated_pos n f
gravity_y_lem bottom_left n h f = refl
gravity_y_lem top_right n h f = negated_pos n f
gravity_y_lem bottom_right n h f = refl
gravity_y_lem nowhere n h f = cc

-- The place of a popup along one axis, where nothing overflows: the point of the anchor rectangle,
-- moved by the offset, with the popup's side against it
abbrev pub place : (at offset : ℤ) (anchor : Side) (length : ℕ) (gravity : Side) (size : ℕ) → ℤ
place at offset anchor length gravity size =
    at +ℤ offset +ℤ pos (point anchor length) -ℤ pos (reach gravity size)

-- The three results on the way to it are of type `int`.
pub record Fits (at offset : ℤ) (anchor : Side) (length : ℕ) (gravity : Side) (size : ℕ)
    : Type 0 where
  pub moved : is_int (at +ℤ offset) ≡ true
  pub anchored : is_int (at +ℤ offset +ℤ pos (point anchor length)) ≡ true
  pub whole : is_int (place at offset anchor length gravity size) ≡ true

add_negated : (a : ℤ) (n : ℕ) → a +ℤ sub_ℕ 0 n ≡ a -ℤ pos n
add_negated (pos a) n = ground arith
add_negated (negsuc a) n = ground arith

axis_lem :
    (at offset : ℤ) (anchor : Side) (length : ℕ) (gravity : Side) (size : ℕ)
    → Fits at offset anchor length gravity size
    → sum_of at offset (pos (point anchor length)) (sub_ℕ 0 (reach gravity size))
      ≡ ok (place at offset anchor length gravity size)
unfolding sum_of
axis_lem at offset anchor length gravity size h =
    let ab = at +ℤ offset in
    let abc = ab +ℤ pos (point anchor length) in
    >>=-after _ (int_lem ab h.moved) (
      >>=-after _ (int_lem abc h.anchored) (
        ap int (add_negated abc (reach gravity size))
        ∙ int_lem (place at offset anchor length gravity size) h.whole))

-- A positioner whose rectangle and size are not negative; its offset and place may be.
pub record Given : Type 0 where
  pub anchor : ℕ
  pub gravity : ℕ
  pub constraint_adjustment : ℕ
  pub x : ℤ
  pub y : ℤ
  pub width : ℕ
  pub height : ℕ
  pub rect_x : ℤ
  pub rect_y : ℤ
  pub rect_width : ℕ
  pub rect_height : ℕ

abbrev pub positioner_of : Given → Positioner
positioner_of g = record {
  x = g.x;
  y = g.y;
  width = pos g.width;
  height = pos g.height;
  gravity = g.gravity;
  anchor = g.anchor;
  constraint_adjustment = g.constraint_adjustment;
  anchor_rect = record {
    x = g.rect_x;
    y = g.rect_y;
    width = pos g.rect_width;
    height = pos g.rect_height;
  };
}

-- A side or corner for both, and numbers that do not overflow
pub record IsGiven (g : Given) : Type 0 where
  pub anchor : is_side (edge_of g.anchor) ≡ true
  pub gravity : is_side (edge_of g.gravity) ≡ true
  pub width : g.width < 2 ^ 31
  pub height : g.height < 2 ^ 31
  pub across :
      Fits g.rect_x g.x
        (side_x (edge_of g.anchor))
        g.rect_width
        (side_x (edge_of g.gravity))
        g.width
  pub down :
      Fits g.rect_y g.y
        (side_y (edge_of g.anchor))
        g.rect_height
        (side_y (edge_of g.gravity))
        g.height

abbrev pub place_of : Given → ℤ × ℤ
place_of g =
    let anchor = edge_of g.anchor in
    let gravity = edge_of g.gravity in
    (
      place g.rect_x g.x (side_x anchor) g.rect_width (side_x gravity) g.width,
      place g.rect_y g.y (side_y anchor) g.rect_height (side_y gravity) g.height,
    )

-- Where the anchor and the gravity are sides or corners, the popup and the anchor rectangle have no
-- negative width or height and no sum overflows, calc_popup_coords puts the popup against the
-- anchor's point of the rectangle, which the offset moves, on the side of it that the gravity names.
pub calc_popup_coords_lem :
    (g : Given) → IsGiven g → calc_popup_coords (positioner_of g) ≡ ok (place_of g)
unfolding calc_popup_coords
calc_popup_coords_lem g h =
    >>=-after _ (gravity_x_lem (edge_of g.gravity) g.width h.gravity h.width) (
      >>=-after _ (gravity_y_lem (edge_of g.gravity) g.height h.gravity h.height)
        (>>=-after _ x_lem (>>=-after _ y_lem refl)))
  where
    x_lem :
        sum_of g.rect_x g.x
          (anchor_x (edge_of g.anchor) (pos g.rect_width))
          (sub_ℕ 0 (reach (side_x (edge_of g.gravity)) g.width))
        ≡ ok ((place_of g).0)
    x_lem =
        rw (anchor_x_lem (edge_of g.anchor) g.rect_width h.anchor)
          (axis_lem g.rect_x g.x _ g.rect_width _ g.width h.across)

    y_lem :
        sum_of g.rect_y g.y
          (anchor_y (edge_of g.anchor) (pos g.rect_height))
          (sub_ℕ 0 (reach (side_y (edge_of g.gravity)) g.height))
        ≡ ok ((place_of g).1)
    y_lem =
        rw (anchor_y_lem (edge_of g.anchor) g.rect_height h.anchor)
          (axis_lem g.rect_y g.y _ g.rect_height _ g.height h.down)
