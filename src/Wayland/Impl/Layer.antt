-- ===== src/Wayland/Impl/Layer.antt =====
-- wayland/impl/wlr-layer-shell-unstable-v1.c: zwlr_layer_shell_v1 and zwlr_layer_surface_v1. An anchor
-- is a word of the bits top, bottom, left and right from 1 on.
use cuts.Base.{
  ℕ, ◌/◌, ◌%◌, Bool, true, false, ◌&&◌, ◌||◌, not, none, some, List, [], ◌∷◌, ltb, ◌==◌,
  if◌then◌else◌, Exec, ok, undefined, ◌>>=◌, ◌>>◌, require, ℤ, pos,
}
use cuts.Wayland.Message.{Arg, u_val, i_val, o_val, n_val, s_val, e_val}
use cuts.Wayland.Impl.State.{LayerState, LayerSurface, chars}
use cuts.Wayland.Impl.World.{
  World, Wl, some_or_undefined, at, set_surface, set_layer_surface, self_object, object_data_of,
  refuse, check_if_not_registered, check_if_registered, allocate, take_reference, give_reference,
  add_object,
}
use cuts.Wayland.Impl.Shm.{destroy_object}
use cuts.Wayland.Impl.Xdg.{free_text}

abbrev pub empty_layer_state : LayerState
empty_layer_state = record {
  commited = record {
    layer = false;
    anchor = false;
    size = false;
    exclusive_zone = false;
    keyboard_interactivity = false;
  };
  layer = 0;
  anchor = 0;
  width = 0;
  height = 0;
  exclusive_zone = pos 0;
  keyboard_interactivity = 0;
}

abbrev pub new_layer_surface : (surface layer : ℕ) → List ℕ → LayerSurface
new_layer_surface surface layer namespace = record {
  pending = record empty_layer_state { layer = layer };
  active = empty_layer_state;
  surface = some surface;
  acked_configure = 0;
  namespace = chars namespace;
}

abbrev pub overlay : ℕ
overlay = 3

-- `wl_output` is looked up where its id is not 0.
unfoldable pub check_output : (self output : ℕ) → Wl → Exec (ℤ × Wl) → Exec (ℤ × Wl)
unfolding check_if_registered
check_output self output s rest =
    if output == 0 then rest else check_if_registered self output s (λ _. rest)

module _ (iface : ℕ) where
  unfoldable pub make_layer_surface : (self id a layer : ℕ) → List ℕ → Wl → Exec (ℤ × Wl)
  unfolding allocate take_reference add_object
  make_layer_surface self id a layer namespace s = do
    (l, s1) ← allocate s
    require (ltb 0 l)
    s2 ← take_reference a s1
    u ← at World.surfaces a s2
    s3 ← take_reference l (set_surface a (record u { layer_surface = some l }) s2)
    o ← self_object self s3
    s4 ← add_object id o.version iface l s3
    ok (pos 0, set_layer_surface l (new_layer_surface a layer namespace) s4)

  unfoldable pub get_layer_surface : List Arg → Wl → Exec (ℤ × Wl)
  unfolding check_if_not_registered check_if_registered check_output make_layer_surface
  get_layer_surface
        (o_val self
          ∷ n_val id
          ∷ o_val surface_id
          ∷ o_val output
          ∷ e_val layer
          ∷ s_val namespace
          ∷ [])
        s =
      check_if_not_registered self id s (
        check_if_registered self surface_id s λ surface. check_output self output s (do
          a ← some_or_undefined surface.object_data
          u ← at World.surfaces a s
          if not (u.role == 0)
              then refuse self 0 s
              else if u.pending.commited.buffer || u.active.commited.buffer
              then refuse self 2 s
              else if ltb overlay layer
              then refuse self 1 s
              else make_layer_surface self id a layer namespace s))
  get_layer_surface _ s = undefined

-- The pending state after each request
abbrev pub pend_anchor : ℕ → LayerState → LayerState
pend_anchor anchor p = record p {
  anchor = anchor;
  commited = record (p.commited) { anchor = true };
}

abbrev pub pend_size : ℕ → ℕ → LayerState → LayerState
pend_size width height p = record p {
  width = width;
  height = height;
  commited = record (p.commited) { size = true };
}

abbrev pub pend_exclusive_zone : ℤ → LayerState → LayerState
pend_exclusive_zone zone p = record p {
  exclusive_zone = zone;
  commited = record (p.commited) { exclusive_zone = true };
}

abbrev pub pend_interactivity : ℕ → LayerState → LayerState
pend_interactivity interactivity p = record p {
  keyboard_interactivity = interactivity;
  commited = record (p.commited) { keyboard_interactivity = true };
}

unfoldable pub on_layer : (LayerSurface → LayerSurface) → ℕ → Wl → Exec (ℤ × Wl)
on_layer f self s = do
  a ← object_data_of self s
  l ← at World.layer_surfaces a s
  ok (pos 0, set_layer_surface a (f l) s)

abbrev pub pend_layer : (LayerState → LayerState) → LayerSurface → LayerSurface
pend_layer f l = record l { pending = f l.pending }

unfoldable pub set_layer_anchor : List Arg → Wl → Exec (ℤ × Wl)
unfolding on_layer
set_layer_anchor (o_val self ∷ e_val anchor ∷ []) s =
    on_layer (pend_layer (pend_anchor anchor)) self s
set_layer_anchor _ s = undefined

-- Whether the anchor leaves an axis free whose length is 0
unfoldable pub lacks_size : (anchor width height : ℕ) → Bool
lacks_size anchor width height =
    not (anchor == 0) && ((anchor / 4) % 4 == 0 && width == 0 || anchor % 4 == 0 && height == 0)

unfoldable pub set_layer_size : List Arg → Wl → Exec (ℤ × Wl)
unfolding on_layer lacks_size
set_layer_size (o_val self ∷ u_val width ∷ u_val height ∷ []) s = do
  a ← object_data_of self s
  l ← at World.layer_surfaces a s
  if lacks_size l.pending.anchor width height
      then refuse self 1 s
      else on_layer (pend_layer (pend_size width height)) self s
set_layer_size _ s = undefined

unfoldable pub set_exclusive_zone : List Arg → Wl → Exec (ℤ × Wl)
unfolding on_layer
set_exclusive_zone (o_val self ∷ i_val zone ∷ []) s =
    on_layer (pend_layer (pend_exclusive_zone zone)) self s
set_exclusive_zone _ s = undefined

unfoldable pub set_keyboard_interactivity : List Arg → Wl → Exec (ℤ × Wl)
unfolding on_layer
set_keyboard_interactivity (o_val self ∷ e_val interactivity ∷ []) s =
    on_layer (pend_layer (pend_interactivity interactivity)) self s
set_keyboard_interactivity _ s = undefined

unfoldable pub layer_ack_configure : List Arg → Wl → Exec (ℤ × Wl)
unfolding on_layer
layer_ack_configure (o_val self ∷ u_val serial ∷ []) s =
    on_layer (λ l. record l { acked_configure = serial }) self s
layer_ack_configure _ s = undefined

-- The surface is not tested.
unfoldable pub layer_surface_destroy : List Arg → Wl → Exec (ℤ × Wl)
unfolding give_reference destroy_object
layer_surface_destroy (o_val self ∷ []) s = do
  x ← object_data_of self s
  l ← at World.layer_surfaces x s
  namespace ← free_text l.namespace
  a ← some_or_undefined l.surface
  u ← at World.surfaces a s
  s1 ← give_reference a (set_surface a (record u { layer_surface = none }) s)
  l1 ← at World.layer_surfaces x s1
  s2 ←
      give_reference x
        (set_layer_surface x (record l1 { surface = none; namespace = namespace }) s1)
  destroy_object (o_val self ∷ []) s2
layer_surface_destroy _ s = undefined
