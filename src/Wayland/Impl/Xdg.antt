-- ===== src/Wayland/Impl/Xdg.antt =====
-- wayland/impl/xdg-shell.c: the requests of xdg_wm_base, xdg_surface, xdg_toplevel and xdg_popup.
pub mod Titles
use cuts.Base.{
  ℕ, true, false, Option, none, some, List, [], ◌∷◌, ◌==◌, if◌then◌else◌, Exec, ok, undefined,
  ◌>>=◌, ◌>>◌, ℤ, pos,
}
use cuts.Wayland.Message.{Arg, u_val, i_val, o_val, n_val, s_val}
use cuts.Wayland.Objects.{Object}
use cuts.Wayland.Dispatch.{Server, Event, posted}
use cuts.Wayland.Receive.{next_serial}
use cuts.Wayland.Impl.State.{
  Region, Size, Surface, Positioner, XdgFlags, XdgState, XdgSurface, Text, unset, chars, freed,
  role_toplevel, role_popup,
}
use cuts.Wayland.Impl.World.{
  World, Wl, some_or_undefined, at, set_surface, set_xdg_surface, self_object, object_data_of,
  refuse, check_if_not_registered, check_if_registered, allocate, take_reference, give_reference,
  add_object, delete_object,
}
use cuts.Wayland.Impl.Surface.{no_region}
use cuts.Wayland.Impl.Children.{push_child, remove_child}
use cuts.Wayland.Impl.Positioner.{calc_popup_coords}

-- The block as `calloc` leaves it, with the object and the surface
abbrev pub no_size : Size
no_size = record { width = pos 0; height = pos 0 }

abbrev pub empty_xdg_state : XdgState
empty_xdg_state = record {
  commited = record { max_size = false; min_size = false; geo = false };
  max = no_size;
  min = no_size;
  geo = no_region;
}

abbrev pub new_xdg_surface : (id surface : ℕ) → XdgSurface
new_xdg_surface id surface = record {
  id = id;
  ack_configure = 0;
  pending = empty_xdg_state;
  active = empty_xdg_state;
  surface = some surface;
  title = unset;
  app_id = unset;
  positioner = none;
  popup_x = pos 0;
  popup_y = pos 0;
  children = none;
  parent = none;
}

module _ (iface : ℕ) where
  unfoldable pub get_xdg_surface : List Arg → Wl → Exec (ℤ × Wl)
  unfolding check_if_not_registered check_if_registered allocate take_reference add_object
  get_xdg_surface (o_val self ∷ n_val id ∷ o_val wl_surface ∷ []) s =
      check_if_not_registered self id s (
        check_if_registered self wl_surface s λ surface. (do
          (x, s1) ← allocate s
          if x == 0 then refuse self 2 s1 else (do
            a ← some_or_undefined surface.object_data
            s2 ← take_reference a s1
            u ← at World.surfaces a s2
            s3 ← take_reference x (set_surface a (record u { xdg_surface = some x }) s2)
            o ← self_object self s3
            s4 ← add_object id o.version iface x s3
            ok (pos 0, set_xdg_surface x (new_xdg_surface id a) s4))))
  get_xdg_surface _ s = undefined

  -- `if (xdg_surface->surface->role)`, in front of the rest of a request that gives a role
  unfoldable pub if_without_role : (self x : ℕ) → Wl → (ℕ → Surface → Exec (ℤ × Wl)) → Exec (ℤ × Wl)
  if_without_role self x s rest = do
    xs ← at World.xdg_surfaces x s
    a ← some_or_undefined xs.surface
    u ← at World.surfaces a s
    if u.role == 0 then rest a u else refuse self 2 s

  unfoldable pub get_toplevel : List Arg → Wl → Exec (ℤ × Wl)
  unfolding check_if_not_registered if_without_role take_reference add_object
  get_toplevel (o_val self ∷ n_val id ∷ []) s = check_if_not_registered self id s (do
    o ← self_object self s
    x ← some_or_undefined o.object_data
    if_without_role self x s λ a u. (do
      s1 ← take_reference x (set_surface a (record u { role = role_toplevel }) s)
      s2 ← add_object id o.version iface x s1
      ok (pos 0, s2)))
  get_toplevel _ s = undefined

abbrev pub invalid_serial : ℕ
invalid_serial = 4

unfoldable pub ack_configure : List Arg → Wl → Exec (ℤ × Wl)
ack_configure (o_val self ∷ u_val serial ∷ []) s = do
  o ← self_object self s
  if serial == 0 then refuse self invalid_serial s else (do
    x ← some_or_undefined o.object_data
    xs ← at World.xdg_surfaces x s
    ok (pos 0, set_xdg_surface x (record xs { ack_configure = serial }) s))
ack_configure _ s = undefined

-- A change of the pending state of the surface that `self` stands for
unfoldable pub on_pending : (XdgState → XdgState) → ℕ → Wl → Exec (ℤ × Wl)
on_pending f self s = do
  x ← object_data_of self s
  xs ← at World.xdg_surfaces x s
  ok (pos 0, set_xdg_surface x (record xs { pending = f xs.pending }) s)

unfoldable pub set_window_geometry : List Arg → Wl → Exec (ℤ × Wl)
unfolding on_pending
set_window_geometry (o_val self ∷ i_val x ∷ i_val y ∷ i_val width ∷ i_val height ∷ []) s =
    on_pending
      (λ p. record p {
        geo = record { x = x; y = y; width = width; height = height };
        commited = record (p.commited) { geo = true };
      })
      self s
set_window_geometry _ s = undefined

unfoldable pub set_min_size : List Arg → Wl → Exec (ℤ × Wl)
unfolding on_pending
set_min_size (o_val self ∷ i_val width ∷ i_val height ∷ []) s =
    on_pending
      (λ p. record p {
        min = record { width = width; height = height };
        commited = record (p.commited) { min_size = true };
      })
      self s
set_min_size _ s = undefined

unfoldable pub set_max_size : List Arg → Wl → Exec (ℤ × Wl)
unfolding on_pending
set_max_size (o_val self ∷ i_val width ∷ i_val height ∷ []) s =
    on_pending
      (λ p. record p {
        max = record { width = width; height = height };
        commited = record (p.commited) { max_size = true };
      })
      self s
set_max_size _ s = undefined

-- `if (t) free(t)`, which leaves the pointer
abbrev pub free_text : Text → Exec Text
free_text unset = ok unset
free_text (chars cs) = ok freed
free_text freed = undefined

unfoldable pub set_title : List Arg → Wl → Exec (ℤ × Wl)
set_title (o_val self ∷ s_val title ∷ []) s = do
  x ← object_data_of self s
  xs ← at World.xdg_surfaces x s
  _ ← free_text xs.title
  ok (pos 0, set_xdg_surface x (record xs { title = chars title }) s)
set_title _ s = undefined

unfoldable pub set_app_id : List Arg → Wl → Exec (ℤ × Wl)
set_app_id (o_val self ∷ s_val app_id ∷ []) s = do
  x ← object_data_of self s
  xs ← at World.xdg_surfaces x s
  _ ← free_text xs.app_id
  ok (pos 0, set_xdg_surface x (record xs { app_id = chars app_id }) s)
set_app_id _ s = undefined

abbrev pub invalid_parent : ℕ
invalid_parent = 1

-- The children of the surface at `x`
unfoldable pub on_children : (Option (List ℕ) → Option (List ℕ)) → ℕ → Wl → Exec Wl
on_children f x s = do
  xs ← at World.xdg_surfaces x s
  ok (set_xdg_surface x (record xs { children = f xs.children }) s)

unfoldable pub set_xdg_parent : ℕ → Option ℕ → Wl → Exec Wl
set_xdg_parent x parent s = do
  xs ← at World.xdg_surfaces x s
  ok (set_xdg_surface x (record xs { parent = parent }) s)

unfoldable pub leave_parent : ℕ → Option ℕ → Wl → Exec Wl
unfolding on_children give_reference
leave_parent x none s = ok s
leave_parent x (some parent) s = do s1 ← on_children (remove_child x) parent s; give_reference x s1

unfoldable pub set_parent : List Arg → Wl → Exec (ℤ × Wl)
unfolding leave_parent set_xdg_parent on_children take_reference
set_parent (o_val self ∷ o_val parent ∷ []) s = do
  o ← self_object self s
  x ← some_or_undefined o.object_data
  if self == parent
      then refuse self invalid_parent s
      else if parent == 0
      then (do
        xs ← at World.xdg_surfaces x s
        s1 ← leave_parent x xs.parent s
        s2 ← set_xdg_parent x none s1
        ok (pos 0, s2))
      else (do
        p ← object_data_of parent s
        s1 ← on_children (push_child x) p s
        s2 ← take_reference x s1
        s3 ← set_xdg_parent x (some p) s2
        s4 ← take_reference p s3
        ok (pos 0, s4))
set_parent _ s = undefined

-- The toplevel's place among the children of its parent
unfoldable pub leave_toplevel : ℕ → Option ℕ → Wl → Exec Wl
unfolding on_children give_reference
leave_toplevel x none s = ok s
leave_toplevel x (some parent) s = do
  s1 ← on_children (remove_child x) parent s
  give_reference parent s1

unfoldable pub clear_role : Option ℕ → Wl → Exec Wl
clear_role none s = ok s
clear_role (some a) s = do u ← at World.surfaces a s; ok (set_surface a (record u { role = 0 }) s)

unfoldable pub free_texts : ℕ → Wl → Exec Wl
free_texts x s = do
  xs ← at World.xdg_surfaces x s
  title ← free_text xs.title
  app_id ← free_text xs.app_id
  ok (set_xdg_surface x (record xs { title = title; app_id = app_id }) s)

unfoldable pub toplevel_destroy : List Arg → Wl → Exec (ℤ × Wl)
unfolding leave_toplevel clear_role free_texts delete_object
toplevel_destroy (o_val self ∷ []) s = do
  x ← object_data_of self s
  xs ← at World.xdg_surfaces x s
  s1 ← leave_toplevel x xs.parent s
  s2 ← clear_role xs.surface s1
  s3 ← free_texts x s2
  s4 ← delete_object self s3
  ok (pos 0, s4)
toplevel_destroy _ s = undefined
