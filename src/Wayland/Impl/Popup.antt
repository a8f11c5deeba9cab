-- ===== src/Wayland/Impl/Popup.antt =====
-- wayland/impl/xdg-shell.c: `xdg_surface.get_popup` and `xdg_popup.destroy`. The events go through
-- generated code: an event is kept with its number and arguments.
use cuts.Base.{ℕ, none, some, List, [], ◌∷◌, ◌++◌, Exec, ok, undefined, ◌>>=◌, ℤ, pos}
use cuts.Wayland.Message.{Arg, u_val, i_val, o_val, n_val}
use cuts.Wayland.Dispatch.{Event, posted}
use cuts.Wayland.Receive.{next_serial}
use cuts.Wayland.Impl.State.{Positioner, role_popup}
use cuts.Wayland.Impl.World.{
  World, Wl, some_or_undefined, at, set_surface, set_xdg_surface, self_object, object_data_of,
  check_if_not_registered, check_if_registered, take_reference, give_reference, add_object,
  delete_object,
}
use cuts.Wayland.Impl.Children.{push_child, remove_child}
use cuts.Wayland.Impl.Positioner.{calc_popup_coords}
use cuts.Wayland.Impl.Xdg.{if_without_role, on_children, clear_role}

abbrev pub post : Event → Wl → Wl
post event s = record s { events = s.events ++ event ∷ [] }

-- The events `xdg_popup.configure` and `xdg_surface.configure`
unfoldable pub configure_popup : (id x : ℕ) → Positioner → Wl → Exec Wl
unfolding next_serial
configure_popup id x p s = do
  xs ← at World.xdg_surfaces x s
  let s1 =
      post (posted id 0 (i_val xs.popup_x ∷ i_val xs.popup_y ∷ i_val p.width ∷ i_val p.height ∷ []))
        s
  (serial, s2) ← next_serial s1
  ok (post (posted xs.id 0 (u_val serial ∷ [])) s2)

-- The popup's place in the tree, with the references that it takes
unfoldable pub link_popup : (x parent positioner : ℕ) → Wl → Exec Wl
unfolding on_children take_reference
link_popup x parent positioner s = do
  xs ← at World.xdg_surfaces x s
  let xs' = record xs { parent = some parent; positioner = some positioner }
  s1 ← take_reference parent (set_xdg_surface x xs' s)
  s2 ← take_reference positioner s1
  s3 ← on_children (push_child x) parent s2
  s4 ← take_reference x s3
  take_reference x s4

unfoldable pub set_coords : (x positioner : ℕ) → Wl → Exec Wl
unfolding calc_popup_coords
set_coords x positioner s = do
  p ← at World.positioners positioner s
  (popup_x, popup_y) ← calc_popup_coords p
  xs ← at World.xdg_surfaces x s
  ok (set_xdg_surface x (record xs { popup_x = popup_x; popup_y = popup_y }) s)

module _ (iface : ℕ) where
  unfoldable pub get_popup : List Arg → Wl → Exec (ℤ × Wl)
  unfolding check_if_not_registered check_if_registered if_without_role link_popup set_coords
      add_object configure_popup
  get_popup (o_val self ∷ n_val id ∷ o_val parent_id ∷ o_val positioner_id ∷ []) s =
      check_if_not_registered self id s (
        check_if_registered self parent_id s λ parent.
          check_if_registered self positioner_id s λ positioner. (do
            o ← self_object self s
            x ← some_or_undefined o.object_data
            if_without_role iface self x s λ a u. (do
              y ← some_or_undefined parent.object_data
              p ← some_or_undefined positioner.object_data
              s1 ← link_popup x y p (set_surface a (record u { role = role_popup }) s)
              s2 ← add_object id o.version iface x s1
              s3 ← set_coords x p s2
              d ← at World.positioners p s3
              s4 ← configure_popup id x d s3
              ok (pos 0, s4))))
  get_popup _ s = undefined

-- The parent, the surface and the positioner are not tested.
unfoldable pub popup_destroy : List Arg → Wl → Exec (ℤ × Wl)
unfolding clear_role on_children give_reference delete_object
popup_destroy (o_val self ∷ []) s = do
  x ← object_data_of self s
  xs ← at World.xdg_surfaces x s
  a ← some_or_undefined xs.surface
  s1 ← clear_role (some a) s
  parent ← some_or_undefined xs.parent
  s2 ← on_children (remove_child x) parent s1
  s3 ← give_reference x s2
  xs3 ← at World.xdg_surfaces x s3
  s4 ← give_reference parent s3
  positioner ← some_or_undefined xs3.positioner
  s5 ← give_reference positioner s4
  xs5 ← at World.xdg_surfaces x s5
  let reset = record xs5 { positioner = none; popup_x = pos 0; popup_y = pos 0 }
  s6 ← delete_object self (set_xdg_surface x reset s5)
  ok (pos 0, s6)
popup_destroy _ s = undefined
