-- ===== src/Wayland/Impl/Subsurface.antt =====
-- wayland/impl/wayland.c: `wl_subcompositor.get_subsurface` and the requests of wl_subsurface. The
-- recursion over the children runs on fuel.
pub mod Endless
pub mod Modes
pub mod Nodes
pub mod Tree
pub mod Place
use cuts.Base.{
  ℕ, zero, suc, ◌+◌, Bool, true, false, not, Option, none, some, List, [], ◌∷◌, ◌==◌, if◌then◌else◌,
  Exec, ok, undefined, aborted, out_of_fuel, ◌>>=◌, ◌>>◌, ℤ, pos,
}
use cuts.Wayland.Message.{Arg, i_val, o_val, n_val}
use cuts.Wayland.Objects.{Object}
use cuts.Wayland.Impl.State.{Surface, Subsurface, role_subsurface}
use cuts.Wayland.Impl.World.{
  World, Wl, some_or_undefined, at, set_surface, set_subsurface, self_object, object_data_of,
  refuse, check_if_not_registered, check_if_registered, allocate, take_reference, give_reference,
  add_object, delete_object,
}
use cuts.Wayland.Impl.Requests.{implementation}
use cuts.Wayland.Impl.Children.{push_child, remove_child, index_of, insert_child}
use cuts.Wayland.Impl.Xdg.{clear_role}

abbrev pub bad_surface : ℕ
bad_surface = 0

abbrev pub bad_parent : ℕ
bad_parent = 1

-- `surface->children && c_list_idx(surface->children, surface_parent) != -1`
abbrev pub is_child : Option (List ℕ) → ℕ → Bool
is_child none parent = false
is_child (some children) parent = elim (index_of parent children) [ none ↦ false | some i ↦ true ]

unfoldable pub on_surface_children : (Option (List ℕ) → Option (List ℕ)) → ℕ → Wl → Exec Wl
on_surface_children f a s = do
  u ← at World.surfaces a s
  ok (set_surface a (record u { children = f u.children }) s)

-- The new block, and the three references between it, its surface and the parent
unfoldable pub link_subsurface : (id ss a parent : ℕ) → Wl → Exec Wl
unfolding take_reference
link_subsurface id ss a parent s = do
  s1 ← take_reference parent (
      set_subsurface ss
        (record {
          id = id;
          x = pos 0;
          y = pos 0;
          sync = true;
          surface = some a;
          parent = some parent;
        })
        s)
  u ← at World.surfaces a s1
  s2 ←
      take_reference ss
        (set_surface a (record u { subsurface = some ss; role = role_subsurface }) s1)
  take_reference a s2

module _ (iface : ℕ) where
  -- What stands behind the lookups. The test of the descendants comes after the links are made.
  unfoldable pub make_subsurface : (self id ss a parent : ℕ) → Wl → Exec (ℤ × Wl)
  unfolding give_reference link_subsurface on_surface_children take_reference add_object
  make_subsurface self id ss a parent s =
      if a == parent then (do s1 ← give_reference ss s; refuse self bad_parent s1) else (do
        u ← at World.surfaces a s
        if not (u.role == 0) then (do s1 ← give_reference ss s; refuse self bad_surface s1) else (do
          s1 ← link_subsurface id ss a parent s
          if is_child u.children parent then refuse self bad_surface s1 else (do
            s2 ← on_surface_children (push_child ss) parent s1
            s3 ← take_reference ss s2
            o ← self_object self s3
            s4 ← add_object id o.version iface ss s3
            ok (pos 0, s4))))

  unfoldable pub get_subsurface : List Arg → Wl → Exec (ℤ × Wl)
  unfolding check_if_not_registered check_if_registered allocate make_subsurface
  get_subsurface (o_val self ∷ n_val id ∷ o_val surface_id ∷ o_val parent_id ∷ []) s =
      check_if_not_registered self id s (
        check_if_registered self surface_id s λ surface.
          check_if_registered self parent_id s λ parent. (do
            (ss, s1) ← allocate s
            if ss == 0 then refuse self implementation s1 else (do
              a ← some_or_undefined surface.object_data
              b ← some_or_undefined parent.object_data
              make_subsurface self id ss a b s1)))
  get_subsurface _ s = undefined

unfoldable pub set_position : List Arg → Wl → Exec (ℤ × Wl)
set_position (o_val self ∷ i_val x ∷ i_val y ∷ []) s = do
  ss ← object_data_of self s
  sub ← at World.subsurfaces ss s
  ok (pos 0, set_subsurface ss (record sub { x = x; y = y }) s)
set_position _ s = undefined

-- The loop over the children, each of which is visited by the id of its object
unfoldable pub for_children : (ℕ → Wl → Exec Wl) → List ℕ → Wl → Exec Wl
for_children visit [] s = ok s
for_children visit (ss ∷ children) s = do
  sub ← at World.subsurfaces ss s
  s1 ← visit sub.id s
  for_children visit children s1

-- What `wl_subsurface_set_sync` and `wl_subsurface_set_desync` do, and how deep the recursion may go
unfoldable pub set_mode : (fuel : ℕ) (sync : Bool) (self : ℕ) → Wl → Exec Wl
unfolding for_children
set_mode zero sync self s = out_of_fuel
set_mode (suc fuel) sync self s = do
  ss ← object_data_of self s
  sub ← at World.subsurfaces ss s
  let s1 = set_subsurface ss (record sub { sync = sync }) s
  a ← some_or_undefined sub.surface
  u ← at World.surfaces a s1
  elim u.children [ none ↦ ok s1 | some children ↦ for_children (set_mode fuel sync) children s1 ]

unfoldable pub set_sync : (fuel : ℕ) → List Arg → Wl → Exec (ℤ × Wl)
unfolding set_mode
set_sync fuel (o_val self ∷ []) s = do s' ← set_mode fuel true self s; ok (pos 0, s')
set_sync fuel _ s = undefined

unfoldable pub set_desync : (fuel : ℕ) → List Arg → Wl → Exec (ℤ × Wl)
unfolding set_mode
set_desync fuel (o_val self ∷ []) s = do s' ← set_mode fuel false self s; ok (pos 0, s')
set_desync fuel _ s = undefined

unfoldable pub leave_surface_parent : (ss : ℕ) → Option ℕ → Wl → Exec Wl
unfolding on_surface_children give_reference
leave_surface_parent ss none s = ok s
leave_surface_parent ss (some parent) s = do
  s1 ← on_surface_children (remove_child ss) parent s
  s2 ← give_reference ss s1
  give_reference parent s2

unfoldable pub leave_surface : (ss : ℕ) → Option ℕ → Wl → Exec Wl
unfolding clear_role give_reference
leave_surface ss none s = ok s
leave_surface ss (some a) s = do
  u ← at World.surfaces a s
  s1 ← give_reference a (set_surface a (record u { role = 0; subsurface = none }) s)
  give_reference ss s1

unfoldable pub subsurface_destroy : List Arg → Wl → Exec (ℤ × Wl)
unfolding leave_surface_parent leave_surface delete_object
subsurface_destroy (o_val self ∷ []) s = do
  ss ← object_data_of self s
  sub ← at World.subsurfaces ss s
  s1 ← leave_surface_parent ss sub.parent s
  s2 ← leave_surface ss sub.surface s1
  s3 ← delete_object self s2
  ok (pos 0, s3)
subsurface_destroy _ s = undefined

-- `wl_subsurface_place_above` and `wl_subsurface_place_below`: `offset` is 0 or 1. The list of the
-- subsurfaces is searched for the address of a surface.
unfoldable pub place : (offset : ℕ) → List Arg → Wl → Exec (ℤ × Wl)
unfolding check_if_registered on_surface_children
place offset (o_val self ∷ o_val sibling_id ∷ []) s = check_if_registered self sibling_id s λ o. (do
  ss ← object_data_of self s
  sub ← at World.subsurfaces ss s
  parent ← some_or_undefined sub.parent
  s1 ← on_surface_children (remove_child ss) parent s
  u ← at World.surfaces parent s1
  children ← some_or_undefined u.children
  sibling ← some_or_undefined o.object_data
  elim (index_of sibling children) [
    | none ↦ aborted
    | some i ↦ do
      s2 ← on_surface_children (λ _. some (insert_child (i + offset) ss children)) parent s1
      ok (pos 0, s2)
  ])
place offset _ s = undefined
