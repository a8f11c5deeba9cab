-- ===== src/Wayland/Impl/Calls.antt =====
-- The requests of one client on a surface that has no role: each handler does to the block of the
-- surface what the step of the double buffer does.
use cuts.Base.{
  ℕ, ◌≡◌, Bool, false, Option, none, some, List, [], ◌∷◌, ltb, ◌==◌, Exec, ok, ◌>>=◌, ℤ, pos,
}
use cuts.Wayland.Objects.{Registry, Object, object_get}
use cuts.Util.Mem.{Memory, Metadata, metadata_of}
use cuts.Wayland.Message.{i_val, o_val, e_val}
use cuts.Wayland.Impl.State.{Region, Size, Surface}
use cuts.Wayland.Impl.World.{World, Wl, object_data_of}
use cuts.Wayland.Impl.Surface.{no_region}
use cuts.Wayland.Impl.Requests.{
  set_buffer_scale, set_buffer_transform, surface_damage, set_opaque_region, set_input_region,
  whole_region, flipped_270,
}
use cuts.Wayland.Impl.Commit.{surface_commit}
use cuts.Wayland.Impl.Buffering.{
  Step, scale_set, transform_set, input_set, opaque_set, damaged, commited,
}

-- A request; a region is given by the id of its object and what that holds.
pub data Call : Type 0 where
  set_scale set_transform : ℕ → Call
  damage : (x y width height : ℤ) → Call
  opaque_of input_of : (id : ℕ) → Region → Call
  clear_opaque clear_input commit : Call

-- The id is that of a region.
pub record IsRegion (registry : Registry) (memory : Memory) (regions : ℕ → Option Region) (id : ℕ)
    (r : Region) : Type 0 where
  pub nonzero : (id == 0) ≡ false
  pub object : Object
  pub address : ℕ
  pub metadata : Metadata
  pub found : object_get registry id ≡ ok (some object)
  pub is_data : object.object_data ≡ some address
  pub block : metadata_of address memory ≡ ok metadata
  pub stored : regions address ≡ some r

-- The protocol has eight transforms.
abbrev pub IsValid : Registry → Memory → (ℕ → Option Region) → Call → Type 0
IsValid registry memory regions (set_transform transform) = ltb flipped_270 transform ≡ false
IsValid registry memory regions (opaque_of id r) = IsRegion registry memory regions id r
IsValid registry memory regions (input_of id r) = IsRegion registry memory regions id r
IsValid registry memory regions _ = Unit

abbrev pub AllValid : Registry → Memory → (ℕ → Option Region) → List Call → Type 0
AllValid registry memory regions [] = Unit
AllValid registry memory regions (c ∷ calls) =
    IsValid registry memory regions c × AllValid registry memory regions calls

abbrev pub AllValidIn : Wl → List Call → Type 0
AllValidIn s calls = AllValid s.registry s.world.memory s.world.regions calls

unfoldable pub step_of : Call → Step
step_of (set_scale scale) = scale_set (pos scale)
step_of (set_transform transform) = transform_set transform
step_of (damage x y width height) =
    damaged (record { x = x; y = y; width = width; height = height })
step_of (opaque_of id r) = opaque_set r
step_of (input_of id r) = input_set r
step_of clear_opaque = opaque_set no_region
step_of clear_input = input_set whole_region
step_of commit = commited

-- What a surface points to: nothing, where it has no role
abbrev pub links : Surface → Option ℕ × Option (List ℕ) × Option ℕ × Option ℕ × Option ℕ
links u = (u.subsurface, u.children, u.xdg_surface, u.layer_surface, u.viewport)

abbrev pub no_links : Option ℕ × Option (List ℕ) × Option ℕ × Option ℕ × Option ℕ
no_links = (none, none, none, none, none)

-- The object `self` stands for the surface `u` in the block at `a`, which has no role.
pub record IsBare (self a : ℕ) (u : Surface) (s : Wl) : Type 0 where
  pub object : object_data_of self s ≡ ok a
  pub metadata : Metadata
  pub block : metadata_of a s.world.memory ≡ ok metadata
  pub surface : s.world.surfaces a ≡ some u
  pub unlinked : links u ≡ no_links

module _ (exceeds : Region → Size → Bool) (self : ℕ) where
  unfoldable pub call : Call → Wl → Exec (ℤ × Wl)
  unfolding set_buffer_scale set_buffer_transform surface_damage set_opaque_region set_input_region
      surface_commit
  call (set_scale scale) s = set_buffer_scale (o_val self ∷ i_val (pos scale) ∷ []) s
  call (set_transform transform) s = set_buffer_transform (o_val self ∷ e_val transform ∷ []) s
  call (damage x y width height) s =
      surface_damage (o_val self ∷ i_val x ∷ i_val y ∷ i_val width ∷ i_val height ∷ []) s
  call (opaque_of id r) s = set_opaque_region (o_val self ∷ o_val id ∷ []) s
  call (input_of id r) s = set_input_region (o_val self ∷ o_val id ∷ []) s
  call clear_opaque s = set_opaque_region (o_val self ∷ o_val 0 ∷ []) s
  call clear_input s = set_input_region (o_val self ∷ o_val 0 ∷ []) s
  call commit s = surface_commit exceeds (o_val self ∷ []) s

  -- The results of the handlers, and the state behind them
  unfoldable pub run_calls : List Call → Wl → Exec (List ℤ × Wl)
  unfolding call
  run_calls [] s = ok ([], s)
  run_calls (c ∷ calls) s = do
    (result, s1) ← call c s
    (results, s2) ← run_calls calls s1
    ok (result ∷ results, s2)
