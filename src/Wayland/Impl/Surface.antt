-- ===== src/Wayland/Impl/Surface.antt =====
-- wayland/impl/wayland.c: the requests of wl_surface, wl_region and wl_compositor. A surface has a
-- pending state, which the requests set, and an active one, which a commit brings up to date. The
-- arguments of a request come by its signature; the numbers of errors are those of the protocol.
use cuts.Base.{ℕ, Bool, false, Option, none, some, if◌then◌else◌, Exec, ok, ◌>>=◌, ℤ, pos}
use cuts.Wayland.Wire.{signed32}
use cuts.Wayland.Impl.State.{Region, Size, Surface, XdgSurface, LayerSurface, Viewport}
use cuts.Wayland.Impl.World.{
  World, Wl, some_or_undefined, at, set_surface, set_xdg_surface, set_layer_surface, set_viewport,
  refuse,
}

-- `if (p->commited & FLAG) a->field = p->field`
abbrev pub taken {ℓ} : {A : Type ℓ} → Bool → A → A → A
taken flag pending active = if flag then pending else active

abbrev pub no_region : Region
no_region = record { x = pos 0; y = pos 0; width = pos 0; height = pos 0 }

-- The first half of `c_wl_surface_state_apply`. The flag of the buffer stays.
unfoldable pub apply_pending : Surface → Surface
apply_pending u =
    let p = u.pending in
    let a = u.active in
    record u {
      active = record a {
        damage = taken p.commited.damage p.damage a.damage;
        input = taken p.commited.input p.input a.input;
        opaque = taken p.commited.opaque p.opaque a.opaque;
        scale = taken p.commited.scale p.scale a.scale;
        transform = taken p.commited.transform p.transform a.transform;
      };
      pending = record p {
        commited = record {
          damage = false;
          input = false;
          opaque = false;
          buffer = p.commited.buffer;
          scale = false;
          transform = false;
        };
      };
    }

-- `c_xdg_surface_state_apply`
unfoldable pub xdg_state_apply : XdgSurface → XdgSurface
xdg_state_apply u =
    let p = u.pending in
    let a = u.active in
    record u {
      active = record a {
        max = taken p.commited.max_size p.max a.max;
        min = taken p.commited.min_size p.min a.min;
        geo = taken p.commited.geo p.geo a.geo;
      };
      pending = record p { commited = record { max_size = false; min_size = false; geo = false } };
    }

-- `c_zwlr_layer_surface_state_apply`
unfoldable pub layer_state_apply : LayerSurface → LayerSurface
layer_state_apply u =
    let p = u.pending in
    let a = u.active in
    record u {
      active = record a {
        layer = taken p.commited.layer p.layer a.layer;
        anchor = taken p.commited.anchor p.anchor a.anchor;
        width = taken p.commited.size p.width a.width;
        height = taken p.commited.size p.height a.height;
        exclusive_zone = taken p.commited.exclusive_zone p.exclusive_zone a.exclusive_zone;
        keyboard_interactivity =
            taken p.commited.keyboard_interactivity p.keyboard_interactivity
              a.keyboard_interactivity;
      };
      pending = record p {
        commited = record {
          layer = false;
          anchor = false;
          size = false;
          exclusive_zone = false;
          keyboard_interactivity = false;
        };
      };
    }

-- The size of the buffer that is attached, with the one of dma memory first
unfoldable pub buffer_size_of : ℕ → Wl → Exec Size
buffer_size_of a s = do
  b ← at World.buffers a s
  elim b.dma [
    | some dma ↦ do
      d ← at World.dmabufs dma s
      ok (record { width = signed32 d.width; height = signed32 d.height })
    | none ↦ do
      shm ← some_or_undefined b.shm
      raw ← at World.rawbufs shm s
      ok (record { width = signed32 raw.width; height = signed32 raw.height })
  ]

abbrev pub apply_dst : Viewport → Viewport
apply_dst v = record v {
  active = record (v.active) { dst = taken v.pending.dst_set v.pending.dst v.active.dst };
  pending = record (v.pending) { dst_set = false };
}

abbrev pub apply_src : Viewport → Viewport
apply_src v = record v {
  active = record (v.active) { src = v.pending.src };
  pending = record (v.pending) { src_set = false };
}

abbrev pub viewport_out_of_buffer : ℕ
viewport_out_of_buffer = 2

-- `exceeds` is the comparison of the source with the size of a buffer, in `double`.
module _ (exceeds : Region → Size → Bool) where
  -- The test in `c_wp_viewport_state_apply`: whether it reports an error.
  unfoldable pub src_exceeds : Viewport → Wl → Exec Bool
  unfolding buffer_size_of
  src_exceeds v s =
      if v.pending.src_set
      then (do
        a ← some_or_undefined v.surface
        u ← at World.surfaces a s
        elim u.pending.buffer [
          | none ↦ ok false
          | some b ↦ do size ← buffer_size_of b s; ok (exceeds v.pending.src size)
        ])
      else ok false

  -- `c_wp_viewport_state_apply`
  unfoldable pub viewport_state_apply : ℕ → Wl → Exec (ℤ × Wl)
  unfolding src_exceeds
  viewport_state_apply a s = do
    v ← at World.viewports a s
    error ← src_exceeds v s
    if error
        then refuse v.id viewport_out_of_buffer s
        else ok (pos 0, set_viewport a (apply_dst (if v.pending.src_set then apply_src v else v)) s)

  unfoldable pub apply_xdg : Option ℕ → Wl → Exec Wl
  unfolding xdg_state_apply
  apply_xdg none s = ok s
  apply_xdg (some a) s = do
    x ← at World.xdg_surfaces a s
    ok (set_xdg_surface a (xdg_state_apply x) s)

  unfoldable pub apply_layer : Option ℕ → Wl → Exec Wl
  unfolding layer_state_apply
  apply_layer none s = ok s
  apply_layer (some a) s = do
    l ← at World.layer_surfaces a s
    ok (set_layer_surface a (layer_state_apply l) s)

  unfoldable pub apply_viewport : Option ℕ → Wl → Exec (ℤ × Wl)
  apply_viewport none s = ok (pos 0, s)
  apply_viewport (some a) s = viewport_state_apply a s

  -- `c_wl_surface_state_apply`
  unfoldable pub surface_state_apply : ℕ → Wl → Exec (ℤ × Wl)
  unfolding apply_pending apply_xdg apply_layer apply_viewport
  surface_state_apply a s = do
    u ← at World.surfaces a s
    s1 ← apply_xdg u.xdg_surface (set_surface a (apply_pending u) s)
    s2 ← apply_layer u.layer_surface s1
    apply_viewport u.viewport s2
