-- ===== src/Wayland/Impl/State.antt =====
-- wayland/impl/wayland.h, xdg-shell.h, viewporter.h and wlr-layer-shell-unstable-v1.h: what the
-- server keeps for the objects of these protocols. Flags in a word are a record of them.
use cuts.Base.{ℕ, Bool, Option, List, ℤ}

-- `struct c_wl_region`, and any other rectangle of `c_wl_int`
pub record Region : Type 0 where
  pub x : ℤ
  pub y : ℤ
  pub width : ℤ
  pub height : ℤ

pub record Size : Type 0 where
  pub width : ℤ
  pub height : ℤ

-- `enum c_wl_surface_state_commited`
pub record SurfaceFlags : Type 0 where
  pub damage : Bool
  pub input : Bool
  pub opaque : Bool
  pub buffer : Bool
  pub scale : Bool
  pub transform : Bool

-- `struct c_wl_surface_state`; the buffer by its address
pub record SurfaceState : Type 0 where
  pub commited : SurfaceFlags
  pub scale : ℤ
  pub transform : ℕ
  pub damage : Region
  pub input : Region
  pub opaque : Region
  pub buffer : Option ℕ

-- `enum c_wl_surface_roles`; 0 is no role.
abbrev pub role_toplevel : ℕ
role_toplevel = 1

abbrev pub role_popup : ℕ
role_popup = 2

abbrev pub role_subsurface : ℕ
role_subsurface = 3

-- `struct c_wl_surface`; what it points to by its address, and the arrays by the part in use
pub record Surface : Type 0 where
  pub pending : SurfaceState
  pub active : SurfaceState
  pub frames : List ℕ
  pub role : ℕ
  pub xdg_surface : Option ℕ
  pub layer_surface : Option ℕ
  pub viewport : Option ℕ
  pub subsurface : Option ℕ
  pub children : Option (List ℕ)

-- `struct c_wl_subsurface`
pub record Subsurface : Type 0 where
  pub id : ℕ
  pub x : ℤ
  pub y : ℤ
  pub sync : Bool
  pub surface : Option ℕ
  pub parent : Option ℕ

-- `struct c_wl_shm_pool`: `ptr` by its address
pub record ShmPool : Type 0 where
  pub fd : ℕ
  pub ptr : ℕ
  pub size : ℕ

-- `struct c_rawbuf`, as far as wayland.c fills it in
pub record RawBuf : Type 0 where
  pub width : ℕ
  pub height : ℕ
  pub stride : ℕ
  pub format : ℕ
  pub offset : ℤ
  pub base_ptr : ℕ

-- The width and the height of a `struct c_dmabuf`
pub record Extent : Type 0 where
  pub width : ℕ
  pub height : ℕ

-- `struct c_wl_buffer`, with what it points to by its address
pub record Buffer : Type 0 where
  pub pool : Option ℕ
  pub dma : Option ℕ
  pub shm : Option ℕ

-- `struct c_xdg_surface_state` with its flags
pub record XdgFlags : Type 0 where
  pub max_size : Bool
  pub min_size : Bool
  pub geo : Bool

pub record XdgState : Type 0 where
  pub commited : XdgFlags
  pub max : Size
  pub min : Size
  pub geo : Region

-- `struct c_xdg_positioner`
pub record Positioner : Type 0 where
  pub x : ℤ
  pub y : ℤ
  pub width : ℤ
  pub height : ℤ
  pub gravity : ℕ
  pub anchor : ℕ
  pub constraint_adjustment : ℕ
  pub anchor_rect : Region

-- A string of `strdup`: none yet, its characters, or a pointer to one that was freed
pub data Text : Type 0 where
  unset : Text
  chars : List ℕ → Text
  freed : Text

-- `struct c_xdg_surface`
pub record XdgSurface : Type 0 where
  pub id : ℕ
  pub ack_configure : ℕ
  pub pending : XdgState
  pub active : XdgState
  pub surface : Option ℕ
  pub title : Text
  pub app_id : Text
  pub positioner : Option ℕ
  pub popup_x : ℤ
  pub popup_y : ℤ
  pub children : Option (List ℕ)
  pub parent : Option ℕ

-- `struct c_zwlr_layer_surface_state` with its flags
pub record LayerFlags : Type 0 where
  pub layer : Bool
  pub anchor : Bool
  pub size : Bool
  pub exclusive_zone : Bool
  pub keyboard_interactivity : Bool

pub record LayerState : Type 0 where
  pub commited : LayerFlags
  pub layer : ℕ
  pub anchor : ℕ
  pub width : ℕ
  pub height : ℕ
  pub exclusive_zone : ℤ
  pub keyboard_interactivity : ℕ

-- `struct c_zwlr_layer_surface`
pub record LayerSurface : Type 0 where
  pub pending : LayerState
  pub active : LayerState
  pub surface : Option ℕ
  pub acked_configure : ℕ
  pub namespace : Text

-- `struct c_wp_viewport_state`; the source by the four arguments that it is converted from
pub record ViewportState : Type 0 where
  pub src_set : Bool
  pub dst_set : Bool
  pub src : Region
  pub dst : Size

-- `struct c_wp_viewport`
pub record Viewport : Type 0 where
  pub id : ℕ
  pub surface : Option ℕ
  pub pending : ViewportState
  pub active : ViewportState
