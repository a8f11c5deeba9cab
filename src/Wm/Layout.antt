-- ===== src/Wm/Layout.antt =====
-- cuts.c: the layouts `tile` and `zoom`, in the 32 bits of their numbers. The position of a window
-- is a `double`, here a whole number; the product with the `float` mfact is a parameter.
pub mod Columns
pub mod Slots
pub mod Place
use Prim.Native.Nat.{bit_and}
use cuts.Base.{
  ℕ, zero, suc, ◌+◌, ◌-◌, ◌*◌, ◌/◌, ◌%◌, ◌^◌, Bool, false, ◌&&◌, ◌||◌, not, Option, none, some,
  List, [], ◌∷◌, ltb, leb, ◌==◌, if◌then◌else◌, Exec, ok, ◌>>=◌, ◌>>◌, require, ℤ, pos, negsuc,
}

-- `struct c_output_mode`, as far as it is used
pub record Mode : Type 0 where
  pub width : ℕ
  pub height : ℕ

pub data BarPosition : Type 0 where
  bar_top bar_bottom bar_right bar_left : BarPosition

pub record Bar : Type 0 where
  pub position : BarPosition
  pub width : ℕ
  pub height : ℕ

-- The variables of config.h
pub record Config : Type 0 where
  pub gap : ℕ
  pub nmaster : ℕ
  pub border_width : ℕ

-- `struct tile_layout`
pub record TileLayout : Type 0 where
  pub x : ℕ
  pub y : ℕ
  pub height : ℕ
  pub width : ℕ
  pub master_x : ℕ
  pub master_width : ℕ
  pub stack_x : ℕ
  pub stack_width : ℕ

-- Sums, differences and products of `uint32_t`
unfoldable pub add32 : ℕ → ℕ → ℕ
add32 a b = (a + b) % 2 ^ 32

unfoldable pub sub32 : ℕ → ℕ → ℕ
sub32 a b = (a + 2 ^ 32 - b) % 2 ^ 32

unfoldable pub mul32 : ℕ → ℕ → ℕ
mul32 a b = a * b % 2 ^ 32

pub record Area : Type 0 where
  pub x : ℕ
  pub y : ℕ
  pub width : ℕ
  pub height : ℕ

-- What the four tests of `calc_tile_layout` on the position of the bar take off the area.
unfoldable pub beside : BarPosition → Bar → Area → Area
beside bar_top bar area = record area {
  y = add32 area.y bar.height;
  height = sub32 area.height bar.height;
}
beside bar_bottom bar area = record area { height = sub32 area.height bar.height }
beside bar_right bar area = record area { width = sub32 area.width bar.width }
beside bar_left bar area = record area {
  x = add32 area.x bar.width;
  width = sub32 area.width bar.width;
}

-- The area inside the gap and beside the bar
unfoldable pub tile_area : ℕ → Mode → Bar → Area
unfolding beside
tile_area gap mode bar = beside bar.position bar (record {
  x = gap;
  y = gap;
  width = sub32 mode.width (mul32 gap 2);
  height = sub32 mode.height (mul32 gap 2);
})

-- `calc_tile_layout`: `by_mfact width half` is `width * mfact - half`, as a `uint32_t`.
unfoldable pub calc_tile_layout : (by_mfact : ℕ → ℕ → ℕ) → ℕ → Mode → Bar → TileLayout
calc_tile_layout by_mfact gap mode bar =
    let area = tile_area gap mode bar in
    let master_width = by_mfact area.width (gap / 2) in
    record {
      x = area.x;
      y = area.y;
      height = area.height;
      width = area.width;
      master_x = area.x;
      master_width = master_width;
      stack_x = add32 (add32 area.x master_width) gap;
      stack_width = sub32 (sub32 area.width master_width) gap;
    }

-- The flags of `enum client_state`; with neither, the state is CLIENT_NORMAL.
pub record ClientState : Type 0 where
  pub float : Bool
  pub fullscreen : Bool

-- A `struct c_scene_rect` without its color
pub record Rect : Type 0 where
  pub x : ℤ
  pub y : ℤ
  pub width : ℕ
  pub height : ℕ

-- What the layouts use of a client: whether it is a window or a layer surface, its tags and state,
-- the geometry of its window, the four rectangles around it, and what the last configure event
-- said about its activation.
pub record Client : Type 0 where
  pub ident : ℕ
  pub tag : ℕ
  pub is_window : Bool
  pub state : ClientState
  pub x : ℤ
  pub y : ℤ
  pub width : ℕ
  pub height : ℕ
  pub border_rect : List Rect
  pub activated : Bool

-- Sums and differences of a position and a `uint32_t`
abbrev pub plus : ℤ → ℕ → ℤ
plus (pos a) b = pos (a + b)
plus (negsuc a) b = if ltb a b then pos (b - a - 1) else negsuc (a - b)

abbrev pub minus : ℤ → ℕ → ℤ
minus (pos a) b = if leb b a then pos (a - b) else negsuc (b - a - 1)
minus (negsuc a) b = negsuc (a + b)

-- `client_border_sync`: top, right, bottom, left
unfoldable pub client_border_sync : ℕ → Client → Client
client_border_sync bw c =
    let rect : ℤ → ℤ → ℕ → ℕ → Rect = λ x y w h. record { x = x; y = y; width = w; height = h } in
    record c {
      border_rect =
          rect (minus c.x bw) (minus c.y bw) (add32 c.width (mul32 bw 2)) bw
          ∷ rect (plus c.x c.width) (minus c.y bw) bw (add32 c.height (mul32 bw 2))
          ∷ rect (minus c.x bw) (plus c.y c.height) (add32 c.width (mul32 bw 2)) bw
          ∷ rect (minus c.x bw) (minus c.y bw) bw (add32 c.height (mul32 bw 2))
          ∷ [];
    }

-- `is_client(client, C_SCENE_NODE_WINDOW) && !client->state`
unfoldable pub is_tiled : Client → Bool
is_tiled c = c.is_window && not (c.state.float || c.state.fullscreen)

-- `clients_for_each_in_tag`
unfoldable pub in_tag : ℕ → Client → Bool
in_tag tag c = not (bit_and c.tag tag == 0)

unfoldable pub count_tiled : ℕ → List Client → ℕ
count_tiled tag [] = 0
count_tiled tag (c ∷ cs) =
    let rest = count_tiled tag cs in if in_tag tag c && is_tiled c then rest + 1 else rest

-- What `tile` computes before its loop.
pub record Counts : Type 0 where
  pub stack_clients : ℕ
  pub master_clients : ℕ
  pub master_client_height : ℕ
  pub stack_client_height : ℕ

-- The mask `-(tiled_clients >= nmaster)` is 0 or all ones. A division by 0 is undefined.
unfoldable pub counts : Config → TileLayout → ℕ → Exec Counts
counts cfg layout zero = ok (record {
  stack_clients = 0;
  master_clients = 0;
  master_client_height = 0;
  stack_client_height = 0;
})
counts cfg layout (suc n) = do
  let stack = if leb cfg.nmaster (suc n) then sub32 (suc n) cfg.nmaster else 0
  let master = sub32 (suc n) stack
  require (ltb 0 master)
  ok (record {
    stack_clients = stack;
    master_clients = master;
    master_client_height = sub32 layout.height (mul32 cfg.gap (sub32 master 1)) / master;
    stack_client_height =
        if stack == 0 then 0 else sub32 layout.height (mul32 cfg.gap (sub32 stack 1)) / stack;
  })

-- The geometry of the `i`-th tiled client without its border.
unfoldable pub slot : Config → TileLayout → Counts → ℕ → Area
slot cfg layout n i =
    if ltb i cfg.nmaster
    then record {
      x = layout.master_x;
      y = layout.y + n.master_client_height * i + cfg.gap * i;
      width = if ltb 0 n.stack_clients then layout.master_width else layout.width;
      height = n.master_client_height;
    }
    else record {
      x = layout.stack_x;
      y =
          layout.y
          + n.stack_client_height * (i - n.master_clients)
          + cfg.gap * (i - n.master_clients);
      width = layout.stack_width;
      height = n.stack_client_height;
    }

-- The geometry with the border taken off.
unfoldable pub put_in : ℕ → Area → Client → Client
put_in bw area c = record c {
  x = pos (area.x + bw);
  y = pos (area.y + bw);
  width = sub32 area.width (mul32 bw 2);
  height = sub32 area.height (mul32 bw 2);
}

-- `c_window_activate` for the focused client, `c_window_deactivate` for the others
unfoldable pub activate : Option ℕ → Client → Client
activate focused c = record c { activated = elim focused [ none ↦ false | some f ↦ f == c.ident ] }

module _ (cfg : Config) (focused : Option ℕ) (tag : ℕ) where
  -- The body of the loop of `tile`; the tests are in its order.
  unfoldable pub tile_client : TileLayout → Counts → ℕ → Client → Client
  tile_client layout n i c =
      let placed = if is_tiled c then put_in cfg.border_width (slot cfg layout n i) c else c in
      activate focused
        (if c.state.fullscreen then c else client_border_sync cfg.border_width placed)

  unfoldable pub tile_clients : TileLayout → Counts → ℕ → List Client → List Client
  tile_clients layout n i [] = []
  tile_clients layout n i (c ∷ cs) =
      let i' = if in_tag tag c && is_tiled c then i + 1 else i in
      let rest = tile_clients layout n i' cs in
      (if in_tag tag c && c.is_window then tile_client layout n i c else c) ∷ rest

  unfoldable pub tile : (by_mfact : ℕ → ℕ → ℕ) → Mode → Bar → List Client → Exec (List Client)
  tile by_mfact mode bar clients = do
    let layout = calc_tile_layout by_mfact cfg.gap mode bar
    n ← counts cfg layout (count_tiled tag clients)
    ok (tile_clients layout n 0 clients)

  -- The body of the loop of `zoom`: a floating client goes to the borders also in fullscreen.
  unfoldable pub zoom_client : TileLayout → Client → Client
  zoom_client layout c =
      let area : Area = record {
        x = layout.x;
        y = layout.y;
        width = layout.width;
        height = layout.height;
      } in
      let placed = if is_tiled c then put_in cfg.border_width area c else c in
      activate focused (
        if c.state.fullscreen && not c.state.float
        then c
        else client_border_sync cfg.border_width placed)

  unfoldable pub zoom_clients : TileLayout → List Client → List Client
  zoom_clients layout [] = []
  zoom_clients layout (c ∷ cs) =
      let rest = zoom_clients layout cs in
      (if in_tag tag c && c.is_window then zoom_client layout c else c) ∷ rest

  unfoldable pub zoom : (by_mfact : ℕ → ℕ → ℕ) → Mode → Bar → List Client → List Client
  zoom by_mfact mode bar clients = zoom_clients (calc_tile_layout by_mfact cfg.gap mode bar) clients
