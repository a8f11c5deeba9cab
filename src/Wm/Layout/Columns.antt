-- ===== src/Wm/Layout/Columns.antt =====
-- The area of the tile layout and its columns, where nothing wraps around.
use cuts.Base.{ℕ, ◌+◌, ◌-◌, ◌*◌, ◌/◌, ◌^◌, ◌≤◌, ◌<◌, ◌≡◌, refl, arith}
use native.Mathlib.Nat.{mod-eq_of_lt, mul-div-le, mul-le-mul_left, mul-le-mul_right}
use cuts.Wm.Layout.{
  Mode, Bar, BarPosition, bar_top, bar_bottom, bar_right, bar_left, Config, TileLayout, Area, add32,
  sub32, mul32, beside, tile_area, calc_tile_layout,
}

-- How many pixels the bar takes in each direction
abbrev pub taken_width : BarPosition → ℕ → ℕ
taken_width bar_top width = 0
taken_width bar_bottom width = 0
taken_width bar_right width = width
taken_width bar_left width = width

abbrev pub taken_height : BarPosition → ℕ → ℕ
taken_height bar_top height = height
taken_height bar_bottom height = height
taken_height bar_right height = 0
taken_height bar_left height = 0

-- Room for the gaps, the bar and both columns, so that no difference wraps around.
pub record Fits (by_mfact : ℕ → ℕ → ℕ) (cfg : Config) (mode : Mode) (bar : Bar) (n : ℕ)
    : Type 0 where
  pub width_word : mode.width < 2 ^ 32
  pub height_word : mode.height < 2 ^ 32
  pub width : cfg.gap * 2 + taken_width bar.position bar.width ≤ mode.width
  pub columns :
      by_mfact (tile_area cfg.gap mode bar).width (cfg.gap / 2) + cfg.gap
      ≤ (tile_area cfg.gap mode bar).width
  pub height : cfg.gap * (n + 2) + taken_height bar.position bar.height ≤ mode.height
  pub nmaster : 1 ≤ cfg.nmaster
  pub clients : 1 ≤ n
  pub clients_word : n < 2 ^ 32

pub sub32_lem : (a b : ℕ) → b ≤ a → a < 2 ^ 32 → sub32 a b ≡ a - b
unfolding sub32
sub32_lem a b le word = omega arith

pub add32_lem : (a b : ℕ) → a + b < 2 ^ 32 → add32 a b ≡ a + b
unfolding add32
add32_lem a b word = omega arith

pub mul32_lem : (a b : ℕ) → a * b < 2 ^ 32 → mul32 a b ≡ a * b
unfolding mul32
mul32_lem a b word = mod-eq_of_lt word

-- The cells of a column: `m` of them, with the gap between each two, fit into its height.
pub cell_inside :
    (total gap m i : ℕ)
    → i < m
    → gap * (m - 1) ≤ total
    → (total - gap * (m - 1)) / m * i + gap * i + (total - gap * (m - 1)) / m ≤ total
cell_inside total gap m i lt fits =
    let h = (total - gap * (m - 1)) / m in
    let all : m * h ≤ total - gap * (m - 1) = mul-div-le _ m in
    let some : (i + 1) * h ≤ m * h = mul-le-mul_right h (omega arith) in
    let gaps : gap * i ≤ gap * (m - 1) = mul-le-mul_left gap (omega arith) in omega arith

pub cells_apart : (h gap i j : ℕ) → i < j → h * i + gap * i + h + gap ≤ h * j + gap * j
cells_apart h gap i j lt =
    let cells : h * (i + 1) ≤ h * j = mul-le-mul_left h (omega arith) in
    let gaps : gap * (i + 1) ≤ gap * j = mul-le-mul_left gap (omega arith) in omega arith

-- What the proofs use of the layout.
pub record Columns (cfg : Config) (layout : TileLayout) (n : ℕ) : Type 0 where
  pub height_word : layout.height < 2 ^ 32
  pub gaps : cfg.gap * n ≤ layout.height
  pub master_x : layout.master_x ≡ layout.x
  pub stack_x : layout.stack_x ≡ layout.x + layout.master_width + cfg.gap
  pub width : layout.master_width + cfg.gap + layout.stack_width ≡ layout.width

-- What the proofs use of the area: it is at least as high as the gaps between `n` cells.
record IsArea (cfg : Config) (mode : Mode) (area : Area) (n : ℕ) : Type 0 where
  width_word : area.x + area.width < 2 ^ 32
  height_word : area.height < 2 ^ 32
  gaps : cfg.gap * n ≤ area.height

module _ (cfg : Config) (mode : Mode) (bar : Bar) (n : ℕ) (width_word : mode.width < 2 ^ 32)
    (height_word : mode.height < 2 ^ 32) where
  abbrev inner : Area
  inner = record {
    x = cfg.gap;
    y = cfg.gap;
    width = mode.width - cfg.gap * 2;
    height = mode.height - cfg.gap * 2;
  }

  beside-IsArea :
      (p : BarPosition)
      → cfg.gap * 2 + taken_width p bar.width ≤ mode.width
      → cfg.gap * (n + 2) + taken_height p bar.height ≤ mode.height
      → IsArea cfg mode (beside p bar inner) n
  unfolding beside
  beside-IsArea bar_top width height =
      let h = sub32_lem inner.height bar.height (omega arith) (omega arith) in
      record { width_word = omega arith; height_word = omega arith; gaps = omega arith }
  beside-IsArea bar_bottom width height =
      let h = sub32_lem inner.height bar.height (omega arith) (omega arith) in
      record { width_word = omega arith; height_word = omega arith; gaps = omega arith }
  beside-IsArea bar_right width height =
      let w = sub32_lem inner.width bar.width (omega arith) (omega arith) in
      record { width_word = omega arith; height_word = omega arith; gaps = omega arith }
  beside-IsArea bar_left width height =
      let w = sub32_lem inner.width bar.width (omega arith) (omega arith) in
      let x = add32_lem cfg.gap bar.width (omega arith) in
      record { width_word = omega arith; height_word = omega arith; gaps = omega arith }

  tile_area-IsArea :
      cfg.gap * 2 + taken_width bar.position bar.width ≤ mode.width
      → cfg.gap * (n + 2) + taken_height bar.position bar.height ≤ mode.height
      → IsArea cfg mode (tile_area cfg.gap mode bar) n
  unfolding tile_area
  tile_area-IsArea width height =
      let gaps : mul32 cfg.gap 2 ≡ cfg.gap * 2 = mul32_lem cfg.gap 2 (omega arith) in
      rw
        (
          gaps,
          sub32_lem mode.width (cfg.gap * 2) (omega arith) width_word,
          sub32_lem mode.height (cfg.gap * 2) (omega arith) height_word,
        )
        (beside-IsArea bar.position width height)

pub calc_tile_layout-Columns :
    (by_mfact : ℕ → ℕ → ℕ) (cfg : Config) (mode : Mode) (bar : Bar) (n : ℕ)
    → Fits by_mfact cfg mode bar n
    → Columns cfg (calc_tile_layout by_mfact cfg.gap mode bar) n
unfolding calc_tile_layout
calc_tile_layout-Columns by_mfact cfg mode bar n fits =
    let area =
      tile_area-IsArea cfg mode bar n fits.width_word fits.height_word fits.width fits.height in
    let word = area.width_word in
    let columns = fits.columns in
    let rest =
      sub32_lem (tile_area cfg.gap mode bar).width
        (by_mfact (tile_area cfg.gap mode bar).width (cfg.gap / 2)) (omega arith) (omega arith) in
    let stack =
      sub32_lem
        ((tile_area cfg.gap mode bar).width
          - by_mfact (tile_area cfg.gap mode bar).width (cfg.gap / 2))
        cfg.gap (omega arith) (omega arith) in
    let left =
      add32_lem (tile_area cfg.gap mode bar).x
        (by_mfact (tile_area cfg.gap mode bar).width (cfg.gap / 2)) (omega arith) in
    let behind =
      add32_lem
        ((tile_area cfg.gap mode bar).x + by_mfact (tile_area cfg.gap mode bar).width (cfg.gap / 2))
        cfg.gap (omega arith) in
    record {
      height_word = area.height_word;
      gaps = area.gaps;
      master_x = refl;
      stack_x = rw (left, behind) refl;
      width = rw (rest, stack) (omega arith);
    }
