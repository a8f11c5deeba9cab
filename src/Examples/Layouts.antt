-- ===== src/Examples/Layouts.antt =====
-- cuts.c: a screen of 1920 by 1080 with the bar on top, and three windows of which one floats.
use cuts.Base.{
  ℕ, ◌-◌, ◌/◌, ◌^◌, ◌<◌, ◌≡◌, refl, Bool, true, false, some, List, [], ◌∷◌, arith, ok, pos,
}
use cuts.Base.Lists.{length, get_elem?}
use cuts.Wm.Layout.{
  Mode, Bar, bar_top, Config, Client, Counts, TileLayout, calc_tile_layout, tile_area, beside,
  count_tiled, counts, slot, is_tiled, in_tag, tile, Area, add32, sub32, mul32,
}
use cuts.Wm.Layout.Columns.{Fits}
use cuts.Wm.Layout.Slots.{Inside, Apart, slots-Apart}
use cuts.Wm.Layout.Place.{Fills, HasRoom, tile_at, tile_untouched}
use cuts.Wm.Focus.{tag_select_client, select_loop, count_windows, select_back}

abbrev screen : Mode
screen = record { width = 1920; height = 1080 }

abbrev bar : Bar
bar = record { position = bar_top; width = 1920; height = 20 }

abbrev config : Config
config = record { gap = 5; nmaster = 1; border_width = 2 }

-- `mfact` is 0.5.
abbrev half : ℕ → ℕ → ℕ
half width g = width / 2 - g

abbrev window : ℕ → Bool → Client
window ident float = record {
  ident = ident;
  tag = 1;
  is_window = true;
  state = record { float = float; fullscreen = false };
  x = pos 0;
  y = pos 0;
  width = 640;
  height = 480;
  border_rect = [];
  activated = false;
}

abbrev windows : List Client
windows = window 1 false ∷ window 2 true ∷ window 3 false ∷ []

abbrev layout : TileLayout
layout = calc_tile_layout half 5 screen bar

abbrev two_columns : Counts
two_columns = record {
  stack_clients = 1;
  master_clients = 1;
  master_client_height = 1050;
  stack_client_height = 1050;
}

room : Fits half config screen bar 2
unfolding tile_area beside add32 sub32 mul32
room = record {
  width_word = omega arith;
  height_word = omega arith;
  width = omega arith;
  columns = omega arith;
  height = omega arith;
  nmaster = omega arith;
  clients = omega arith;
  clients_word = omega arith;
}

slots-Apart_example :
    (k : Counts) × (counts config layout 2 ≡ ok k)
    × ((i : ℕ) → i < 2 → Inside (slot config layout k i) (tile_area 5 screen bar))
    × ((i j : ℕ) → i < j → j < 2 → Apart 5 (slot config layout k i) (slot config layout k j))
slots-Apart_example = slots-Apart half config screen bar 2 room

counted : counts config layout (count_tiled 1 windows) ≡ ok two_columns
unfolding counts count_tiled in_tag is_tiled calc_tile_layout tile_area beside add32 sub32 mul32
counted = refl

abbrev third_slot : Area
third_slot = slot config layout two_columns (count_tiled 1 (window 1 false ∷ window 2 true ∷ []))

third_room : HasRoom 2 third_slot
unfolding slot counts count_tiled in_tag is_tiled calc_tile_layout tile_area beside add32 sub32
    mul32
third_room = record {
  width = omega arith;
  height = omega arith;
  width_word = omega arith;
  height_word = omega arith;
}

tile_at_example :
    (placed : List Client) × (c' : Client) × (tile config (some 1) 1 half screen bar windows
      ≡ ok placed)
    × (length placed ≡ 3)
    × (get_elem? placed 2 ≡ some c')
    × (c'.ident ≡ 3)
    × Fills config.border_width third_slot c'
unfolding in_tag is_tiled
tile_at_example =
    tile_at half config screen bar (some 1) 1 (window 1 false ∷ window 2 true ∷ []) (window 3 false)
      [] two_columns counted refl refl third_room

abbrev no_columns : Counts
no_columns = record {
  stack_clients = 0;
  master_clients = 0;
  master_client_height = 0;
  stack_client_height = 0;
}

counted_none : counts config layout (count_tiled 2 windows) ≡ ok no_columns
unfolding counts count_tiled in_tag is_tiled calc_tile_layout tile_area beside add32 sub32 mul32
counted_none = refl

tile_untouched_example :
    (placed : List Client) × (tile config (some 1) 2 half screen bar windows ≡ ok placed)
    × (length placed ≡ 3)
    × (get_elem? placed 2 ≡ some (window 3 false))
unfolding in_tag
tile_untouched_example =
    tile_untouched half config screen bar (some 1) 2 (window 1 false ∷ window 2 true ∷ [])
      (window 3 false) [] no_columns counted_none refl

in_stack : slot config layout two_columns 1 ≡ record { x = 963; y = 25; width = 952; height = 1050 }
unfolding slot calc_tile_layout tile_area beside add32 sub32 mul32
in_stack = refl

tiled : is_tiled (window 3 false) ≡ true
unfolding is_tiled
tiled = refl

select_back_example :
    tag_select_client 1 (2 ^ 32 - 1) (tag_select_client 1 1 2 windows).0 windows
    ≡ (2, some (window 3 false))
unfolding in_tag
select_back_example = select_back 1 2 windows (window 3 false) (omega arith) refl

-- From the last window to the first
selected : tag_select_client 1 1 2 windows ≡ (0, some (window 1 false))
unfolding tag_select_client count_windows select_loop in_tag
selected = refl
