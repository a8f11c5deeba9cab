-- ===== src/Wm/Layout/Place.antt =====
-- Where `tile` puts each client.
use cuts.Base.{
  ℕ, suc, ◌+◌, ◌-◌, ◌*◌, ◌^◌, ◌≤◌, ◌<◌, ◌≡◌, refl, ap, ◌∙◌, inl, inr, true, false, ◌&&◌, Option,
  some, List, [], ◌∷◌, ◌++◌, arith, leb, if◌then◌else◌, Bool-cases, ok, pos,
}
use cuts.Base.Lists.{length, get_elem?}
use cuts.Wm.Layout.Columns.{mul32_lem, sub32_lem, add32_lem}
use cuts.Wm.Layout.{
  add32, sub32, mul32, minus, Mode, Bar, Config, TileLayout, Counts, Client, calc_tile_layout,
  in_tag, is_tiled, count_tiled, counts, slot, Area, Rect, activate, client_border_sync, put_in,
  tile_client, tile_clients, tile,
}

-- What becomes of a client with `i` tiled clients in front of it: a window with one of the tags in
-- view is placed, all other clients stay as they are.
abbrev after : Config → Option ℕ → ℕ → TileLayout → Counts → ℕ → Client → Client
after cfg focused tag layout n i c =
    if in_tag tag c && c.is_window then tile_client cfg focused tag layout n i c else c

module _ (cfg : Config) (focused : Option ℕ) (tag : ℕ) (layout : TileLayout) (n : Counts) where
  tile_clients_at :
      (i : ℕ) (before : List Client) (c : Client) (behind : List Client)
      → get_elem? (tile_clients cfg focused tag layout n i (before ++ c ∷ behind)) (length before)
        ≡ some (after cfg focused tag layout n (i + count_tiled tag before) c)
  unfolding tile_clients count_tiled
  tile_clients_at i [] c behind = ap (λ k. some (after cfg focused tag layout n k c)) (omega arith)
  tile_clients_at i (b ∷ before) c behind = elim (Bool-cases (in_tag tag b && is_tiled b)) [
    | inl t ↦ rw t (
        tile_clients_at (i + 1) before c behind
        ∙ ap (λ k. some (after cfg focused tag layout n k c)) (omega arith))
    | inr t ↦ rw t (tile_clients_at i before c behind)
  ]

  length-tile_clients :
      (i : ℕ) (cs : List Client) → length (tile_clients cfg focused tag layout n i cs) ≡ length cs
  unfolding tile_clients
  length-tile_clients i [] = refl
  length-tile_clients i (c ∷ cs) =
      ap suc (length-tile_clients (if in_tag tag c && is_tiled c then i + 1 else i) cs)

tile_lem :
    (by_mfact : ℕ → ℕ → ℕ) (cfg : Config) (mode : Mode) (bar : Bar) (focused : Option ℕ) (tag : ℕ)
    (before : List Client) (c : Client) (behind : List Client) (n : Counts)
    → counts cfg
        (calc_tile_layout by_mfact cfg.gap mode bar)
        (count_tiled tag (before ++ c ∷ behind))
      ≡ ok n
    → (placed : List Client) × (tile cfg focused tag by_mfact mode bar (before ++ c ∷ behind)
        ≡ ok placed)
      × (length placed ≡ length (before ++ c ∷ behind))
      × (get_elem? placed (length before)
          ≡ some (
              after cfg focused tag
                (calc_tile_layout by_mfact cfg.gap mode bar)
                n
                (count_tiled tag before)
                c))
unfolding tile
tile_lem by_mfact cfg mode bar focused tag before c behind n eq =
    let layout = calc_tile_layout by_mfact cfg.gap mode bar in
    (
      tile_clients cfg focused tag layout n 0 (before ++ c ∷ behind),
      rw eq refl,
      length-tile_clients cfg focused tag layout n 0 (before ++ c ∷ behind),
      tile_clients_at cfg focused tag layout n 0 before c behind
          ∙ ap (λ k. some (after cfg focused tag layout n k c)) (omega arith),
    )

-- The four strips along the sides of an area: top, right, bottom, left
abbrev pub outline : ℕ → Area → List Rect
outline bw a =
    record { x = pos a.x; y = pos a.y; width = a.width; height = bw }
    ∷ record { x = pos (a.x + a.width - bw); y = pos a.y; width = bw; height = a.height }
    ∷ record { x = pos a.x; y = pos (a.y + a.height - bw); width = a.width; height = bw }
    ∷ record { x = pos a.x; y = pos a.y; width = bw; height = a.height }
    ∷ []

minus_lem : (x bw : ℕ) → minus (pos (x + bw)) bw ≡ pos x
minus_lem x bw = let le : leb bw (x + bw) ≡ true = ground arith in rw le (ap pos (omega arith))

module _ (bw : ℕ) (area : Area) (c : Client) (width : bw * 2 ≤ area.width)
    (height : bw * 2 ≤ area.height) (width_word : area.width < 2 ^ 32)
    (height_word : area.height < 2 ^ 32) where
  twice : mul32 bw 2 ≡ bw * 2
  twice = mul32_lem bw 2 (omega arith)

  width_lem : sub32 area.width (mul32 bw 2) ≡ area.width - bw * 2
  width_lem = rw twice (sub32_lem area.width (bw * 2) width width_word)

  height_lem : sub32 area.height (mul32 bw 2) ≡ area.height - bw * 2
  height_lem = rw twice (sub32_lem area.height (bw * 2) height height_word)

  whole_width : add32 (area.width - bw * 2) (mul32 bw 2) ≡ area.width
  whole_width = rw twice (add32_lem (area.width - bw * 2) (bw * 2) (omega arith) ∙ omega arith)

  whole_height : add32 (area.height - bw * 2) (mul32 bw 2) ≡ area.height
  whole_height = rw twice (add32_lem (area.height - bw * 2) (bw * 2) (omega arith) ∙ omega arith)

  right : area.x + bw + (area.width - bw * 2) ≡ area.x + area.width - bw
  right = omega arith

  bottom : area.y + bw + (area.height - bw * 2) ≡ area.y + area.height - bw
  bottom = omega arith

  border_rect_lem : (client_border_sync bw (put_in bw area c)).border_rect ≡ outline bw area
  unfolding client_border_sync put_in
  border_rect_lem =
      rw
        (
          width_lem,
          height_lem,
          whole_width,
          whole_height,
          minus_lem area.x bw,
          minus_lem area.y bw,
          right,
          bottom,
        )
        refl

shown_lem : (c : Client) → is_tiled c ≡ true → c.state.fullscreen ≡ false
unfolding is_tiled
shown_lem c tiled = ground arith

tiled_client :
    (cfg : Config) (focused : Option ℕ) (tag : ℕ) (layout : TileLayout) (n : Counts) (i : ℕ)
    (c : Client)
    → is_tiled c ≡ true
    → tile_client cfg focused tag layout n i c
      ≡ activate focused
          (client_border_sync cfg.border_width (put_in cfg.border_width (slot cfg layout n i) c))
unfolding tile_client
tiled_client cfg focused tag layout n i c tiled =
    let shown : c.state.fullscreen ≡ false = shown_lem c tiled in rw (tiled, shown) refl

-- The client fills the area: the borders are the strips along its sides, and the window is what they
-- leave.
pub record Fills (bw : ℕ) (area : Area) (c : Client) : Type 0 where
  pub borders : c.border_rect ≡ outline bw area
  pub x : c.x ≡ pos (area.x + bw)
  pub y : c.y ≡ pos (area.y + bw)
  pub width : c.width + bw * 2 ≡ area.width
  pub height : c.height + bw * 2 ≡ area.height

-- The area has room for the borders, and its lengths are words.
pub record HasRoom (bw : ℕ) (area : Area) : Type 0 where
  pub width : bw * 2 ≤ area.width
  pub height : bw * 2 ≤ area.height
  pub width_word : area.width < 2 ^ 32
  pub height_word : area.height < 2 ^ 32

tile_client_framed :
    (cfg : Config) (focused : Option ℕ) (tag : ℕ) (layout : TileLayout) (n : Counts) (i : ℕ)
    (c : Client)
    → is_tiled c ≡ true
    → HasRoom cfg.border_width (slot cfg layout n i)
    → (framed : Client) × (tile_client cfg focused tag layout n i c ≡ framed)
      × Fills cfg.border_width (slot cfg layout n i) framed
      × (framed.ident ≡ c.ident)
unfolding activate client_border_sync put_in
tile_client_framed cfg focused tag layout n i c tiled room =
    let bw = cfg.border_width in
    let area = slot cfg layout n i in
    (
      activate focused (client_border_sync bw (put_in bw area c)),
      tiled_client cfg focused tag layout n i c tiled,
      record {
        borders = border_rect_lem bw area c room.width room.height room.width_word room.height_word;
        x = refl;
        y = refl;
        width =
            rw (width_lem bw area c room.width room.height room.width_word room.height_word)
              (let fits = room.width in omega arith);
        height =
            rw (height_lem bw area c room.width room.height room.width_word room.height_word)
              (let fits = room.height in omega arith);
      },
      refl,
    )

tiled_shown :
    (tag : ℕ) (c : Client)
    → in_tag tag c ≡ true
    → is_tiled c ≡ true
    → (in_tag tag c && c.is_window) ≡ true
unfolding is_tiled
tiled_shown tag c shown tiled = ground arith

-- `tile` keeps the clients in their order. A window with one of the tags in view that neither floats
-- nor is in fullscreen, with its borders, comes to fill the slot whose number is the number of such
-- windows in front of it, where the slot has room for the borders.
pub tile_at :
    (by_mfact : ℕ → ℕ → ℕ) (cfg : Config) (mode : Mode) (bar : Bar) (focused : Option ℕ) (tag : ℕ)
    (before : List Client) (c : Client) (behind : List Client) (n : Counts)
    → counts cfg
        (calc_tile_layout by_mfact cfg.gap mode bar)
        (count_tiled tag (before ++ c ∷ behind))
      ≡ ok n
    → in_tag tag c ≡ true
    → is_tiled c ≡ true
    → HasRoom cfg.border_width
        (slot cfg (calc_tile_layout by_mfact cfg.gap mode bar) n (count_tiled tag before))
    → (placed : List Client) × (c' : Client) × (tile cfg focused tag by_mfact mode bar
          (before ++ c ∷ behind)
        ≡ ok placed)
      × (length placed ≡ length (before ++ c ∷ behind))
      × (get_elem? placed (length before) ≡ some c')
      × (c'.ident ≡ c.ident)
      × Fills cfg.border_width
          (slot cfg (calc_tile_layout by_mfact cfg.gap mode bar) n (count_tiled tag before))
          c'
tile_at by_mfact cfg mode bar focused tag before c behind n eq shown tiled room =
    let layout = calc_tile_layout by_mfact cfg.gap mode bar in
    let i = count_tiled tag before in
    let (placed, run, same, found) =
      tile_lem by_mfact cfg mode bar focused tag before c behind n eq in
    let (c', is, fills, ident) = tile_client_framed cfg focused tag layout n i c tiled room in
    let both = tiled_shown tag c shown tiled in
    (placed, c', run, same, found ∙ rw both (ap some is), ident, fills)

-- `tile` leaves a client that is no window, or has none of the tags in view, as it is and where it is.
pub tile_untouched :
    (by_mfact : ℕ → ℕ → ℕ) (cfg : Config) (mode : Mode) (bar : Bar) (focused : Option ℕ) (tag : ℕ)
    (before : List Client) (c : Client) (behind : List Client) (n : Counts)
    → counts cfg
        (calc_tile_layout by_mfact cfg.gap mode bar)
        (count_tiled tag (before ++ c ∷ behind))
      ≡ ok n
    → (in_tag tag c && c.is_window) ≡ false
    → (placed : List Client) × (tile cfg focused tag by_mfact mode bar (before ++ c ∷ behind)
        ≡ ok placed)
      × (length placed ≡ length (before ++ c ∷ behind))
      × (get_elem? placed (length before) ≡ some c)
tile_untouched by_mfact cfg mode bar focused tag before c behind n eq hidden =
    let (placed, run, same, found) =
      tile_lem by_mfact cfg mode bar focused tag before c behind n eq in
    (placed, run, same, found ∙ rw hidden refl)
