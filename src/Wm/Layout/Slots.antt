-- ===== src/Wm/Layout/Slots.antt =====
-- The slots of the tile layout do not overlap and stay inside the area.
use cuts.Base.{
  ℕ, zero, suc, ◌+◌, ◌-◌, ◌*◌, ◌/◌, ◌^◌, ◌≤◌, ◌<◌, ◌≡◌, refl, sym, subst, ◌⊎◌, inl, inr, false,
  arith, ltb, leb, ◌==◌, if◌then◌else◌, lt→ltb, Bool-cases, ok,
}
use native.Mathlib.Nat.{mul-le-mul_left}
use cuts.Wm.Layout.{
  Mode, Bar, Config, TileLayout, Area, Counts, sub32, mul32, tile_area, calc_tile_layout, counts,
  slot,
}
use cuts.Wm.Layout.Columns.{
  Fits, sub32_lem, mul32_lem, cell_inside, cells_apart, Columns, calc_tile_layout-Columns,
}

-- Two areas with at least `gap` between them, one below or to the right of the other
abbrev pub Apart : ℕ → Area → Area → Type 0
Apart gap a b = (a.x + a.width + gap ≤ b.x) ⊎ (a.y + a.height + gap ≤ b.y)

abbrev pub Inside : Area → Area → Type 0
Inside a b = b.x ≤ a.x × a.x + a.width ≤ b.x + b.width × b.y ≤ a.y × a.y + a.height ≤ b.y + b.height

-- The counts without wrap-around
abbrev exact_counts : Config → TileLayout → ℕ → Counts
exact_counts cfg layout n =
    let stack = n - cfg.nmaster in
    let master = n - stack in
    record {
      stack_clients = stack;
      master_clients = master;
      master_client_height = (layout.height - cfg.gap * (master - 1)) / master;
      stack_client_height =
          if stack == 0 then 0 else (layout.height - cfg.gap * (stack - 1)) / stack;
    }

-- The difference as the mask computes it
masked_lem :
    (n nmaster : ℕ) → n < 2 ^ 32 → (if leb nmaster n then sub32 n nmaster else 0) ≡ n - nmaster
masked_lem n nmaster word = elim (Bool-cases (leb nmaster n)) [
  | inl t ↦ rw t (sub32_lem n nmaster (ground arith) word)
  | inr t ↦ rw t (ground arith)
]

gaps_lem :
    (cfg : Config) (height n m : ℕ)
    → height < 2 ^ 32
    → cfg.gap * n ≤ height
    → 1 ≤ m
    → m ≤ n
    → n < 2 ^ 32
    → sub32 height (mul32 cfg.gap (sub32 m 1)) ≡ height - cfg.gap * (m - 1)
gaps_lem cfg height n m word gaps some_cells le n_word =
    let fewer : cfg.gap * (m - 1) ≤ cfg.gap * n = mul-le-mul_left cfg.gap (omega arith) in
    rw
      (
        sub32_lem m 1 some_cells (omega arith),
        mul32_lem cfg.gap (m - 1) (omega arith),
        sub32_lem height (cfg.gap * (m - 1)) (omega arith) word,
      )
      refl

counts_lem :
    (cfg : Config) (layout : TileLayout) (n : ℕ)
    → Columns cfg layout n
    → 1 ≤ n
    → 1 ≤ cfg.nmaster
    → n < 2 ^ 32
    → counts cfg layout n ≡ ok (exact_counts cfg layout n)
unfolding counts
counts_lem cfg layout zero columns clients nmaster word = absurd (omega arith)
counts_lem cfg layout (suc n) columns clients nmaster word =
    let gaps = gaps_lem cfg layout.height (suc n) in
    let stack = suc n - cfg.nmaster in
    rw
      (
        masked_lem (suc n) cfg.nmaster word,
        sub32_lem (suc n) (suc n - cfg.nmaster) (omega arith) word,
        lt→ltb 0 (suc n - (suc n - cfg.nmaster)) (omega arith),
      )
      (elim (Bool-cases (stack == 0)) [
        | inl none_left ↦
            rw
              (
                gaps (suc n - stack) columns.height_word columns.gaps (omega arith) (omega arith)
                    word,
                none_left,
              )
              refl
        | inr t ↦
            rw
              (
                gaps (suc n - stack) columns.height_word columns.gaps (omega arith) (omega arith)
                    word,
                gaps stack columns.height_word columns.gaps (ground arith) (omega arith) word,
              )
              refl
      ])

module _ (cfg : Config) (layout : TileLayout) (n : ℕ) (columns : Columns cfg layout n)
    (clients : 1 ≤ n) (nmaster : 1 ≤ cfg.nmaster) where
  abbrev master_slot : ℕ → Area
  master_slot i =
      let k = exact_counts cfg layout n in
      record {
        x = layout.x;
        y = layout.y + k.master_client_height * i + cfg.gap * i;
        width = if ltb 0 k.stack_clients then layout.master_width else layout.width;
        height = k.master_client_height;
      }

  abbrev stack_slot : ℕ → Area
  stack_slot i =
      let k = exact_counts cfg layout n in
      record {
        x = layout.stack_x;
        y = layout.y + k.stack_client_height * (i - cfg.nmaster) + cfg.gap * (i - cfg.nmaster);
        width = layout.stack_width;
        height = k.stack_client_height;
      }

  slot_cases :
      (i : ℕ)
      → i < n
      → (i < cfg.nmaster × slot cfg layout (exact_counts cfg layout n) i ≡ master_slot i)
        ⊎ (cfg.nmaster ≤ i × slot cfg layout (exact_counts cfg layout n) i ≡ stack_slot i)
  unfolding slot
  slot_cases i lt = elim (Bool-cases (ltb i cfg.nmaster)) [
    | inl t ↦ inl (ground arith, rw (t, columns.master_x) refl)
    | inr t ↦
        let above : cfg.nmaster ≤ i = ground arith in
        let master : n - (n - cfg.nmaster) ≡ cfg.nmaster = omega arith in
        inr (above, rw (t, master) refl)
  ]

  -- The gaps of a column fit.
  column : (m : ℕ) → m ≤ n → cfg.gap * (m - 1) ≤ layout.height
  column m le =
      let fewer : cfg.gap * (m - 1) ≤ cfg.gap * n = mul-le-mul_left cfg.gap (omega arith) in
      let all = columns.gaps in omega arith

  stack_some : (i : ℕ) → i < n → cfg.nmaster ≤ i → (n - cfg.nmaster == 0) ≡ false
  stack_some i lt above = ground arith

  master_width : (i : ℕ) → (master_slot i).width ≤ layout.width
  master_width i =
      let width = columns.width in
      elim (Bool-cases (ltb 0 (n - cfg.nmaster))) [
        | inl t ↦ rw t (omega arith)
        | inr t ↦ rw t (omega arith)
      ]

  abbrev whole : Area
  whole = record { x = layout.x; y = layout.y; width = layout.width; height = layout.height }

  slot-Inside : (i : ℕ) → i < n → Inside (slot cfg layout (exact_counts cfg layout n) i) whole
  slot-Inside i lt = elim (slot_cases i lt) [
    | inl (below, eq) ↦
        let height =
          cell_inside layout.height cfg.gap (n - (n - cfg.nmaster)) i (omega arith)
            (column _ (omega arith)) in
        let width = master_width i in
        subst (λ a. Inside a whole) (sym eq) (omega arith, omega arith, omega arith, omega arith)
    | inr (above, eq) ↦
        let height =
          cell_inside layout.height cfg.gap (n - cfg.nmaster) (i - cfg.nmaster) (omega arith)
            (column _ (omega arith)) in
        let left = columns.stack_x in
        let width = columns.width in
        subst (λ a. Inside a whole) (sym eq)
          (rw (stack_some i lt above) (omega arith, omega arith, omega arith, omega arith))
  ]

  slot-Apart :
      (i j : ℕ)
      → i < j
      → j < n
      → Apart cfg.gap
          (slot cfg layout (exact_counts cfg layout n) i)
          (slot cfg layout (exact_counts cfg layout n) j)
  slot-Apart i j lt below = elim (slot_cases i (omega arith)) [
    | inl (_, eq) ↦ elim (slot_cases j below) [
      | inl (_, eq') ↦
          let cells = cells_apart (master_slot i).height cfg.gap i j lt in
          rw (eq, eq') (inr (omega arith))
      | inr (above, eq') ↦
          let left = columns.stack_x in
          rw (eq, eq', lt→ltb 0 (n - cfg.nmaster) (omega arith)) (inl (omega arith))
    ]
    | inr (above, eq) ↦ elim (slot_cases j below) [
      | inl (under, _) ↦ absurd (omega arith)
      | inr (_, eq') ↦
          let cells =
            cells_apart (stack_slot i).height cfg.gap (i - cfg.nmaster) (j - cfg.nmaster)
              (omega arith) in
          rw (eq, eq') (inr (omega arith))
    ]
  ]

-- Where there is room, `tile` computes as many slots as there are clients to be tiled, all inside
-- the area, and any two of them at least a gap apart.
pub slots-Apart :
    (by_mfact : ℕ → ℕ → ℕ) (cfg : Config) (mode : Mode) (bar : Bar) (n : ℕ)
    → Fits by_mfact cfg mode bar n
    → (k : Counts) × (counts cfg (calc_tile_layout by_mfact cfg.gap mode bar) n ≡ ok k)
      × ((i : ℕ)
          → i < n
          → Inside
              (slot cfg (calc_tile_layout by_mfact cfg.gap mode bar) k i)
              (tile_area cfg.gap mode bar))
      × ((i j : ℕ)
          → i < j
          → j < n
          → Apart cfg.gap
              (slot cfg (calc_tile_layout by_mfact cfg.gap mode bar) k i)
              (slot cfg (calc_tile_layout by_mfact cfg.gap mode bar) k j))
unfolding calc_tile_layout
slots-Apart by_mfact cfg mode bar n fits =
    let layout = calc_tile_layout by_mfact cfg.gap mode bar in
    let columns = calc_tile_layout-Columns by_mfact cfg mode bar n fits in
    (
      exact_counts cfg layout n,
      counts_lem cfg layout n columns fits.clients fits.nmaster fits.clients_word,
      slot-Inside cfg layout n columns fits.clients fits.nmaster,
      slot-Apart cfg layout n columns fits.clients fits.nmaster,
    )
