-- ===== src/Wm/Settings.antt =====
-- cuts.c: the bindings that change the gap, the border and the number of masters. The layout in use is a
-- parameter; the drawing that follows it on each monitor is left out.
use cuts.Base.{
  ℕ, zero, suc, ◌-◌, ◌^◌, ◌≤◌, ◌<◌, ◌≡◌, ap, List, arith, ltb, if◌then◌else◌, Exec, ok, ◌>>=◌,
}
use cuts.Wm.Layout.{Config, Client, add32}

-- `CLAMP`, on `uint32_t`
unfoldable pub clamp : ℕ → ℕ → ℕ → ℕ
clamp value low high =
    let least = if ltb value high then value else high in if ltb low least then least else low

module _ (layout : Config → List Client → Exec (List Client)) where
  -- `LAYOUT(mon)` for each monitor
  unfoldable pub relayout : (monitors : ℕ) → Config → List Client → Exec (Config × List Client)
  relayout zero cfg clients = ok (cfg, clients)
  relayout (suc n) cfg clients = do clients' ← layout cfg clients; relayout n cfg clients'

  -- `i` is the argument of the binding as a `uint32_t`.
  unfoldable pub change_nmaster :
      (monitors i : ℕ) → Config → List Client → Exec (Config × List Client)
  unfolding clamp relayout
  change_nmaster monitors i cfg clients =
      relayout monitors (record cfg { nmaster = clamp (add32 cfg.nmaster i) 1 10 }) clients

  unfoldable pub change_border :
      (monitors i : ℕ) → Config → List Client → Exec (Config × List Client)
  unfolding clamp relayout
  change_border monitors i cfg clients =
      relayout monitors (record cfg { border_width = clamp (add32 cfg.border_width i) 0 50 })
        clients

  unfoldable pub change_gap : (monitors i : ℕ) → Config → List Client → Exec (Config × List Client)
  unfolding clamp relayout
  change_gap monitors i cfg clients =
      relayout monitors (record cfg { gap = clamp (add32 cfg.gap i) 0 150 }) clients

  -- The argument -k, for a k larger than the gap, makes the gap 150 and not 0.
  pub change_gap_below_zero :
      (monitors k : ℕ) (cfg : Config) (clients : List Client)
      → cfg.gap < k
      → k ≤ 2 ^ 31
      → change_gap monitors (2 ^ 32 - k) cfg clients
        ≡ relayout monitors (record cfg { gap = 150 }) clients
  unfolding change_gap clamp add32
  change_gap_below_zero monitors k cfg clients less word =
      ap (λ g. relayout monitors (record cfg { gap = g }) clients) (ground arith)
