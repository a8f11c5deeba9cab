-- ===== src/Util/List/Walk.antt =====
-- The loops that only read: `c_list_get`, `c_list_idx`, and the walk to the sentinel.
use cuts.Base.{
  ℕ, zero, suc, ◌+◌, ◌<◌, ◌≡◌, sym, ◌∙◌, inl, inr, [], ◌∷◌, arith, ◌==◌, if◌then◌else◌, Bool-cases,
  ok, ℤ, pos, negsuc,
}
use cuts.Base.Lists.{length}
use cuts.Util.List.{Ptr, null, Heap, walk, get_loop, get, idx_loop, idx}
use cuts.Util.List.Nodes.{load_lem, not_null, ==_suc, ==_zero}
use cuts.Util.List.Chain.{Cells, first, Chain, IsList, first-ne}

pub walk_lem :
    (fuel : ℕ) (h : Heap) (stop q : Ptr) (xs : Cells)
    → Chain h stop q xs
    → length xs < fuel
    → walk fuel (first stop xs) h ≡ ok (stop, h)
unfolding walk
walk_lem zero h stop q xs c k = absurd (omega arith)
walk_lem (suc fuel) h stop q [] c k = rw (load_lem h stop _ c.0 c.1.1)
walk_lem (suc fuel) h stop q (x ∷ xs) c k =
    rw (load_lem h x.addr _ c.0 c.3.1, not_null _ (first-ne h stop x.addr xs c.4))
      (walk_lem fuel h stop x.addr xs c.4 (omega arith))

-- The data of the cell at an index, NULL past the end.
abbrev pub data_at : Cells → ℕ → Ptr
data_at [] i = null
data_at (x ∷ xs) zero = x.data_ptr
data_at (x ∷ xs) (suc i) = data_at xs i

get_loop_lem :
    (fuel : ℕ) (h : Heap) (stop q : Ptr) (xs : Cells) (i k : ℕ)
    → Chain h stop q xs
    → length xs < fuel
    → get_loop fuel (first stop xs) i (i + k) h ≡ ok (data_at xs k, h)
unfolding get_loop
get_loop_lem zero h stop q xs i k c f = absurd (omega arith)
get_loop_lem (suc fuel) h stop q [] i k c f = rw (load_lem h stop _ c.0 c.1.1)
get_loop_lem (suc fuel) h stop q (x ∷ xs) i zero c f =
    rw (load_lem h x.addr _ c.0 c.3.1, not_null _ (first-ne h stop x.addr xs c.4), ==_zero i)
get_loop_lem (suc fuel) h stop q (x ∷ xs) i (suc k) c f =
    let e : i + suc k ≡ i + 1 + k = omega arith in
    rw (load_lem h x.addr _ c.0 c.3.1, not_null _ (first-ne h stop x.addr xs c.4), ==_suc i k, e)
      (get_loop_lem fuel h stop x.addr xs (i + 1) k c.4 (omega arith))

-- The position of the first cell with this data, -1 without one.
abbrev pub position : ℕ → Cells → Ptr → ℤ
position i [] d = negsuc 0
position i (x ∷ xs) d = if x.data_ptr == d then pos i else position (i + 1) xs d

idx_loop_lem :
    (fuel : ℕ) (h : Heap) (stop q : Ptr) (xs : Cells) (i : ℕ) (d : Ptr)
    → Chain h stop q xs
    → length xs < fuel
    → idx_loop fuel (first stop xs) i d h ≡ ok (position i xs d, h)
unfolding idx_loop
idx_loop_lem zero h stop q xs i d c f = absurd (omega arith)
idx_loop_lem (suc fuel) h stop q [] i d c f = rw (load_lem h stop _ c.0 c.1.1)
idx_loop_lem (suc fuel) h stop q (x ∷ xs) i d c f =
    rw (load_lem h x.addr _ c.0 c.3.1, not_null _ (first-ne h stop x.addr xs c.4))
      (elim (Bool-cases (x.data_ptr == d)) [
        | inl t ↦ rw t
        | inr t ↦ rw t (idx_loop_lem fuel h stop x.addr xs (i + 1) d c.4 (omega arith))
      ])

-- `c_list_get` returns, for every index, the data of the cell there, and NULL past the end; the
-- loop ends and the heap stays as it is.
pub get-data_at :
    (h : Heap) (l : Ptr) (xs : Cells) (i : ℕ) → IsList h l xs → get l i h ≡ ok (data_at xs i, h)
unfolding get
get-data_at h l xs i v =
    let (n, e, s) = v.size in
    let ne = first-ne h v.stop null xs v.chain in
    rw (load_lem h l n (λ z. ne (sym v.head ∙ z)) e, v.head)
      (let z : 0 + i ≡ i = omega arith in
        rw z at (get_loop_lem (n.size + 2) h v.stop null xs 0 i v.chain (omega (arith, s))))

-- `c_list_idx` returns the position of the first cell with this data, and -1 if there is none.
pub idx-position :
    (h : Heap) (l : Ptr) (xs : Cells) (d : Ptr)
    → IsList h l xs
    → idx l d h ≡ ok (position 0 xs d, h)
unfolding idx
idx-position h l xs d v =
    let (n, e, s) = v.size in
    let ne = first-ne h v.stop null xs v.chain in
    rw (load_lem h l n (λ z. ne (sym v.head ∙ z)) e, v.head)
      (idx_loop_lem (n.size + 2) h v.stop null xs 0 d v.chain (omega (arith, s)))
