-- ===== src/Util/List/Erase.antt =====
-- Which cell `c_list_remove` finds, and that its loop gets there.
use cuts.Base.{
  ℕ, zero, suc, ◌+◌, ◌<◌, ◌≡◌, refl, sym, ap, ◌∙◌, ◌≢◌, inl, inr, false, Option, none, some, [],
  ◌∷◌, ◌++◌, arith, ◌==◌, if◌then◌else◌, ==_iff, Bool-cases, ok,
}
use cuts.Base.Lists.{length}
use cuts.Util.List.{Ptr, null, Node, Heap, remove_loop, drop_node}
use cuts.Util.List.Nodes.{load_lem, not_null}
use cuts.Util.List.Chain.{Cell, Cells, node, first, has, Chain}

-- The first cell with this data.
unfoldable pub find_cell : Ptr → Cells → Option Cell
find_cell d [] = none
find_cell d (x ∷ xs) = if x.data_ptr == d then some x else find_cell d xs

-- The list without that cell.
unfoldable pub erase : Ptr → Cells → Cells
erase d [] = []
erase d (x ∷ xs) = if x.data_ptr == d then xs else x ∷ erase d xs

-- The neighbours of the found cell, where it is not the first.
pub record Between (d : Ptr) (x : Cell) (xs : Cells) (c : Cell) : Type 0 where
  pub pre : Cells
  pub before : Cell
  pub post : Cells
  pub whole : x ∷ xs ≡ pre ++ before ∷ c ∷ post
  pub rest : erase d (x ∷ xs) ≡ pre ++ before ∷ post

pub between :
    (d : Ptr) (x : Cell) (xs : Cells) (c : Cell)
    → (x.data_ptr == d) ≡ false
    → find_cell d xs ≡ some c
    → Between d x xs c
unfolding find_cell erase
between d x [] c miss e = cc
between d x (y ∷ xs) c miss e = elim (Bool-cases (y.data_ptr == d)) [
  | inl t ↦ record {
    pre = [];
    before = x;
    post = xs;
    whole = let f : y ≡ c = ground (arith, e, t) in rw f;
    rest = rw (miss, t);
  }
  | inr t ↦
      let b = between d y xs c t (rw t at e) in
      record {
        pre = x ∷ b.pre;
        before = b.before;
        post = b.post;
        whole = ap (◌∷◌ x) b.whole;
        rest = rw miss (ap (◌∷◌ x) b.rest);
      }
]

pub length-erase :
    (d : Ptr) (xs : Cells) (c : Cell)
    → find_cell d xs ≡ some c
    → length xs ≡ suc (length (erase d xs))
unfolding find_cell erase
length-erase d [] c e = cc
length-erase d (x ∷ xs) c e = ground (arith, length-erase d xs c)

-- The loop stops at the found cell.
pub reach :
    (fuel : ℕ) (h : Heap) (head stop q d : Ptr) (xs : Cells) (c : Cell)
    → Chain h stop q xs
    → find_cell d xs ≡ some c
    → length xs < fuel
    → (n : Node) × (h.node c.addr ≡ some n)
      × (c.addr ≢ null)
      × (remove_loop fuel head (first stop xs) d h ≡ drop_node head c.addr n h)
unfolding remove_loop find_cell
reach zero h head stop q d xs c ch e f = absurd (omega arith)
reach (suc fuel) h head stop q d [] c ch e f = cc
reach (suc fuel) h head stop q d (x ∷ xs) c ch e f = elim (Bool-cases (x.data_ptr == d)) [
  | inl t ↦
      let z : x ≡ c = ground (arith, e, t) in
      rw (← z) (
        node x.data_ptr x.copied q (first stop xs) ch.3.0,
        ch.3.1,
        ch.0,
        rw (not_null x.addr ch.0, load_lem h x.addr _ ch.0 ch.3.1, t),
      )
  | inr t ↦
      let (n, en, ne, r) = reach fuel h head stop x.addr d xs c ch.4 (rw t at e) (omega arith) in
      (n, en, ne, rw (not_null x.addr ch.0, load_lem h x.addr _ ch.0 ch.3.1, t) r)
]

-- Without such a cell the loop runs off the end and changes nothing.
pub miss :
    (fuel : ℕ) (h : Heap) (head stop q d : Ptr) (xs : Cells)
    → Chain h stop q xs
    → find_cell d xs ≡ none
    → d ≢ null
    → length xs + 1 < fuel
    → remove_loop fuel head (first stop xs) d h ≡ ok (head, h)
unfolding remove_loop find_cell
miss zero h head stop q d xs ch e nd f = absurd (omega arith)
miss (suc zero) h head stop q d xs ch e nd f = absurd (omega arith)
miss (suc (suc fuel)) h head stop q d [] ch e nd f =
    let t : (null == d) ≡ false = ground arith in
    rw (not_null stop ch.0, load_lem h stop _ ch.0 ch.1.1, t)
miss (suc (suc fuel)) h head stop q d (x ∷ xs) ch e nd f = elim (Bool-cases (x.data_ptr == d)) [
  | inl t ↦ cc (rw t at e)
  | inr t ↦
      rw (not_null x.addr ch.0, load_lem h x.addr _ ch.0 ch.3.1, t)
        (miss (suc fuel) h head stop x.addr d xs ch.4 (rw t at e) nd (omega arith))
]

-- The node of the found cell.
pub found_node :
    (h : Heap) (stop q d : Ptr) (xs : Cells) (c : Cell) (n : Node)
    → Chain h stop q xs
    → find_cell d xs ≡ some c
    → h.node c.addr ≡ some n
    → (n.data_ptr ≡ d) × (n.copied ≡ c.copied)
unfolding find_cell
found_node h stop q d [] c n ch e en = (cc, cc)
found_node h stop q d (x ∷ xs) c n ch e en = elim (Bool-cases (x.data_ptr == d)) [
  | inl t ↦
      let z : x ≡ c = ground (arith, e, t) in
      let m : some n ≡ some (node x.data_ptr x.copied q (first stop xs) ch.3.0) =
        sym en ∙ ap (λ (y : Cell). h.node y.addr) (sym z) ∙ ch.3.1 in
      let f : n.data_ptr ≡ x.data_ptr = ground (arith, m) in
      let g : n.copied ≡ x.copied = ground (arith, m) in
      (f ∙ (==_iff x.data_ptr d).0 t, g ∙ ap (λ (y : Cell). y.copied) z)
  | inr t ↦ found_node h stop x.addr d xs c n ch.4 (rw t at e) en
]

pub not-mem-erase : (a d : Ptr) (xs : Cells) → has a xs ≡ false → has a (erase d xs) ≡ false
unfolding erase
not-mem-erase a d [] out = refl
not-mem-erase a d (x ∷ xs) out = ground (arith, not-mem-erase a d xs)
