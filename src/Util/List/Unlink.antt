-- ===== src/Util/List/Unlink.antt =====
-- Taking one node out of a chain.
use cuts.Base.{ℕ, ◌≡◌, refl, sym, ◌∙◌, ◌≢◌, ◌⊎◌, inl, inr, true, false, some, [], ◌∷◌, ◌++◌, arith}
use cuts.Util.List.{Ptr, null, Node, Heap}
use cuts.Util.List.Chain.{Cell, Cells, node, first, has, has-append, Chain, frame, first_apart}

-- A chain with another node in front.
pub Chain-prev :
    (h g : Heap) (stop q q' : Ptr) (xs : Cells) (m : Node)
    → Chain h stop q xs
    → h.node (first stop xs) ≡ some m
    → ((s : ℕ) × (g.node (first stop xs) ≡ some (node m.data_ptr m.copied q' m.next s)))
    → ((a : Ptr) → a ≢ first stop xs → (a ≡ stop) ⊎ (has a xs ≡ true) → g.node a ≡ h.node a)
    → Chain g stop q' xs
Chain-prev h g stop q q' [] m c e new same = (c.0, (new.0, ground arith))
Chain-prev h g stop q q' (x ∷ xs) m c e new same = (
  c.0,
  c.1,
  c.2,
  (new.0, ground arith),
  frame h g stop x.addr xs c.4 (same stop (λ z. c.1 (sym z)) (inl refl))
      (λ a i. same a (λ z. cc (c.2)) (inr (ground arith))),
)

-- The nodes around a node `c` of a chain.
pub neighbours :
    (h : Heap) (stop q : Ptr) (pre : Cells) (p c : Cell) (post : Cells)
    → Chain h stop q (pre ++ p ∷ c ∷ post)
    → (s : ℕ) × (t : ℕ) × (r : Ptr) × (h.node c.addr
        ≡ some (node c.data_ptr c.copied p.addr (first stop post) s))
      × (h.node p.addr ≡ some (node p.data_ptr p.copied r c.addr t))
neighbours h stop q [] p c post ch = (ch.4.3.0, ch.3.0, q, ch.4.3.1, ch.3.1)
neighbours h stop q (x ∷ pre) p c post ch = neighbours h stop x.addr pre p c post ch.4

pub first-middle :
    (stop : Ptr) (pre : Cells) (p c : Cell) (post : Cells)
    → first stop (pre ++ p ∷ c ∷ post) ≡ first stop (pre ++ p ∷ post)
first-middle stop [] p c post = refl
first-middle stop (x ∷ pre) p c post = refl

-- An address that is none of a list's is none of its parts'.
pub outside :
    (a stop : Ptr) (pre : Cells) (p c : Cell) (post : Cells)
    → has a (pre ++ p ∷ c ∷ post) ≡ false
    → a ≢ stop
    → (a ≢ p.addr) × (a ≢ c.addr) × (a ≢ first stop post) × (has a (pre ++ p ∷ post) ≡ false)
outside a stop pre p c post out ne =
    let e = sym (has-append a pre (p ∷ c ∷ post)) ∙ out in
    let out_post : has a post ≡ false = ground (arith, e) in
    (
      ground (arith, e),
      ground (arith, e),
      first_apart stop a post out_post ne,
      rw (has-append a pre (p ∷ post)) (ground (arith, e)),
    )

pub Chain-unlink :
    (h g : Heap) (stop q : Ptr) (pre : Cells) (p c : Cell) (post : Cells) (np m : Node)
    → Chain h stop q (pre ++ p ∷ c ∷ post)
    → h.node p.addr ≡ some np
    → h.node (first stop post) ≡ some m
    → g.node p.addr ≡ some (record np { next = first stop post })
    → g.node (first stop post) ≡ some (record m { prev = p.addr })
    → ((a : Ptr) → a ≢ p.addr → a ≢ first stop post → g.node a ≡ h.node a)
    → Chain g stop q (pre ++ p ∷ post)
Chain-unlink h g stop q [] p c post np m ch ep em gp gm same = (
  ch.0,
  ch.1,
  ground (arith, ch.2),
  (ch.3.0, ground (arith, ch.3.1)),
  Chain-prev h g stop c.addr p.addr post m ch.4.4 em (m.size, gm) λ a ne i. same a (away a i) ne,
)
  where
    away : (a : Ptr) → (a ≡ stop) ⊎ (has a post ≡ true) → a ≢ p.addr
    away a (inl e) z = ch.1 (sym z ∙ e)
    away a (inr e) z = ground (arith, ch.2, e, z)
Chain-unlink h g stop q (x ∷ pre) p c post np m ch ep em gp gm same =
    let (a, b, d, e) = outside x.addr stop pre p c post ch.2 ch.1 in
    (
      ch.0,
      ch.1,
      e,
      (ch.3.0, rw (← first-middle stop pre p c post) (same x.addr a d ∙ ch.3.1)),
      Chain-unlink h g stop x.addr pre p c post np m ch.4 ep em gp gm same,
    )

not-mem-cons :
    (a : Ptr) (x : Cell) (xs : Cells) → a ≢ x.addr → has a xs ≡ false → has a (x ∷ xs) ≡ false
not-mem-cons a x xs ne out = ground arith

ne_of_not_mem : (a : Ptr) (x : Cell) (xs : Cells) → has a (x ∷ xs) ≡ false → a ≢ x.addr
ne_of_not_mem a x xs out = ground arith

not_mem_tail : (a : Ptr) (x : Cell) (xs : Cells) → has a (x ∷ xs) ≡ false → has a xs ≡ false
not_mem_tail a x xs out = ground arith

-- The found node is not in what is left, and its neighbours are other nodes.
pub record Gone (stop : Ptr) (pre : Cells) (p c : Cell) (post : Cells) : Type 0 where
  pub end : c.addr ≢ stop
  pub left : has c.addr (pre ++ p ∷ post) ≡ false
  pub null_p : p.addr ≢ null
  pub p_next : p.addr ≢ first stop post
  pub c_next : c.addr ≢ first stop post
  pub c_p : c.addr ≢ p.addr

pub gone :
    (h : Heap) (stop q : Ptr) (pre : Cells) (p c : Cell) (post : Cells)
    → Chain h stop q (pre ++ p ∷ c ∷ post)
    → Gone stop pre p c post
gone h stop q [] p c post ch =
    let cp = λ (z : c.addr ≡ p.addr). ne_of_not_mem p.addr c post ch.2 (sym z) in
    record {
      end = ch.4.1;
      left = not-mem-cons c.addr p post cp ch.4.2;
      null_p = ch.0;
      p_next = first_apart stop p.addr post (not_mem_tail p.addr c post ch.2) ch.1;
      c_next = first_apart stop c.addr post ch.4.2 ch.4.1;
      c_p = cp;
    }
gone h stop q (x ∷ pre) p c post ch =
    let w = gone h stop x.addr pre p c post ch.4 in
    let (a, b, d, e) = outside x.addr stop pre p c post ch.2 ch.1 in
    record {
      end = w.end;
      left = not-mem-cons c.addr x (pre ++ p ∷ post) (λ z. b (sym z)) w.left;
      null_p = w.null_p;
      p_next = w.p_next;
      c_next = w.c_next;
      c_p = w.c_p;
    }

pub first_node :
    (h : Heap) (stop q : Ptr) (xs : Cells)
    → Chain h stop q xs
    → (m : Node) × (h.node (first stop xs) ≡ some m)
first_node h stop q [] c = (_, c.1.1)
first_node h stop q (x ∷ xs) c = (_, c.3.1)

-- What is left of a chain behind some of its nodes.
pub suffix :
    (h : Heap) (stop q : Ptr) (pre : Cells) (p c : Cell) (post : Cells)
    → Chain h stop q (pre ++ p ∷ c ∷ post)
    → Chain h stop c.addr post
suffix h stop q [] p c post ch = ch.4.4
suffix h stop q (x ∷ pre) p c post ch = suffix h stop x.addr pre p c post ch.4
