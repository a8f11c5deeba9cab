-- ===== src/Util/List/Remove.antt =====
-- `c_list_remove` takes out and frees the first cell with the given data.
use cuts.Base.{
  ℕ, suc, ◌+◌, ◌≡◌, refl, sym, ap, ◌∙◌, subst, ◌≢◌, inl, inr, Bool, true, false, ◌&&◌, Option, none,
  some, List, [], ◌∷◌, ◌++◌, arith, ◌==◌, if◌then◌else◌, Bool-cases, ok, undefined,
}
use cuts.Base.Lists.{length}
use cuts.Util.List.{
  Ptr, null, pure, ◌>>◌, Node, Heap, write, write_block, load, set_size, set_next, free_block,
  free_node, detach, drop_node, remove_loop, remove, pred64,
}
use cuts.Util.List.Nodes.{
  load_lem, set_next_lem, set_prev_lem, set_size_lem, free_node_lem, not_null, write_self,
  write_other,
}
use cuts.Util.List.Chain.{
  Cell, Cells, node, first, has, Chain, Chain-size, frame, frame-write, IsList, SizeAt, first-ne,
  first_apart,
}
use cuts.Util.List.Erase.{
  find_cell, erase, between, length-erase, not-mem-erase, found_node, reach, miss,
}
use cuts.Util.List.Unlink.{
  Chain-prev, neighbours, Chain-unlink, first-middle, outside, gone, first_node, suffix,
}

-- The heap once the node of `c` is unlinked and still allocated.
record Detached (h : Heap) (stop k : ℕ) (xs ys : Cells) (c : Cell) (n : Node) (g : Heap)
    : Type 0 where
  chain : Chain g stop null ys
  size : SizeAt g (first stop ys) k
  kept : g.node c.addr ≡ some n
  blocks : (a : Ptr) → g.block a ≡ h.block a
  same : (a : Ptr) → a ≢ stop → has a xs ≡ false → g.node a ≡ h.node a
  out : has c.addr ys ≡ false
  end : c.addr ≢ stop

abbrev Detaches : Heap → Ptr → ℕ → Cells → Cells → Cell → Node → Type 0
Detaches h stop k xs ys c n =
    (g : Heap) × (detach (first stop xs) c.addr n h ≡ ok (first stop ys, g))
    × Detached h stop k xs ys c n g

detach_first :
    (h : Heap) (stop : Ptr) (c : Cell) (ys : Cells) (n : Node) (k : ℕ)
    → Chain h stop null (c ∷ ys)
    → h.node c.addr ≡ some n
    → n.size ≡ k
    → Detaches h stop k (c ∷ ys) ys c n
unfolding detach
detach_first h stop c ys n k ch en sk =
    let nx = first stop ys in
    let ne = first-ne h stop c.addr ys ch.4 in
    let (m, em) = first_node h stop c.addr ys ch.4 in
    let cn = first_apart stop c.addr ys ch.2 ch.1 in
    let prev : n.prev ≡ null = ground (arith, en, ch.3.1) in
    let next : n.next ≡ nx = ground (arith, en, ch.3.1) in
    let h1 = write h nx (some (record m { size = n.size })) in
    let g = write h1 nx (some (record m { size = n.size; prev = null })) in
    let here : (null == null) ≡ true = refl in
    (
      g,
      rw (
        prev,
        next,
        not_null nx ne,
        set_size_lem h nx m ne em n.size,
        set_prev_lem h1 nx (record m { size = n.size }) ne (write_self h nx _) null,
      ),
      record {
        chain =
            Chain-prev h g stop c.addr null ys m ch.4 em (n.size, write_self h1 nx _)
              (λ a z i. write_other h1 nx a _ z ∙ write_other h nx a _ z);
        size = (record m { size = n.size; prev = null }, write_self h1 nx _, sk);
        kept = write_other h1 nx c.addr _ cn ∙ write_other h nx c.addr _ cn ∙ en;
        blocks = λ a. refl;
        same = λ a ns out.
            let z = first_apart stop a ys (ground (arith, out)) ns in
            write_other h1 nx a _ z ∙ write_other h nx a _ z;
        out = ch.2;
        end = ch.1;
      },
    )

-- Two writes seen at a third address, and at the first.
write_two :
    (h : Heap) (p q a : Ptr) (c d : Option Node)
    → a ≢ p
    → a ≢ q
    → (write (write h p c) q d).node a ≡ h.node a
write_two h p q a c d np nq = write_other (write h p c) q a d nq ∙ write_other h p a c np

SizeAt-write :
    (h : Heap) (p a : Ptr) (n m : Node) (k : ℕ)
    → h.node p ≡ some n
    → m.size ≡ n.size
    → SizeAt h a k
    → SizeAt (write h p (some m)) a k
SizeAt-write h p a n m k e s (w, ew, sw) = (if p == a then m else w, ground arith, ground arith)

detach_middle :
    (h : Heap) (stop : Ptr) (pre : Cells) (p c : Cell) (post : Cells) (n : Node) (k : ℕ)
    → Chain h stop null (pre ++ p ∷ c ∷ post)
    → h.node c.addr ≡ some n
    → SizeAt h (first stop (pre ++ p ∷ c ∷ post)) k
    → Detaches h stop k (pre ++ p ∷ c ∷ post) (pre ++ p ∷ post) c n
unfolding detach
detach_middle h stop pre p c post n k ch en sk =
    let nx = first stop post in
    let ch' = suffix h stop null pre p c post ch in
    let ne = first-ne h stop c.addr post ch' in
    let (m, em) = first_node h stop c.addr post ch' in
    let (s, t, r, ec, ep) = neighbours h stop null pre p c post ch in
    let w = gone h stop null pre p c post ch in
    let np = node p.data_ptr p.copied r c.addr t in
    let prev : n.prev ≡ p.addr = ground (arith, en, ec) in
    let next : n.next ≡ nx = ground (arith, en, ec) in
    let h1 = write h p.addr (some (record np { next = nx })) in
    let em1 =
      write_other h p.addr nx (some (record np { next = nx })) (λ z. w.p_next (sym z)) ∙ em in
    let g = write h1 nx (some (record m { prev = p.addr })) in
    let gp =
      write_other h1 nx p.addr (some (record m { prev = p.addr })) w.p_next
      ∙ write_self h p.addr _ in
    let sized =
      SizeAt-write h1 nx _ m (record m { prev = p.addr }) k em1 refl
        (SizeAt-write h p.addr _ np (record np { next = nx }) k ep refl sk) in
    (
      g,
      rw (
        prev,
        next,
        not_null p.addr w.null_p,
        not_null nx ne,
        set_next_lem h p.addr np w.null_p ep nx,
        set_prev_lem h1 nx m ne em1 p.addr,
        first-middle stop pre p c post,
      ),
      record {
        chain =
            Chain-unlink h g stop null pre p c post np m ch ep em gp (write_self h1 nx _)
              (λ a x y. write_two h p.addr nx a _ _ x y);
        size = rw (← first-middle stop pre p c post) sized;
        kept = write_two h p.addr nx c.addr _ _ w.c_p w.c_next ∙ en;
        blocks = λ a. refl;
        same = λ a ns out.
            let (x, y, z, _) = outside a stop pre p c post out ns in
            write_two h p.addr nx a _ _ x z;
        out = w.left;
        end = w.end;
      },
    )

detach_found :
    (h : Heap) (stop d : Ptr) (xs : Cells) (c : Cell) (n : Node) (k : ℕ)
    → Chain h stop null xs
    → find_cell d xs ≡ some c
    → h.node c.addr ≡ some n
    → SizeAt h (first stop xs) k
    → Detaches h stop k xs (erase d xs) c n
unfolding find_cell erase
detach_found h stop d [] c n k ch e en sk = cc
detach_found h stop d (x ∷ xs) c n k ch e en sk = elim (Bool-cases (x.data_ptr == d)) [
  | inl t ↦
      let z : x ≡ c = ground (arith, e, t) in
      let (w, ew, sw) = sk in
      let m : some w ≡ some n = sym ew ∙ ap (λ (y : Cell). h.node y.addr) z ∙ en in
      rw (t, z) (detach_first h stop c xs n k (rw z at ch) en (ground (arith, m, sw)))
  | inr t ↦
      let b = between d x xs c t (rw t at e) in
      subst (λ zs. Detaches h stop k zs (erase d (x ∷ xs)) c n) (sym b.whole)
        (subst (λ zs. Detaches h stop k (b.pre ++ b.before ∷ c ∷ b.post) zs c n) (sym b.rest)
          (detach_middle h stop b.pre b.before c b.post n k
            (subst (λ zs. Chain h stop null zs) b.whole ch) en
            (subst (λ zs. SizeAt h (first stop zs) k) b.whole sk)))
]

pred64_lem : (a k : ℕ) → a ≡ suc k → pred64 a ≡ k
pred64_lem a k e = ground arith

-- The end of `c_list_remove`: the size of the new head, and the node itself.
finish :
    (f : Heap) (stop : Ptr) (ys : Cells) (a : Ptr) (n m : Node) (k : ℕ)
    → Chain f stop null ys
    → f.node (first stop ys) ≡ some m
    → m.size ≡ suc (length ys)
    → f.node a ≡ some n
    → a ≢ null
    → a ≢ stop
    → has a ys ≡ false
    → let l = first stop ys in
      let g = write (write f l (some (record m { size = pred64 m.size }))) a none in
      ((do set_size l (pred64 m.size); free_node a; pure l) f ≡ ok (l, g)) × IsList g l ys
finish f stop ys a n m k ch em sm en na ns out =
    let l = first stop ys in
    let ne = first-ne f stop null ys ch in
    let f1 = write f l (some (record m { size = pred64 m.size })) in
    let al = first_apart stop a ys out ns in
    (
      rw (
        set_size_lem f l m ne em (pred64 m.size),
        free_node_lem f1 a n na (write_other f l a _ al ∙ en),
      ),
      record {
        stop = stop;
        head = refl;
        chain =
            frame-write f1 a none stop null ys (Chain-size f l m (pred64 m.size) stop null ys em ch)
              ns out;
        size = (
          record m { size = pred64 m.size },
          write_other f1 a l none (λ z. al (sym z)) ∙ write_self f l _,
          pred64_lem m.size (length ys) sm,
        );
      },
    )

-- The block that a cell owns, if it owns one, is allocated.
abbrev pub Allocated : Bool → Option (List ℕ) → Type 0
Allocated false block = Unit
Allocated true block = (bs : List ℕ) × (block ≡ some bs)

-- The blocks after the block at `d` is freed, if there is one to free.
abbrev pub freed : Bool → Ptr → (Ptr → Option (List ℕ)) → Ptr → Option (List ℕ)
freed copied d block a = if copied && (a == d) then none else block a

-- The heap after the removal of the cell `c` of `xs`, whose data is `d`.
pub record Removed (h : Heap) (stop d : Ptr) (xs : Cells) (c : Cell) (g : Heap) : Type 0 where
  pub list : IsList g (first stop (erase d xs)) (erase d xs)
  pub freed_node : g.node c.addr ≡ none
  pub freed_block : (a : Ptr) → g.block a ≡ freed c.copied d h.block a
  pub same : (a : Ptr) → a ≢ stop → has a xs ≡ false → a ≢ c.addr → g.node a ≡ h.node a

free_block_lem :
    (h : Heap) (d : Ptr) (bs : List ℕ)
    → d ≢ null
    → h.block d ≡ some bs
    → free_block d h ≡ ok (tt, write_block h d none)
unfolding free_block
free_block_lem h d bs nd e = rw (not_null d nd, e)

-- The step between `detach` and `finish`: the block, if the cell owns one.
free_data :
    (g : Heap) (b : Bool) (d : Ptr)
    → d ≢ null
    → Allocated b (g.block d)
    → (f : Heap) × ((if b then free_block d else pure tt) g ≡ ok (tt, f))
      × (f.node ≡ g.node)
      × ((a : Ptr) → f.block a ≡ freed b d g.block a)
free_data g false d nd o = (g, refl, refl, λ a. refl)
free_data g true d nd (bs, e) = (write_block g d none, free_block_lem g d bs nd e, refl, λ a. refl)

drop_lem :
    (h g : Heap) (stop d : Ptr) (xs : Cells) (c : Cell) (n : Node)
    → detach (first stop xs) c.addr n h ≡ ok (first stop (erase d xs), g)
    → Detached h stop (length xs) xs (erase d xs) c n g
    → length xs ≡ suc (length (erase d xs))
    → n.data_ptr ≡ d
    → n.copied ≡ c.copied
    → d ≢ null
    → c.addr ≢ null
    → Allocated c.copied (h.block d)
    → (g' : Heap) × (drop_node (first stop xs) c.addr n h ≡ ok (first stop (erase d xs), g'))
      × Removed h stop d xs c g'
unfolding drop_node
drop_lem h g stop d xs c n run w len ed ec nd nc o =
    let (m, em, sm) = w.size in
    let (f, run', fn, fb) = free_data g c.copied d nd (rw (w.blocks d) o) in
    let l = first stop (erase d xs) in
    let at = λ (a : Ptr). ap (λ (k : Ptr → Option Node). k a) fn in
    let ch = frame g f stop null (erase d xs) w.chain (at stop) (λ a i. at a) in
    let (run2, is) =
      finish f stop (erase d xs) c.addr n m 0 ch (at l ∙ em) (sm ∙ len) (at c.addr ∙ w.kept) nc
        w.end w.out in
    (
      write (write f l (some (record m { size = pred64 m.size }))) c.addr none,
      rw (run, ed, ec, run', load_lem f l m (first-ne f stop null (erase d xs) ch) (at l ∙ em))
          run2,
      record {
        list = is;
        freed_node = write_self (write f l (some (record m { size = pred64 m.size }))) c.addr none;
        freed_block = λ a.
            fb a
            ∙ ap (λ (b : Option (List ℕ)). if c.copied && (a == d) then none else b) (w.blocks a);
        same = λ a ns out na.
            write_two f l c.addr a _ _
              (first_apart stop a (erase d xs) (not-mem-erase a d xs out) ns) na
            ∙ at a
            ∙ w.same a ns out;
      },
    )

remove-first :
    (h : Heap) (stop d : Ptr) (xs : Cells) (c : Cell)
    → Chain h stop null xs
    → SizeAt h (first stop xs) (length xs)
    → d ≢ null
    → find_cell d xs ≡ some c
    → Allocated c.copied (h.block d)
    → (g : Heap) × (remove (first stop xs) d h ≡ ok (first stop (erase d xs), g))
      × Removed h stop d xs c g
unfolding remove
remove-first h stop d xs c ch (w, ew, sw) nd e o =
    let l = first stop xs in
    let (n, en, nc, r) = reach (w.size + 2) h l stop null d xs c ch e (omega (arith, sw)) in
    let (g, run, det) = detach_found h stop d xs c n (length xs) ch e en (w, ew, sw) in
    let (ed, ec) = found_node h stop null d xs c n ch e en in
    let (g', run', rem) =
      drop_lem h g stop d xs c n run det (length-erase d xs c e) ed ec nd nc o in
    (g', rw (load_lem h l w (first-ne h stop null xs ch) ew, r) run', rem)

-- `c_list_remove` of a pointer other than NULL that some cell holds ends without a fault, provided
-- that the block of the cell is allocated if the cell owns one. It returns the head of the list
-- without the first such cell; the node of the cell is freed, and its block if the cell owns one;
-- all other blocks and all nodes outside the list are as before.
pub remove-erase :
    (h : Heap) (l d : Ptr) (xs : Cells) (c : Cell) (v : IsList h l xs)
    → d ≢ null
    → find_cell d xs ≡ some c
    → Allocated c.copied (h.block d)
    → (g : Heap) × (remove l d h ≡ ok (first v.stop (erase d xs), g)) × Removed h v.stop d xs c g
remove-erase h l d xs c v nd e o =
    let sized = subst (λ p. SizeAt h p (length xs)) v.head v.size in
    rw v.head (remove-first h v.stop d xs c v.chain sized nd e o)

-- `c_list_remove` of a pointer other than NULL that no cell holds ends and changes nothing.
pub remove_absent :
    (h : Heap) (l d : Ptr) (xs : Cells)
    → IsList h l xs
    → d ≢ null
    → find_cell d xs ≡ none
    → remove l d h ≡ ok (l, h)
unfolding remove
remove_absent h l d xs v nd e =
    let (n, en, sn) = v.size in
    let ne = first-ne h v.stop null xs v.chain in
    rw (load_lem h l n (λ z. ne (sym v.head ∙ z)) en, v.head)
      (miss (n.size + 2) h (first v.stop xs) v.stop null d xs v.chain e nd (omega (arith, sn)))

-- `c_list_remove` of NULL finds the sentinel: on an empty list it writes through the NULL in `prev`.
pub remove-null_empty : (h : Heap) (l : Ptr) → IsList h l [] → remove l null h ≡ undefined
unfolding remove remove_loop drop_node
remove-null_empty h l v =
    let stop = v.stop in
    let (s, e) = v.chain.1 in
    let two : s + 2 ≡ suc (s + 1) = omega arith in
    rw
      (
        v.head,
        load_lem h stop _ v.chain.0 e,
        two,
        not_null stop v.chain.0,
        load_lem h stop _ v.chain.0 e,
      )
      (unfold detach set_next load in refl)
