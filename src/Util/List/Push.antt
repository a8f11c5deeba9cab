-- ===== src/Util/List/Push.antt =====
-- `c_list_push` appends.
use cuts.Base.{
  ℕ, ◌+◌, ◌≡◌, refl, sym, ◌∙◌, subst, ◌≢◌, Bool, true, false, Option, none, some, List, [], ◌∷◌,
  ◌++◌, arith, ◌==◌, if◌then◌else◌, ok,
}
use cuts.Base.Lists.{length, length-append}
use cuts.Util.List.{
  Ptr, null, Heap, write, write_block, push, attach, new, fill, Payload, borrowed, bytes,
  empty_node,
}
use cuts.Util.List.Nodes.{
  load_lem, store_lem, set_next_lem, set_prev_lem, set_size_lem, not_null, write_self, write_other,
}
use cuts.Util.List.Chain.{
  Cell, Cells, node, first, last, has, Chain, Chain-size, Chain-snoc, IsList, SizeAt, first-ne,
  stop-ne, apart, sentinel, first-append, first_apart, stop_fresh,
}
use cuts.Util.List.Walk.{walk_lem}

-- The pointer that the cell keeps, and whether it owns the block behind it.
abbrev pub data_of : Payload → Ptr
data_of (borrowed p) = p
data_of (bytes fresh content) = fresh

abbrev pub is_copy : Payload → Bool
is_copy (borrowed p) = false
is_copy (bytes fresh content) = true

-- `calloc` found room for the copy.
abbrev pub HasRoom : Payload → Type 0
HasRoom (borrowed p) = Unit
HasRoom (bytes fresh content) = fresh ≢ null

-- The blocks after the payload is copied.
abbrev pub block_after : Payload → (Ptr → Option (List ℕ)) → Ptr → Option (List ℕ)
block_after (borrowed p) block a = block a
block_after (bytes fresh content) block a = if a == fresh then some content else block a

record Attached (h : Heap) (fresh stop q : Ptr) (s : ℕ) (payload : Payload) (g : Heap)
    : Type 0 where
  old : g.node stop ≡ some (node (data_of payload) (is_copy payload) q fresh s)
  sentinel : g.node fresh ≡ some (node null false stop null 0)
  same : (a : Ptr) → a ≢ stop → a ≢ fresh → g.node a ≡ h.node a
  blocks : (a : Ptr) → g.block a ≡ block_after payload h.block a

module _ (h : Heap) (fresh stop q : Ptr) (s : ℕ) (nf : fresh ≢ null) (ns : stop ≢ null)
    (fs : fresh ≢ stop) (e : h.node stop ≡ some (node null false q null s)) where
  linked : Heap
  linked =
      write (write (write h fresh (some empty_node)) stop (some (node null false q fresh s))) fresh
        (some (node null false stop null 0))

  link : (payload : Payload) → attach fresh stop payload h ≡ fill stop payload linked
  unfolding attach new linked
  link payload = rw (
    not_null fresh nf,
    set_next_lem (write h fresh (some empty_node)) stop (node null false q null s) ns
        (ground arith),
    set_prev_lem (write (write h fresh (some empty_node)) stop (some (node null false q fresh s)))
        fresh empty_node nf (ground arith),
  )

  at_stop : linked.node stop ≡ some (node null false q fresh s)
  unfolding linked
  at_stop = ground arith

  attach_lem :
      (payload : Payload)
      → HasRoom payload
      → (g : Heap) × (attach fresh stop payload h ≡ ok (data_of payload, g))
        × Attached h fresh stop q s payload g
  unfolding fill
  attach_lem (borrowed p) room = (
    write linked stop (some (node p false q fresh s)),
    rw (
      link (borrowed p),
      load_lem linked stop (node null false q fresh s) ns at_stop,
      store_lem linked stop (node null false q fresh s) ns at_stop,
    ),
    unfold linked in
        record {
          old = ground arith;
          sentinel = ground arith;
          same = λ a x y. ground arith;
          blocks = λ a. refl;
        },
  )
  attach_lem (bytes b content) room =
      let one = write linked stop (some (node b false q fresh s)) in
      let two = write_block one b (some content) in
      let at_one : two.node stop ≡ some (node b false q fresh s) = ground arith in
      (
        write two stop (some (node b true q fresh s)),
        rw (
          link (bytes b content),
          load_lem linked stop (node null false q fresh s) ns at_stop,
          store_lem linked stop (node null false q fresh s) ns at_stop,
          not_null b room,
          store_lem two stop (node b false q fresh s) ns at_one,
        ),
        unfold linked in
            record {
              old = ground arith;
              sentinel = ground arith;
              same = λ a x y. ground arith;
              blocks = λ a. ground arith;
            },
      )

-- What the new cell is: it stands at the address of the old sentinel.
abbrev pub cell_at : Ptr → Payload → Cell
cell_at stop payload = record { addr = stop; data_ptr = data_of payload; copied = is_copy payload }

SizeAt-attach :
    (h g : Heap) (fresh stop q d : Ptr) (b : Bool) (s k : ℕ) (xs : Cells)
    → has fresh xs ≡ false
    → has stop xs ≡ false
    → h.node stop ≡ some (node null false q null s)
    → g.node stop ≡ some (node d b q fresh s)
    → ((a : Ptr) → a ≢ stop → a ≢ fresh → g.node a ≡ h.node a)
    → SizeAt h (first stop xs) k
    → SizeAt g (first stop xs) k
SizeAt-attach h g fresh stop q d b s k [] _ _ e f same (n, en, sn) =
    (node d b q fresh s, f, ground arith)
SizeAt-attach h g fresh stop q d b s k (x ∷ xs) out out' e f same (n, en, sn) =
    (n, same x.addr (ground arith) (ground arith) ∙ en, sn)

push-first :
    (h : Heap) (fresh stop : Ptr) (xs : Cells) (payload : Payload)
    → Chain h stop null xs
    → SizeAt h (first stop xs) (length xs)
    → fresh ≢ null
    → h.node fresh ≡ none
    → HasRoom payload
    → (g : Heap) × (push fresh (first stop xs) payload h ≡ ok (data_of payload, g))
      × IsList g (first stop xs) (xs ++ cell_at stop payload ∷ [])
      × ((a : Ptr) → a ≢ stop → a ≢ fresh → has a xs ≡ false → g.node a ≡ h.node a)
      × ((a : Ptr) → g.block a ≡ block_after payload h.block a)
unfolding push
push-first h fresh stop xs payload c (n, en, sn) nf free room =
    let l = first stop xs in
    let ne = first-ne h stop null xs c in
    let h1 = write h l (some (record n { size = n.size + 1 })) in
    let c1 = Chain-size h l n (n.size + 1) stop null xs en c in
    let (s, es) = sentinel h1 stop null xs c1 in
    let (fs, out) = apart h stop null xs fresh c free in
    let ns = stop-ne h stop null xs c in
    let new_stop = stop_fresh h stop null xs c in
    let (g, run, w) = attach_lem h1 fresh stop (last null xs) s nf ns fs es payload room in
    let sized =
      SizeAt-attach h1 g fresh stop (last null xs) (data_of payload) (is_copy payload) s
        (n.size + 1) xs out new_stop es w.old w.same
        (record n { size = n.size + 1 }, write_self h l _, refl) in
    (
      g,
      rw
          (
            load_lem h l n ne en,
            set_size_lem h l n ne en (n.size + 1),
            walk_lem (n.size + 2) h1 stop null xs c1 (omega (arith, sn)),
          )
          run,
      record {
        stop = fresh;
        head = sym (first-append stop fresh xs (cell_at stop payload) refl);
        chain =
            Chain-snoc h1 g stop fresh null (data_of payload) (is_copy payload) xs s 0 c1 nf fs out
              w.old w.sentinel (λ a i. w.same a (λ z. cc new_stop) (λ z. cc out));
        size =
            let len : n.size + 1 ≡ length (xs ++ cell_at stop payload ∷ []) =
              omega (arith, length-append xs (cell_at stop payload ∷ []), sn) in
            (sized.0, sized.1, sized.2 ∙ len);
      },
      λ a x y z. w.same a x y ∙ write_other h l a _ (first_apart stop a xs z x),
      w.blocks,
    )

-- `c_list_push` appends one cell, given room for the new sentinel and for the copy: it ends, returns
-- the data pointer of the new cell, leaves every node outside the list but the new sentinel alone,
-- and writes at most the block of the copy.
pub push-append :
    (h : Heap) (fresh l : Ptr) (xs : Cells) (payload : Payload) (v : IsList h l xs)
    → fresh ≢ null
    → h.node fresh ≡ none
    → HasRoom payload
    → (g : Heap) × (push fresh l payload h ≡ ok (data_of payload, g))
      × IsList g l (xs ++ cell_at v.stop payload ∷ [])
      × ((a : Ptr) → a ≢ v.stop → a ≢ fresh → has a xs ≡ false → g.node a ≡ h.node a)
      × ((a : Ptr) → g.block a ≡ block_after payload h.block a)
push-append h fresh l xs payload v nf free room =
    let sized = subst (λ p. SizeAt h p (length xs)) v.head v.size in
    rw v.head (push-first h fresh v.stop xs payload v.chain sized nf free room)
