-- ===== src/Compositor/Scene/Steps.antt =====
-- The operations of the scene as steps of a relation, and what they keep.
use cuts.Base.{
  ℕ, ◌+◌, ◌*◌, ◌%◌, ◌^◌, ◌≤◌, ◌<◌, ◌≡◌, refl, inl, inr, true, List, [], ◌∷◌, ◌++◌, arith, ltb, ◌==◌,
  if◌then◌else◌, ==_refl, Bool-cases,
}
use cuts.Compositor.Scene.{
  Layer, Node, NodeType, Scene, layer_slice, rank, node_insert, list_remove, next_z, set_layer,
  scene_add, scene_node_remove, scene_node_raise,
}
use cuts.Compositor.Scene.Order.{
  IsSorted, InSlice, InSlices, IsScene, NotHigher, Higher, rank_below, list_remove-IsSorted,
  list_remove-InSlices, node_insert-IsSorted, node_insert-on_top, level, assign_layer-IsSorted,
  assign_layer-InSlices,
}

-- `node` is the node as its pointer finds it.
pub data Step : Scene → Scene → Type 0 where
  adds :
      {s : Scene} (kind : NodeType) (layer : Layer) (address : ℕ)
      → Step s (scene_add kind layer address s).1
  removes : {s : Scene} (node : Node) → Step s (scene_node_remove node s)
  raises : {s : Scene} (node : Node) → Step s (scene_node_raise node s).1
  sets_layer : {s : Scene} (address : ℕ) (layer : Layer) → Step s (set_layer address layer s)

node_insert-InSlices :
    (zs : ℕ → ℕ) (x : Node) (ns : List Node)
    → InSlice zs x
    → InSlices zs ns
    → InSlices zs (node_insert x ns)
unfolding node_insert
node_insert-InSlices zs x [] own slices = (own, tt)
node_insert-InSlices zs x (n ∷ ns) own (one, slices) = elim (Bool-cases (ltb x.z n.z)) [
  | inl t ↦ rw t (own, (one, slices))
  | inr t ↦ rw t (one, node_insert-InSlices zs x ns own slices)
]

InSlices-grow :
    (zs zs' : ℕ → ℕ)
    → ((i : ℕ) → i < 5 → zs i ≤ zs' i)
    → (ns : List Node) → InSlices zs ns
    → InSlices zs' ns
InSlices-grow zs zs' grows [] slices = tt
InSlices-grow zs zs' grows (n ∷ ns) ((five, low, high), slices) =
    let le = grows (level n) five in
    ((five, low, omega arith), InSlices-grow zs zs' grows ns slices)

module _ (k : ℕ) (s : Scene) (layer : Layer) (few : k + 1 < layer_slice) (is : IsScene k s) where
  abbrev grown : ℕ → ℕ
  grown i = if i == rank layer then (s.z_state i + 1) % 2 ^ 32 else s.z_state i

  grown_lem : (i : ℕ) → i < 5 → (s.z_state i ≤ grown i) × (grown i ≤ layer_slice * i + 1 + (k + 1))
  grown_lem i below =
      let at_most = is.most i below in
      elim (Bool-cases (i == rank layer)) [
        | inl t ↦ rw t (omega arith, omega arith)
        | inr t ↦ rw t (omega arith, omega arith)
      ]

  own_lem : s.z_state (rank layer) < grown (rank layer)
  own_lem =
      let at_most = is.most (rank layer) (rank_below layer) in
      let below = rank_below layer in rw (==_refl (rank layer)) (omega arith)

  -- A node that takes the next number of its layer, put among nodes of the scene
  module _ (x : Node) (x_layer : x.layer ≡ layer) (x_z : x.z ≡ s.z_state (rank layer))
      (ns : List Node) (sorted : IsSorted ns) (slices : InSlices s.z_state ns) where
    next_number : x.z ≡ s.z_state (rank x.layer)
    next_number = rw x_layer x_z

    in_slice : layer_slice * rank x.layer < x.z
    in_slice = rw (x_layer, x_z) (is.least (rank layer) (rank_below layer))

    x_level : level x ≡ rank x.layer
    x_level =
        let at_most = is.most (rank x.layer) (rank_below x.layer) in
        let least = in_slice in let next = next_number in omega arith

    x_InSlice : InSlice grown x
    x_InSlice =
        let own : x.z < grown (rank x.layer) = rw (x_layer, x_z) own_lem in
        let five = rank_below x.layer in let least = in_slice in rw x_level (five, omega arith, own)

    inserted-IsScene : IsScene (k + 1) (record { nodes = node_insert x ns; z_state = grown })
    inserted-IsScene = record {
      sorted =
          node_insert-IsSorted x s.z_state k (omega arith) is.most next_number in_slice ns sorted
            slices;
      slices =
          node_insert-InSlices grown x ns x_InSlice
            (InSlices-grow s.z_state grown (λ i below. (grown_lem i below).0) ns slices);
      least = λ i below.
          (let le = (grown_lem i below).0 in let least = is.least i below in omega arith);
      most = λ i below. (grown_lem i below).1;
    }

-- From a scene in which the nodes stand in the order of their numbers, each with a number that its
-- layer gave out before, and in which each layer has given out at most `k` of its numbers, any
-- operation (a node added, removed or raised, or its field `layer` changed) leads to such a scene
-- again, with `k + 1`, as long as that is less than the numbers of a layer.
pub Step-IsScene :
    (k : ℕ) {s s' : Scene} → Step s s' → k + 1 < layer_slice → IsScene k s → IsScene (k + 1) s'
unfolding scene_add scene_node_remove scene_node_raise next_z set_layer
Step-IsScene k {s} (adds kind layer address) few is =
    inserted-IsScene k s layer few is
      (record {
        address = address;
        kind = kind;
        layer = layer;
        is_visible = true;
        z = s.z_state (rank layer);
      })
      refl refl s.nodes is.sorted is.slices
Step-IsScene k {s} (removes node) few is = record {
  sorted = list_remove-IsSorted node.address s.nodes is.sorted;
  slices = list_remove-InSlices node.address s.z_state s.nodes is.slices;
  least = is.least;
  most = λ i below. (let most = is.most i below in omega arith);
}
Step-IsScene k {s} (raises node) few is =
    inserted-IsScene k s node.layer few is (record node { z = s.z_state (rank node.layer) }) refl
      refl (list_remove node.address s.nodes) (list_remove-IsSorted node.address s.nodes is.sorted)
      (list_remove-InSlices node.address s.z_state s.nodes is.slices)
Step-IsScene k {s} (sets_layer address layer) few is = record {
  sorted = assign_layer-IsSorted address layer s.nodes is.sorted;
  slices = assign_layer-InSlices address layer s.z_state s.nodes is.slices;
  least = is.least;
  most = λ i below. (let most = is.most i below in omega arith);
}

-- In a scene whose nodes stand in the order of their numbers, where no layer is about to use up its
-- numbers, `c_scene_node_raise` takes a node out and puts it behind all nodes that were last placed
-- with its present layer or a lower one, in front of those last placed with a higher one. The
-- other nodes keep their order.
pub raise-on_top :
    {k : ℕ} {s : Scene} (node : Node)
    → IsScene k s
    → k + 1 < layer_slice
    → (below above : List Node) × (z : ℕ) × (list_remove node.address s.nodes ≡ below ++ above)
      × ((scene_node_raise node s).1.nodes ≡ below ++ record node { z = z } ∷ above)
      × NotHigher node.layer below
      × Higher node.layer above
unfolding scene_node_raise next_z
raise-on_top {k} {s} node is few =
    let x : Node = record node { z = s.z_state (rank node.layer) } in
    let (below, above, split, inserted, lower, higher) =
      node_insert-on_top x s.z_state k (omega arith) is.most refl
        (is.least (rank node.layer) (rank_below node.layer)) (list_remove node.address s.nodes)
        (list_remove-IsSorted node.address s.nodes is.sorted)
        (list_remove-InSlices node.address s.z_state s.nodes is.slices) in
    (below, above, s.z_state (rank node.layer), split, inserted, lower, higher)
