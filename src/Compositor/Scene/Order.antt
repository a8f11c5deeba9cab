-- ===== src/Compositor/Scene/Order.antt =====
-- The nodes stand in the order of their numbers, and the numbers of the layers do not mix.
use cuts.Base.{
  ℕ, ◌+◌, ◌-◌, ◌*◌, ◌/◌, ◌≤◌, ◌<◌, ◌≡◌, refl, ap, subst, ◌⊎◌, inl, inr, List, [], ◌∷◌, ◌++◌, arith,
  ltb, ◌==◌, ltb→lt, ==_iff, Bool-cases,
}
use cuts.Compositor.Scene.{
  Layer, background, bottom, normal, top, overlay, Node, Scene, layer_slice, rank, node_insert,
  list_remove, assign_layer,
}

abbrev pub Above : ℕ → List Node → Type 0
Above z [] = Unit
Above z (n ∷ ns) = z < n.z × Above z ns

abbrev pub IsSorted : List Node → Type 0
IsSorted [] = Unit
IsSorted (n ∷ ns) = Above n.z ns × IsSorted ns

-- The layer from whose slice a node has its number: the one with which it was last placed.
abbrev pub level : Node → ℕ
level n = (n.z - 1) / layer_slice

-- A number that was given out before
abbrev pub InSlice : (ℕ → ℕ) → Node → Type 0
InSlice z_state n = level n < 5 × 0 < n.z × n.z < z_state (level n)

abbrev pub InSlices : (ℕ → ℕ) → List Node → Type 0
InSlices z_state [] = Unit
InSlices z_state (n ∷ ns) = InSlice z_state n × InSlices z_state ns

-- After `k` numbers were given out: the nodes are sorted, each with a number given out before, and
-- no layer has used up more than `k` numbers of its slice.
pub record IsScene (k : ℕ) (s : Scene) : Type 0 where
  pub sorted : IsSorted s.nodes
  pub slices : InSlices s.z_state s.nodes
  pub least : (i : ℕ) → i < 5 → layer_slice * i < s.z_state i
  pub most : (i : ℕ) → i < 5 → s.z_state i ≤ layer_slice * i + 1 + k

pub rank_below : (l : Layer) → rank l < 5
rank_below background = omega arith
rank_below bottom = omega arith
rank_below normal = omega arith
rank_below top = omega arith
rank_below overlay = omega arith

pub Above-list_remove : (z a : ℕ) (ns : List Node) → Above z ns → Above z (list_remove a ns)
unfolding list_remove
Above-list_remove z a [] above = tt
Above-list_remove z a (n ∷ ns) (first, above) = elim (Bool-cases (n.address == a)) [
  | inl t ↦ rw t above
  | inr t ↦ rw t (first, Above-list_remove z a ns above)
]

pub list_remove-IsSorted : (a : ℕ) (ns : List Node) → IsSorted ns → IsSorted (list_remove a ns)
unfolding list_remove
list_remove-IsSorted a [] sorted = tt
list_remove-IsSorted a (n ∷ ns) (above, sorted) = elim (Bool-cases (n.address == a)) [
  | inl t ↦ rw t sorted
  | inr t ↦ rw t (Above-list_remove n.z a ns above, list_remove-IsSorted a ns sorted)
]

pub list_remove-InSlices :
    (a : ℕ) (z_state : ℕ → ℕ) (ns : List Node)
    → InSlices z_state ns
    → InSlices z_state (list_remove a ns)
unfolding list_remove
list_remove-InSlices a z_state [] slices = tt
list_remove-InSlices a z_state (n ∷ ns) (one, slices) = elim (Bool-cases (n.address == a)) [
  | inl t ↦ rw t slices
  | inr t ↦ rw t (one, list_remove-InSlices a z_state ns slices)
]

-- Where `node_insert` puts a node that has the next number of its layer: behind all nodes with a
-- number of that layer or of a lower one, in front of the others.
abbrev pub NotHigher : Layer → List Node → Type 0
NotHigher l [] = Unit
NotHigher l (n ∷ ns) = level n ≤ rank l × NotHigher l ns

abbrev pub Higher : Layer → List Node → Type 0
Higher l [] = Unit
Higher l (n ∷ ns) = rank l < level n × Higher l ns

module _ (x : Node) (z_state : ℕ → ℕ) (k : ℕ) (few : k < layer_slice)
    (most : (i : ℕ) → i < 5 → z_state i ≤ layer_slice * i + 1 + k)
    (z : x.z ≡ z_state (rank x.layer)) (least : layer_slice * rank x.layer < x.z) where
  compare_lem :
      (n : Node)
      → InSlice z_state n
      → ((x.z < n.z) × (rank x.layer < level n)) ⊎ ((n.z < x.z) × (level n ≤ rank x.layer))
  compare_lem n (five, pos_z, high) = elim (Bool-cases (ltb (rank x.layer) (level n))) [
    | inl t ↦
        let less = ltb→lt _ _ t in
        let at_most = most (rank x.layer) (rank_below x.layer) in inl (omega arith, less)
    | inr t ↦
        let le : level n ≤ rank x.layer = ground arith in
        let below : n.z < x.z = elim (Bool-cases (level n == rank x.layer)) [
          | inl same ↦
              let eq = (==_iff (level n) (rank x.layer)).0 same in
              let own : n.z < z_state (rank x.layer) = subst (λ i. n.z < z_state i) eq high in
              omega arith
          | inr other ↦
              let at_most = most (level n) five in
              let less : level n < rank x.layer = ground arith in omega arith
        ] in
        inr (below, le)
  ]

  Above-node_insert : (z : ℕ) (ns : List Node) → Above z ns → z < x.z → Above z (node_insert x ns)
  unfolding node_insert
  Above-node_insert z [] above less = (less, tt)
  Above-node_insert z (n ∷ ns) (first, above) less = elim (Bool-cases (ltb x.z n.z)) [
    | inl t ↦ rw t (less, (first, above))
    | inr t ↦ rw t (first, Above-node_insert z ns above less)
  ]

  Above-less : (z : ℕ) (ns : List Node) → x.z < z → Above z ns → Above x.z ns
  Above-less z [] less above = tt
  Above-less z (n ∷ ns) less (first, above) = (omega arith, Above-less z ns less above)

  pub node_insert-IsSorted :
      (ns : List Node) → IsSorted ns → InSlices z_state ns → IsSorted (node_insert x ns)
  unfolding node_insert
  node_insert-IsSorted [] sorted slices = (tt, tt)
  node_insert-IsSorted (n ∷ ns) (above, sorted) (one, slices) = elim (Bool-cases (ltb x.z n.z)) [
    | inl t ↦
        let less = ltb→lt _ _ t in rw t ((less, Above-less n.z ns less above), (above, sorted))
    | inr t ↦
        let more : n.z < x.z = elim (compare_lem n one) [
          | inl (less, _) ↦ absurd (ground arith)
          | inr (more, _) ↦ more
        ] in
        rw t (Above-node_insert n.z ns above more, node_insert-IsSorted ns sorted slices)
  ]

  behind-Higher : (ns : List Node) → Above x.z ns → InSlices z_state ns → Higher x.layer ns
  behind-Higher [] above slices = tt
  behind-Higher (n ∷ ns) (first, above) (one, slices) =
      let higher : rank x.layer < level n = elim (compare_lem n one) [
        | inl (_, higher) ↦ higher
        | inr (more, _) ↦ absurd (omega arith)
      ] in
      (higher, behind-Higher ns above slices)

  pub node_insert-on_top :
      (ns : List Node)
      → IsSorted ns
      → InSlices z_state ns
      → (below above : List Node) × (ns ≡ below ++ above)
        × (node_insert x ns ≡ below ++ x ∷ above)
        × NotHigher x.layer below
        × Higher x.layer above
  unfolding node_insert
  node_insert-on_top [] sorted slices = ([], [], refl, refl, tt, tt)
  node_insert-on_top (n ∷ ns) (above_n, sorted) (one, slices) = elim (Bool-cases (ltb x.z n.z)) [
    | inl t ↦
        let less = ltb→lt _ _ t in
        (
          [],
          n ∷ ns,
          refl,
          rw t refl,
          tt,
          behind-Higher (n ∷ ns) (less, Above-less n.z ns less above_n) (one, slices),
        )
    | inr t ↦
        let not_higher : level n ≤ rank x.layer = elim (compare_lem n one) [
          | inl (less, _) ↦ absurd (ground arith)
          | inr (_, le) ↦ le
        ] in
        let (below, above, split, inserted, lower, higher) = node_insert-on_top ns sorted slices in
        (
          n ∷ below,
          above,
          ap (λ l. n ∷ l) split,
          rw t (ap (λ l. n ∷ l) inserted),
          (not_higher, lower),
          higher,
        )
  ]

Above-assign_layer :
    (z a : ℕ) (l : Layer) (ns : List Node) → Above z ns → Above z (assign_layer a l ns)
unfolding assign_layer
Above-assign_layer z a l [] above = tt
Above-assign_layer z a l (n ∷ ns) (first, above) =
    let rest = Above-assign_layer z a l ns above in
    elim (Bool-cases (n.address == a)) [ inl t ↦ rw t (first, rest) | inr t ↦ rw t (first, rest) ]

pub assign_layer-IsSorted :
    (a : ℕ) (l : Layer) (ns : List Node) → IsSorted ns → IsSorted (assign_layer a l ns)
unfolding assign_layer
assign_layer-IsSorted a l [] sorted = tt
assign_layer-IsSorted a l (n ∷ ns) (above, sorted) =
    let first = Above-assign_layer n.z a l ns above in
    let rest = assign_layer-IsSorted a l ns sorted in
    elim (Bool-cases (n.address == a)) [ inl t ↦ rw t (first, rest) | inr t ↦ rw t (first, rest) ]

pub assign_layer-InSlices :
    (a : ℕ) (l : Layer) (z_state : ℕ → ℕ) (ns : List Node)
    → InSlices z_state ns
    → InSlices z_state (assign_layer a l ns)
unfolding assign_layer
assign_layer-InSlices a l z_state [] slices = tt
assign_layer-InSlices a l z_state (n ∷ ns) (one, slices) =
    let rest = assign_layer-InSlices a l z_state ns slices in
    elim (Bool-cases (n.address == a)) [ inl t ↦ rw t (one, rest) | inr t ↦ rw t (one, rest) ]
