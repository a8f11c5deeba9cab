-- ===== src/Compositor/Scene.antt =====
-- compositor/scene.c: the nodes of the scene in the order in which they are drawn. The list of nodes is
-- the sequence that util/list.c keeps; what a node shows is left out.
pub mod Order
pub mod Steps
use cuts.Base.{
  ℕ, zero, suc, ◌+◌, ◌*◌, ◌%◌, ◌^◌, Bool, true, List, [], ◌∷◌, ltb, ◌==◌, if◌then◌else◌, Exec, ok,
  ◌>>=◌, ◌>>◌, require,
}

pub data Layer : Type 0 where
  background bottom normal top overlay : Layer

pub data NodeType : Type 0 where
  window rect buffer surface : NodeType

-- `struct c_scene_node`, with its address. The field `layer` may change while the node stays where it
-- is (`set_layer`).
pub record Node : Type 0 where
  pub address : ℕ
  pub kind : NodeType
  pub layer : Layer
  pub is_visible : Bool
  pub z : ℕ

abbrev pub layer_slice : ℕ
layer_slice = 0x33333333

-- The number of a layer in `enum c_scene_layers`
abbrev pub rank : Layer → ℕ
rank background = 0
rank bottom = 1
rank normal = 2
rank top = 3
rank overlay = 4

pub record Scene : Type 0 where
  pub nodes : List Node
  pub z_state : ℕ → ℕ

-- `node_insert`: in front of the first node with a larger z
unfoldable pub node_insert : Node → List Node → List Node
node_insert x [] = x ∷ []
node_insert x (n ∷ ns) = let rest = node_insert x ns in if ltb x.z n.z then x ∷ n ∷ ns else n ∷ rest

-- `c_list_remove`, which compares addresses
unfoldable pub list_remove : ℕ → List Node → List Node
list_remove address [] = []
list_remove address (n ∷ ns) =
    let rest = list_remove address ns in if n.address == address then ns else n ∷ rest

-- The loop of `c_scene_init`, with the rounds left: a product or sum of `int` above its range is
-- undefined.
unfoldable pub init_numbers : ℕ → ℕ → Scene → Exec Scene
init_numbers zero i s = ok s
init_numbers (suc rounds) i s =
    let z = layer_slice * i + 1 in
    let s' : Scene = record s { z_state = λ j. if j == i then z else s.z_state j } in
    let rest = init_numbers rounds (i + 1) s' in do require (ltb z (2 ^ 31)); rest

unfoldable pub scene_init : Exec Scene
unfolding init_numbers
scene_init = init_numbers 5 0 (record { nodes = []; z_state = λ i. 0 })

-- `scene->z_state[layer]++`: the value before and the scene after
unfoldable pub next_z : Layer → Scene → ℕ × Scene
next_z layer s = (
  s.z_state (rank layer),
  record s { z_state = λ i. if i == rank layer then (s.z_state i + 1) % 2 ^ 32 else s.z_state i },
)

-- `node_create` and what the four functions `c_scene_add_*` do with the node; a window goes to the
-- layer `normal`.
unfoldable pub scene_add : NodeType → Layer → (address : ℕ) → Scene → Node × Scene
unfolding next_z node_insert
scene_add kind layer address s =
    let (z, s') = next_z layer s in
    let node : Node = record {
      address = address;
      kind = kind;
      layer = layer;
      is_visible = true;
      z = z;
    } in
    (node, record s' { nodes = node_insert node s'.nodes })

unfoldable pub add_window : (address : ℕ) → Scene → Node × Scene
unfolding scene_add
add_window address s = scene_add window normal address s

unfoldable pub add_rect : Layer → (address : ℕ) → Scene → Node × Scene
unfolding scene_add
add_rect layer address s = scene_add rect layer address s

unfoldable pub add_buffer : Layer → (address : ℕ) → Scene → Node × Scene
unfolding scene_add
add_buffer layer address s = scene_add buffer layer address s

unfoldable pub add_surface : Layer → (address : ℕ) → Scene → Node × Scene
unfolding scene_add
add_surface layer address s = scene_add surface layer address s

unfoldable pub scene_node_remove : Node → Scene → Scene
unfolding list_remove
scene_node_remove node s = record s { nodes = list_remove node.address s.nodes }

unfoldable pub scene_node_raise : Node → Scene → Node × Scene
unfolding next_z list_remove node_insert
scene_node_raise node s =
    let (z, s') = next_z node.layer s in
    let raised : Node = record node { z = z } in
    (raised, record s' { nodes = node_insert raised (list_remove node.address s'.nodes) })

-- An assignment to the field `layer` through the pointer to a node.
unfoldable pub assign_layer : ℕ → Layer → List Node → List Node
assign_layer address layer [] = []
assign_layer address layer (n ∷ ns) =
    let rest = assign_layer address layer ns in
    (if n.address == address then record n { layer = layer } else n) ∷ rest

unfoldable pub set_layer : ℕ → Layer → Scene → Scene
unfolding assign_layer
set_layer address layer s = record s { nodes = assign_layer address layer s.nodes }
