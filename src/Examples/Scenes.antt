-- ===== src/Examples/Scenes.antt =====
-- compositor/scene.c: two windows and a bar above them; the first window is raised.
use cuts.Base.{ℕ, ◌+◌, ◌*◌, ◌≡◌, refl, List, [], ◌∷◌, ◌++◌, map, arith, undefined}
use cuts.Compositor.Scene.{
  Node, Scene, window, buffer, normal, top, scene_init, scene_add, scene_node_raise, list_remove,
  next_z, node_insert, init_numbers, layer_slice,
}
use cuts.Compositor.Scene.Order.{IsScene, NotHigher, Higher}
use cuts.Compositor.Scene.Steps.{adds, raises, Step-IsScene, raise-on_top}

-- The numbers that `c_scene_init` is meant to start with
abbrev started : Scene
started = record { nodes = []; z_state = λ i. layer_slice * i + 1 }

started-IsScene : IsScene 0 started
started-IsScene = record {
  sorted = tt;
  slices = tt;
  least = λ i below. omega arith;
  most = λ i below. omega arith;
}

-- The multiplication of the fourth round overflows.
init_overflows : scene_init ≡ undefined
unfolding scene_init init_numbers
init_overflows = refl

abbrev first : Node × Scene
first = scene_add window normal 100 started

abbrev second : Scene
second = (scene_add window normal 200 first.1).1

abbrev drawn : Scene
drawn = (scene_add buffer top 300 second).1

first-IsScene : IsScene 1 first.1
first-IsScene = Step-IsScene 0 (adds window normal 100) (omega arith) started-IsScene

second-IsScene : IsScene 2 second
second-IsScene = Step-IsScene 1 (adds window normal 200) (omega arith) first-IsScene

drawn-IsScene : IsScene 3 drawn
drawn-IsScene = Step-IsScene 2 (adds buffer top 300) (omega arith) second-IsScene

Step-IsScene_example : IsScene 4 (scene_node_raise first.0 drawn).1
Step-IsScene_example = Step-IsScene 3 (raises first.0) (omega arith) drawn-IsScene

raise-on_top_example :
    (below above : List Node) × (z : ℕ) × (list_remove 100 drawn.nodes ≡ below ++ above)
    × ((scene_node_raise first.0 drawn).1.nodes ≡ below ++ record (first.0) { z = z } ∷ above)
    × NotHigher normal below
    × Higher normal above
unfolding scene_add
raise-on_top_example = raise-on_top first.0 drawn-IsScene (omega arith)

-- The raised window stands between the other window and the bar.
raised :
    map (λ (n : Node). n.address) (scene_node_raise first.0 drawn).1.nodes ≡ 200 ∷ 100 ∷ 300 ∷ []
unfolding scene_node_raise scene_add next_z node_insert list_remove
raised = refl
