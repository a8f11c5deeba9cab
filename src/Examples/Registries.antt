-- ===== src/Examples/Registries.antt =====
-- wayland/server.c: the registry of a new connection.
use cuts.Base.{
  ℕ, ◌+◌, ◌≤◌, ◌≡◌, inl, none, some, [], ◌∷◌, arith, ◌==◌, if◌then◌else◌, ok, undefined,
}
use cuts.Wayland.Objects.{Object, Registry, delete_id, first_server_id, object_add, object_del}
use cuts.Wayland.Objects.Invariant.{find, IsRegistry}
use cuts.Wayland.Objects.Add.{object, Added, add_client, add_server, add_past_pool}
use cuts.Wayland.Objects.Del.{Deleted, del_lem}
use cuts.Wayland.Objects.Reach.{init_lem, client_adds, here, next, Reach-IsRegistry}

-- A new connection: the display is object 1.
abbrev display : Object
display = object 1 1 500 none

start : Registry
start = (init_lem 500 1).0

start-IsRegistry : IsRegistry start
unfolding start
start-IsRegistry = (init_lem 500 1).2

start_finds : (j : ℕ) → find start j ≡ (if 1 == j then some display else none)
unfolding start
start_finds = (init_lem 500 1).3

add_client_example :
    (reg : Registry) × (object_add start 2 1 (some 501) (some 77)
      ≡ ok (reg, some (object 2 1 501 (some 77))))
    × Added start (object 2 1 501 (some 77)) reg
add_client_example =
    add_client start 2 1 501 (some 77) start-IsRegistry (omega arith) (omega arith) (start_finds 2)

add_server_example :
    (r : ℕ) × (reg : Registry) × (object_add start 0 1 (some 502) none
      ≡ ok (reg, some (object (r + first_server_id) 1 502 none)))
    × (r ≤ 0)
    × (find start (r + first_server_id) ≡ none)
    × Added start (object (r + first_server_id) 1 502 none) reg
add_server_example =
    add_server start 0 1 502 none start-IsRegistry (omega arith) (start_finds (0 + first_server_id))

add_past_pool_example : object_add start 4097 1 (some 501) none ≡ undefined
add_past_pool_example = add_past_pool start 1 501 none start-IsRegistry (start_finds 4097)

del_lem_example :
    (reg : Registry) × (object_del start 1 ≡ ok (reg, 0, delete_id 1 ∷ [])) × Deleted start 1 reg
del_lem_example =
    del_lem start 1 display start-IsRegistry (start_finds 1) (inl (omega arith, omega arith))

-- The registry once the client has made an object 2.
grown : Registry
grown =
    (add_client start 2 1 501 (some 77) start-IsRegistry (omega arith) (omega arith)
      (start_finds 2)).0

grown_by : object_add start 2 1 (some 501) (some 77) ≡ ok (grown, some (object 2 1 501 (some 77)))
unfolding grown
grown_by =
    (add_client start 2 1 501 (some 77) start-IsRegistry (omega arith) (omega arith)
      (start_finds 2)).1

Reach-IsRegistry_example : IsRegistry grown
Reach-IsRegistry_example =
    Reach-IsRegistry
      (next here (client_adds 2 1 501 (some 77) (omega arith) (omega arith) grown_by))
      start-IsRegistry
