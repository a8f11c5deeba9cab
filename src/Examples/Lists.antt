-- ===== src/Examples/Lists.antt =====
-- util/list.c at small heaps.
use cuts.Base.{
  ◌≡◌, refl, ◌≢◌, true, false, Option, none, some, [], ◌∷◌, arith, ◌==◌, if◌then◌else◌, Exec, ok,
  undefined, aborted, out_of_fuel, ℤ, pos,
}
use cuts.Util.List.{
  Ptr, null, Heap, write, empty_node, pure, ◌>>=◌, ◌>>◌, new, push, remove, get, idx, borrowed,
  bytes,
}
use cuts.Util.List.Chain.{Cell, Cells, node, has, IsList}
use cuts.Util.List.Push.{push-append, block_after}
use cuts.Util.List.Erase.{find_cell, erase}
use cuts.Util.List.Remove.{Removed, remove-erase}

abbrev no_heap : Heap
no_heap = record { node = λ a. none; block = λ a. none }

-- Two pointers are pushed, the first is removed, and the other is looked up.
push_remove : Exec ((ℤ × Ptr) × Heap)
unfolding new push remove idx get
push_remove =
    (do
      l ← new 1
      push 2 l (borrowed 70)
      push 3 l (bytes 90 (5 ∷ 6 ∷ []))
      l' ← remove l 70
      i ← idx l' 90
      d ← get l' 0
      pure (i, d))
      no_heap

result : Exec ((ℤ × Ptr) × Heap) → Option (ℤ × Ptr)
result (ok (a, h)) = some a
result undefined = none
result aborted = none
result out_of_fuel = none

push_remove-result : result push_remove ≡ some (pos 0, 90)
unfolding result push_remove
push_remove-result = refl

-- The heap with the list 70, 80 at the nodes 1 and 2, whose sentinel is 3; the node 1 owns its block.
abbrev pair_heap : Heap
pair_heap = record {
  node = λ a.
      if a == 1
      then some (node 70 true null 2 2)
      else if a == 2
      then some (node 80 false 1 3 0)
      else if a == 3
      then some (node null false 2 null 0)
      else none;
  block = λ a. if a == 70 then some (9 ∷ []) else none;
}

abbrev cell70 : Cell
cell70 = record { addr = 1; data_ptr = 70; copied = true }

abbrev cell80 : Cell
cell80 = record { addr = 2; data_ptr = 80; copied = false }

abbrev pair : Cells
pair = cell70 ∷ cell80 ∷ []

abbrev pair-IsList : IsList pair_heap 1 pair
pair-IsList = record {
  stop = 3;
  head = refl;
  chain = (
    λ e. omega arith,
    λ e. omega arith,
    refl,
    (2, refl),
    (λ e. omega arith, λ e. omega arith, refl, (0, refl), (λ e. omega arith, (0, refl))),
  );
  size = (node 70 true null 2 2, refl, refl);
}

push-append_example :
    (g : Heap) × (push 4 1 (bytes 90 (5 ∷ 6 ∷ [])) pair_heap ≡ ok (90, g))
    × IsList g 1 (cell70 ∷ cell80 ∷ record { addr = 3; data_ptr = 90; copied = true } ∷ [])
    × ((a : Ptr) → a ≢ 3 → a ≢ 4 → has a pair ≡ false → g.node a ≡ pair_heap.node a)
    × ((a : Ptr) → g.block a ≡ block_after (bytes 90 (5 ∷ 6 ∷ [])) pair_heap.block a)
push-append_example =
    push-append pair_heap 4 1 pair (bytes 90 (5 ∷ 6 ∷ [])) pair-IsList (λ e. omega arith) refl
      (λ e. omega arith)

remove-erase_example :
    (g : Heap) × (remove 1 70 pair_heap ≡ ok (2, g)) × Removed pair_heap 3 70 pair cell70 g
unfolding find_cell erase
remove-erase_example =
    remove-erase pair_heap 1 70 pair cell70 pair-IsList (λ e. omega arith) refl (9 ∷ [], refl)

abbrev empty_heap : Heap
empty_heap = write no_heap 1 (some empty_node)
