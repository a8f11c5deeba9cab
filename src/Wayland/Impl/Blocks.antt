-- ===== src/Wayland/Impl/Blocks.antt =====
-- The steps of a request on blocks that are allocated.
use cuts.Base.{
  ℕ, ◌+◌, ◌%◌, ◌^◌, ◌<◌, ◌≡◌, refl, ap, ◌∙◌, false, Option, none, some, List, ◌∷◌, arith, ltb, ◌==◌,
  Exec, ok, undefined, require, >>=-after,
}
use cuts.Util.Mem.{Metadata, Memory, metadata_of, write, ref, set_defer, malloc}
use cuts.Wayland.Objects.{Registry, Object, object_add}
use cuts.Wayland.Impl.World.{
  World, Wl, some_or_undefined, at, allocate_from, allocate, defer, take_reference, add_object,
}

abbrev pub with_memory : Memory → Wl → Wl
with_memory memory s = record s { world = record (s.world) { memory = memory } }

abbrev pub new_block : Metadata
new_block = record { ref_count = 1; defer = none }

abbrev pub with_block : ℕ → List ℕ → Wl → Wl
with_block a rest s = record s {
  world = record (s.world) {
    memory = write s.world.memory a (some new_block);
    free_addresses = rest;
  };
}

pub require_lem : (a : ℕ) → 0 < a → require (ltb 0 a) ≡ ok tt
require_lem a positive = ground arith

malloc_lem : (a : ℕ) (mem : Memory) → 0 < a → malloc a mem ≡ ok (a, write mem a (some new_block))
unfolding malloc
malloc_lem a mem positive = let e : (a == 0) ≡ false = ground (arith, positive) in rw e refl

pub allocate_lem :
    (a : ℕ) (rest : List ℕ) (s : Wl)
    → s.world.free_addresses ≡ a ∷ rest
    → 0 < a
    → allocate s ≡ ok (a, with_block a rest s)
unfolding allocate
allocate_lem a rest s fresh positive =
    ap (λ l. allocate_from l s) fresh ∙ >>=-after _ (malloc_lem a s.world.memory positive) refl

module _ (s : Wl) (a : ℕ) {m : Metadata} (here : s.world.memory.metadata a ≡ some m) where
  block_lem : metadata_of a s.world.memory ≡ ok m
  unfolding metadata_of
  block_lem =
      ap {B = Exec Metadata} (λ (c : Option Metadata). elim c [ none ↦ undefined | some m ↦ ok m ])
        here

  pub defer_lem :
      (func : ℕ)
      → defer a func s
        ≡ ok (with_memory (write s.world.memory a (some (record m { defer = some func }))) s)
  unfolding defer set_defer
  defer_lem func = >>=-after _ (>>=-after _ block_lem refl) refl

  pub take_reference_lem :
      take_reference a s
      ≡ ok (
          with_memory
            (write s.world.memory a (some (record m { ref_count = (m.ref_count + 1) % 2 ^ 64 })))
            s)
  unfolding take_reference ref
  take_reference_lem = >>=-after _ (>>=-after _ block_lem refl) refl

  pub at_lem :
      {A : Type 0} {x : A} (table : World → ℕ → Option A)
      → table s.world a ≡ some x
      → at table a s ≡ ok x
  unfolding at
  at_lem table stored = >>=-after _ block_lem (ap some_or_undefined stored)

pub add_object_lem :
    (id version iface a : ℕ) (s : Wl) {registry : Registry} {o : Option Object}
    → object_add s.registry id version (some iface) (some a) ≡ ok (registry, o)
    → add_object id version iface a s ≡ ok (record s { registry = registry })
unfolding add_object
add_object_lem id version iface a s added = >>=-after _ added refl
