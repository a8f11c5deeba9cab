-- ===== src/Util/Map.antt =====
-- util/map.c: a hash map from numbers to pointers, with a chain of pairs in each slot.
-- `none` is NULL. A chain is the list of its pairs from `pairs[n]` on, so the four cases by which
-- `c_map_remove` mends `prev` and `next` are one: the pair leaves the list. Memory does not run out.
pub mod Laws
use cuts.Base.{
  ℕ, zero, suc, ◌+◌, ◌%◌, Bool, true, false, Option, none, some, List, [], ◌∷◌, ◌++◌, ltb, ◌==◌,
  if◌then◌else◌, Exec, ok, undefined, ◌>>=◌, ◌>>◌, require,
}

-- `struct c_map_pair`
pub record Pair {ℓ} (V : Type ℓ) : Type ℓ where
  pub copied : Bool
  pub key : ℕ
  pub value : Option V

-- `struct c_map`: the chain of each slot
pub record Map {ℓ} (V : Type ℓ) : Type ℓ where
  pub pairs : ℕ → List (Pair V)
  pub size : ℕ

module _ {ℓ} {V : Type ℓ} where
  unfoldable pub new : ℕ → Map V
  new size = record { pairs = λ _. []; size = size }

  -- `m->pairs[n] = chain`
  abbrev pub put_chain : Map V → ℕ → List (Pair V) → Map V
  put_chain m n chain = record m { pairs = λ i. if n == i then chain else m.pairs i }

  -- `memcpy` of a positive number of bytes from NULL is undefined.
  unfoldable pub set_value : Pair V → Option V → ℕ → Exec (Pair V)
  set_value pair none value_size =
      if ltb 0 value_size then undefined else ok (record pair { value = none })
  set_value pair (some v) value_size =
      if ltb 0 value_size
      then ok (record pair { value = some v; copied = true })
      else ok (record pair { value = some v })

  -- A pair without a value at the head of the chain is used again.
  unfoldable pub set_chain : List (Pair V) → ℕ → Option V → ℕ → Exec (List (Pair V) × Option V)
  unfolding set_value
  set_chain [] key value value_size = do
    pair ← set_value (record { copied = false; key = key; value = none }) value value_size
    ok (pair ∷ [], pair.value)
  set_chain (current ∷ rest) key value value_size = elim current.value [
    | none ↦ do
      pair ← set_value (record current { key = key }) value value_size
      ok (pair ∷ rest, pair.value)
    | some _ ↦ do
      pair ← set_value (record { copied = false; key = key; value = none }) value value_size
      ok (pair ∷ current ∷ rest, pair.value)
  ]

  -- `key % m->size` at size 0 is a division by zero. The result is the stored value.
  unfoldable pub set : Map V → ℕ → Option V → ℕ → Exec (Map V × Option V)
  unfolding set_chain
  set m key value value_size = do
    require (ltb 0 m.size)
    let n = key % m.size
    (chain, stored) ← set_chain (m.pairs n) key value value_size
    ok (put_chain m n chain, stored)

  -- `for (; pair && pair->key != key; pair = pair->next);`
  unfoldable pub find_pair : ℕ → List (Pair V) → Option (Pair V)
  find_pair key [] = none
  find_pair key (pair ∷ rest) = if pair.key == key then some pair else find_pair key rest

  unfoldable pub unlink : ℕ → List (Pair V) → List (Pair V)
  unlink key [] = []
  unlink key (pair ∷ rest) = if pair.key == key then rest else pair ∷ unlink key rest

  -- The new map, and what is handed to `free` as the value of the pair, copied or not.
  unfoldable pub remove : Map V → ℕ → Exec (Map V × Option (Option V))
  unfolding find_pair unlink
  remove m key = do
    require (ltb 0 m.size)
    let n = key % m.size
    ok (elim (find_pair key (m.pairs n)) [
      | none ↦ (m, none)
      | some pair ↦ (put_chain m n (unlink key (m.pairs n)), some pair.value)
    ])

  unfoldable pub get : Map V → ℕ → Exec (Option V)
  unfolding find_pair
  get m key = do
    require (ltb 0 m.size)
    ok (elim (find_pair key (m.pairs (key % m.size))) [ none ↦ none | some pair ↦ pair.value ])

  -- The values that `c_map_destroy` frees: those that `c_map_set` copied.
  unfoldable pub destroy_chain : List (Pair V) → List (Option V)
  destroy_chain [] = []
  destroy_chain (pair ∷ rest) =
      if pair.copied then pair.value ∷ destroy_chain rest else destroy_chain rest

  unfoldable pub destroy_slots : Map V → ℕ → ℕ → List (Option V)
  unfolding destroy_chain
  destroy_slots m zero i = []
  destroy_slots m (suc rounds) i = destroy_chain (m.pairs i) ++ destroy_slots m rounds (i + 1)

  -- The null test guards the loop alone: `free(m->pairs)` reads through NULL.
  unfoldable pub destroy : Option (Map V) → Exec (List (Option V))
  unfolding destroy_slots
  destroy none = undefined
  destroy (some m) = ok (destroy_slots m m.size 0)
