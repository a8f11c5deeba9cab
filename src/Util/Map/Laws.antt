-- ===== src/Util/Map/Laws.antt =====
-- The map as a function from keys to values: what `set` and `remove` do to every lookup.
use cuts.Base.{
  ℕ, ◌%◌, ◌<◌, ◌≡◌, refl, subst, ◌≢◌, inl, inr, Option, none, some, List, [], ◌∷◌, arith, ltb, ◌==◌,
  if◌then◌else◌, lt→ltb, ==_iff, Bool-cases, Option-cases, ok,
}
use cuts.Util.Map.{Pair, Map, new, put_chain, set_chain, set, find_pair, unlink, remove, get}

module _ {V : Type 0} where
  -- Each pair stands in the slot of its key, has a value, and no later pair has its key.
  abbrev pub IsChain : ℕ → ℕ → List (Pair V) → Type 0
  IsChain size n [] = Unit
  IsChain size n (p ∷ ps) =
      (p.key % size ≡ n)
      × ((v : V) × (p.value ≡ some v))
      × (find_pair p.key ps ≡ none)
      × IsChain size n ps

  pub record IsMap (m : Map V) : Type 0 where
    pub nonempty : 0 < m.size
    pub chains : (n : ℕ) → IsChain m.size n (m.pairs n)

  -- What a lookup finds.
  abbrev pub value_of : Option (Pair V) → Option V
  value_of none = none
  value_of (some p) = p.value

  unfoldable pub lookup : Map V → ℕ → Option V
  lookup m key = value_of (find_pair key (m.pairs (key % m.size)))

  pub get_lem : (m : Map V) (key : ℕ) → 0 < m.size → get m key ≡ ok (lookup m key)
  unfolding get lookup
  get_lem m key h = ground arith

  pub new-IsMap : (size : ℕ) → 0 < size → IsMap (new size)
  unfolding new
  new-IsMap size h = record { nonempty = h; chains = λ n. tt }

  pub lookup-new : (size key : ℕ) → lookup (new size) key ≡ none
  unfolding lookup new find_pair
  lookup-new size key = refl

  pub find_pair-value :
      (size n key : ℕ) (ps : List (Pair V))
      → IsChain size n ps
      → value_of (find_pair key ps) ≡ none
      → find_pair key ps ≡ none
  unfolding find_pair
  find_pair-value size n key [] c h = refl
  find_pair-value size n key (p ∷ ps) c h = ground (arith, find_pair-value size n key ps)

  find_pair-unlink :
      (size n key j : ℕ) (ps : List (Pair V))
      → IsChain size n ps
      → find_pair j (unlink key ps) ≡ (if key == j then none else find_pair j ps)
  unfolding find_pair unlink
  find_pair-unlink size n key j [] c = ground arith
  find_pair-unlink size n key j (p ∷ ps) c = ground (arith, find_pair-unlink size n key j ps)

  unlink-IsChain :
      (size n key : ℕ) (ps : List (Pair V)) → IsChain size n ps → IsChain size n (unlink key ps)
  unfolding unlink
  unlink-IsChain size n key [] c = tt
  unlink-IsChain size n key (p ∷ ps) c = elim (Bool-cases (p.key == key)) [
    | inl t ↦ rw t c.3
    | inr t ↦ rw t (
      c.0,
      c.1,
      ground (arith, find_pair-unlink size n key p.key ps c.3),
      unlink-IsChain size n key ps c.3,
    )
  ]

  lookup-put_chain :
      (m : Map V) (key j : ℕ) (chain : List (Pair V)) (w : Option V)
      → ((key % m.size ≡ j % m.size) → value_of (find_pair j chain) ≡ w)
      → ((key % m.size ≢ j % m.size) → lookup m j ≡ w)
      → lookup (put_chain m (key % m.size) chain) j ≡ w
  unfolding lookup
  lookup-put_chain m key j chain w same other = elim (Bool-cases (key % m.size == j % m.size)) [
    | inl t ↦ rw t (same ((==_iff _ _).0 t))
    | inr t ↦ rw t (other (λ e. ground arith))
  ]

  put_chain-IsMap :
      (m : Map V) (n : ℕ) (chain : List (Pair V))
      → IsMap m
      → IsChain m.size n chain
      → IsMap (put_chain m n chain)
  put_chain-IsMap m n chain v c = record {
    nonempty = v.nonempty;
    chains = λ i. elim (Bool-cases (n == i)) [
      | inl t ↦ rw t (subst (λ k. IsChain m.size k chain) ((==_iff n i).0 t) c)
      | inr t ↦ rw t (v.chains i)
    ];
  }

  -- A stored value: copied if its size is positive.
  abbrev pub stored : ℕ → V → ℕ → Pair V
  stored key v value_size = record { copied = ltb 0 value_size; key = key; value = some v }

  set_chain_lem :
      (size n key : ℕ) (v : V) (value_size : ℕ) (ps : List (Pair V))
      → IsChain size n ps
      → set_chain ps key (some v) value_size ≡ ok (stored key v value_size ∷ ps, some v)
  unfolding set_chain
  set_chain_lem size n key v value_size [] c = ground arith
  set_chain_lem size n key v value_size (p ∷ ps) c = ground arith

  abbrev pub after_set : Map V → ℕ → V → ℕ → Map V
  after_set m key v value_size =
      let n = key % m.size in put_chain m n (stored key v value_size ∷ m.pairs n)

  pub set_lem :
      (m : Map V) (key : ℕ) (v : V) (value_size : ℕ)
      → IsMap m
      → set m key (some v) value_size ≡ ok (after_set m key v value_size, some v)
  unfolding set
  set_lem m key v value_size w = rw (
    lt→ltb 0 m.size w.nonempty,
    set_chain_lem m.size (key % m.size) key v value_size (m.pairs (key % m.size))
        (w.chains (key % m.size)),
  )

  pub lookup-after_set :
      (m : Map V) (key j : ℕ) (v : V) (value_size : ℕ)
      → lookup (after_set m key v value_size) j ≡ (if key == j then some v else lookup m j)
  unfolding lookup find_pair
  lookup-after_set m key j v value_size = ground arith

  pub after_set-IsMap :
      (m : Map V) (key : ℕ) (v : V) (value_size : ℕ)
      → IsMap m
      → lookup m key ≡ none
      → IsMap (after_set m key v value_size)
  unfolding lookup
  after_set-IsMap m key v value_size w fresh = put_chain-IsMap m (key % m.size) _ w (
    refl,
    (v, refl),
    find_pair-value m.size (key % m.size) key _ (w.chains (key % m.size)) fresh,
    w.chains (key % m.size),
  )

  -- Storing under a key that the map does not hold succeeds and returns the stored value; the map
  -- stays well formed, and its lookups are the old ones but for that key.
  pub get-set_fresh :
      (m : Map V) (key j : ℕ) (v : V) (value_size : ℕ)
      → IsMap m
      → get m key ≡ ok none
      → (m' : Map V) × (set m key (some v) value_size ≡ ok (m', some v))
        × IsMap m'
        × (get m' j ≡ (if key == j then ok (some v) else get m j))
  get-set_fresh m key j v value_size w fresh =
      let free : lookup m key ≡ none = cc (get_lem m key w.nonempty) in
      (
        after_set m key v value_size,
        set_lem m key v value_size w,
        after_set-IsMap m key v value_size w free,
        rw
            (
              get_lem (after_set m key v value_size) j w.nonempty,
              get_lem m j w.nonempty,
              lookup-after_set m key j v value_size,
            )
            (ground arith),
      )

  abbrev pub after_remove : Map V → ℕ → Map V
  after_remove m key = put_chain m (key % m.size) (unlink key (m.pairs (key % m.size)))

  pub lookup-after_remove :
      (m : Map V) (key j : ℕ)
      → IsMap m
      → lookup (after_remove m key) j ≡ (if key == j then none else lookup m j)
  unfolding lookup
  lookup-after_remove m key j w = ground (
    arith,
    find_pair-unlink m.size (key % m.size) key j (m.pairs (key % m.size)) (w.chains (key % m.size)),
  )

  pub after_remove-IsMap : (m : Map V) (key : ℕ) → IsMap m → IsMap (after_remove m key)
  after_remove-IsMap m key w =
      put_chain-IsMap m _ _ w (unlink-IsChain m.size _ key _ (w.chains (key % m.size)))

  -- What `free` is given: the value that the key had.
  abbrev pub freed : Option V → Option (Option V)
  freed none = none
  freed (some v) = some (some v)

  pub remove_lem :
      (m : Map V) (key : ℕ) (v : V)
      → IsMap m
      → lookup m key ≡ some v
      → remove m key ≡ ok (after_remove m key, some (some v))
  unfolding remove lookup
  remove_lem m key v w h = ground (arith, w.nonempty)

  pub remove_missing :
      (m : Map V) (key : ℕ) → IsMap m → lookup m key ≡ none → remove m key ≡ ok (m, none)
  unfolding remove lookup
  remove_missing m key w h = ground (
    arith,
    w.nonempty,
    find_pair-value m.size (key % m.size) key (m.pairs (key % m.size)) (w.chains (key % m.size)),
  )

  -- Removing a key frees the value that it had, if it had one; the map stays well formed, and its
  -- lookups are the old ones but for that key, which has no value any more.
  pub get-remove :
      (m : Map V) (key j : ℕ)
      → IsMap m
      → (m' : Map V) × (remove m key ≡ ok (m', freed (lookup m key)))
        × IsMap m'
        × (get m' j ≡ (if key == j then ok none else get m j))
  get-remove m key j w = elim (Option-cases (lookup m key)) [
    | inl e ↦
        (m, rw e (remove_missing m key w e), w, rw (get_lem m j w.nonempty) (ground (arith, e)))
    | inr (v, e) ↦ (
      after_remove m key,
      rw e (remove_lem m key v w e),
      after_remove-IsMap m key w,
      rw
          (
            get_lem (after_remove m key) j w.nonempty,
            get_lem m j w.nonempty,
            lookup-after_remove m key j w,
          )
          (ground arith),
    )
  ]
