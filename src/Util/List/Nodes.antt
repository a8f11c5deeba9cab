-- ===== src/Util/List/Nodes.antt =====
-- What each access does at a node that is there.
use cuts.Base.{ℕ, suc, ◌+◌, ◌≡◌, ◌≢◌, true, false, Option, none, some, arith, ◌==◌, ok}
use cuts.Util.List.{
  Ptr, null, Node, Heap, write, load, store, set_next, set_prev, set_size, free_node,
}

pub not_null : (p : Ptr) → p ≢ null → (p == null) ≡ false
not_null p ne = ground arith

pub write_self : (h : Heap) (p : Ptr) (c : Option Node) → (write h p c).node p ≡ c
write_self h p c = ground arith

pub write_other : (h : Heap) (p a : Ptr) (c : Option Node) → a ≢ p → (write h p c).node a ≡ h.node a
write_other h p a c ne = ground arith

pub ==_suc : (i k : ℕ) → (i == i + suc k) ≡ false
==_suc i k = ground arith

pub ==_zero : (i : ℕ) → (i == i + 0) ≡ true
==_zero i = ground arith

module _ (h : Heap) (p : Ptr) (n : Node) (ne : p ≢ null) (holds : h.node p ≡ some n) where
  pub load_lem : load p h ≡ ok (n, h)
  unfolding load
  load_lem = ground arith

  pub store_lem : (m : Node) → store p m h ≡ ok (tt, write h p (some m))
  unfolding store
  store_lem m = rw load_lem

  pub set_next_lem : (q : Ptr) → set_next p q h ≡ ok (tt, write h p (some (record n { next = q })))
  unfolding set_next
  set_next_lem q = rw load_lem (store_lem _)

  pub set_prev_lem : (q : Ptr) → set_prev p q h ≡ ok (tt, write h p (some (record n { prev = q })))
  unfolding set_prev
  set_prev_lem q = rw load_lem (store_lem _)

  pub set_size_lem : (k : ℕ) → set_size p k h ≡ ok (tt, write h p (some (record n { size = k })))
  unfolding set_size
  set_size_lem k = rw load_lem (store_lem _)

  pub free_node_lem : free_node p h ≡ ok (tt, write h p none)
  unfolding free_node
  free_node_lem = rw load_lem
