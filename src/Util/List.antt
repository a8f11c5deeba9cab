-- ===== src/Util/List.antt =====
-- util/list.c over an explicit heap. A list is a chain of nodes linked both ways that ends in a node
-- without data, the sentinel; the head node keeps the size. Addresses that `calloc` returns are
-- arguments, 0 is NULL, and a loop runs on fuel: its caller gives it the size and two rounds more.
pub mod Nodes
pub mod Chain
pub mod Walk
pub mod Push
pub mod Erase
pub mod Unlink
pub mod Remove
use cuts.Base.{
  ℕ, zero, suc, ◌+◌, ◌-◌, ◌^◌, Bool, true, false, ◌&&◌, not, Option, none, some, List, ◌==◌,
  if◌then◌else◌, Exec, ok, undefined, aborted, out_of_fuel, ℤ, pos, negsuc,
}

abbrev pub Ptr : Type 0
Ptr = ℕ

abbrev pub null : Ptr
null = 0

-- `struct c_list`
pub record Node : Type 0 where
  pub data_ptr : Ptr
  pub copied : Bool
  pub prev : Ptr
  pub next : Ptr
  pub size : ℕ

-- The nodes, and the blocks into which payloads are copied.
pub record Heap : Type 0 where
  pub node : Ptr → Option Node
  pub block : Ptr → Option (List ℕ)

abbrev pub Cmd : Type 0 → Type 0
Cmd A = Heap → Exec (A × Heap)

abbrev pub pure : {A : Type 0} → A → Cmd A
pure a h = ok (a, h)

abbrev pub fail : {A : Type 0} → Cmd A
fail h = undefined

module _ {X Y : Type 0} where
  abbrev pub and_then : Exec (X × Heap) → (X → Cmd Y) → Exec (Y × Heap)
  and_then undefined next = undefined
  and_then aborted next = aborted
  and_then out_of_fuel next = out_of_fuel
  and_then (ok (x, h)) next = next x h

  infixl 5 ◌>>=◌ ◌>>◌
  abbrev pub ◌>>=◌ : Cmd X → (X → Cmd Y) → Cmd Y
  first >>= next = λ h. and_then (first h) next

  abbrev pub ◌>>◌ : Cmd X → Cmd Y → Cmd Y
  first >> second = first >>= λ _. second

abbrev pub write : Heap → Ptr → Option Node → Heap
write h p c = record h { node = λ a. if a == p then c else h.node a }

abbrev pub write_block : Heap → Ptr → Option (List ℕ) → Heap
write_block h p c = record h { block = λ a. if a == p then c else h.block a }

-- `*l`
unfoldable pub load : Ptr → Cmd Node
load p h =
    if p == null then undefined else elim (h.node p) [ none ↦ undefined | some n ↦ ok (n, h) ]

-- `*l = n`, for a node that is there
unfoldable pub store : Ptr → Node → Cmd (Unit {0})
unfolding load
store p n = do load p; λ h. ok (tt, write h p (some n))

unfoldable pub set_next : Ptr → Ptr → Cmd (Unit {0})
unfolding store
set_next p q = do n ← load p; store p (record n { next = q })

unfoldable pub set_prev : Ptr → Ptr → Cmd (Unit {0})
unfolding store
set_prev p q = do n ← load p; store p (record n { prev = q })

unfoldable pub set_size : Ptr → ℕ → Cmd (Unit {0})
unfolding store
set_size p k = do n ← load p; store p (record n { size = k })

unfoldable pub free_node : Ptr → Cmd (Unit {0})
unfolding load
free_node p = do load p; λ h. ok (tt, write h p none)

-- `free` of a block that is not allocated is undefined; `free(NULL)` does nothing.
unfoldable pub free_block : Ptr → Cmd (Unit {0})
free_block p h =
    if p == null
    then ok (tt, h)
    else elim (h.block p) [ none ↦ undefined | some _ ↦ ok (tt, write_block h p none) ]

abbrev pub empty_node : Node
empty_node = record { data_ptr = null; copied = false; prev = null; next = null; size = 0 }

-- `calloc` returned `fresh`.
unfoldable pub new : (fresh : Ptr) → Cmd Ptr
new fresh h = if fresh == null then ok (null, h) else ok (fresh, write h fresh (some empty_node))

-- What a caller hands over: a pointer (`data_size` is 0), or bytes to copy into the block that
-- `calloc` returns.
pub data Payload : Type 0 where
  borrowed : Ptr → Payload
  bytes : (fresh : Ptr) → List ℕ → Payload

-- `l->data = ...` by the payload; the result is `l->data`, or NULL where `calloc` failed.
unfoldable pub fill : Ptr → Payload → Cmd Ptr
unfolding store
fill l (borrowed p) = do n ← load l; store l (record n { data_ptr = p }); pure p
fill l (bytes fresh content) = do
  n ← load l
  store l (record n { data_ptr = fresh })
  if fresh == null then pure null else do
    (λ h. ok (tt, write_block h fresh (some content)))
    store l (record n { data_ptr = fresh; copied = true })
    pure fresh

-- `for (; l->next; l = l->next);`
unfoldable pub walk : ℕ → Ptr → Cmd Ptr
walk zero l = λ h. out_of_fuel
walk (suc fuel) l = do n ← load l; if n.next == null then pure l else walk fuel n.next

-- What `c_list_push` does at the sentinel: a new sentinel behind it, and the data in it.
unfoldable pub attach : (fresh : Ptr) → Ptr → Payload → Cmd Ptr
unfolding new set_next set_prev fill
attach fresh last payload = do
  next ← new fresh
  set_next last next
  set_prev next last
  fill last payload

unfoldable pub push : (fresh : Ptr) → Ptr → Payload → Cmd Ptr
unfolding load set_size walk attach
push fresh l payload = do
  n ← load l
  set_size l (n.size + 1)
  last ← walk (n.size + 2) l
  attach fresh last payload

-- `size--` on a `size_t`
abbrev pub pred64 : ℕ → ℕ
pred64 n = if n == 0 then 2 ^ 64 - 1 else n - 1

-- The body of the loop of `c_list_remove` at the node to remove; the result is the new head.
unfoldable pub detach : Ptr → Ptr → Node → Cmd Ptr
unfolding load set_next set_prev set_size
detach head l n =
    if n.prev == null && not (n.next == null)
    then (do set_size n.next n.size; set_prev n.next null; pure n.next)
    else if not (n.prev == null) && not (n.next == null)
    then (do set_next n.prev n.next; set_prev n.next n.prev; pure head)
    else (do set_next n.prev null; pure head)

unfoldable pub drop_node : Ptr → Ptr → Node → Cmd Ptr
unfolding detach free_block free_node
drop_node head l n = do
  head' ← detach head l n
  if n.copied then free_block n.data_ptr else pure tt
  m ← load head'
  set_size head' (pred64 m.size)
  free_node l
  pure head'

unfoldable pub remove_loop : ℕ → Ptr → Ptr → Ptr → Cmd Ptr
unfolding load drop_node
remove_loop zero head l data_ptr = λ h. out_of_fuel
remove_loop (suc fuel) head l data_ptr = if l == null then pure head else do
  n ← load l
  if n.data_ptr == data_ptr then drop_node head l n else remove_loop fuel head n.next data_ptr

-- `c_list_remove(&head, data)` returns the new head.
unfoldable pub remove : Ptr → Ptr → Cmd Ptr
unfolding remove_loop
remove head data_ptr = do n ← load head; remove_loop (n.size + 2) head head data_ptr

-- `c_list_get`: the loop from node `l`, index `i` yet to go
unfoldable pub get_loop : ℕ → Ptr → ℕ → ℕ → Cmd Ptr
unfolding load
get_loop zero l i index = λ h. out_of_fuel
get_loop (suc fuel) l i index = do
  n ← load l
  if n.next == null
      then pure null
      else if i == index
      then pure n.data_ptr
      else get_loop fuel n.next (i + 1) index

unfoldable pub get : Ptr → ℕ → Cmd Ptr
unfolding get_loop
get l index = do n ← load l; get_loop (n.size + 2) l 0 index

unfoldable pub idx_loop : ℕ → Ptr → ℕ → Ptr → Cmd ℤ
unfolding load
idx_loop zero l i data_ptr = λ h. out_of_fuel
idx_loop (suc fuel) l i data_ptr = do
  n ← load l
  if n.next == null
      then pure (negsuc 0)
      else if n.data_ptr == data_ptr
      then pure (pos i)
      else idx_loop fuel n.next (i + 1) data_ptr

unfoldable pub idx : Ptr → Ptr → Cmd ℤ
unfolding idx_loop
idx l data_ptr = do n ← load l; idx_loop (n.size + 2) l 0 data_ptr
