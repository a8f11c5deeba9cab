-- ===== src/Util/Mem.antt =====
-- util/mem.c: blocks with a reference count in front of them. The function that `c_defer` sets is
-- code of the caller: a number stands for it, and what a call of it does is a parameter.
pub mod Life
use cuts.Base.{
  ℕ, ◌+◌, ◌-◌, ◌%◌, ◌^◌, Option, none, some, List, ◌∷◌, ◌==◌, if◌then◌else◌, Exec, ok, undefined,
  ◌>>=◌, ◌>>◌,
}

-- `struct metadata`
pub record Metadata : Type 0 where
  pub ref_count : ℕ
  pub defer : Option ℕ

-- The allocated blocks, and the addresses whose `defer` was called, the latest first.
pub record Memory : Type 0 where
  pub metadata : ℕ → Option Metadata
  pub deferred : List ℕ

abbrev pub write : Memory → ℕ → Option Metadata → Memory
write s data_ptr c = record s { metadata = λ a. if a == data_ptr then c else s.metadata a }

-- `(struct metadata *)data - 1`, for a block that is allocated
unfoldable pub metadata_of : ℕ → Memory → Exec Metadata
metadata_of data_ptr s = elim (s.metadata data_ptr) [ none ↦ undefined | some m ↦ ok m ]

-- `_c_malloc`, where `calloc` finds the address `fresh`
unfoldable pub malloc : (fresh : ℕ) → Memory → Exec (ℕ × Memory)
malloc fresh s =
    if fresh == 0
    then ok (0, s)
    else ok (fresh, write s fresh (some (record { ref_count = 1; defer = none })))

-- `c_defer`
unfoldable pub set_defer : ℕ → ℕ → Memory → Exec Memory
set_defer data_ptr func s = do
  m ← metadata_of data_ptr s
  ok (write s data_ptr (some (record m { defer = some func })))

-- `c_ref`
unfoldable pub ref : ℕ → Memory → Exec Memory
ref data_ptr s = do
  m ← metadata_of data_ptr s
  ok (write s data_ptr (some (record m { ref_count = (m.ref_count + 1) % 2 ^ 64 })))

unfoldable pub free : ℕ → Memory → Exec Memory
free data_ptr s = do m ← metadata_of data_ptr s; ok (write s data_ptr none)

-- `c_get_refcount`
unfoldable pub get_refcount : ℕ → Memory → Exec ℕ
get_refcount data_ptr s =
    if data_ptr == 0 then ok 0 else (do m ← metadata_of data_ptr s; ok m.ref_count)

module _ (call : ℕ → ℕ → Memory → Exec Memory) where
  unfoldable pub run_defer : Option ℕ → ℕ → Memory → Exec Memory
  run_defer none data_ptr s = ok s
  run_defer (some func) data_ptr s =
      call func data_ptr (record s { deferred = data_ptr ∷ s.deferred })

  -- `c_unref`
  unfoldable pub unref : ℕ → Memory → Exec Memory
  unref data_ptr s = do
    m ← metadata_of data_ptr s
    let count = (m.ref_count + 2 ^ 64 - 1) % 2 ^ 64
    let s' = write s data_ptr (some (record m { ref_count = count }))
    if count == 0 then (do s'' ← run_defer m.defer data_ptr s'; free data_ptr s'') else ok s'
