-- ===== src/Base/Bytes.antt =====
-- A block of memory: `len` bytes, read and written one at a time. An access outside is undefined.
use Prim.Native.Nat.{ℕ, ◌<◌}
use mathlib.Core.Path.{◌≡◌}
use native.Mathlib.Omega.{arith}
use cuts.Base.Tests.{ltb, ◌==◌, if◌then◌else◌}
use cuts.Base.Run.{Exec, ok, undefined}

pub record Bytes : Type 0 where
  pub len : ℕ
  pub at : ℕ → ℕ

-- `calloc(1, n)`
abbrev pub zeros : ℕ → Bytes
zeros n = record { len = n; at = λ _. 0 }

abbrev pub put : Bytes → ℕ → ℕ → Bytes
put b i v = record b { at = λ j. if i == j then v else b.at j }

abbrev pub load : Bytes → ℕ → Exec ℕ
load b i = if ltb i b.len then ok (b.at i) else undefined

abbrev pub store : Bytes → ℕ → ℕ → Exec Bytes
store b i v = if ltb i b.len then ok (put b i v) else undefined

-- Each byte is below 256.
abbrev pub IsBytes : Bytes → Type 0
IsBytes b = (i : ℕ) → b.at i < 256

pub load-ok : (b : Bytes) (i : ℕ) → i < b.len → load b i ≡ ok (b.at i)
load-ok b i h = ground arith

pub store-ok : (b : Bytes) (i v : ℕ) → i < b.len → store b i v ≡ ok (put b i v)
store-ok b i v h = ground arith

pub put-IsBytes : (b : Bytes) (i v : ℕ) → v < 256 → IsBytes b → IsBytes (put b i v)
put-IsBytes b i v hv h j = ground (arith, h j)
