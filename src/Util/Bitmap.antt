-- ===== src/Util/Bitmap.antt =====
-- util/bitmap.c: a set of numbers as the bits of a block of bytes.
pub mod Bits
pub mod Laws
pub mod Free
use Prim.Native.Nat.{bit_and, bit_or}
use cuts.Base.{
  ℕ, zero, suc, ◌+◌, ◌-◌, ◌*◌, ◌/◌, ◌%◌, ◌^◌, Bool, not, Option, none, some, ltb, ◌==◌,
  if◌then◌else◌, Exec, ok, ◌>>=◌, ◌>>◌, ℤ, pos, negsuc,
}
use cuts.Base.Bytes.{Bytes, zeros, load, store}

-- `struct c_bitmap`
pub record Bitmap : Type 0 where
  pub bytes : Bytes
  pub size : ℕ

abbrev pub byte_index : ℕ → ℕ
byte_index n = n / 8

abbrev pub bit_index : ℕ → ℕ
bit_index n = n % 8

-- `byte & (1 << i)`, as a test
unfoldable pub test_bit : ℕ → ℕ → Bool
test_bit byte i = not (bit_and byte (2 ^ i) == 0)

-- `byte | (1 << i)`
unfoldable pub set_bit : ℕ → ℕ → ℕ
set_bit byte i = bit_or byte (2 ^ i)

-- `byte & ~(1 << i)`, whose mask has the other seven bits of a byte
unfoldable pub clear_bit : ℕ → ℕ → ℕ
clear_bit byte i = bit_and byte (255 - 2 ^ i)

unfoldable pub new : ℕ → Bitmap
new size = record { bytes = zeros (size / 8); size = size }

unfoldable pub set : Bitmap → ℕ → Exec (ℤ × Bitmap)
set bm n = if ltb bm.size n then ok (negsuc 0, bm) else do
  byte ← load bm.bytes (byte_index n)
  bytes' ← store bm.bytes (byte_index n) (set_bit byte (bit_index n))
  ok (pos 0, record bm { bytes = bytes' })

unfoldable pub get : Bitmap → ℕ → Exec ℤ
get bm n = if ltb bm.size n then ok (negsuc 0) else do
  byte ← load bm.bytes (byte_index n)
  ok (if test_bit byte (bit_index n) then pos 1 else pos 0)

unfoldable pub unset : Bitmap → ℕ → Exec (ℤ × Bitmap)
unset bm n = if ltb bm.size n then ok (negsuc 0, bm) else do
  byte ← load bm.bytes (byte_index n)
  bytes' ← store bm.bytes (byte_index n) (clear_bit byte (bit_index n))
  ok (pos 0, record bm { bytes = bytes' })

-- The inner loop of `c_bitmap_get_free`, with the rounds left: the first clear bit from `bit_i` on.
unfoldable pub free_bit : ℕ → ℕ → ℕ → Option ℕ
free_bit zero byte bit_i = none
free_bit (suc rounds) byte bit_i =
    let rest = free_bit rounds byte (bit_i + 1) in if test_bit byte bit_i then rest else some bit_i

-- The outer loop, with the rounds left, before the result becomes an `uint32_t`.
unfoldable pub scan : ℕ → Bytes → ℕ → Exec ℕ
unfolding free_bit
scan zero bytes byte_i = ok 0
scan (suc rounds) bytes byte_i = do
  byte ← load bytes byte_i
  let rest = scan rounds bytes (byte_i + 1)
  if bit_and byte 0xff == 0xff
      then rest
      else elim (free_bit 8 byte 0) [ none ↦ rest | some bit_i ↦ ok (byte_i * 8 + bit_i) ]

unfoldable pub get_free : Bitmap → Exec ℕ
unfolding scan
get_free bm = do r ← scan (bm.size / 8) bm.bytes 0; ok (r % 2 ^ 32)
