-- ===== src/Wayland/Wire.antt =====
-- wayland/util.c: the arguments of messages in a buffer, little-endian, as the hosts that the
-- program runs on store them. An access past the end of the buffer is undefined.
pub mod Region
pub mod Numbers
pub mod Strings
pub mod Rounds
use cuts.Base.{
  ℕ, zero, suc, ◌+◌, ◌-◌, ◌*◌, ◌/◌, ◌%◌, ◌^◌, List, [], ◌∷◌, ◌++◌, ltb, ◌==◌, if◌then◌else◌, Exec,
  ok, ◌>>=◌, ◌>>◌, assert, ℤ, pos, negsuc,
}
use cuts.Base.Bytes.{Bytes, load, store}
use cuts.Base.Lists.{length}

-- `PADDED4(n)`, on a `uint32_t`: `(n + 3) & ~3`
unfoldable pub padded4 : ℕ → ℕ
padded4 n = (n + 3) % 2 ^ 32 / 4 * 4

-- `*(uint32_t *)(buffer + *offset)`, with the new offset
unfoldable pub read_u32 : Bytes → ℕ → Exec (ℕ × ℕ)
read_u32 b offset = do
  b0 ← load b offset
  b1 ← load b (offset + 1)
  b2 ← load b (offset + 2)
  b3 ← load b (offset + 3)
  ok (b0 + b1 * 2 ^ 8 + b2 * 2 ^ 16 + b3 * 2 ^ 24, offset + 4)

unfoldable pub read_u16 : Bytes → ℕ → Exec (ℕ × ℕ)
read_u16 b offset = do
  b0 ← load b offset
  b1 ← load b (offset + 1)
  ok (b0 + b1 * 2 ^ 8, offset + 2)

-- The number that 32 bits stand for as an `int32_t`, and back.
abbrev pub signed32 : ℕ → ℤ
signed32 w = if ltb w (2 ^ 31) then pos w else negsuc (2 ^ 32 - w - 1)

abbrev pub pattern32 : ℤ → ℕ
pattern32 (pos n) = n % 2 ^ 32
pattern32 (negsuc n) = 2 ^ 32 - n % 2 ^ 32 - 1

unfoldable pub read_i32 : Bytes → ℕ → Exec (ℤ × ℕ)
unfolding read_u32
read_i32 b offset = do (w, offset') ← read_u32 b offset; ok (signed32 w, offset')

unfoldable pub write_u32 : Bytes → ℕ → ℕ → Exec (Bytes × ℕ)
write_u32 b offset val = do
  b1 ← store b offset (val % 2 ^ 8)
  b2 ← store b1 (offset + 1) (val / 2 ^ 8 % 2 ^ 8)
  b3 ← store b2 (offset + 2) (val / 2 ^ 16 % 2 ^ 8)
  b4 ← store b3 (offset + 3) (val / 2 ^ 24 % 2 ^ 8)
  ok (b4, offset + 4)

unfoldable pub write_i32 : Bytes → ℕ → ℤ → Exec (Bytes × ℕ)
unfolding write_u32
write_i32 b offset val = write_u32 b offset (pattern32 val)

unfoldable pub write_u16 : Bytes → ℕ → ℕ → Exec (Bytes × ℕ)
write_u16 b offset val = do
  b1 ← store b offset (val % 2 ^ 8)
  b2 ← store b1 (offset + 1) (val / 2 ^ 8 % 2 ^ 8)
  ok (b2, offset + 2)

-- `memcpy(out, buffer + offset, n)`: the bytes copied
unfoldable pub copy_out : Bytes → ℕ → ℕ → Exec (List ℕ)
copy_out b offset zero = ok []
copy_out b offset (suc n) = do v ← load b offset; rest ← copy_out b (offset + 1) n; ok (v ∷ rest)

-- `memcpy(buffer + offset, bytes, n)`
unfoldable pub copy_in : Bytes → ℕ → List ℕ → Exec Bytes
copy_in b offset [] = ok b
copy_in b offset (v ∷ vs) = do b' ← store b offset v; copy_in b' (offset + 1) vs

-- `memset(buffer + offset, 0, n)`
unfoldable pub clear : Bytes → ℕ → ℕ → Exec Bytes
clear b offset zero = ok b
clear b offset (suc n) = do b' ← store b offset 0; clear b' (offset + 1) n

-- The bytes of a C string in front of the byte 0 that ends it.
abbrev pub terminated : List ℕ → List ℕ
terminated string = string ++ 0 ∷ []

-- The bytes that land in `out`, whose size is `out_size`. A string of size 0 leaves `out` alone, since
-- the assignment `out = NULL` is to the parameter: what `out` held before is not followed, and no
-- byte is said to land there.
unfoldable pub read_string : Bytes → ℕ → ℕ → Exec (List ℕ × ℕ)
unfolding read_u32 copy_out padded4
read_string b offset out_size = do
  (string_size, offset') ← read_u32 b offset
  assert (ltb string_size out_size)
  if string_size == 0
      then ok ([], offset')
      else (do out ← copy_out b offset' string_size; ok (out, offset' + padded4 string_size))

-- `snprintf` writes the string and its end, which fit the padded size.
unfoldable pub write_string : Bytes → ℕ → List ℕ → Exec (Bytes × ℕ)
unfolding write_u32 clear copy_in padded4
write_string b offset string = do
  let string_size = (length string + 1) % 2 ^ 32
  let padded_size = padded4 string_size
  (b1, offset') ← write_u32 b offset string_size
  b2 ← clear b1 offset' padded_size
  b3 ← copy_in b2 offset' (terminated string)
  ok (b3, offset' + (if padded_size == 0 then 4 else padded_size))

-- The size stands in the buffer; `size` only bounds it.
unfoldable pub read_array : Bytes → ℕ → ℕ → Exec (List ℕ × ℕ)
unfolding read_u32 copy_out padded4
read_array b offset size = do
  (array_size, offset') ← read_u32 b offset
  assert (ltb array_size size)
  out ← copy_out b offset' array_size
  ok (out, offset' + padded4 array_size)

unfoldable pub write_array : Bytes → ℕ → List ℕ → Exec (Bytes × ℕ)
unfolding write_u32 clear copy_in padded4
write_array b offset array = do
  let array_size = length array
  let padded_size = padded4 array_size
  (b1, offset') ← write_u32 b offset array_size
  if ltb 0 array_size
      then (do
        b2 ← clear b1 offset' padded_size
        b3 ← copy_in b2 offset' array
        ok (b3, offset' + padded_size))
      else ok (b1, offset' + padded_size)
