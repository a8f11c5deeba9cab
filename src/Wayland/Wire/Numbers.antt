-- ===== src/Wayland/Wire/Numbers.antt =====
-- Numbers in the buffer: what is written is what is read.
use cuts.Base.{
  ℕ, ◌+◌, ◌*◌, ◌/◌, ◌%◌, ◌^◌, ◌≤◌, ◌<◌, ◌≡◌, sym, ap, ◌∙◌, List, [], ◌∷◌, arith, ok, ok_injective,
  ℤ, pos, negsuc,
}
use cuts.Base.Bytes.{Bytes, put, load-ok, store-ok}
use cuts.Wayland.Wire.{
  read_u32, read_i32, read_u16, write_u32, write_i32, write_u16, signed32, pattern32, copy_in,
}
use cuts.Wayland.Wire.Region.{Holds, Wrote, copy_in_lem}

-- The bytes of a 32-bit number, lowest first.
abbrev pub le32 : ℕ → List ℕ
le32 v = v % 2 ^ 8 ∷ v / 2 ^ 8 % 2 ^ 8 ∷ v / 2 ^ 16 % 2 ^ 8 ∷ v / 2 ^ 24 % 2 ^ 8 ∷ []

write_u32-copy_in :
    (b b' : Bytes) (offset v : ℕ)
    → offset + 4 ≤ b.len
    → copy_in b offset (le32 v) ≡ ok b'
    → write_u32 b offset v ≡ ok (b', offset + 4)
unfolding write_u32 copy_in
write_u32-copy_in b b' offset v h run =
    let e2 : offset + 1 + 1 ≡ offset + 2 = omega arith in
    let e3 : offset + 2 + 1 ≡ offset + 3 = omega arith in
    let b1 = put b offset (v % 2 ^ 8) in
    let b2 = put b1 (offset + 1) (v / 2 ^ 8 % 2 ^ 8) in
    let b3 = put b2 (offset + 2) (v / 2 ^ 16 % 2 ^ 8) in
    let s0 = store-ok b offset (v % 2 ^ 8) (omega arith) in
    let s1 = store-ok b1 (offset + 1) (v / 2 ^ 8 % 2 ^ 8) (omega arith) in
    let s2 = store-ok b2 (offset + 2) (v / 2 ^ 16 % 2 ^ 8) (omega arith) in
    let s3 = store-ok b3 (offset + 3) (v / 2 ^ 24 % 2 ^ 8) (omega arith) in
    let b4 = put b3 (offset + 3) (v / 2 ^ 24 % 2 ^ 8) in
    let q : copy_in b offset (le32 v) ≡ ok b4 = rw (s0, s1, e2, s2, e3, s3) in
    rw (s0, s1, s2, s3) (ap (λ (x : Bytes). ok (x, offset + 4)) (ok_injective q run))

-- A 32-bit number is written as its four bytes, and nothing else changes.
pub write_u32_lem :
    (b : Bytes) (offset v : ℕ)
    → offset + 4 ≤ b.len
    → (b' : Bytes) × (write_u32 b offset v ≡ ok (b', offset + 4)) × Wrote b offset (le32 v) b'
write_u32_lem b offset v h =
    let (b', run, w) = copy_in_lem b offset (le32 v) (omega arith) in
    (b', write_u32-copy_in b b' offset v h run, w)

pub read_u32_lem :
    (b : Bytes) (offset v : ℕ)
    → v < 2 ^ 32
    → Holds b offset (le32 v)
    → read_u32 b offset ≡ ok (v, offset + 4)
unfolding read_u32
read_u32_lem b offset v lt h =
    let e2 : offset + 1 + 1 ≡ offset + 2 = omega arith in
    let e3 : offset + 2 + 1 ≡ offset + 3 = omega arith in
    let x2 = ap b.at (sym e2) ∙ h.2.2.0 in
    let x3 = ap b.at (sym e3 ∙ ap (λ n. n + 1) (sym e2)) ∙ h.2.2.2.0 in
    let sum : v % 2 ^ 8
          + v / 2 ^ 8 % 2 ^ 8 * 2 ^ 8
          + v / 2 ^ 16 % 2 ^ 8 * 2 ^ 16
          + v / 2 ^ 24 % 2 ^ 8 * 2 ^ 24
        ≡ v =
      omega arith in
    rw (
      load-ok b offset h.1,
      load-ok b (offset + 1) h.2.1,
      load-ok b (offset + 2) (omega (arith, h.2.2.1)),
      load-ok b (offset + 3) (omega (arith, h.2.2.2.1)),
      h.0,
      h.2.0,
      x2,
      x3,
      sum,
    )

-- A 32-bit number is read back as it was written, at the same new offset.
pub read_u32-write_u32 :
    (b : Bytes) (offset v : ℕ)
    → offset + 4 ≤ b.len
    → v < 2 ^ 32
    → (b' : Bytes) × (write_u32 b offset v ≡ ok (b', offset + 4))
      × (read_u32 b' offset ≡ ok (v, offset + 4))
read_u32-write_u32 b offset v h lt =
    let (b', run, w) = write_u32_lem b offset v h in (b', run, read_u32_lem b' offset v lt w.holds)

-- An `int32_t`.
abbrev pub IsInt32 : ℤ → Type 0
IsInt32 (pos n) = n < 2 ^ 31
IsInt32 (negsuc n) = n < 2 ^ 31

pub signed32-pattern32 : (z : ℤ) → IsInt32 z → signed32 (pattern32 z) ≡ z
signed32-pattern32 (pos n) h = ground arith
signed32-pattern32 (negsuc n) h = ground arith

pub pattern32-lt : (z : ℤ) → pattern32 z < 2 ^ 32
pattern32-lt (pos n) = omega arith
pattern32-lt (negsuc n) = omega arith

pub write_i32_lem :
    (b : Bytes) (offset : ℕ) (z : ℤ)
    → offset + 4 ≤ b.len
    → (b' : Bytes) × (write_i32 b offset z ≡ ok (b', offset + 4))
      × Wrote b offset (le32 (pattern32 z)) b'
unfolding write_i32
write_i32_lem b offset z h = write_u32_lem b offset (pattern32 z) h

pub read_i32_lem :
    (b : Bytes) (offset : ℕ) (z : ℤ)
    → IsInt32 z
    → Holds b offset (le32 (pattern32 z))
    → read_i32 b offset ≡ ok (z, offset + 4)
unfolding read_i32
read_i32_lem b offset z i h =
    rw (read_u32_lem b offset (pattern32 z) (pattern32-lt z) h, signed32-pattern32 z i)

abbrev pub le16 : ℕ → List ℕ
le16 v = v % 2 ^ 8 ∷ v / 2 ^ 8 % 2 ^ 8 ∷ []

-- A 16-bit number is written as its two bytes, and nothing else changes.
pub write_u16_lem :
    (b : Bytes) (offset v : ℕ)
    → offset + 2 ≤ b.len
    → (b' : Bytes) × (write_u16 b offset v ≡ ok (b', offset + 2)) × Wrote b offset (le16 v) b'
unfolding write_u16
write_u16_lem b offset v h =
    let (b', run, w) = copy_in_lem b offset (le16 v) (omega arith) in
    let b1 = put b offset (v % 2 ^ 8) in
    let b2 = put b1 (offset + 1) (v / 2 ^ 8 % 2 ^ 8) in
    let s0 = store-ok b offset (v % 2 ^ 8) (omega arith) in
    let s1 = store-ok b1 (offset + 1) (v / 2 ^ 8 % 2 ^ 8) (omega arith) in
    let q : copy_in b offset (le16 v) ≡ ok b2 = unfold copy_in in rw (s0, s1) in
    (b', rw (s0, s1) (ap (λ (x : Bytes). ok (x, offset + 2)) (ok_injective q run)), w)

pub read_u16_lem :
    (b : Bytes) (offset v : ℕ)
    → v < 2 ^ 16
    → Holds b offset (le16 v)
    → read_u16 b offset ≡ ok (v, offset + 2)
unfolding read_u16
read_u16_lem b offset v lt h =
    let sum : v % 2 ^ 8 + v / 2 ^ 8 % 2 ^ 8 * 2 ^ 8 ≡ v = omega arith in
    rw (load-ok b offset h.1, load-ok b (offset + 1) h.2.1, h.0, h.2.0, sum)
