-- ===== src/Util/Bitmap/Bits.antt =====
-- The bit operations on one byte, by evaluation over every byte and every bit.
use Prim.Native.Nat.{bit_and}
use cuts.Base.{
  ℕ, ◌<◌, ◌≡◌, refl, Bool, true, false, ◌&&◌, ◌||◌, not, arith, ltb, ◌==◌, all_below, all_below_at,
}
use cuts.Util.Bitmap.{test_bit, set_bit, clear_bit}

beq : Bool → Bool → Bool
beq true b = b
beq false b = not b

beq-eq : (a b : Bool) → beq a b ≡ true → a ≡ b
unfolding beq
beq-eq a b h = ground arith

-- A test of a byte and two bits, at every byte and pair of bits.
abbrev Table : Type 0
Table = ℕ → ℕ → ℕ → Bool

holds : Table → Bool
unfolding all_below
holds t = all_below 256 λ b. all_below 8 λ i. all_below 8 λ j. t b i j

holds_at : (t : Table) → holds t ≡ true → (b i j : ℕ) → b < 256 → i < 8 → j < 8 → t b i j ≡ true
unfolding holds
holds_at t h b i j hb hi hj = all_below_at (t b i) 8 j hj (
    all_below_at (λ i. all_below 8 (t b i)) 8 i hi
      (all_below_at (λ b. all_below 8 λ i. all_below 8 (t b i)) 256 b hb h))

set_table : holds (λ b i j. beq (test_bit (set_bit b i) j) ((i == j) || test_bit b j)) ≡ true
unfolding holds beq test_bit set_bit
set_table = refl

clear_table :
    holds (λ b i j. beq (test_bit (clear_bit b i) j) (not (i == j) && test_bit b j)) ≡ true
unfolding holds beq test_bit clear_bit
clear_table = refl

range_table : holds (λ b i j. ltb (set_bit b i) 256 && ltb (clear_bit b i) 256) ≡ true
unfolding holds set_bit clear_bit
range_table = refl

full_table : holds (λ b i j. not (bit_and b 0xff == 0xff) || test_bit b i) ≡ true
unfolding holds test_bit
full_table = refl

empty_table : holds (λ b i j. not (b == 0) || not (test_bit b i)) ≡ true
unfolding holds test_bit
empty_table = refl

pub test_bit_zero : (i : ℕ) → i < 8 → test_bit 0 i ≡ false
test_bit_zero i hi = ground (arith, holds_at _ empty_table 0 i 0 (omega arith) hi (omega arith))

module _ (b i j : ℕ) (hb : b < 256) (hi : i < 8) (hj : j < 8) where
  pub test_bit-set_bit : test_bit (set_bit b i) j ≡ ((i == j) || test_bit b j)
  test_bit-set_bit = beq-eq _ _ (holds_at _ set_table b i j hb hi hj)

  pub test_bit-clear_bit : test_bit (clear_bit b i) j ≡ (not (i == j) && test_bit b j)
  test_bit-clear_bit = beq-eq _ _ (holds_at _ clear_table b i j hb hi hj)

module _ (b i : ℕ) (hb : b < 256) (hi : i < 8) where
  bounds : (ltb (set_bit b i) 256 && ltb (clear_bit b i) 256) ≡ true
  bounds = holds_at _ range_table b i 0 hb hi (omega arith)

  pub set_bit-lt : set_bit b i < 256
  set_bit-lt = ground (arith, bounds)

  pub clear_bit-lt : clear_bit b i < 256
  clear_bit-lt = ground (arith, bounds)

  pub test_bit_full : bit_and b 0xff ≡ 0xff → test_bit b i ≡ true
  test_bit_full h = ground (arith, holds_at _ full_table b i 0 hb hi (omega arith))
