-- ===== src/Base/Int.antt =====
-- The arithmetic of `int`: the operations on integers, and the overflow that C leaves undefined.
use cuts.Base.{
  ℕ, ◌+◌, ◌-◌, ◌*◌, ◌/◌, ◌^◌, ◌<◌, ◌≡◌, refl, Bool, true, arith, ltb, leb, if◌then◌else◌, Exec, ok,
  undefined, ℤ, pos, negsuc,
}

abbrev pub pos_part : ℤ → ℕ
pos_part (pos n) = n
pos_part (negsuc n) = 0

abbrev pub neg_part : ℤ → ℕ
neg_part (pos n) = 0
neg_part (negsuc n) = n + 1

-- `a - b` of two naturals
abbrev pub sub_ℕ : ℕ → ℕ → ℤ
sub_ℕ a b = if leb b a then pos (a - b) else negsuc (b - a - 1)

infixl 20 ◌+ℤ◌ ◌-ℤ◌
infixl 30 ◌*ℤ◌
abbrev pub ◌+ℤ◌ : ℤ → ℤ → ℤ
a +ℤ b = sub_ℕ (pos_part a + pos_part b) (neg_part a + neg_part b)

abbrev pub ◌-ℤ◌ : ℤ → ℤ → ℤ
a -ℤ b = sub_ℕ (pos_part a + neg_part b) (neg_part a + pos_part b)

abbrev pub ◌*ℤ◌ : ℤ → ℤ → ℤ
a *ℤ b =
    sub_ℕ (pos_part a * pos_part b + neg_part a * neg_part b)
      (pos_part a * neg_part b + neg_part a * pos_part b)

abbrev pub ltb_ℤ : ℤ → ℤ → Bool
ltb_ℤ a b = ltb (pos_part a + neg_part b) (pos_part b + neg_part a)

-- `a / 2`, which rounds to 0
abbrev pub half : ℤ → ℤ
half a = sub_ℕ (pos_part a / 2) (neg_part a / 2)

abbrev pub is_int : ℤ → Bool
is_int (pos n) = ltb n (2 ^ 31)
is_int (negsuc n) = ltb n (2 ^ 31)

-- A result that must fit an `int`
abbrev pub int : ℤ → Exec ℤ
int a = if is_int a then ok a else undefined

pub int_fits : (n : ℕ) → n < 2 ^ 31 → int (pos n) ≡ ok (pos n)
int_fits n small = ground arith

pub sub_fits : (a b : ℕ) → a < 2 ^ 31 → b < 2 ^ 31 → int (sub_ℕ a b) ≡ ok (sub_ℕ a b)
sub_fits a b small small' = ground arith

pub int_lem : (a : ℤ) → is_int a ≡ true → int a ≡ ok a
int_lem a e = rw e refl
