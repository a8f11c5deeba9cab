-- ===== src/Util/Bitmap/Laws.antt =====
-- A bitmap as a set of numbers: what `set`, `unset` and `get_free` do to its members.
use cuts.Base.{
  ℕ, ◌*◌, ◌/◌, ◌%◌, ◌<◌, ◌≡◌, refl, Bool, false, ◌&&◌, ◌||◌, not, arith, ◌==◌, if◌then◌else◌, ok,
  undefined, pos,
}
use cuts.Base.Bytes.{IsBytes, put, put-IsBytes}
use cuts.Util.Bitmap.{Bitmap, test_bit, set_bit, clear_bit, new, set, get, unset}
use cuts.Util.Bitmap.Bits.{
  test_bit-set_bit, test_bit-clear_bit, set_bit-lt, clear_bit-lt, test_bit_zero,
}

-- The block has `size / 8` bytes, and each is a byte.
pub record IsBitmap (bm : Bitmap) : Type 0 where
  pub len : bm.bytes.len ≡ bm.size / 8
  pub bytes : IsBytes bm.bytes

-- The numbers that have a bit.
abbrev pub InRange : Bitmap → ℕ → Type 0
InRange bm n = n < bm.size / 8 * 8

-- Whether `n` is in the set.
abbrev pub has : Bitmap → ℕ → Bool
has bm n = test_bit (bm.bytes.at (n / 8)) (n % 8)

pub new-IsBitmap : (size : ℕ) → IsBitmap (new size)
unfolding new
new-IsBitmap size = record { len = refl; bytes = λ i. omega arith }

pub has-new : (size n : ℕ) → has (new size) n ≡ false
unfolding new
has-new size n = test_bit_zero (n % 8) (omega arith)

-- What `set` and `unset` leave behind.
abbrev pub after_set : Bitmap → ℕ → Bitmap
after_set bm n = record bm { bytes = put bm.bytes (n / 8) (set_bit (bm.bytes.at (n / 8)) (n % 8)) }

abbrev pub after_unset : Bitmap → ℕ → Bitmap
after_unset bm n = record bm {
  bytes = put bm.bytes (n / 8) (clear_bit (bm.bytes.at (n / 8)) (n % 8));
}

module _ {bm : Bitmap} (v : IsBitmap bm) (n : ℕ) (r : InRange bm n) where
  pub get_lem : get bm n ≡ ok (if has bm n then pos 1 else pos 0)
  unfolding get
  get_lem = ground (arith, v.len)

  pub set_lem : set bm n ≡ ok (pos 0, after_set bm n)
  unfolding set
  set_lem = ground (arith, v.len)

  pub unset_lem : unset bm n ≡ ok (pos 0, after_unset bm n)
  unfolding unset
  unset_lem = ground (arith, v.len)

  pub after_set-IsBitmap : IsBitmap (after_set bm n)
  after_set-IsBitmap = record {
    len = v.len;
    bytes = put-IsBytes bm.bytes _ _ (set_bit-lt _ _ (v.bytes (n / 8)) (omega arith)) v.bytes;
  }

  pub after_unset-IsBitmap : IsBitmap (after_unset bm n)
  after_unset-IsBitmap = record {
    len = v.len;
    bytes = put-IsBytes bm.bytes _ _ (clear_bit-lt _ _ (v.bytes (n / 8)) (omega arith)) v.bytes;
  }

  pub has-after_set : (m : ℕ) → has (after_set bm n) m ≡ ((n == m) || has bm m)
  has-after_set m = ground (
    arith,
    test_bit-set_bit (bm.bytes.at (n / 8)) (n % 8) (m % 8) (v.bytes (n / 8)) (omega arith)
        (omega arith),
  )

  pub has-after_unset : (m : ℕ) → has (after_unset bm n) m ≡ (not (n == m) && has bm m)
  has-after_unset m = ground (
    arith,
    test_bit-clear_bit (bm.bytes.at (n / 8)) (n % 8) (m % 8) (v.bytes (n / 8)) (omega arith)
        (omega arith),
  )

module _ {bm : Bitmap} (v : IsBitmap bm) (n : ℕ) (r : InRange bm n) where
  -- Setting a bit in range returns 0, keeps the bitmap well formed, and adds just that number: a
  -- later `get` of any number in range sees it and the old members.
  pub get-set :
      (m : ℕ)
      → InRange bm m
      → (bm' : Bitmap) × (set bm n ≡ ok (pos 0, bm'))
        × IsBitmap bm'
        × (get bm' m ≡ ok (if (n == m) || has bm m then pos 1 else pos 0))
  get-set m h =
      let w = after_set-IsBitmap v n r in
      (after_set bm n, set_lem v n r, w, rw (get_lem w m h, has-after_set v n r m))

  -- Clearing a bit in range returns 0, keeps the bitmap well formed, and removes just that number.
  pub get-unset :
      (m : ℕ)
      → InRange bm m
      → (bm' : Bitmap) × (unset bm n ≡ ok (pos 0, bm'))
        × IsBitmap bm'
        × (get bm' m ≡ ok (if not (n == m) && has bm m then pos 1 else pos 0))
  get-unset m h =
      let w = after_unset-IsBitmap v n r in
      (after_unset bm n, unset_lem v n r, w, rw (get_lem w m h, has-after_unset v n r m))

-- The guard `n > bm->size` lets `n = size` through: the access lies one byte past the block.
pub set_past_end :
    (bm : Bitmap)
    → IsBitmap bm
    → bm.size % 8 ≡ 0
    → (set bm bm.size ≡ undefined) × (get bm bm.size ≡ undefined) × (unset bm bm.size ≡ undefined)
unfolding set get unset
set_past_end bm v e = (ground (arith, v.len), ground (arith, v.len), ground (arith, v.len))
