-- ===== src/Util/Bitmap/Free.antt =====
-- `c_bitmap_get_free` finds the least number that is not in the set, and what it says of a full set.
use Prim.Native.Nat.{bit_and}
use cuts.Base.{
  ℕ, zero, suc, ◌+◌, ◌*◌, ◌/◌, ◌%◌, ◌^◌, ◌≤◌, ◌<◌, ◌≡◌, refl, sym, subst, ◌⊎◌, inl, inr, Bool, true,
  false, Option, none, some, arith, ltb, ◌==◌, ltb→lt, ==_iff, Bool-cases, Exec, ok,
}
use cuts.Base.Bytes.{Bytes, IsBytes, load-ok}
use cuts.Util.Bitmap.{Bitmap, test_bit, free_bit, scan, get_free}
use cuts.Util.Bitmap.Bits.{test_bit_full}
use cuts.Util.Bitmap.Laws.{IsBitmap}

abbrev bit : Bytes → ℕ → Bool
bit b n = test_bit (b.at (n / 8)) (n % 8)

-- Every number below `k` is in the set.
abbrev pub FullBelow : Bytes → ℕ → Type 0
FullBelow b k = (m : ℕ) → m < k → test_bit (b.at (m / 8)) (m % 8) ≡ true

-- `r` is the least number below `bound` that is not in the set, or the set is full and `r` is 0.
abbrev pub LeastFree : Bytes → ℕ → ℕ → Type 0
LeastFree b bound r =
    ((test_bit (b.at (r / 8)) (r % 8) ≡ false) × (r < bound) × FullBelow b r)
    ⊎ ((r ≡ 0) × FullBelow b bound)

-- The bits of one byte from `i` on.
abbrev Found : ℕ → ℕ → ℕ → Option ℕ → Type 0
Found byte i end none = (j : ℕ) → i ≤ j → j < end → test_bit byte j ≡ true
Found byte i end (some k) =
    (i ≤ k)
    × (k < end)
    × (test_bit byte k ≡ false)
    × ((j : ℕ) → i ≤ j → j < k → test_bit byte j ≡ true)

free_bit-Found : (rounds byte i : ℕ) → Found byte i (i + rounds) (free_bit rounds byte i)
unfolding free_bit
free_bit-Found zero byte i = λ j lo hi. absurd (omega arith)
free_bit-Found (suc rounds) byte i = elim (Bool-cases (test_bit byte i)) [
  | inl t ↦ rw t (later (free_bit rounds byte (i + 1)) t (free_bit-Found rounds byte (i + 1)))
  | inr t ↦ rw t (omega arith, omega arith, t, λ j lo hi. absurd (omega arith))
]
  where
    later :
        (o : Option ℕ)
        → test_bit byte i ≡ true
        → Found byte (i + 1) (i + 1 + rounds) o
        → Found byte i (i + suc rounds) o
    later none t h = λ j lo hi. elim (Bool-cases (i == j)) [
      | inl e ↦ subst (λ k. test_bit byte k ≡ true) ((==_iff i j).0 e) t
      | inr e ↦ h j (ground arith) (ground arith)
    ]
    later (some k) t (a, b, c, h) = (
      omega arith,
      omega arith,
      c,
      λ j lo hi. elim (Bool-cases (i == j)) [
        | inl e ↦ subst (λ k. test_bit byte k ≡ true) ((==_iff i j).0 e) t
        | inr e ↦ h j (ground arith) hi
      ],
    )

-- A byte whose bits are all set carries a full prefix over to the next byte.
FullBelow-byte :
    (b : Bytes) (i : ℕ)
    → FullBelow b (i * 8)
    → ((j : ℕ) → j < 8 → test_bit (b.at i) j ≡ true)
    → FullBelow b ((i + 1) * 8)
FullBelow-byte b i full byte m h = elim (Bool-cases (ltb m (i * 8))) [
  | inl t ↦ full m (ltb→lt m (i * 8) t)
  | inr t ↦
      let e : m / 8 ≡ i = ground (arith, t) in
      subst (λ k. test_bit (b.at k) (m % 8) ≡ true) (sym e) (byte (m % 8) (omega arith))
]

FullBelow-bits :
    (b : Bytes) (i k : ℕ)
    → k < 8
    → FullBelow b (i * 8)
    → ((j : ℕ) → 0 ≤ j → j < k → test_bit (b.at i) j ≡ true)
    → FullBelow b (i * 8 + k)
FullBelow-bits b i k hk full bits m h = elim (Bool-cases (ltb m (i * 8))) [
  | inl t ↦ full m (ltb→lt m (i * 8) t)
  | inr t ↦
      let e : m / 8 ≡ i = ground (arith, t) in
      subst (λ k. test_bit (b.at k) (m % 8) ≡ true) (sym e)
        (bits (m % 8) (omega arith) (ground (arith, t)))
]

scan-LeastFree :
    (rounds i : ℕ) (b : Bytes)
    → IsBytes b
    → i + rounds ≤ b.len
    → FullBelow b (i * 8)
    → (r : ℕ) × (scan rounds b i ≡ ok r) × LeastFree b ((i + rounds) * 8) r
unfolding scan
scan-LeastFree zero i b v h full = (0, refl, inr (refl, λ m lt. full m (omega arith)))
scan-LeastFree (suc rounds) i b v h full =
    let next = λ (byte : (j : ℕ) → j < 8 → test_bit (b.at i) j ≡ true).
      widen (scan-LeastFree rounds (i + 1) b v (omega arith) (FullBelow-byte b i full byte)) in
    rw (load-ok b i (omega arith)) (elim (Bool-cases (bit_and (b.at i) 0xff == 0xff)) [
      | inl t ↦ rw t (next (λ j hj. test_bit_full (b.at i) j (v i) hj ((==_iff _ _).0 t)))
      | inr t ↦ rw t (found (free_bit 8 (b.at i) 0) (free_bit-Found 8 (b.at i) 0) next)
    ])
  where
    Goal : Exec ℕ → Type 0
    Goal x = (r : ℕ) × (x ≡ ok r) × LeastFree b ((i + suc rounds) * 8) r

    widen : {x : Exec ℕ} → ((r : ℕ) × (x ≡ ok r) × LeastFree b ((i + 1 + rounds) * 8) r) → Goal x
    widen h = let e : i + 1 + rounds ≡ i + suc rounds = omega arith in rw e at h

    found :
        (o : Option ℕ)
        → Found (b.at i) 0 8 o
        → (((j : ℕ) → j < 8 → test_bit (b.at i) j ≡ true) → Goal (scan rounds b (i + 1)))
        → Goal (elim o [ none ↦ scan rounds b (i + 1) | some k ↦ ok (i * 8 + k) ])
    found none h next = next (λ j. h j (omega arith))
    found (some k) (a, c, t, below) next =
        let q : (i * 8 + k) / 8 ≡ i = omega arith in
        let m : (i * 8 + k) % 8 ≡ k = omega arith in
        (i * 8 + k, refl, inl (rw (q, m) t, omega arith, FullBelow-bits b i k c full below))

LeastFree-bound : (b : Bytes) (bound r : ℕ) → LeastFree b bound r → r ≤ bound
LeastFree-bound b bound r (inl (_, less, _)) = omega arith
LeastFree-bound b bound r (inr (none_left, _)) = omega arith

-- `c_bitmap_get_free` of a set of fewer than 2 ^ 32 bits always returns: the least number whose bit
-- is clear, every lower bit being set, or 0 if no bit is clear.
pub get_free-LeastFree :
    (bm : Bitmap)
    → IsBitmap bm
    → bm.size < 2 ^ 32
    → (r : ℕ) × (get_free bm ≡ ok r) × LeastFree bm.bytes (bm.size / 8 * 8) r
unfolding get_free
get_free-LeastFree bm v small =
    let e : 0 + bm.size / 8 ≡ bm.size / 8 = omega arith in
    let (r, run, least) = rw e at (
      scan-LeastFree (bm.size / 8) 0 bm.bytes v.bytes (omega (arith, v.len))
        (λ m h. absurd (omega arith))) in
    let bound = LeastFree-bound bm.bytes (bm.size / 8 * 8) r least in
    let word : r % 2 ^ 32 ≡ r = omega arith in (r, rw (run, word) refl, least)
