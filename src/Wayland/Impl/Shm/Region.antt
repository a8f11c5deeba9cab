-- ===== src/Wayland/Impl/Shm/Region.antt =====
-- The tests of `wl_shm_pool_create_buffer`, against the bytes of the pool.
use cuts.Base.{
  ℕ, ◌+◌, ◌*◌, ◌%◌, ◌^◌, ◌≤◌, ◌<◌, ◌≡◌, Option, none, some, arith, ltb, ◌==◌, if◌then◌else◌, ok,
  pos, negsuc,
}
use cuts.Base.Int.{◌-ℤ◌, ◌*ℤ◌, int, sub_ℕ}
use cuts.Wayland.Wire.{signed32}
use cuts.Wayland.Impl.Shm.{check_region, invalid_stride, region_error}

end :
    (stride : ℕ) (x : Option ℕ)
    → (if (stride + 0) % 4 == 0 then ok x else ok (some invalid_stride))
      ≡ ok (if stride % 4 == 0 then x else some invalid_stride)
end stride x = ground arith

error_lem :
    (size offset n : ℕ)
    → size < 2 ^ 31
    → offset < 2 ^ 31
    → n < 2 ^ 31
    → region_error size n (pos offset) (sub_ℕ size offset) (pos n)
      ≡ (if ltb size (offset + n) then some invalid_stride else none)
unfolding region_error
error_lem size offset n size_fits offset_fits n_fits = ground arith

aligned_lem :
    (stride : ℕ) (x : Option ℕ)
    → stride % 4 ≡ 0
    → (if (stride + 0) % 4 == 0 then ok x else ok (some invalid_stride)) ≡ ok x
aligned_lem stride x aligned = ground arith

-- The end of the tests where the operations on `int` fit
abbrev pub verdict : (size offset height stride : ℕ) → Option ℕ
verdict size offset height stride =
    if stride % 4 == 0
    then (if ltb size (offset + height * stride) then some invalid_stride else none)
    else some invalid_stride

-- A region of numbers that are not negative and do not overflow is refused, for an invalid stride,
-- exactly where its stride is no multiple of four or it ends behind the pool.
pub check_region_lem :
    (size offset height stride : ℕ)
    → size < 2 ^ 31
    → offset < 2 ^ 31
    → height < 2 ^ 31
    → stride < 2 ^ 31
    → height * stride < 2 ^ 31
    → check_region size (pos offset) (pos height) (pos stride)
      ≡ ok (verdict size offset height stride)
unfolding check_region
check_region_lem size offset height stride size_fits offset_fits height_fits stride_fits fits =
    let signed : signed32 size ≡ pos size = ground arith in
    let behind : int (pos size -ℤ pos offset) ≡ ok (sub_ℕ size offset) = ground arith in
    let needed : int (pos height *ℤ pos stride) ≡ ok (pos (height * stride)) = ground arith in
    let h32 : height % 2 ^ 32 ≡ height = omega arith in
    let s32 : stride % 2 ^ 32 ≡ stride = omega arith in
    let region : (stride * height) % 2 ^ 32 ≡ height * stride = omega arith in
    rw
      (
        signed,
        behind,
        needed,
        h32,
        s32,
        region,
        error_lem size offset (height * stride) size_fits offset_fits fits,
      )
      (end stride (if ltb size (offset + height * stride) then some invalid_stride else none))

below_error :
    (size n needed : ℕ)
    → size + n + 1 < 2 ^ 31
    → needed ≤ size
    → region_error size needed (negsuc n) (pos (size + (n + 1))) (pos needed) ≡ none
unfolding region_error
below_error size n needed size_fits inside = ground arith

-- A region that begins before the pool passes the tests wherever its size does not exceed the pool.
pub check_region_below :
    (size n height stride : ℕ)
    → size + n + 1 < 2 ^ 31
    → height < 2 ^ 31
    → stride < 2 ^ 31
    → stride % 4 ≡ 0
    → height * stride ≤ size
    → check_region size (negsuc n) (pos height) (pos stride) ≡ ok none
unfolding check_region
check_region_below size n height stride size_fits height_fits stride_fits aligned inside =
    let signed : signed32 size ≡ pos size = ground arith in
    let behind : int (pos size -ℤ negsuc n) ≡ ok (pos (size + (n + 1))) = ground arith in
    let needed : int (pos height *ℤ pos stride) ≡ ok (pos (height * stride)) = ground arith in
    let h32 : height % 2 ^ 32 ≡ height = omega arith in
    let s32 : stride % 2 ^ 32 ≡ stride = omega arith in
    let region : (stride * height) % 2 ^ 32 ≡ height * stride = omega arith in
    rw
      (
        signed,
        behind,
        needed,
        h32,
        s32,
        region,
        below_error size n (height * stride) size_fits inside,
      )
      (aligned_lem stride none aligned)
