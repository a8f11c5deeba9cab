-- ===== src/Wayland/Impl/Shm.antt =====
-- wayland/impl/wayland.c: wl_shm, wl_shm_pool and wl_buffer, with the formats of output/drm/util.c.
-- The kernel's `mmap` and `mremap`, and the formats of libdrm, are parameters. An `int` that
-- overflows is undefined.
pub mod Region
pub mod Release
pub mod Life
use cuts.Base.{
  ℕ, ◌+◌, ◌-◌, ◌*◌, ◌%◌, ◌^◌, ◌||◌, Option, none, some, List, [], ◌∷◌, ltb, ◌==◌, if◌then◌else◌,
  Exec, ok, undefined, ◌>>=◌, ◌>>◌, require, ℤ, pos,
}
use cuts.Base.Int.{pos_part, neg_part, ◌-ℤ◌, ◌*ℤ◌, ltb_ℤ, int}
use cuts.Wayland.Wire.{signed32, pattern32}
use cuts.Wayland.Message.{Arg, i_val, o_val, n_val, e_val, fd_val}
use cuts.Wayland.Receive.{CallbackInterface}
use cuts.Wayland.Impl.State.{ShmPool, RawBuf, Buffer}
use cuts.Wayland.Impl.World.{
  World, Wl, some_or_undefined, at, set_pool, set_buffer, set_rawbuf, self_object, object_data_of,
  refuse, check_if_not_registered, allocate, defer, take_reference, give_reference, add_object,
  delete_object, defer_pool, defer_wl_buffer,
}
use cuts.Wayland.Impl.Requests.{implementation}

-- What `mmap` and `mremap` come to: the address, or one of the errors that the code tells apart.
pub data Mapping : Type 0 where
  mapped : ℕ → Mapping
  bad_file no_access no_memory other_error : Mapping

abbrev pub invalid_stride : ℕ
invalid_stride = 1

-- `switch (errno)`
abbrev pub map_error : Mapping → ℕ
map_error bad_file = 2
map_error no_access = 2
map_error no_memory = 2
map_error _ = implementation

abbrev pub is_mapped : Mapping → Option ℕ
is_mapped (mapped ptr) = some ptr
is_mapped _ = none

module _ (mmap : (size : ℤ) (fd : ℕ) → Mapping) (iface : ℕ) where
  unfoldable pub create_pool : List Arg → Wl → Exec (ℤ × Wl)
  unfolding check_if_not_registered allocate defer give_reference add_object
  create_pool (o_val wl_shm ∷ n_val id ∷ fd_val fd ∷ i_val size ∷ []) s =
      check_if_not_registered wl_shm id s (do
        (a, s1) ← allocate s
        if a == 0 then refuse wl_shm implementation s1 else (do
          s2 ← defer a defer_pool s1
          elim (is_mapped (mmap size fd)) [
            | none ↦ do s3 ← give_reference a s2; refuse wl_shm (map_error (mmap size fd)) s3
            | some ptr ↦ do
              shm ← self_object wl_shm s2
              s3 ← add_object id shm.version iface a s2
              ok (pos 0, set_pool a (record { fd = fd; ptr = ptr; size = pattern32 size }) s3)
          ]))
  create_pool _ s = undefined

-- The tests of a region with `int` and with `uint32_t`: the error that one of them reports
unfoldable pub region_error : (size region_size : ℕ) (offset behind needed : ℤ) → Option ℕ
region_error size region_size offset behind needed =
    if ltb_ℤ behind needed
    then some invalid_stride
    else if ltb size region_size || ltb_ℤ (signed32 ((size + 2 ^ 32 - region_size) % 2 ^ 32)) offset
    then some 0
    else none

-- The three tests of `wl_shm_pool_create_buffer`, with the error that one of them reports
unfoldable pub check_region : (size : ℕ) (offset height stride : ℤ) → Exec (Option ℕ)
unfolding region_error
check_region size offset height stride =
    if (pos_part stride + neg_part stride) % 4 == 0
    then (do
      behind ← int (signed32 size -ℤ offset)
      needed ← int (height *ℤ stride)
      let region_size = (pattern32 stride * pattern32 height) % 2 ^ 32
      ok (region_error size region_size offset behind needed))
    else ok (some invalid_stride)

-- `wl_shm_fmt_to_drm_fmt`
unfoldable pub wl_shm_fmt_to_drm_fmt : (argb8888 xrgb8888 : ℕ) → ℕ → ℕ
wl_shm_fmt_to_drm_fmt argb8888 xrgb8888 format =
    if format == 0 then argb8888 else if format == 1 then xrgb8888 else format

module _ (argb8888 xrgb8888 : ℕ) (buffer_interface : CallbackInterface) where
  -- What stands behind the tests. The results of `c_malloc` are not tested.
  unfoldable pub make_buffer :
      (id p format : ℕ) (offset width height stride : ℤ) → Wl → Exec (ℤ × Wl)
  unfolding allocate defer take_reference add_object wl_shm_fmt_to_drm_fmt
  make_buffer id p format offset width height stride s = do
    (b, s1) ← allocate s
    require (ltb 0 b)
    s2 ← defer b defer_wl_buffer s1
    (raw, s3) ← allocate s2
    require (ltb 0 raw)
    s4 ← take_reference p s3
    pool ← at World.pools p s4
    let s5 =
        set_rawbuf raw
          (record {
            width = pattern32 width;
            height = pattern32 height;
            stride = pattern32 stride;
            format = wl_shm_fmt_to_drm_fmt argb8888 xrgb8888 format;
            offset = offset;
            base_ptr = pool.ptr;
          })
          s4
    let s6 = set_buffer b (record { pool = some p; dma = none; shm = some raw }) s5
    s7 ← add_object id (buffer_interface.version) (buffer_interface.address) b s6
    ok (pos 0, s7)

  unfoldable pub pool_create_buffer : List Arg → Wl → Exec (ℤ × Wl)
  unfolding check_if_not_registered check_region make_buffer
  pool_create_buffer
        (o_val self
          ∷ n_val id
          ∷ i_val offset
          ∷ i_val width
          ∷ i_val height
          ∷ i_val stride
          ∷ e_val format
          ∷ [])
        s =
      do
        p ← object_data_of self s
        check_if_not_registered self id s (do
          pool ← at World.pools p s
          error ← check_region pool.size offset height stride
          elim error [
            | some code ↦ refuse self code s
            | none ↦ make_buffer id p format offset width height stride s
          ])
  pool_create_buffer _ s = undefined

-- The requests that only give the object up: `wl_buffer.destroy`, and those of C_WL_DESTRUCTOR
unfoldable pub destroy_object : List Arg → Wl → Exec (ℤ × Wl)
unfolding delete_object
destroy_object (o_val self ∷ []) s = do s' ← delete_object self s; ok (pos 0, s')
destroy_object _ s = undefined

unfoldable pub buffer_destroy : List Arg → Wl → Exec (ℤ × Wl)
unfolding destroy_object
buffer_destroy (o_val self ∷ []) s = do
  o ← self_object self s
  a ← some_or_undefined o.object_data
  b ← at World.buffers a s
  destroy_object (o_val self ∷ []) s
buffer_destroy _ s = undefined

module _ (mremap : (ptr size : ℕ) (new_size : ℤ) → Mapping) where
  unfoldable pub pool_resize : List Arg → Wl → Exec (ℤ × Wl)
  pool_resize (o_val self ∷ i_val new_size ∷ []) s = do
    p ← object_data_of self s
    pool ← at World.pools p s
    elim (is_mapped (mremap pool.ptr pool.size new_size)) [
      | none ↦ refuse self implementation s
      | some ptr ↦ ok (pos 0, set_pool p (record pool { ptr = ptr; size = pattern32 new_size }) s)
    ]
  pool_resize _ s = undefined
