-- ===== src/Wayland/Impl/Shm/Life.antt =====
-- The references of a buffer in shared memory: what `wl_shm_pool_create_buffer` takes, and what goes
-- when the last reference to the buffer does.
use cuts.Base.{
  ℕ, ◌+◌, ◌%◌, ◌^◌, ◌<◌, ◌≡◌, refl, sym, ◌∙◌, ◌≢◌, Option, none, some, List, ◌∷◌, ==_refl, ok,
  >>=-after, ℤ, pos,
}
use cuts.Util.Mem.{Metadata, Memory, write}
use cuts.Wayland.Objects.{Registry, Object, object_add}
use cuts.Wayland.Receive.{CallbackInterface}
use cuts.Wayland.Impl.State.{ShmPool, RawBuf}
use cuts.Wayland.Impl.World.{
  World, Wl, set_buffer, set_rawbuf, give_reference, put_at, defer_wl_buffer,
}
use cuts.Wayland.Wire.{pattern32}
use cuts.Util.Mem.Life.{write_self, write_other}
use cuts.Wayland.Impl.Blocks.{
  with_memory, with_block, new_block, allocate_lem, require_lem, defer_lem, take_reference_lem,
  at_lem, add_object_lem,
}
use cuts.Wayland.Impl.Shm.Release.{
  buffer_of, spent_blocks, images_gone, memory_released, IsHeld, unref_buffer,
}
use cuts.Wayland.Impl.Shm.{make_buffer, wl_shm_fmt_to_drm_fmt}

-- Two fresh blocks, apart from the pool and from each other
pub record IsReady (p b raw : ℕ) (rest : List ℕ) (m : Metadata) (pool : ShmPool) (s : Wl)
    : Type 0 where
  pub fresh : s.world.free_addresses ≡ b ∷ raw ∷ rest
  pub b_positive : 0 < b
  pub raw_positive : 0 < raw
  pub apart : b ≢ raw
  pub pool_apart : p ≢ b
  pub pool_apart' : p ≢ raw
  pub counted : s.world.memory.metadata p ≡ some m
  pub stored : s.world.pools p ≡ some pool

abbrev memory_after : (p b raw : ℕ) → Metadata → Memory → Memory
memory_after p b raw m mem =
    write
      (write
        (write (write mem b (some (record { ref_count = 1; defer = none }))) b
          (some (record { ref_count = 1; defer = some defer_wl_buffer })))
        raw (some (record { ref_count = 1; defer = none })))
      p (some (record m { ref_count = (m.ref_count + 1) % 2 ^ 64 }))

abbrev state_after : (p b raw : ℕ) → List ℕ → Metadata → RawBuf → Registry → Wl → Wl
state_after p b raw rest m image registry s = record s {
  registry = registry;
  world = record (s.world) {
    memory = memory_after p b raw m s.world.memory;
    free_addresses = rest;
    rawbufs = put_at raw image s.world.rawbufs;
    buffers = put_at b (buffer_of p raw) s.world.buffers;
  };
}

module _ (argb8888 xrgb8888 : ℕ) where
  abbrev pub image_of : (format : ℕ) (offset width height stride : ℤ) → ShmPool → RawBuf
  image_of format offset width height stride pool = record {
    width = pattern32 width;
    height = pattern32 height;
    stride = pattern32 stride;
    format = wl_shm_fmt_to_drm_fmt argb8888 xrgb8888 format;
    offset = offset;
    base_ptr = pool.ptr;
  }

module _ (argb8888 xrgb8888 : ℕ) (iface : CallbackInterface) where
  make_buffer_lem :
      {p b raw : ℕ} {rest : List ℕ} {m : Metadata} {pool : ShmPool} {s : Wl} (id format : ℕ)
      (offset width height stride : ℤ)
      → IsReady p b raw rest m pool s
      → {registry : Registry} {o : Option Object}
      → object_add s.registry id iface.version (some iface.address) (some b) ≡ ok (registry, o)
      → make_buffer argb8888 xrgb8888 iface id p format offset width height stride s
        ≡ ok (
          pos 0,
          state_after p b raw rest m
              (image_of argb8888 xrgb8888 format offset width height stride pool)
              registry
              s,
        )
  unfolding make_buffer
  make_buffer_lem {p} {b} {raw} {rest} {m} {pool} {s} id format offset width height stride r
        {registry} {o} added =
      let s1 = with_block b (raw ∷ rest) s in
      let s2 =
        with_memory
          (write s1.world.memory b (some (record { ref_count = 1; defer = some defer_wl_buffer })))
          s1 in
      let s3 = with_block raw rest s2 in
      let s4 =
        with_memory
          (write s3.world.memory p (some (record m { ref_count = (m.ref_count + 1) % 2 ^ 64 })))
          s3 in
      let s6 =
        set_buffer b (buffer_of p raw)
          (set_rawbuf raw (image_of argb8888 xrgb8888 format offset width height stride pool) s4) in
      let counted : s3.world.memory.metadata p ≡ some m =
        write_other s2.world.memory raw _ p r.pool_apart'
        ∙ (write_other s1.world.memory b _ p r.pool_apart
            ∙ (write_other s.world.memory b _ p r.pool_apart ∙ r.counted)) in
      >>=-after _ (allocate_lem b (raw ∷ rest) s r.fresh r.b_positive) (
        >>=-after _ (require_lem b r.b_positive) (
          >>=-after _
            (defer_lem s1 b (write_self s.world.memory b (some new_block)) defer_wl_buffer)
            (>>=-after _ (allocate_lem raw rest s2 refl r.raw_positive) (
              >>=-after _ (require_lem raw r.raw_positive) (
                >>=-after _ (take_reference_lem s3 p counted) (
                  >>=-after _ (at_lem s4 p (write_self s3.world.memory p _) World.pools r.stored) (
                    >>=-after _ (add_object_lem id iface.version iface.address b s6 added)
                      refl)))))))

-- What is left of the three blocks
pub record IsReleased (p b raw : ℕ) (m : Metadata) (s : Wl) : Type 0 where
  pub buffer_gone : s.world.memory.metadata b ≡ none
  pub image_gone : s.world.memory.metadata raw ≡ none
  pub pool_back : s.world.memory.metadata p ≡ some m

module _ (argb8888 xrgb8888 : ℕ) (iface : CallbackInterface) where
  -- `wl_shm_pool_create_buffer`, once its tests have passed, makes a buffer of the region, in two
  -- fresh blocks and with a reference to the pool. When its only reference is given back both blocks
  -- are freed, and the pool has the references that it had before.
  pub make_buffer-give_reference :
      {p b raw : ℕ} {rest : List ℕ} {m : Metadata} {pool : ShmPool} {s : Wl} (id format : ℕ)
      (offset width height stride : ℤ)
      → IsReady p b raw rest m pool s
      → 0 < m.ref_count
      → m.ref_count + 1 < 2 ^ 64
      → {registry : Registry} {o : Option Object}
      → object_add s.registry id iface.version (some iface.address) (some b) ≡ ok (registry, o)
      → (s' s'' : Wl) × (make_buffer argb8888 xrgb8888 iface id p format offset width height stride
            s
          ≡ ok (pos 0, s'))
        × (s'.world.buffers b ≡ some (buffer_of p raw))
        × (s'.world.rawbufs raw
            ≡ some (image_of argb8888 xrgb8888 format offset width height stride pool))
        × (give_reference b s' ≡ ok s'')
        × IsReleased p b raw m s''
  unfolding give_reference
  make_buffer-give_reference {p} {b} {raw} {rest} {m} {pool} {s} id format offset width height
        stride r held fits {registry} {o} added =
      let image = image_of argb8888 xrgb8888 format offset width height stride pool in
      let s' = state_after p b raw rest m image registry s in
      let mem = s'.world.memory in
      let m1 = write s.world.memory b (some new_block) in
      let m2 = write m1 b (some (record { ref_count = 1; defer = some defer_wl_buffer })) in
      let m3 = write m2 raw (some new_block) in
      let h : IsHeld p b raw m s'.world mem = record {
        apart = r.apart;
        pool_apart = r.pool_apart;
        pool_apart' = r.pool_apart';
        stored = rw (==_refl b) refl;
        here =
            write_other m3 p _ b (λ e. r.pool_apart (sym e))
            ∙ (write_other m2 raw _ b r.apart ∙ write_self m1 b _);
        image = write_other m3 p _ raw (λ e. r.pool_apart' (sym e)) ∙ write_self m2 raw _;
        held = held;
        fits = fits;
        counted = write_self m3 p _;
      } in
      let gone = images_gone b raw mem in
      (
        s',
        with_memory (memory_released p b raw m mem) s',
        make_buffer_lem argb8888 xrgb8888 iface id format offset width height stride r added,
        rw (==_refl b) refl,
        rw (==_refl raw) refl,
        >>=-after _ (unref_buffer h) refl,
        record {
          buffer_gone = write_self (write gone p (some m)) b none;
          image_gone =
              write_other (write gone p (some m)) b none raw (λ e. r.apart (sym e))
              ∙ (write_other gone p (some m) raw (λ e. r.pool_apart' (sym e))
                  ∙ write_self (spent_blocks b raw mem) raw none);
          pool_back =
              write_other (write gone p (some m)) b none p r.pool_apart
              ∙ write_self gone p (some m);
        },
      )
