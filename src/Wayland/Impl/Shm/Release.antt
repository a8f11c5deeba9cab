-- ===== src/Wayland/Impl/Shm/Release.antt =====
-- What goes when the last reference to a buffer in shared memory is given back.
use cuts.Base.{
  ℕ, ◌+◌, ◌-◌, ◌%◌, ◌^◌, ◌<◌, ◌≡◌, refl, sym, ap, ◌∙◌, ◌≢◌, false, Option, none, some, ◌∷◌, arith,
  ◌==◌, Exec, ok, ◌>>=◌, >>=-after,
}
use cuts.Util.Mem.{Metadata, Memory, write, unref, run_defer, free}
use cuts.Wayland.Impl.State.{Buffer}
use cuts.Wayland.Impl.World.{World, some_or_undefined, defer_wl_buffer, run_deferred}
use cuts.Util.Mem.Life.{write_self, write_other, metadata_of_lem}
use cuts.Wayland.Impl.Blocks.{}

module _ (call : ℕ → ℕ → Memory → Exec Memory) (a : ℕ) (mem : Memory) where
  unref_last :
      (d : Option ℕ)
      → mem.metadata a ≡ some (record { ref_count = 1; defer = d })
      → unref call a mem
        ≡ (run_defer call d a (write mem a (some (record { ref_count = 0; defer = d }))) >>= free a)
  unfolding unref
  unref_last d here = >>=-after _ (metadata_of_lem a mem here) refl

  unref_more :
      (m : Metadata)
      → 0 < m.ref_count
      → m.ref_count + 1 < 2 ^ 64
      → mem.metadata a ≡ some (record m { ref_count = (m.ref_count + 1) % 2 ^ 64 })
      → unref call a mem ≡ ok (write mem a (some m))
  unfolding unref
  unref_more m held fits here =
      let e : ((m.ref_count + 1) % 2 ^ 64 + 2 ^ 64 - 1) % 2 ^ 64 ≡ m.ref_count = omega arith in
      let f : (m.ref_count == 0) ≡ false = ground (arith, held) in
      >>=-after _ (metadata_of_lem a mem here) (rw (e, f) refl)

-- What stands in the two blocks
abbrev pub buffer_of : (p raw : ℕ) → Buffer
buffer_of p raw = record { pool = some p; dma = none; shm = some raw }

free_lem :
    (a : ℕ) (mem : Memory) {m : Metadata}
    → mem.metadata a ≡ some m
    → free a mem ≡ ok (write mem a none)
unfolding free
free_lem a mem here = >>=-after _ (metadata_of_lem a mem here) refl

-- The memory when the counts of both blocks are 0, and when that of the image is freed
abbrev pub spent_blocks : (b raw : ℕ) → Memory → Memory
spent_blocks b raw mem =
    let mem1 = write mem b (some (record { ref_count = 0; defer = some defer_wl_buffer })) in
    write (record mem1 { deferred = b ∷ mem1.deferred }) raw
      (some (record { ref_count = 0; defer = none }))

abbrev pub images_gone : (b raw : ℕ) → Memory → Memory
images_gone b raw mem = write (spent_blocks b raw mem) raw none

-- The memory when the last reference to the buffer is given back
abbrev pub memory_released : (p b raw : ℕ) → Metadata → Memory → Memory
memory_released p b raw m mem = write (write (images_gone b raw mem) p (some m)) b none

-- A buffer of a pool that nothing else refers to
pub record IsHeld (p b raw : ℕ) (m : Metadata) (w : World) (mem : Memory) : Type 0 where
  pub apart : b ≢ raw
  pub pool_apart : p ≢ b
  pub pool_apart' : p ≢ raw
  pub stored : w.buffers b ≡ some (buffer_of p raw)
  pub here : mem.metadata b ≡ some (record { ref_count = 1; defer = some defer_wl_buffer })
  pub image : mem.metadata raw ≡ some (record { ref_count = 1; defer = none })
  pub held : 0 < m.ref_count
  pub fits : m.ref_count + 1 < 2 ^ 64
  pub counted : mem.metadata p ≡ some (record m { ref_count = (m.ref_count + 1) % 2 ^ 64 })

module _ {p b raw : ℕ} {m : Metadata} {w : World} {mem : Memory} where
  fields_lem :
      IsHeld p b raw m w mem
      → (let mem1 = write mem b (some (record { ref_count = 0; defer = some defer_wl_buffer })) in
          let mem2 = record mem1 { deferred = b ∷ mem1.deferred } in
          let mem3 = write mem2 raw (some (record { ref_count = 0; defer = none })) in
          run_deferred w defer_wl_buffer b mem2 ≡ ok (write (write mem3 raw none) p (some m)))
  unfolding run_deferred run_defer
  fields_lem h =
      let mem1 = write mem b (some (record { ref_count = 0; defer = some defer_wl_buffer })) in
      let mem2 = record mem1 { deferred = b ∷ mem1.deferred } in
      let mem3 = write mem2 raw (some (record { ref_count = 0; defer = none })) in
      let image : mem2.metadata raw ≡ some (record { ref_count = 1; defer = none }) =
        write_other mem b _ raw (λ e. h.apart (sym e)) ∙ h.image in
      let counted : (write mem3 raw none).metadata p
          ≡ some (record m { ref_count = (m.ref_count + 1) % 2 ^ 64 }) =
        write_other mem3 raw none p h.pool_apart'
        ∙ (write_other mem2 raw _ p h.pool_apart'
            ∙ (write_other mem b _ p h.pool_apart ∙ h.counted)) in
      >>=-after _ (ap some_or_undefined h.stored) (
        >>=-after _
          (unref_last (λ func a m. ok m) raw mem2 none image
            ∙ free_lem raw mem3 (write_self mem2 raw _))
          (unref_more _ p (write mem3 raw none) m h.held h.fits counted))

  pub unref_buffer :
      IsHeld p b raw m w mem → unref (run_deferred w) b mem ≡ ok (memory_released p b raw m mem)
  unfolding run_defer
  unref_buffer h =
      let mem1 = write mem b (some (record { ref_count = 0; defer = some defer_wl_buffer })) in
      let mem2 = record mem1 { deferred = b ∷ mem1.deferred } in
      let mem3 = write mem2 raw (some (record { ref_count = 0; defer = none })) in
      let here : (write (write mem3 raw none) p (some m)).metadata b
          ≡ some (record { ref_count = 0; defer = some defer_wl_buffer }) =
        write_other (write mem3 raw none) p (some m) b (λ e. h.pool_apart (sym e))
        ∙ (write_other mem3 raw none b h.apart
            ∙ (write_other mem2 raw _ b h.apart ∙ write_self mem b _)) in
      unref_last (run_deferred w) b mem (some defer_wl_buffer) h.here
      ∙ >>=-after _ (fields_lem h) (free_lem b (write (write mem3 raw none) p (some m)) here)
