-- ===== src/Wayland/Outbox/Flush.antt =====
-- `c_wl_connection_flush`.
use cuts.Base.{
  ℕ, zero, suc, ◌+◌, ◌-◌, ◌≤◌, ◌<◌, ◌≡◌, refl, ap, ◌∙◌, false, List, [], ◌∷◌, ◌++◌, arith, ◌==◌, ok,
  ℤ, pos, negsuc,
}
use cuts.Base.Bytes.{Bytes}
use cuts.Base.Lists.{length, take, take_all}
use cuts.Wayland.Wire.{copy_out}
use cuts.Wayland.Wire.Region.{Holds, copy_out_lem, copy_in_lem}
use cuts.Wayland.Message.{buffer_size}
use cuts.Wayland.Outbox.{Outbox, flush, sent, shift, minus64, max_fds}

-- The outbox has `pending` to send.
pub record IsOutbox (o : Outbox) (pending : List ℕ) : Type 0 where
  pub len : o.buffer.len ≡ buffer_size
  pub size : o.size ≡ length pending
  pub holds : Holds o.buffer 0 pending
  pub fds : length o.send_fds ≤ max_fds

-- All of it is sent.
abbrev pub drained : Outbox → List ℕ → Outbox
drained o pending = record {
  buffer = o.buffer;
  size = 0;
  send_fds = [];
  taken = o.taken ++ pending;
  passed = o.passed ++ o.send_fds;
  closed = o.closed ++ o.send_fds;
}

pub drained-IsOutbox :
    (o : Outbox) (pending : List ℕ) → IsOutbox o pending → IsOutbox (drained o pending) []
drained-IsOutbox o pending v = record { len = v.len; size = refl; holds = tt; fds = omega arith }

minus64_lem : (a b r : ℕ) → r + b ≡ a → a ≤ buffer_size → minus64 a b ≡ r
unfolding minus64
minus64_lem a b r e h = omega arith

pub length-le :
    (b : Bytes) (offset : ℕ) (vs : List ℕ) → Holds b offset vs → length vs ≤ b.len - offset
length-le b offset [] h = omega arith
length-le b offset (v ∷ vs) h = omega (arith, h.1, length-le b (offset + 1) vs h.2)

sent_all :
    (o : Outbox) (bytes : List ℕ) (n : ℕ)
    → 0 < n
    → o.size ≡ n
    → n ≤ buffer_size
    → length bytes ≡ n
    → sent o bytes (pos n) ≡ ok (pos n, drained o bytes)
unfolding sent shift
sent_all o bytes zero some_bytes size fits count = absurd (omega arith)
sent_all o bytes (suc k) some_bytes size fits count =
    let e : minus64 o.size (suc k) ≡ 0 = minus64_lem o.size (suc k) 0 (omega arith) (omega arith) in
    rw (e, take_all (suc k) bytes (omega arith)) refl

-- What a partial send leaves: `stale`, the bytes that stood behind the pending ones.
module _ (o : Outbox) (bytes stale : List ℕ) where
  sent_part :
      (n : ℕ)
      → 0 < n
      → n < o.size
      → o.size + length stale ≤ o.buffer.len
      → o.buffer.len ≡ buffer_size
      → length stale + n ≡ o.size
      → Holds o.buffer o.size stale
      → (o' : Outbox) × (sent o bytes (pos n) ≡ ok (pos n, o'))
        × IsOutbox o' stale
        × (o'.taken ≡ o.taken ++ take n bytes)
  unfolding sent shift
  sent_part zero some_bytes some_left fits len count h = absurd (omega arith)
  sent_part (suc k) some_bytes some_left fits len count h =
      let (b, run, w) = copy_in_lem o.buffer 0 stale (omega arith) in
      let o' : Outbox = record {
        buffer = b;
        size = length stale;
        send_fds = [];
        taken = o.taken ++ take (suc k) bytes;
        passed = o.passed ++ o.send_fds;
        closed = o.closed ++ o.send_fds;
      } in
      let e : minus64 o.size (suc k) ≡ length stale =
        minus64_lem o.size (suc k) (length stale) count (omega arith) in
      let z : (length stale == 0) ≡ false = ground arith in
      (
        o',
        rw (e, z, copy_out_lem o.buffer o.size stale h, run) refl,
        record { len = w.len ∙ len; size = refl; holds = w.holds; fds = omega arith },
        refl,
      )

module _ (send : List ℕ → List ℕ → ℤ) (o : Outbox) (pending : List ℕ) (v : IsOutbox o pending) where
  -- What is left of the call once the bytes are read.
  flush-sent : 0 < length pending → flush send o ≡ sent o pending (send pending o.send_fds)
  unfolding flush
  flush-sent some_bytes =
      let e : (o.size == 0) ≡ false = ground (arith, v.size, some_bytes) in
      let run : copy_out o.buffer 0 o.size ≡ ok pending =
        ap (copy_out o.buffer 0) v.size ∙ copy_out_lem o.buffer 0 pending v.holds in
      rw (e, run) refl

  -- A flush whose bytes the kernel takes all: the outbox is empty, the kernel has the pending bytes
  -- in their order and the queued descriptors, and these are closed.
  pub flush_all :
      0 < length pending
      → send pending o.send_fds ≡ pos (length pending)
      → (flush send o ≡ ok (pos (length pending), drained o pending))
        × IsOutbox (drained o pending) []
  flush_all some_bytes all =
      let fits : length pending ≤ buffer_size =
        omega (arith, v.len, length-le o.buffer 0 pending v.holds) in
      (
        flush-sent some_bytes
            ∙ rw all (sent_all o pending (length pending) some_bytes v.size fits refl),
        drained-IsOutbox o pending v,
      )

  -- A flush that fails changes nothing.
  pub flush_failed :
      (k : ℕ)
      → 0 < length pending
      → send pending o.send_fds ≡ negsuc k
      → flush send o ≡ ok (negsuc k, o)
  unfolding sent
  flush_failed k some_bytes fails = flush-sent some_bytes ∙ rw fails refl

  -- A flush of which the kernel takes only the first `n` bytes, where the buffer has room for what
  -- remains behind the pending bytes: the outbox then has as many bytes to send as the kernel left,
  -- but these are the bytes `stale` that stood behind the pending ones in the buffer, whatever they
  -- were. The pending bytes after the first `n` are lost.
  pub flush_partial :
      (n : ℕ) (stale : List ℕ)
      → 0 < n
      → length stale + n ≡ length pending
      → 0 < length stale
      → Holds o.buffer o.size stale
      → length pending + length stale ≤ buffer_size
      → send pending o.send_fds ≡ pos n
      → (o' : Outbox) × (flush send o ≡ ok (pos n, o'))
        × IsOutbox o' stale
        × (o'.taken ≡ o.taken ++ take n pending)
  flush_partial n stale some_bytes count some_left behind fits part =
      let (o', run, left, took) =
        sent_part o pending stale n some_bytes (omega (arith, v.size))
          (omega (arith, v.size, v.len)) v.len (omega (arith, v.size)) behind in
      (o', flush-sent (omega arith) ∙ rw part run, left, took)
