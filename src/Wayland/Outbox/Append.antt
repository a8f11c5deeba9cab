-- ===== src/Wayland/Outbox/Append.antt =====
-- The end of `c_wl_connection_post`.
use mathlib.Core.List.{append-nil, append_assoc}
use cuts.Base.{
  ℕ, zero, suc, ◌+◌, ◌≤◌, ◌<◌, ◌≡◌, refl, sym, ◌∙◌, subst, inl, inr, true, false, ◌||◌, List, [],
  ◌∷◌, ◌++◌, arith, ltb, leb, ◌==◌, ltb→lt, lt→ltb, Bool-cases, ok, undefined, ℤ, pos, negsuc,
}
use cuts.Base.Bytes.{Bytes, put}
use cuts.Base.Lists.{length, length-append}
use cuts.Wayland.Wire.{copy_in}
use cuts.Wayland.Wire.Region.{Holds, Holds-same, Holds-append, copy_out_lem, copy_in_lem}
use cuts.Wayland.Message.{buffer_size}
use cuts.Wayland.Outbox.{Outbox, append, make_room, queue_fd, max_fds, send_fds_bytes}
use cuts.Wayland.Outbox.Flush.{
  IsOutbox, drained, length-le, drained-IsOutbox, flush_all, flush_failed,
}

-- The descriptors that a message brings: 0 stands for none.
abbrev pub with_fd : ℕ → List ℕ
with_fd zero = []
with_fd (suc k) = suc k ∷ []

-- The message is at the end of the buffer, its descriptor at the end of the queue, and nothing
-- else changed.
pub record Queued (o : Outbox) (pending msg : List ℕ) (fd : ℕ) (o' : Outbox) : Type 0 where
  pub valid : IsOutbox o' (pending ++ msg)
  pub fds : o'.send_fds ≡ o.send_fds ++ with_fd fd
  pub taken : o'.taken ≡ o.taken
  pub passed : o'.passed ≡ o.passed
  pub closed : o'.closed ≡ o.closed

queue_fd_lem :
    (fd : ℕ) (o : Outbox)
    → length o.send_fds < max_fds
    → queue_fd fd o ≡ ok (record o { send_fds = o.send_fds ++ with_fd fd })
unfolding queue_fd
queue_fd_lem zero o h = rw (append-nil o.send_fds) refl
queue_fd_lem (suc k) o h = let e : (suc k == 0) ≡ false = ground arith in rw (e, lt→ltb _ _ h) refl

with_fd_le : (fds : List ℕ) (fd : ℕ) → length fds < max_fds → length (fds ++ with_fd fd) ≤ max_fds
with_fd_le fds zero h = omega (arith, length-append fds [])
with_fd_le fds (suc k) h = omega (arith, length-append fds (suc k ∷ []))

module _ (o : Outbox) (pending : List ℕ) (v : IsOutbox o pending) where
  -- The copy behind the pending bytes, and the descriptor.
  put_message :
      (msg : List ℕ) (fd : ℕ)
      → length pending + length msg ≤ buffer_size
      → length o.send_fds < max_fds
      → (b : Bytes) × (o' : Outbox) × (copy_in o.buffer o.size msg ≡ ok b)
        × (queue_fd fd (record o { buffer = b; size = o.size + length msg }) ≡ ok o')
        × Queued o pending msg fd o'
  put_message msg fd fits few =
      let at_end : o.size ≡ 0 + length pending = omega (arith, v.size) in
      let size : o.size + length msg ≡ length (pending ++ msg) =
        omega (arith, v.size, length-append pending msg) in
      let (b, run, w) = copy_in_lem o.buffer o.size msg (omega (arith, v.size, v.len)) in
      let kept : Holds b 0 pending =
        Holds-same o.buffer b 0 pending v.holds w.len
          (λ j lo hi. w.before j (omega (arith, v.size))) in
      let o1 : Outbox = record o { buffer = b; size = o.size + length msg } in
      (
        b,
        record o1 { send_fds = o.send_fds ++ with_fd fd },
        run,
        queue_fd_lem fd o1 few,
        record {
          valid = record {
            len = w.len ∙ v.len;
            size = size;
            holds = Holds-append b 0 pending msg kept (subst (λ n. Holds b n msg) at_end w.holds);
            fds = with_fd_le o.send_fds fd few;
          };
          fds = refl;
          taken = refl;
          passed = refl;
          closed = refl;
        },
      )

-- Whether `c_wl_connection_post` flushes first: the buffer would be full.
module _ (send : List ℕ → List ℕ → ℤ) (o : Outbox) (pending : List ℕ) (v : IsOutbox o pending) where
  no_flush :
      (len : ℕ)
      → length pending + len < buffer_size
      → length o.send_fds ≤ max_fds
      → make_room send o len ≡ ok o
  unfolding make_room
  no_flush len fits few =
      let e : (leb buffer_size (o.size + len) || leb send_fds_bytes (length o.send_fds + 1))
          ≡ false =
        ground (arith, v.size) in
      rw e refl

  full_flush :
      (len : ℕ)
      → buffer_size ≤ length pending + len
      → 0 < length pending
      → send pending o.send_fds ≡ pos (length pending)
      → make_room send o len ≡ ok (drained o pending)
  unfolding make_room
  full_flush len full some_bytes all =
      let e : (leb buffer_size (o.size + len) || leb send_fds_bytes (length o.send_fds + 1))
          ≡ true =
        ground (arith, v.size) in
      rw (e, (flush_all send o pending v some_bytes all).0) refl

  failed_flush :
      (len k : ℕ)
      → buffer_size ≤ length pending + len
      → 0 < length pending
      → send pending o.send_fds ≡ negsuc k
      → make_room send o len ≡ ok o
  unfolding make_room
  failed_flush len k full some_bytes fails =
      let e : (leb buffer_size (o.size + len) || leb send_fds_bytes (length o.send_fds + 1))
          ≡ true =
        ground (arith, v.size) in
      rw (e, flush_failed send o pending v k some_bytes fails) refl

copy_in_past :
    (b : Bytes) (offset : ℕ) (vs : List ℕ)
    → offset ≤ b.len
    → b.len < offset + length vs
    → copy_in b offset vs ≡ undefined
unfolding copy_in
copy_in_past b offset [] h past = absurd (omega arith)
copy_in_past b offset (x ∷ vs) h past = elim (Bool-cases (ltb offset b.len)) [
  | inl inside ↦
      let rest = copy_in_past (put b offset x) (offset + 1) vs in
      rw inside (rest (omega (arith, ltb→lt _ _ inside)) (omega arith))
  | inr outside ↦ rw outside refl
]

-- The message is sent after all that was sent or waiting before, and so is its descriptor.
pub record Streamed (o : Outbox) (pending msg : List ℕ) (fd : ℕ) (o' : Outbox) : Type 0 where
  pub rest : List ℕ
  pub valid : IsOutbox o' rest
  pub bytes : o'.taken ++ rest ≡ o.taken ++ pending ++ msg
  pub fds : o'.passed ++ o'.send_fds ≡ o.passed ++ o.send_fds ++ with_fd fd

module _ (o o' : Outbox) (pending msg : List ℕ) (fd : ℕ) where
  Queued-Streamed : Queued o pending msg fd o' → Streamed o pending msg fd o'
  Queued-Streamed q = record {
    rest = pending ++ msg;
    valid = q.valid;
    bytes = rw q.taken (sym (append_assoc o.taken pending msg));
    fds = rw (q.passed, q.fds) (sym (append_assoc o.passed o.send_fds (with_fd fd)));
  }

  drained-Streamed : Queued (drained o pending) [] msg fd o' → Streamed o pending msg fd o'
  drained-Streamed q = record {
    rest = msg;
    valid = q.valid;
    bytes = rw q.taken refl;
    fds = rw (q.passed, q.fds) refl;
  }

module _ (send : List ℕ → List ℕ → ℤ) (o : Outbox) (tmp : Bytes) (msg : List ℕ) (fd : ℕ) where
  after_room :
      (o1 : Outbox) (pending : List ℕ)
      → make_room send o (length msg) ≡ ok o1
      → IsOutbox o1 pending
      → Holds tmp 0 msg
      → length pending + length msg ≤ buffer_size
      → length o1.send_fds < max_fds
      → (o' : Outbox) × (append send o tmp (length msg) fd ≡ ok o') × Queued o1 pending msg fd o'
  unfolding append
  after_room o1 pending room v h fits few =
      let (b, o', copied, queued, q) = put_message o1 pending v msg fd fits few in
      (o', rw (room, copy_out_lem tmp 0 msg h, copied) queued, q)

  -- A message shorter than the buffer, at a time when fewer than 256 descriptors wait, and where
  -- the kernel takes all pending bytes if they have to be flushed to make room: the call ends, and
  -- the bytes sent so far, followed by those that wait, are what they were with the message at the
  -- end; the descriptors likewise.
  pub append-Streamed :
      (pending : List ℕ)
      → IsOutbox o pending
      → Holds tmp 0 msg
      → length msg < buffer_size
      → length o.send_fds < max_fds
      → (buffer_size ≤ length pending + length msg → send pending o.send_fds ≡ pos (length pending))
      → (o' : Outbox) × (append send o tmp (length msg) fd ≡ ok o') × Streamed o pending msg fd o'
  append-Streamed pending v h short few all =
      elim (Bool-cases (ltb (length pending + length msg) buffer_size)) [
        | inl fits ↦
            let lt = ltb→lt _ _ fits in
            let (o', run, q) =
              after_room o pending (no_flush send o pending v (length msg) lt (omega arith)) v h
                (omega (arith, lt)) few in
            (o', run, Queued-Streamed o o' pending msg fd q)
        | inr full ↦
            let le : buffer_size ≤ length pending + length msg = ground (arith, full) in
            let (o', run, q) =
              after_room (drained o pending) []
                (full_flush send o pending v (length msg) le (omega (arith, le, short)) (all le))
                (drained-IsOutbox o pending v) h (omega (arith, short)) (omega arith) in
            (o', run, drained-Streamed o o' pending msg fd q)
      ]

  -- Where a message needs a flush and this fails, `c_wl_connection_post` goes on all the same: a
  -- message that does not fit behind the pending bytes is written past the end of the buffer.
  pub append_unflushed :
      (pending : List ℕ) (k : ℕ)
      → IsOutbox o pending
      → Holds tmp 0 msg
      → 0 < length pending
      → buffer_size < length pending + length msg
      → send pending o.send_fds ≡ negsuc k
      → append send o tmp (length msg) fd ≡ undefined
  unfolding append
  append_unflushed pending k v h some_bytes over fails =
      rw
        (
          failed_flush send o pending v (length msg) k (omega arith) some_bytes fails,
          copy_out_lem tmp 0 msg h,
          copy_in_past o.buffer o.size msg
              (omega (arith, v.size, v.len, length-le o.buffer 0 pending v.holds))
              (omega (arith, v.size, v.len)),
        )
        refl
