-- ===== src/Wayland/Outbox/Post.antt =====
-- `c_wl_connection_post`: the encoded message in the outbox.
use cuts.Base.{
  ℕ, zero, suc, ◌+◌, ◌^◌, ◌≤◌, ◌<◌, ◌≡◌, refl, ap, ◌∙◌, subst, List, [], ◌∷◌, ◌++◌, map, arith, ok,
  ok_injective, ℤ, pos,
}
use cuts.Base.Bytes.{Bytes}
use cuts.Base.Lists.{length}
use cuts.Wayland.Wire.{read_u32, read_u16}
use cuts.Wayland.Wire.Region.{Holds}
use cuts.Wayland.Message.{
  Arg, u_val, i_val, f_val, o_val, n_val, s_val, e_val, fd_val, a_val, buffer_size, header_size,
  event_fd, decode_args,
}
use cuts.Wayland.Message.Laws.{AllSendable, total_size, kind_of, received, fds_of}
use cuts.Wayland.Message.Whole.{decode-encode}
use cuts.Wayland.Outbox.{Outbox, post, append, max_fds}
use cuts.Wayland.Outbox.Flush.{IsOutbox}
use cuts.Wayland.Outbox.Append.{Streamed, append-Streamed, with_fd}

-- The bytes are a message to the object `id` with these arguments: a buffer that holds them is read
-- back as such, whatever descriptors follow.
pub record IsMessage (id op : ℕ) (args : List Arg) (msg : List ℕ) : Type 0 where
  pub buffer : Bytes
  pub holds : Holds buffer 0 msg
  pub count : length msg ≡ header_size + total_size args
  pub to : read_u32 buffer 0 ≡ ok (id, 4)
  pub code : read_u16 buffer 4 ≡ ok (op, 6)
  pub size : read_u16 buffer 6 ≡ ok (header_size + total_size args, 8)
  pub back :
      (rest : List ℕ)
      → decode_args buffer header_size (fds_of args ++ rest) (map kind_of args)
        ≡ ok (map received args, header_size + total_size args, rest)

-- Every stretch of a buffer holds some bytes.
contents :
    (b : Bytes) (offset n : ℕ)
    → offset + n ≤ b.len
    → (vs : List ℕ) × (length vs ≡ n) × Holds b offset vs
contents b offset zero h = ([], refl, tt)
contents b offset (suc n) h =
    let (vs, count, holds) = contents b (offset + 1) n (omega arith) in
    (b.at offset ∷ vs, ap suc count, (refl, omega arith, holds))

-- The last of the numbers after `last`
abbrev last_of : ℕ → List ℕ → ℕ
last_of last [] = last
last_of last (v ∷ vs) = last_of v vs

event_fd_lem : (last : ℕ) (args : List Arg) → event_fd last args ≡ last_of last (fds_of args)
unfolding event_fd
event_fd_lem last [] = refl
event_fd_lem last (u_val v ∷ args) = event_fd_lem last args
event_fd_lem last (i_val z ∷ args) = event_fd_lem last args
event_fd_lem last (f_val z ∷ args) = event_fd_lem last args
event_fd_lem last (o_val v ∷ args) = event_fd_lem last args
event_fd_lem last (n_val v ∷ args) = event_fd_lem last args
event_fd_lem last (s_val bytes ∷ args) = event_fd_lem last args
event_fd_lem last (e_val v ∷ args) = event_fd_lem last args
event_fd_lem last (fd_val v ∷ args) = event_fd_lem v args
event_fd_lem last (a_val bytes ∷ args) = event_fd_lem last args

abbrev pub AllPositive : List ℕ → Type 0
AllPositive [] = Unit
AllPositive (v ∷ vs) = 0 < v × AllPositive vs

-- A single descriptor that is not 0 goes along as it is.
with_fd-last_of : (fds : List ℕ) → length fds ≤ 1 → AllPositive fds → with_fd (last_of 0 fds) ≡ fds
with_fd-last_of [] one positive = refl
with_fd-last_of (zero ∷ []) one (some_fd, _) = absurd (omega arith)
with_fd-last_of (suc v ∷ []) one positive = refl
with_fd-last_of (v ∷ w ∷ fds) one positive = absurd (omega arith)

-- An event to the object `id` whose arguments the loop of `dispatch` can read (no array, and texts
-- and numbers within their widths), with at most one descriptor, which is not 0, and a message
-- shorter than the buffer; at a time when fewer than 256 descriptors wait, and where the kernel
-- takes all pending bytes if they have to be flushed. Then the call ends; the bytes that are sent
-- or wait to be sent grow at their end by a message that reads back as this event, and the
-- descriptors grow at their end by those with which the message reads back.
pub post-Streamed :
    (send : List ℕ → List ℕ → ℤ) (o : Outbox) (pending : List ℕ) (tmp : Bytes) (id op : ℕ)
    (args : List Arg)
    → IsOutbox o pending
    → tmp.len ≡ buffer_size
    → id < 2 ^ 32
    → op < 2 ^ 16
    → AllSendable args
    → header_size + total_size args < buffer_size
    → length (fds_of args) ≤ 1
    → AllPositive (fds_of args)
    → length o.send_fds < max_fds
    → (buffer_size ≤ length pending + (header_size + total_size args)
        → send pending o.send_fds ≡ pos (length pending))
    → (msg : List ℕ) × (o' : Outbox) × (post send o tmp id op args ≡ ok o')
      × IsMessage id op args msg
      × Streamed o pending msg (event_fd 0 args) o'
      × (o'.passed ++ o'.send_fds ≡ o.passed ++ o.send_fds ++ fds_of args)
unfolding post
post-Streamed send o pending tmp id op args v len hid hop valid short one positive few all =
    let n = header_size + total_size args in
    let (b, run, to, code, size, _, blen) =
      decode-encode tmp id op args [] hid hop valid (omega arith) (omega arith) in
    let (msg, count, holds) = contents b 0 n (omega (arith, blen)) in
    let (o', sent, streamed) =
      append-Streamed send o b msg (event_fd 0 args) pending v holds (omega arith) few
        (λ h. all (omega arith)) in
    (
      msg,
      o',
      rw run (subst (λ k. append send o b k (event_fd 0 args) ≡ ok o') count sent),
      record {
        buffer = b;
        holds = holds;
        count = count;
        to = to;
        code = code;
        size = size;
        back = λ rest.
            let w = decode-encode tmp id op args rest hid hop valid (omega arith) (omega arith) in
            let same : (w.0, n) ≡ (b, n) = ok_injective w.1 run in
            subst
              (λ (p : Bytes × ℕ).
                decode_args p.0 header_size (fds_of args ++ rest) (map kind_of args)
                ≡ ok (map received args, n, rest))
              same w.5;
      },
      streamed,
      let along : with_fd (event_fd 0 args) ≡ fds_of args =
            rw (event_fd_lem 0 args) (with_fd-last_of (fds_of args) one positive) in
          streamed.fds ∙ ap (λ fds. o.passed ++ o.send_fds ++ fds) along,
    )
