-- ===== src/Examples/Outboxes.antt =====
-- wayland/server.c: an outbox with three bytes and a descriptor to send.
use cuts.Base.{ℕ, zero, suc, ◌+◌, ◌≤◌, ◌≡◌, refl, List, [], ◌∷◌, ◌++◌, arith, ok, ℤ, pos, negsuc}
use cuts.Base.Bytes.{Bytes, zeros}
use cuts.Base.Lists.{length, replicate}
use cuts.Wayland.Wire.{padded4}
use cuts.Wayland.Wire.Region.{Holds}
use cuts.Wayland.Message.{Arg, u_val, s_val, fd_val}
use cuts.Wayland.Outbox.{Outbox, flush, post}
use cuts.Wayland.Outbox.Flush.{IsOutbox, flush_partial}
use cuts.Wayland.Outbox.Append.{Streamed}
use cuts.Wayland.Outbox.Post.{IsMessage, post-Streamed}

abbrev counting : Bytes
counting = record { len = 2048; at = λ i. i }

abbrev with_fds : List ℕ → Outbox
with_fds fds = record {
  buffer = counting;
  size = 3;
  send_fds = fds;
  taken = [];
  passed = [];
  closed = [];
}

abbrev waiting : Outbox
waiting = with_fds (9 ∷ [])

abbrev three : List ℕ
three = 0 ∷ 1 ∷ 2 ∷ []

three-Holds : Holds counting 0 three
three-Holds = (refl, omega arith, (refl, omega arith, (refl, omega arith, tt)))

waiting-IsOutbox : IsOutbox waiting three
waiting-IsOutbox = record { len = refl; size = refl; holds = three-Holds; fds = omega arith }

abbrev takes_all : List ℕ → List ℕ → ℤ
takes_all bytes fds = pos (length bytes)

abbrev takes_two : List ℕ → List ℕ → ℤ
takes_two bytes fds = pos 2

abbrev fails : List ℕ → List ℕ → ℤ
fails bytes fds = negsuc 0

flush_partial_example :
    (o' : Outbox) × (flush takes_two waiting ≡ ok (pos 2, o'))
    × IsOutbox o' (3 ∷ [])
    × (o'.taken ≡ 0 ∷ 1 ∷ [])
flush_partial_example =
    flush_partial takes_two waiting three waiting-IsOutbox 2 (3 ∷ []) (omega arith) refl
      (omega arith) (refl, omega arith, tt) (omega arith) refl

zeros-Holds : (offset n : ℕ) → offset + n ≤ 2048 → Holds (zeros 2048) offset (replicate n 0)
zeros-Holds offset zero h = tt
zeros-Holds offset (suc n) h = (refl, omega arith, zeros-Holds (offset + 1) n (omega arith))

abbrev event : List Arg
event = u_val 7 ∷ s_val (104 ∷ 105 ∷ []) ∷ fd_val 12 ∷ []

post-Streamed_example :
    (msg : List ℕ) × (o' : Outbox) × (post takes_all waiting (zeros 2048) 3 5 event ≡ ok o')
    × IsMessage 3 5 event msg
    × Streamed waiting three msg 12 o'
    × (o'.passed ++ o'.send_fds ≡ 9 ∷ 12 ∷ [])
unfolding padded4 cuts.Wayland.Message.event_fd
post-Streamed_example =
    post-Streamed takes_all waiting three (zeros 2048) 3 5 event waiting-IsOutbox refl (omega arith)
      (omega arith) (omega arith) (omega arith) (omega arith) (omega arith, tt) (omega arith)
      (λ h. refl)
