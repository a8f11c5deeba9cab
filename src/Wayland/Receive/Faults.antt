-- ===== src/Wayland/Receive/Faults.antt =====
-- What a client can send that `c_wl_connection_dispatch` does not guard against.
use cuts.Base.{
  ℕ, zero, suc, ◌+◌, ◌≤◌, ◌<◌, ◌≡◌, ap, ◌∙◌, inl, inr, true, List, [], ◌∷◌, ◌++◌, arith, ltb,
  ltb→lt, Bool-cases, undefined, ◌>>=◌, pos,
}
use cuts.Base.Bytes.{Bytes}
use cuts.Base.Lists.{length, length-append}
use cuts.Wayland.Dispatch.{Server, Interface}
use cuts.Wayland.Receive.{
  Message, CallbackInterface, split, rounds, connection_dispatch, max_messages, finish,
}
use cuts.Wayland.Receive.Frames.{
  Incoming, message_size, header_of, AllPlain, HoldsMessages, total, total_pos, round_lem, full_lem,
  some_bytes,
}

module _ {W : Type 0} (interface_of : ℕ → Interface W) (wl_callback : CallbackInterface) (b : Bytes)
    (received : ℕ) (s : Server W) where
  -- One message more than the array has places
  split_past :
      (fuel : ℕ) (msgs : List Message) (ids : List ℕ) (base : ℕ) (rs : List Incoming)
      → AllPlain rs
      → HoldsMessages b base rs
      → base + total rs ≡ received
      → length msgs ≤ max_messages
      → max_messages < length msgs + length rs
      → max_messages < length msgs + fuel
      → split interface_of wl_callback fuel b received msgs ids base s ≡ undefined
  unfolding split
  split_past fuel msgs ids base [] plain holds all few many enough = absurd (omega arith)
  split_past zero msgs ids base (r ∷ rs) plain holds all few many enough = absurd (omega arith)
  split_past (suc fuel) msgs ids base (r ∷ rs) (plain, plains) (holds, rest) all few many enough =
      let more : ltb base received ≡ true = ground arith in
      let msgs' = msgs ++ (header_of r, base) ∷ [] in
      elim (Bool-cases (ltb (length msgs) max_messages)) [
        | inl t ↦
            let less : length msgs < max_messages = ltb→lt _ _ t in
            rw
              (
                more,
                round_lem interface_of wl_callback b received s
                    (split interface_of wl_callback fuel b received) msgs ids base r plain holds
                    (omega arith) less,
              )
              (split_past fuel msgs' ids (base + message_size r) rs plains rest (omega arith)
                (omega (arith, length-append {A = Message} msgs ((header_of r, base) ∷ [])))
                (omega (arith, length-append {A = Message} msgs ((header_of r, base) ∷ [])))
                (omega (arith, length-append {A = Message} msgs ((header_of r, base) ∷ []))))
        | inr t ↦ rw more (
            full_lem interface_of wl_callback b received s
              (split interface_of wl_callback fuel b received) msgs ids base r plain holds
              (omega arith) (ground (arith, t)))
      ]

-- A buffer that the client filled with more than 128 whole messages, none of them a sync request: the
-- test against the number of places in `msgs` lets the 129th message pass, which is stored behind
-- the end of the array.
pub messages_overflow :
    {W : Type 0} (interface_of : ℕ → Interface W) (wl_callback : CallbackInterface) (b : Bytes)
    (fds : List ℕ) (s : Server W) (rs : List Incoming)
    → AllPlain rs
    → HoldsMessages b 0 rs
    → max_messages < length rs
    → connection_dispatch interface_of wl_callback b (pos (total rs)) fds s ≡ undefined
messages_overflow interface_of wl_callback b fds s rs plain holds many =
    some_bytes interface_of wl_callback b fds (total rs) s (total_pos rs (omega arith))
    ∙ ap (λ result. result >>= finish interface_of b fds)
        (split_past interface_of wl_callback b (total rs) s rounds [] [] 0 rs plain holds
          (omega arith) (omega arith) (omega arith) (omega arith))
