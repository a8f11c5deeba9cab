-- ===== src/Wayland/Receive/Rounds.antt =====
-- The rounds of the loop of `c_wl_connection_dispatch` that splits what was received.
use cuts.Base.{
  ℕ, zero, suc, ◌+◌, ◌-◌, ◌≤◌, ◌<◌, ◌≡◌, inl, inr, Option, none, some, List, [], ◌∷◌, arith, ltb,
  ltb→lt, Bool-cases, Exec, ok, Ends, faults, >>=-Ends, if-Ends, EndsIn, returns_in, faults_in,
  bind-Ends, option-EndsIn, bind-EndsIn, then-EndsIn, ℤ, pos, negsuc,
}
use cuts.Base.Bytes.{Bytes}
use cuts.Base.Lists.{length, length-append}
use cuts.Wayland.Message.{header_size}
use cuts.Wayland.Objects.Rounds.{object_get-Ends, object_add-Ends}
use cuts.Wayland.Wire.Rounds.{read_u32-Ends}
use cuts.Wayland.Dispatch.{Header, Server, Interface, dispatch, proto_err}
use cuts.Wayland.Dispatch.Rounds.{InterfaceEnds, dispatch-Ends}
use cuts.Wayland.Receive.{
  Message, Split, messages, CallbackInterface, is_sync, sync, sync_new, split, split_round, Next,
  run_messages, determined, finish, rounds, connection_dispatch, max_messages, max_sync, put_at,
}
use cuts.Wayland.Receive.Parts.{read_header-Ends, all_done-Ends}

put_at-EndsIn :
    {A : Type 0} (size : ℕ) (xs : List A) (x : A)
    → EndsIn (λ ys. (length ys ≡ length xs + 1) × (length ys ≤ size)) (put_at size xs x)
put_at-EndsIn size xs x = elim (Bool-cases (ltb (length xs) size)) [
  | inl e ↦
      let grown = length-append xs (x ∷ []) in
      let lt = ltb→lt _ _ e in rw e (returns_in (omega (arith, grown), omega (arith, grown, lt)))
  | inr e ↦ rw e faults_in
]

determined-Ends : {W : Type 0} (ret : Option ℤ) (s : Server W) → Ends (determined ret s)
determined-Ends none s = faults
determined-Ends (some ret) s = Ends.returns

-- Room left for messages and for sync requests.
abbrev Room : ℕ → List Message → List ℕ → Type 0
Room fuel msgs ids =
    (length msgs ≤ max_messages)
    × (length ids ≤ max_sync)
    × (max_messages + max_sync < fuel + length msgs + length ids)

module _ {W : Type 0} (interface_of : ℕ → Interface W) (wl_callback : CallbackInterface) (b : Bytes)
    (handlers_end : (a : ℕ) → InterfaceEnds (interface_of a)) where
  every_dispatch :
      (header : Header) (base : ℕ) (fds : List ℕ) (s : Server W)
      → Ends (dispatch interface_of header b base fds s)
  every_dispatch header base fds s = dispatch-Ends interface_of handlers_end header b base fds s

  -- A round goes on only with one message or one sync request more.
  abbrev GoesOn : ℕ → Next W → Type 0
  GoesOn fuel next =
      (msgs : List Message) (ids : List ℕ) (base : ℕ) (s : Server W)
      → Room fuel msgs ids
      → Ends (next msgs ids base s)

  -- None for the early return, or one request more.
  abbrev OneMore : List ℕ → Option (List ℕ) × Server W → Type 0
  OneMore ids (none, s) = Unit
  OneMore ids (some ids', s) = (length ids' ≡ length ids + 1) × (length ids' ≤ max_sync)

  sync_new-EndsIn :
      (id : ℕ) (header : Header) (base : ℕ) (ids : List ℕ) (s : Server W)
      → EndsIn (OneMore ids) (sync_new interface_of wl_callback id header b base ids s)
  unfolding sync_new
  sync_new-EndsIn id header base ids s =
      then-EndsIn (object_add-Ends s.registry id _ _ none) λ (registry, _).
        bind-EndsIn (put_at-EndsIn max_sync ids id) λ ids' more.
          then-EndsIn (every_dispatch header base [] (record s { registry = registry }))
            λ _. returns_in more

  sync-EndsIn :
      (header : Header) (base : ℕ) (ids : List ℕ) (s : Server W)
      → EndsIn (OneMore ids) (sync interface_of wl_callback header b base ids s)
  unfolding sync
  sync-EndsIn header base ids s = then-EndsIn (read_u32-Ends b (base + header_size)) λ (id, _).
      then-EndsIn (object_get-Ends s.registry id)
        λ old. option-EndsIn old (sync_new-EndsIn id header base ids s) λ _. returns_in tt

  after_sync-Ends :
      (fuel : ℕ) (next : Next W) (msgs : List Message) (ids : List ℕ) (base : ℕ)
      (r : Option (List ℕ) × Server W)
      → GoesOn fuel next
      → Room (suc fuel) msgs ids
      → OneMore ids r
      → Ends (elim r.0 [
        | none ↦ ok (Split.returns proto_err r.1)
        | some ids' ↦ next msgs ids' base r.1
      ])
  after_sync-Ends fuel next msgs ids base (none, s) goes room more = Ends.returns
  after_sync-Ends fuel next msgs ids base (some ids', s) goes room more =
      goes msgs ids' base s (omega (arith, room, more))

  round-Ends :
      (fuel : ℕ) (next : Next W) (received : ℕ) (msgs : List Message) (ids : List ℕ) (base : ℕ)
      (s : Server W)
      → GoesOn fuel next
      → Room (suc fuel) msgs ids
      → Ends (split_round interface_of wl_callback next b received msgs ids base s)
  unfolding split_round
  round-Ends fuel next received msgs ids base s goes room =
      if-Ends (ltb (received - base) header_size) Ends.returns (
        if-Ends (ltb max_messages (length msgs)) Ends.returns (
          >>=-Ends (read_header-Ends b base) λ header.
            let base' = base + header.message_size in
            bind-Ends (put_at-EndsIn max_messages msgs (header, base)) λ msgs' more.
              if-Ends (is_sync header)
                (bind-Ends (sync-EndsIn header base ids s)
                  λ r stored. after_sync-Ends fuel next msgs ids base' r goes room stored)
                (goes msgs' ids base' s (omega (arith, room, more)))))

  split-Ends :
      (fuel received : ℕ) (msgs : List Message) (ids : List ℕ) (base : ℕ) (s : Server W)
      → Room fuel msgs ids
      → Ends (split interface_of wl_callback fuel b received msgs ids base s)
  unfolding split
  split-Ends zero received msgs ids base s room = absurd (omega arith)
  split-Ends (suc fuel) received msgs ids base s room =
      if-Ends (ltb base received)
        (round-Ends fuel (split interface_of wl_callback fuel b received) received msgs ids base s
          (split-Ends fuel received) room)
        Ends.returns

  status_Ends :
      (status : ℤ) {A : Type 0} {rest x y : Exec A}
      → Ends rest
      → Ends x
      → Ends y
      → Ends (elim status [
        | pos _ ↦ rest
        | negsuc zero ↦ x
        | negsuc (suc zero) ↦ y
        | negsuc (suc (suc _)) ↦ rest
      ])
  status_Ends (pos n) r x y = r
  status_Ends (negsuc zero) r x y = x
  status_Ends (negsuc (suc zero)) r x y = y
  status_Ends (negsuc (suc (suc n))) r x y = r

  run_messages-Ends :
      (ret : Option ℤ) (msgs : List Message) (fds : List ℕ) (s : Server W)
      → Ends (run_messages interface_of ret b msgs fds s)
  unfolding run_messages
  run_messages-Ends ret [] fds s = Ends.returns
  run_messages-Ends ret ((header, base) ∷ msgs) fds s =
      >>=-Ends (every_dispatch header base fds s) λ (status, fds', s').
        status_Ends status (run_messages-Ends (some status) msgs fds' s') Ends.returns Ends.returns

  finish-Ends : (fds : List ℕ) (result : Split W) → Ends (finish interface_of b fds result)
  unfolding finish
  finish-Ends fds (Split.returns ret s) = Ends.returns
  finish-Ends fds (messages msgs ids s) =
      >>=-Ends (run_messages-Ends none msgs fds s) λ (ret, fatal, s').
        if-Ends fatal (determined-Ends ret s')
          (>>=-Ends (all_done-Ends ids s') λ s''. determined-Ends ret s'')

  -- Where no handler runs out of fuel, `rounds` is fuel enough: the call returns, aborts or is
  -- undefined. Each round of the split loop stores a message or a sync request, also for messages of
  -- size 0, and a store past the end of the arrays for these is undefined.
  pub connection_dispatch-Ends :
      (received : ℤ) (fds : List ℕ) (s : Server W)
      → Ends (connection_dispatch interface_of wl_callback b received fds s)
  unfolding connection_dispatch
  connection_dispatch-Ends (negsuc k) fds s = Ends.returns
  connection_dispatch-Ends (pos zero) fds s = Ends.returns
  connection_dispatch-Ends (pos (suc n)) fds s =
      >>=-Ends (split-Ends rounds (suc n) [] [] 0 s (omega arith)) λ result. finish-Ends fds result
