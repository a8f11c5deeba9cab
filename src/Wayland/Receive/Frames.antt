-- ===== src/Wayland/Receive/Frames.antt =====
-- A received buffer that holds whole messages.
use cuts.Base.{
  ℕ, zero, suc, ◌+◌, ◌-◌, ◌^◌, ◌≤◌, ◌<◌, ◌≡◌, refl, ◌∙◌, inl, inr, true, false, none, List, [], ◌∷◌,
  ◌++◌, arith, ltb, lt→ltb, Bool-cases, ok, undefined, ◌>>=◌, >>=-cong, pos,
}
use mathlib.Core.List.{append_assoc, append-nil}
use cuts.Base.Bytes.{Bytes}
use cuts.Base.Lists.{length, length-append}
use cuts.Wayland.Wire.Region.{Holds}
use cuts.Wayland.Wire.Numbers.{le32, le16, read_u32_lem, read_u16_lem}
use cuts.Wayland.Message.{Arg, header_size}
use cuts.Wayland.Message.Laws.{HoldsArgs, total_size}
use cuts.Wayland.Dispatch.{Header, Server, Interface}
use cuts.Wayland.Receive.{
  Message, messages, CallbackInterface, read_header, is_sync, split, split_round, Next,
  run_messages, all_done, determined, finish, rounds, connection_dispatch, max_messages, put_at,
}

-- A request of a client.
pub record Incoming : Type 0 where
  pub object_id : ℕ
  pub op : ℕ
  pub args : List Arg

abbrev pub message_size : Incoming → ℕ
message_size r = header_size + total_size r.args

abbrev pub header_of : Incoming → Header
header_of r = record { object_id = r.object_id; op = r.op; message_size = message_size r }

-- Its numbers fit the header, and it is not `wl_display.sync`.
pub record IsPlain (r : Incoming) : Type 0 where
  pub id : r.object_id < 2 ^ 32
  pub op : r.op < 2 ^ 16
  pub size : message_size r < 2 ^ 16
  pub no_sync : is_sync (header_of r) ≡ false

abbrev pub AllPlain : List Incoming → Type 0
AllPlain [] = Unit
AllPlain (r ∷ rs) = IsPlain r × AllPlain rs

-- The message of a request stands in the buffer from `base` on.
abbrev pub HoldsMessage : Bytes → ℕ → Incoming → Type 0
HoldsMessage b base r =
    Holds b base (le32 r.object_id)
    × Holds b (base + 4) (le16 r.op)
    × Holds b (base + 6) (le16 (message_size r))
    × HoldsArgs b (base + header_size) r.args

abbrev pub HoldsMessages : Bytes → ℕ → List Incoming → Type 0
HoldsMessages b base [] = Unit
HoldsMessages b base (r ∷ rs) = HoldsMessage b base r × HoldsMessages b (base + message_size r) rs

abbrev pub total : List Incoming → ℕ
total [] = 0
total (r ∷ rs) = message_size r + total rs

abbrev pub placed : ℕ → List Incoming → List Message
placed base [] = []
placed base (r ∷ rs) = (header_of r, base) ∷ placed (base + message_size r) rs

pub total_pos : (rs : List Incoming) → 0 < length rs → 0 < total rs
total_pos [] h = absurd (omega arith)
total_pos (r ∷ rs) h = omega arith

read_header_lem :
    (b : Bytes) (base : ℕ) (r : Incoming)
    → IsPlain r
    → HoldsMessage b base r
    → read_header b base ≡ ok (header_of r)
unfolding read_header
read_header_lem b base r plain (id, op, size, _) =
    rw
      (
        read_u32_lem b base r.object_id plain.id id,
        read_u16_lem b (base + 4) r.op plain.op op,
        read_u16_lem b (base + 6) (message_size r) plain.size size,
      )
      refl

put_past : {A : Type 0} (n : ℕ) (xs : List A) (x : A) → length xs ≡ n → put_at n xs x ≡ undefined
put_past n xs x full = let e : ltb (length xs) n ≡ false = ground arith in rw e refl

module _ {W : Type 0} (interface_of : ℕ → Interface W) (wl_callback : CallbackInterface) (b : Bytes)
    (received : ℕ) (s : Server W) where
  pub round_lem :
      (next : Next W) (msgs : List Message) (ids : List ℕ) (base : ℕ) (r : Incoming)
      → IsPlain r
      → HoldsMessage b base r
      → base + message_size r ≤ received
      → length msgs < max_messages
      → split_round interface_of wl_callback next b received msgs ids base s
        ≡ next (msgs ++ (header_of r, base) ∷ []) ids (base + message_size r) s
  unfolding split_round
  round_lem next msgs ids base r plain holds fits few =
      let long : ltb (received - base) header_size ≡ false = ground arith in
      let free : ltb max_messages (length msgs) ≡ false = ground arith in
      rw (long, free, read_header_lem b base r plain holds, lt→ltb _ _ few, plain.no_sync) refl

  -- A message that finds the array full passes the test against its size and is stored behind it.
  pub full_lem :
      (next : Next W) (msgs : List Message) (ids : List ℕ) (base : ℕ) (r : Incoming)
      → IsPlain r
      → HoldsMessage b base r
      → base + message_size r ≤ received
      → length msgs ≡ max_messages
      → split_round interface_of wl_callback next b received msgs ids base s ≡ undefined
  unfolding split_round
  full_lem next msgs ids base r plain holds fits full =
      let long : ltb (received - base) header_size ≡ false = ground arith in
      let passes : ltb max_messages (length msgs) ≡ false = ground arith in
      rw
        (
          long,
          passes,
          read_header_lem b base r plain holds,
          put_past max_messages msgs (header_of r, base) full,
        )
        refl

  -- The loop goes through a buffer of whole messages, none of them a sync request, and leaves them in
  -- their order behind those it had.
  split_lem :
      (fuel : ℕ) (msgs : List Message) (ids : List ℕ) (base : ℕ) (rs : List Incoming)
      → AllPlain rs
      → HoldsMessages b base rs
      → base + total rs ≡ received
      → length msgs + length rs ≤ max_messages
      → length rs < fuel
      → split interface_of wl_callback fuel b received msgs ids base s
        ≡ ok (messages (msgs ++ placed base rs) ids s)
  unfolding split
  split_lem zero msgs ids base rs plain holds all few enough = absurd (omega arith)
  split_lem (suc fuel) msgs ids base [] plain holds all few enough =
      let e : ltb base received ≡ false = ground arith in rw (e, append-nil msgs) refl
  split_lem (suc fuel) msgs ids base (r ∷ rs) (plain, plains) (holds, rest) all few enough =
      let more : ltb base received ≡ true = ground arith in
      let msgs' = msgs ++ (header_of r, base) ∷ [] in
      rw
        (
          more,
          round_lem (split interface_of wl_callback fuel b received) msgs ids base r plain holds
              (omega arith) (omega arith),
          split_lem fuel msgs' ids (base + message_size r) rs plains rest (omega arith)
              (omega (arith, length-append {A = Message} msgs ((header_of r, base) ∷ [])))
              (omega arith),
          append_assoc msgs ((header_of r, base) ∷ []) (placed (base + message_size r) rs),
        )
        refl

module _ {W : Type 0} (interface_of : ℕ → Interface W) (wl_callback : CallbackInterface) (b : Bytes)
    (fds : List ℕ) where
  pub some_bytes :
      (n : ℕ) (s : Server W)
      → 0 < n
      → connection_dispatch interface_of wl_callback b (pos n) fds s ≡ (
          split interface_of wl_callback rounds b n [] [] 0 s >>= λ result.
          finish interface_of b fds result)
  unfolding connection_dispatch
  some_bytes zero s h = absurd (omega arith)
  some_bytes (suc n) s h = refl

  no_sync_finish :
      (msgs : List Message) (s : Server W)
      → finish interface_of b fds (messages msgs [] s)
        ≡ (run_messages interface_of none b msgs fds s >>= λ (ret, _, s'). determined ret s')
  unfolding finish all_done
  no_sync_finish msgs s =
      >>=-cong (run_messages interface_of none b msgs fds s)
        (λ (ret, fatal, s'). elim (Bool-cases fatal) [ inl e ↦ rw e refl | inr e ↦ rw e refl ])

-- A buffer that the client filled with at most 128 whole messages, none of them a sync request: they
-- are dispatched from its start on, each at its place and with the descriptors that those in front
-- of it left, until one is a protocol error or fatal; the result is the status of the last one that
-- was dispatched.
pub connection_dispatch-run_messages :
    {W : Type 0} (interface_of : ℕ → Interface W) (wl_callback : CallbackInterface) (b : Bytes)
    (fds : List ℕ) (s : Server W) (rs : List Incoming)
    → AllPlain rs
    → HoldsMessages b 0 rs
    → length rs ≤ max_messages
    → 0 < length rs
    → connection_dispatch interface_of wl_callback b (pos (total rs)) fds s
      ≡ (run_messages interface_of none b (placed 0 rs) fds s >>= λ (ret, _, s'). determined ret s')
connection_dispatch-run_messages interface_of wl_callback b fds s rs plain holds few some_request =
    let enough : length rs < rounds = omega arith in
    some_bytes interface_of wl_callback b fds (total rs) s (total_pos rs some_request)
    ∙ rw
        (split_lem interface_of wl_callback b (total rs) s rounds [] [] 0 rs plain holds
          (omega arith) (omega arith) enough)
        (no_sync_finish interface_of wl_callback b fds (placed 0 rs) s)
