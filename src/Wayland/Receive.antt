-- ===== src/Wayland/Receive.antt =====
-- wayland/server.c: `c_wl_connection_dispatch`. What `recvmsg` wrote into the buffer, how many bytes
-- and descriptors that are, and the interface of `wl_callback` are parameters.
pub mod Frames
mod Parts
pub mod Rounds
pub mod Faults
use cuts.Base.{
  ℕ, zero, suc, ◌+◌, ◌-◌, ◌^◌, Bool, true, false, ◌&&◌, Option, none, some, List, [], ◌∷◌, ◌++◌,
  map, ltb, ◌==◌, if◌then◌else◌, Exec, ok, undefined, out_of_fuel, ◌>>=◌, ◌>>◌, ℤ, pos, negsuc,
}
use cuts.Base.Bytes.{Bytes}
use cuts.Base.Lists.{length}
use cuts.Wayland.Wire.{read_u32, read_u16}
use cuts.Wayland.Message.{header_size}
use cuts.Wayland.Objects.{object_add, object_get, object_del}
use cuts.Wayland.Dispatch.{
  Header, Server, Interface, Event, done, registry_effect, dispatch, error_set, proto_err,
  fatal_err, client_err, invalid_object,
}

-- `LENGTH(msgs)`: 2048 bytes by the 16 of a `struct message`
abbrev pub max_messages : ℕ
max_messages = 128

-- The size of `sync_requests`
abbrev pub max_sync : ℕ
max_sync = 16

-- `struct message`: the header, and where in the buffer the message begins
abbrev pub Message : Type 0
Message = Header × ℕ

-- The `memcpy` of a header, field by field
unfoldable pub read_header : Bytes → ℕ → Exec Header
read_header b base = do
  (object_id, _) ← read_u32 b base
  (op, _) ← read_u16 b (base + 4)
  (message_size, _) ← read_u16 b (base + 6)
  ok (record { object_id = object_id; op = op; message_size = message_size })

-- `wl_display.sync`
abbrev pub is_sync : Header → Bool
is_sync header = header.object_id == 1 && header.op == 0

-- A write past the end of an array is undefined.
abbrev pub put_at {ℓ} : {A : Type ℓ} → ℕ → List A → A → Exec (List A)
put_at size xs x = if ltb (length xs) size then ok (xs ++ x ∷ []) else undefined

-- `c_wl_serial`: the addition overflows at the largest `int`.
unfoldable pub next_serial : {W : Type 0} → Server W → Exec (ℕ × Server W)
next_serial s =
    if ltb s.serial (2 ^ 31 - 1)
    then ok (s.serial, record s { serial = s.serial + 1 })
    else undefined

-- `c_wl_connection_callback_done`
unfoldable pub callback_done : {W : Type 0} → ℕ → Server W → Exec (Server W)
unfolding next_serial
callback_done id s = do
  (serial, s') ← next_serial s
  (registry, _, effects) ← object_del s'.registry id
  ok (record s' {
    registry = registry;
    events = s'.events ++ (done id serial ∷ map registry_effect effects);
  })

unfoldable pub all_done : {W : Type 0} → List ℕ → Server W → Exec (Server W)
all_done [] s = ok s
all_done (id ∷ ids) s = do s' ← callback_done id s; all_done ids s'

-- How the loop that splits the buffer ends: at its end, or by a `return`.
pub data Split (W : Type 0) : Type 0 where
  messages : List Message → (sync_requests : List ℕ) → Server W → Split W
  returns : ℤ → Server W → Split W

-- What `wl_callback` is: its address and version
pub record CallbackInterface : Type 0 where
  pub address : ℕ
  pub version : ℕ

-- The rest of the loop goes on with the messages, the sync requests and the new offset.
abbrev pub Next : Type 0 → Type 0
Next W = List Message → List ℕ → ℕ → Server W → Exec (Split W)

-- `return ret`, read by the caller
abbrev pub determined : {W : Type 0} → Option ℤ → Server W → Exec (ℤ × Server W)
determined none s = undefined
determined (some ret) s = ok (ret, s)

-- Each round stores a message or a sync request, or ends the loop.
abbrev pub rounds : ℕ
rounds = max_messages + max_sync + 2

module _ {W : Type 0} (interface_of : ℕ → Interface W) where
  -- The messages in their order. `ret` is indeterminate, `none`, until the first is dispatched. A
  -- fatal error skips what comes after the loop, as the last component says.
  unfoldable pub run_messages :
      Option ℤ → Bytes → List Message → List ℕ → Server W → Exec (Option ℤ × Bool × Server W)
  run_messages ret b [] fds s = ok (ret, false, s)
  run_messages ret b ((header, base) ∷ msgs) fds s = do
    (status, fds', s') ← dispatch interface_of header b base fds s
    let rest = run_messages (some status) b msgs fds' s'
    elim status [
      | pos _ ↦ rest
      | negsuc zero ↦ ok (some proto_err, false, s')
      | negsuc (suc zero) ↦ ok (some fatal_err, true, s')
      | negsuc (suc (suc _)) ↦ rest
    ]

  unfoldable pub finish : Bytes → List ℕ → Split W → Exec (ℤ × Server W)
  finish b fds (returns ret s) = ok (ret, s)
  finish b fds (messages msgs sync_requests s) = do
    (ret, fatal, s') ← run_messages none b msgs fds s
    if fatal then determined ret s' else (do s'' ← all_done sync_requests s'; determined ret s'')

module _ {W : Type 0} (interface_of : ℕ → Interface W) (wl_callback : CallbackInterface) where
  -- What `wl_display.sync` does with a new id.
  unfoldable pub sync_new :
      ℕ → Header → Bytes → ℕ → List ℕ → Server W → Exec (Option (List ℕ) × Server W)
  sync_new id header b base sync_requests s = do
    (registry, _) ← object_add s.registry id wl_callback.version (some wl_callback.address) none
    sync_requests' ← put_at max_sync sync_requests id
    (_, _, s') ← dispatch interface_of header b base [] (record s { registry = registry })
    ok (some sync_requests', s')

  -- The branch for `wl_display.sync`; `none` is the early return.
  unfoldable pub sync : Header → Bytes → ℕ → List ℕ → Server W → Exec (Option (List ℕ) × Server W)
  sync header b base sync_requests s = do
    (id, _) ← read_u32 b (base + header_size)
    old ← object_get s.registry id
    elim old [
      | some _ ↦ ok (none, error_set 1 invalid_object s)
      | none ↦ sync_new id header b base sync_requests s
    ]

  -- One round of the loop.
  unfoldable pub split_round :
      Next W → Bytes → ℕ → List Message → List ℕ → ℕ → Server W → Exec (Split W)
  split_round next b received msgs sync_requests base s =
      if ltb (received - base) header_size
      then ok (returns client_err s)
      else if ltb max_messages (length msgs)
      then ok (returns client_err s)
      else (do
        header ← read_header b base
        msgs' ← put_at max_messages msgs (header, base)
        if is_sync header
            then (do
              (sync', s') ← sync header b base sync_requests s
              elim sync' [
                | none ↦ ok (returns proto_err s')
                | some ids ↦ next msgs ids (base + header.message_size) s'
              ])
            else next msgs' sync_requests (base + header.message_size) s)

  unfoldable pub split : ℕ → Bytes → ℕ → List Message → List ℕ → ℕ → Server W → Exec (Split W)
  split zero b received msgs sync_requests base s = out_of_fuel
  split (suc fuel) b received msgs sync_requests base s =
      if ltb base received
      then split_round (split fuel b received) b received msgs sync_requests base s
      else ok (messages msgs sync_requests s)

  -- `received` is the result of `connection_read`.
  unfoldable pub connection_dispatch : Bytes → ℤ → List ℕ → Server W → Exec (ℤ × Server W)
  connection_dispatch b (negsuc k) fds s = ok (client_err, s)
  connection_dispatch b (pos zero) fds s = ok (client_err, s)
  connection_dispatch b (pos (suc n)) fds s = do
    result ← split rounds b (suc n) [] [] 0 s
    finish interface_of b fds result
