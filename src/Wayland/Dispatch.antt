-- ===== src/Wayland/Dispatch.antt =====
-- wayland/server.c: a received buffer is split into messages, a message is decoded by the signature
-- of its request, and the request goes to the handlers of its interface. The interfaces, their
-- handlers and what `recvmsg` returns are parameters.
pub mod Handlers
pub mod Requests
pub mod Rounds
use cuts.Base.{
  ℕ, ◌+◌, Bool, true, false, ◌||◌, not, Option, none, some, List, [], ◌∷◌, ltb, ◌==◌, if◌then◌else◌,
  Exec, ok, undefined, ◌>>=◌, ◌>>◌, ℤ, pos, negsuc,
}
use cuts.Base.Bytes.{Bytes}
use cuts.Base.Lists.{length, get_elem?}
use cuts.Wayland.Wire.{read_u32, read_u16}
use cuts.Wayland.Message.{Kind, Arg, o_val, decode_args, header_size}
use cuts.Wayland.Objects.{Registry, Object, Effect, object_add, object_get, object_del}

-- `struct message_header`
pub record Header : Type 0 where
  pub object_id : ℕ
  pub op : ℕ
  pub message_size : ℕ

-- An error to be sent, as `_c_wl_error_set` keeps it: the object and the code.
pub record Error : Type 0 where
  pub object_id : ℕ
  pub code : ℕ

pub data Event : Type 0 where
  done : (id serial : ℕ) → Event
  registry_effect : Effect → Event
  posted : (id op : ℕ) → List Arg → Event

-- What the server keeps for a connection, and the state of the handlers.
pub record Server (W : Type 0) : Type 0 where
  pub registry : Registry
  pub error : Option Error
  pub serial : ℕ
  pub events : List Event
  pub world : W

abbrev pub Handler : Type 0 → Type 0
Handler W = List Arg → Server W → Exec (ℤ × Server W)

-- `struct c_wl_request`
pub record Request (W : Type 0) : Type 0 where
  pub signature : List Kind
  pub impl : Option (Handler W)

-- `struct c_wl_interface`; a callback is its table of handlers.
pub record Interface (W : Type 0) : Type 0 where
  pub destructor_request : ℤ
  pub requests : List (Request W)
  pub cb : Option (List (ℕ → Option (Handler W)))

-- The bits of `handlers_called`.
pub record Called : Type 0 where
  pub user_handler_d : Bool
  pub user_handler : Bool
  pub implementation_handler : Bool

abbrev pub proto_err : ℤ
proto_err = negsuc 0

abbrev pub fatal_err : ℤ
fatal_err = negsuc 1

abbrev pub client_err : ℤ
client_err = negsuc 2

abbrev pub is_zero : ℤ → Bool
is_zero (pos n) = n == 0
is_zero (negsuc n) = false

-- `destructor == op`
abbrev pub is_op : ℤ → ℕ → Bool
is_op (pos n) op = n == op
is_op (negsuc n) op = false

abbrev pub none_called : Called
none_called = record {
  user_handler_d = false;
  user_handler = false;
  implementation_handler = false;
}

-- `!handlers_called`
abbrev pub is_none_called : Called → Bool
is_none_called c = not (c.user_handler_d || c.user_handler || c.implementation_handler)

module _ {W : Type 0} where
  -- A handler that is not there leaves `status` at 0.
  unfoldable pub call : Option (Handler W) → Handler W
  call none args s = ok (pos 0, s)
  call (some handler) args s = handler args s

  -- `c_list_for_each(iface->cb, cb)`
  unfoldable pub run_callbacks :
      (Called → Called)
      → List (ℕ → Option (Handler W))
      → ℕ
      → List Arg
      → Called
      → Server W
      → Exec (ℤ × Called × Server W)
  unfolding call
  run_callbacks mark [] op args called s = ok (pos 0, called, s)
  run_callbacks mark (cb ∷ cbs) op args called s = do
    (status, s') ← call (cb op) args s
    if is_zero status
        then run_callbacks mark cbs op args (mark called) s'
        else ok (status, called, s')

  unfoldable pub run_cb :
      Bool
      → (Called → Called)
      → Interface W
      → ℕ
      → List Arg
      → Called
      → Server W
      → Exec (ℤ × Called × Server W)
  unfolding run_callbacks
  run_cb false mark iface op args called s = ok (pos 0, called, s)
  run_cb true mark iface op args called s = elim iface.cb [
    | none ↦ ok (pos 0, called, s)
    | some cbs ↦ run_callbacks mark cbs op args called s
  ]

  unfoldable pub run_impl :
      Option (Handler W) → List Arg → Called → Server W → Exec (ℤ × Called × Server W)
  run_impl none args called s = ok (pos 0, called, s)
  run_impl (some impl) args called s = do
    (status, s') ← impl args s
    ok (status, record called { implementation_handler = true }, s')

  -- `if (status) goto out`
  unfoldable pub unless_failed :
      ℤ × Called × Server W
      → (Called → Server W → Exec (ℤ × Called × Server W))
      → Exec (ℤ × Called × Server W)
  unless_failed (status, called, s) k =
      if is_zero status then k called s else ok (status, called, s)

  -- `iface->requests[op]`
  unfoldable pub request_at : Interface W → ℕ → Exec (Request W)
  request_at iface op = elim (get_elem? iface.requests op) [ none ↦ undefined | some r ↦ ok r ]

  unfoldable pub handle_request :
      Interface W → ℕ → List Arg → Called → Server W → Exec (ℤ × Called × Server W)
  unfolding run_cb run_impl unless_failed request_at
  handle_request iface op args called s = do
    request ← request_at iface op
    let destructor = is_op iface.destructor_request op
    first ← run_cb destructor (λ c. record c { user_handler_d = true }) iface op args called s
    unless_failed first λ called1 s1. do
      second ← run_impl request.impl args called1 s1
      unless_failed second λ called2 s2.
          run_cb (not destructor) (λ c. record c { user_handler = true }) iface op args called2 s2

  abbrev pub error_set : ℕ → ℕ → Server W → Server W
  error_set id code s = record s { error = some (record { object_id = id; code = code }) }

-- `WL_DISPLAY_ERROR_*`
abbrev pub invalid_object : ℕ
invalid_object = 0

abbrev pub invalid_method : ℕ
invalid_method = 1

module _ {W : Type 0} (interface_of : ℕ → Interface W) where
  -- `data` is the message in the buffer from `base` on. The result has the descriptors left.
  unfoldable pub dispatch : Header → Bytes → ℕ → List ℕ → Server W → Exec (ℤ × List ℕ × Server W)
  dispatch header b base fds s = do
    found ← object_get s.registry header.object_id
    elim found [
      | none ↦ ok (proto_err, fds, error_set header.object_id invalid_object s)
      | some obj ↦
          let iface = interface_of obj.iface in
          if ltb (length iface.requests) header.op
          then ok (proto_err, fds, error_set header.object_id invalid_method s)
          else (do
            request ← request_at iface header.op
            (args, _, fds') ← decode_args b (base + header_size) fds request.signature
            (status, called, s') ←
                handle_request iface header.op (o_val header.object_id ∷ args) none_called s
            ok (if is_none_called called then fatal_err else status, fds', s'))
    ]
