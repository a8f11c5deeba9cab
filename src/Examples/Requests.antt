-- ===== src/Examples/Requests.antt =====
-- wayland/server.c: a client asks for the registry.
use cuts.Base.{
  ℕ, zero, suc, ◌+◌, ◌*◌, ◌%◌, ◌≤◌, ◌≡◌, refl, ap, true, false, none, some, List, [], ◌∷◌, arith,
  ◌==◌, if◌then◌else◌, ok, undefined, ◌>>=◌, pos, negsuc,
}
use cuts.Base.Bytes.{Bytes, zeros, put}
use cuts.Base.Lists.{replicate}
use cuts.Util.Map.{Map}
use cuts.Wayland.Message.{Arg, n_val, o_val, new_id}
use cuts.Wayland.Objects.{Object, Registry, object_get}
use cuts.Wayland.Dispatch.{
  Server, Request, Interface, Handler, dispatch, handle_request, request_at, none_called,
  is_none_called, fatal_err,
}
use cuts.Wayland.Dispatch.Handlers.{run_slots, queue, handle_request-run_slots}
use cuts.Wayland.Dispatch.Requests.{dispatch_request, dispatch_past_requests}
use cuts.Wayland.Receive.{CallbackInterface, run_messages, determined, connection_dispatch}
use cuts.Wayland.Receive.Frames.{
  Incoming, IsPlain, header_of, placed, HoldsMessages, AllPlain, total,
  connection_dispatch-run_messages,
}
use cuts.Wayland.Receive.Faults.{messages_overflow}

abbrev World : Type 0
World = List (List Arg)

abbrev record_call : Handler World
record_call args s = ok (pos 0, record s { world = args ∷ s.world })

abbrev sync_request : Request World
sync_request = record { signature = new_id ∷ []; impl = some record_call }

abbrev display : Interface World
display = record {
  destructor_request = negsuc 0;
  requests = sync_request ∷ sync_request ∷ [];
  cb = some ((λ op. none) ∷ []);
}

abbrev interface_of : ℕ → Interface World
interface_of a = display

abbrev object : Object
object = record { id = 1; version = 1; iface = 500; object_data = none }

abbrev registry : Registry
registry = record {
  objects = record {
    pairs = λ i. if i == 1 then record { copied = true; key = 1; value = some object } ∷ [] else [];
    size = 1024;
  };
  client_id_pool = record { bytes = put (zeros 512) 0 1; size = 4096 };
  server_id_pool = record { bytes = zeros 512; size = 4096 };
}

abbrev server : Server World
server = record { registry = registry; error = none; serial = 1; events = []; world = [] }

display_found : object_get registry 1 ≡ ok (some object)
unfolding object_get cuts.Util.Map.get cuts.Util.Map.find_pair
display_found = refl

-- The bytes of a list, and then 0.
abbrev byte_at : List ℕ → ℕ → ℕ
byte_at [] i = 0
byte_at (x ∷ xs) zero = x
byte_at (x ∷ xs) (suc i) = byte_at xs i

abbrev received : List ℕ → Bytes
received bytes = record { len = 2048; at = byte_at bytes }

-- `wl_display.get_registry`, with the new id 2
abbrev get_registry : Incoming
get_registry = record { object_id = 1; op = 1; args = n_val 2 ∷ [] }

abbrev registry_bytes : Bytes
registry_bytes = received (1 ∷ 0 ∷ 0 ∷ 0 ∷ 1 ∷ 0 ∷ 12 ∷ 0 ∷ 2 ∷ 0 ∷ 0 ∷ 0 ∷ [])

abbrev wl_callback : CallbackInterface
wl_callback = record { address = 600; version = 1 }

handle_request-run_slots_example : handle_request display 1 (o_val 1 ∷ []) none_called server ≡ (
    request_at display 1 >>= λ request.
    run_slots false (queue false display 1 request) (o_val 1 ∷ []) none_called server)
handle_request-run_slots_example =
    handle_request-run_slots display 1 (o_val 1 ∷ []) none_called server

dispatch_request_example :
    dispatch interface_of (header_of get_registry) registry_bytes 0 (4 ∷ []) server ≡ (
      handle_request display 1 (o_val 1 ∷ n_val 2 ∷ []) none_called server
      >>= λ (status, called, s').
          ok (if is_none_called called then fatal_err else status, 4 ∷ [], s'))
dispatch_request_example =
    dispatch_request interface_of (header_of get_registry) registry_bytes 0 server object
      sync_request (n_val 2 ∷ []) (4 ∷ []) display_found refl refl (omega arith) (omega arith)

dispatch_past_requests_example :
    dispatch interface_of
      (record { object_id = 1; op = 2; message_size = 8 })
      registry_bytes
      0
      []
      server
    ≡ undefined
dispatch_past_requests_example =
    dispatch_past_requests interface_of (record { object_id = 1; op = 2; message_size = 8 })
      registry_bytes 0 server [] object display_found refl

get_registry-IsPlain : IsPlain get_registry
get_registry-IsPlain = record {
  id = omega arith;
  op = omega arith;
  size = omega arith;
  no_sync = refl;
}

registry_bytes-HoldsMessages : HoldsMessages registry_bytes 0 (get_registry ∷ [])
registry_bytes-HoldsMessages = omega arith

connection_dispatch-run_messages_example :
    connection_dispatch interface_of wl_callback registry_bytes (pos 12) (4 ∷ []) server ≡ (
      run_messages interface_of none registry_bytes (placed 0 (get_registry ∷ [])) (4 ∷ []) server
      >>= λ (ret, _, s'). determined ret s')
connection_dispatch-run_messages_example =
    connection_dispatch-run_messages interface_of wl_callback registry_bytes (4 ∷ []) server
      (get_registry ∷ []) (get_registry-IsPlain, tt) registry_bytes-HoldsMessages (omega arith)
      (omega arith)

-- 129 times a message of eight bytes to the object 1, the request 1 without arguments
abbrev short : Incoming
short = record { object_id = 1; op = 1; args = [] }

abbrev pattern_at : ℕ → ℕ
pattern_at i = byte_at (1 ∷ 0 ∷ 0 ∷ 0 ∷ 1 ∷ 0 ∷ 8 ∷ 0 ∷ []) (i % 8)

abbrev many_bytes : Bytes
many_bytes = record { len = 2048; at = pattern_at }

short-IsPlain : IsPlain short
short-IsPlain = record { id = omega arith; op = omega arith; size = omega arith; no_sync = refl }

AllPlain-replicate : (k : ℕ) → AllPlain (replicate k short)
AllPlain-replicate zero = tt
AllPlain-replicate (suc k) = (short-IsPlain, AllPlain-replicate k)

byte_lem : (x k : ℕ) → x % 8 ≡ k → pattern_at x ≡ byte_at (1 ∷ 0 ∷ 0 ∷ 0 ∷ 1 ∷ 0 ∷ 8 ∷ 0 ∷ []) k
byte_lem x k = ap (byte_at (1 ∷ 0 ∷ 0 ∷ 0 ∷ 1 ∷ 0 ∷ 8 ∷ 0 ∷ []))

HoldsMessages-replicate :
    (k base : ℕ)
    → base % 8 ≡ 0
    → base + k * 8 ≤ 2048
    → HoldsMessages many_bytes base (replicate k short)
HoldsMessages-replicate zero base phase fits = tt
HoldsMessages-replicate (suc k) base phase fits = (
  (
    (
      byte_lem (base) 0 (omega arith),
      omega arith,
      (
        byte_lem (base + 1) 1 (omega arith),
        omega arith,
        (
          byte_lem (base + 1 + 1) 2 (omega arith),
          omega arith,
          (byte_lem (base + 1 + 1 + 1) 3 (omega arith), omega arith, tt),
        ),
      ),
    ),
    (
      byte_lem (base + 4) 4 (omega arith),
      omega arith,
      (byte_lem (base + 4 + 1) 5 (omega arith), omega arith, tt),
    ),
    (
      byte_lem (base + 6) 6 (omega arith),
      omega arith,
      (byte_lem (base + 6 + 1) 7 (omega arith), omega arith, tt),
    ),
    tt,
  ),
  HoldsMessages-replicate k (base + 8) (omega arith) (omega arith),
)

messages_overflow_example :
    connection_dispatch interface_of wl_callback many_bytes
      (pos (total (replicate 129 short)))
      []
      server
    ≡ undefined
messages_overflow_example =
    messages_overflow interface_of wl_callback many_bytes [] server (replicate 129 short)
      (AllPlain-replicate 129) (HoldsMessages-replicate 129 0 refl (omega arith)) (omega arith)
