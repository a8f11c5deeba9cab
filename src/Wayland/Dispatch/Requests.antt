-- ===== src/Wayland/Dispatch/Requests.antt =====
-- `dispatch` on a message whose bytes are in the buffer.
use cuts.Base.{
  ℕ, ◌+◌, ◌≡◌, refl, ap, ◌∙◌, false, none, some, List, ◌∷◌, ◌++◌, map, arith, ltb, if◌then◌else◌,
  ok, undefined, ◌>>=◌,
}
use cuts.Base.Bytes.{Bytes}
use cuts.Base.Lists.{length, get_elem?, get_elem?-length, lt_of_get_elem?}
use cuts.Wayland.Message.{Arg, o_val, header_size}
use cuts.Wayland.Message.Laws.{AllSendable, kind_of, received, fds_of, decode_args_lem, HoldsArgs}
use cuts.Wayland.Objects.{Object, object_get}
use cuts.Wayland.Dispatch.{
  Header, Server, Request, Interface, dispatch, handle_request, request_at, none_called,
  is_none_called, fatal_err,
}

module _ {W : Type 0} (iface : Interface W) (op : ℕ) where
  request_at_lem :
      {request : Request W}
      → get_elem? iface.requests op ≡ some request
      → request_at iface op ≡ ok request
  unfolding request_at
  request_at_lem e = rw (e, request_at) refl

  request_at_past : op ≡ length iface.requests → request_at iface op ≡ undefined
  unfolding request_at
  request_at_past e =
      let beyond : get_elem? iface.requests op ≡ none =
        ap (get_elem? iface.requests) e ∙ get_elem?-length iface.requests in
      rw (beyond, request_at) refl

module _ {W : Type 0} (interface_of : ℕ → Interface W) (header : Header) (b : Bytes) (base : ℕ)
    (s : Server W) where
  -- A message to an object that is registered, with an opcode of its interface and with arguments
  -- that fit the signature of the request: the request is handled with the object's id and these
  -- arguments, strings ended by 0. It uses up its own descriptors and no others. The result is the
  -- status of the handlers, or the fatal error where there was none to call.
  pub dispatch_request :
      (obj : Object) (request : Request W) (args : List Arg) (rest : List ℕ)
      → object_get s.registry header.object_id ≡ ok (some obj)
      → get_elem? (interface_of obj.iface).requests header.op ≡ some request
      → request.signature ≡ map kind_of args
      → AllSendable args
      → HoldsArgs b (base + header_size) args
      → dispatch interface_of header b base (fds_of args ++ rest) s ≡ (
          handle_request
            (interface_of obj.iface)
            header.op
            (o_val header.object_id ∷ map received args)
            none_called
            s
          >>= λ (status, called, s').
              ok (if is_none_called called then fatal_err else status, rest, s'))
  unfolding dispatch
  dispatch_request obj request args rest found known fits valid holds =
      let known' : request_at (interface_of obj.iface) header.op ≡ ok request =
        request_at_lem _ _ known in
      let inside : ltb (length (interface_of obj.iface).requests) header.op ≡ false =
        ground (arith, lt_of_get_elem? (interface_of obj.iface).requests header.op known) in
      rw (found, inside, known', fits, decode_args_lem b (base + header_size) args rest valid holds)
        refl

  -- The opcode that is the number of requests of the interface passes the test, and the request is
  -- read past the end of the table.
  pub dispatch_past_requests :
      (fds : List ℕ) (obj : Object)
      → object_get s.registry header.object_id ≡ ok (some obj)
      → header.op ≡ length (interface_of obj.iface).requests
      → dispatch interface_of header b base fds s ≡ undefined
  unfolding dispatch
  dispatch_past_requests fds obj found last =
      let passes : ltb (length (interface_of obj.iface).requests) header.op ≡ false =
        ground arith in
      let beyond : request_at (interface_of obj.iface) header.op ≡ undefined =
        request_at_past (interface_of obj.iface) header.op last in
      rw (found, passes, beyond) refl
