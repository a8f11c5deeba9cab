-- ===== src/Wayland/Dispatch/Rounds.antt =====
-- `dispatch` ends where the handlers do.
use cuts.Base.{
  ℕ, zero, suc, ◌+◌, Bool, true, false, Option, none, some, List, [], ◌∷◌, ltb, Exec, ok, undefined,
  Ends, faults, aborts, >>=-Ends, if-Ends, option-Ends, EndsIn, returns_in, faults_in, bind-Ends, ℤ,
  pos,
}
use cuts.Base.Bytes.{Bytes}
use cuts.Base.Lists.{get_elem?}
use cuts.Wayland.Wire.Rounds.{read_u32-Ends, read_i32-Ends, read_string-Ends}
use cuts.Wayland.Message.{
  Kind, uint, int, fixed, object, new_id, string, enum, fd, array, Arg, header_size, decode_arg,
  decode_args, max_string,
}
use cuts.Wayland.Objects.Rounds.{object_get-Ends}
use cuts.Wayland.Dispatch.{
  Header, Server, Request, Interface, Handler, Called, is_zero, call, run_callbacks, run_cb,
  run_impl, unless_failed, request_at, handle_request, dispatch,
}

decode_arg-Ends :
    (b : Bytes) (offset : ℕ) (fds : List ℕ) (kind : Kind) → Ends (decode_arg b offset fds kind)
unfolding decode_arg
decode_arg-Ends b offset fds uint = >>=-Ends (read_u32-Ends b offset) λ _. Ends.returns
decode_arg-Ends b offset fds int = >>=-Ends (read_i32-Ends b offset) λ _. Ends.returns
decode_arg-Ends b offset fds fixed = >>=-Ends (read_u32-Ends b offset) λ _. Ends.returns
decode_arg-Ends b offset fds object = >>=-Ends (read_u32-Ends b offset) λ _. Ends.returns
decode_arg-Ends b offset fds new_id = >>=-Ends (read_u32-Ends b offset) λ _. Ends.returns
decode_arg-Ends b offset fds string =
    >>=-Ends (read_string-Ends b offset max_string) λ _. Ends.returns
decode_arg-Ends b offset fds enum = >>=-Ends (read_i32-Ends b offset) λ _. Ends.returns
decode_arg-Ends b offset [] fd = faults
decode_arg-Ends b offset (v ∷ fds) fd = Ends.returns
decode_arg-Ends b offset fds array = aborts

decode_args-Ends :
    (b : Bytes) (offset : ℕ) (fds : List ℕ) (kinds : List Kind)
    → Ends (decode_args b offset fds kinds)
unfolding decode_args
decode_args-Ends b offset fds [] = Ends.returns
decode_args-Ends b offset fds (kind ∷ kinds) =
    >>=-Ends (decode_arg-Ends b offset fds kind)
      λ (_, offset', fds'). >>=-Ends (decode_args-Ends b offset' fds' kinds) λ _. Ends.returns

module _ {W : Type 0} where
  abbrev pub HandlerEnds : Option (Handler W) → Type 0
  HandlerEnds none = Unit
  HandlerEnds (some h) = (args : List Arg) (s : Server W) → Ends (h args s)

  abbrev pub RequestsEnd : List (Request W) → Type 0
  RequestsEnd [] = Unit
  RequestsEnd (r ∷ rs) = HandlerEnds r.impl × RequestsEnd rs

  abbrev pub ListenersEnd : List (ℕ → Option (Handler W)) → Type 0
  ListenersEnd [] = Unit
  ListenersEnd (cb ∷ cbs) = ((op : ℕ) → HandlerEnds (cb op)) × ListenersEnd cbs

  abbrev CbEnds : Option (List (ℕ → Option (Handler W))) → Type 0
  CbEnds none = Unit
  CbEnds (some cbs) = ListenersEnd cbs

  -- Every handler of the interface ends.
  pub record InterfaceEnds (iface : Interface W) : Type 0 where
    pub requests : RequestsEnd iface.requests
    pub cb : CbEnds iface.cb

  call-Ends :
      (h : Option (Handler W)) (args : List Arg) (s : Server W)
      → HandlerEnds h
      → Ends (call h args s)
  unfolding call
  call-Ends none args s e = Ends.returns
  call-Ends (some h) args s e = e args s

  run_callbacks-Ends :
      (mark : Called → Called) (cbs : List (ℕ → Option (Handler W))) (op : ℕ) (args : List Arg)
      (called : Called) (s : Server W)
      → ListenersEnd cbs
      → Ends (run_callbacks mark cbs op args called s)
  unfolding run_callbacks
  run_callbacks-Ends mark [] op args called s e = Ends.returns
  run_callbacks-Ends mark (cb ∷ cbs) op args called s (e, es) =
      >>=-Ends (call-Ends (cb op) args s (e op)) λ (status, s').
        if-Ends (is_zero status) (run_callbacks-Ends mark cbs op args (mark called) s' es)
          Ends.returns

  run_cb-Ends :
      (test : Bool) (mark : Called → Called) (iface : Interface W) (op : ℕ) (args : List Arg)
      (called : Called) (s : Server W)
      → InterfaceEnds iface
      → Ends (run_cb test mark iface op args called s)
  unfolding run_cb
  run_cb-Ends false mark iface op args called s e = Ends.returns
  run_cb-Ends true mark iface op args called s e = cb_ends iface.cb e.cb
    where
      cb_ends :
          (cb : Option (List (ℕ → Option (Handler W))))
          → CbEnds cb
          → Ends {A = ℤ × Called × Server W} (elim cb [
            | none ↦ ok (pos 0, called, s)
            | some cbs ↦ run_callbacks mark cbs op args called s
          ])
      cb_ends none ends = Ends.returns
      cb_ends (some cbs) ends = run_callbacks-Ends mark cbs op args called s ends

  run_impl-Ends :
      (impl : Option (Handler W)) (args : List Arg) (called : Called) (s : Server W)
      → HandlerEnds impl
      → Ends (run_impl impl args called s)
  unfolding run_impl
  run_impl-Ends none args called s e = Ends.returns
  run_impl-Ends (some impl) args called s e = >>=-Ends (e args s) λ _. Ends.returns

  request-Ends :
      (requests : List (Request W)) (op : ℕ)
      → RequestsEnd requests
      → EndsIn
          (λ r. HandlerEnds r.impl)
          (elim (get_elem? requests op) [ none ↦ undefined | some r ↦ ok r ])
  request-Ends [] op e = faults_in
  request-Ends (r ∷ rs) zero (e, es) = returns_in e
  request-Ends (r ∷ rs) (suc op) (e, es) = request-Ends rs op es

  request_at-EndsIn :
      (iface : Interface W) (op : ℕ)
      → InterfaceEnds iface
      → EndsIn (λ r. HandlerEnds r.impl) (request_at iface op)
  unfolding request_at
  request_at-EndsIn iface op e = request-Ends iface.requests op e.requests

  unless_failed-Ends :
      (last : ℤ × Called × Server W) (k : Called → Server W → Exec (ℤ × Called × Server W))
      → ((called : Called) (s : Server W) → Ends (k called s))
      → Ends (unless_failed last k)
  unfolding unless_failed
  unless_failed-Ends (status, called, s) k e = if-Ends (is_zero status) (e called s) Ends.returns

  handle_request-Ends :
      (iface : Interface W) (op : ℕ) (args : List Arg) (called : Called) (s : Server W)
      → InterfaceEnds iface
      → Ends (handle_request iface op args called s)
  unfolding handle_request
  handle_request-Ends iface op args called s e =
      bind-Ends (request_at-EndsIn iface op e) λ request impl_ends.
        >>=-Ends (run_cb-Ends _ _ iface op args called s e) λ first.
          unless_failed-Ends first _ λ called1 s1.
            >>=-Ends (run_impl-Ends request.impl args called1 s1 impl_ends) λ second.
              unless_failed-Ends second _ λ called2 s2. run_cb-Ends _ _ iface op args called2 s2 e

  pub dispatch-Ends :
      (interface_of : ℕ → Interface W)
      → ((a : ℕ) → InterfaceEnds (interface_of a))
      → (header : Header) (b : Bytes) (base : ℕ) (fds : List ℕ) (s : Server W)
      → Ends (dispatch interface_of header b base fds s)
  unfolding dispatch
  dispatch-Ends interface_of e header b base fds s =
      >>=-Ends (object_get-Ends s.registry header.object_id) λ found.
        option-Ends found Ends.returns λ obj. if-Ends (ltb _ header.op) Ends.returns (
          bind-Ends (request_at-EndsIn (interface_of obj.iface) header.op (e obj.iface))
            λ request _.
              >>=-Ends (decode_args-Ends b (base + header_size) fds request.signature)
                λ (args, _, fds').
                  >>=-Ends (handle_request-Ends _ header.op _ _ s (e obj.iface)) λ _. Ends.returns)
