-- ===== src/Wayland/Dispatch/Handlers.antt =====
-- `handle_request` as one queue of handlers.
use cuts.Base.{
  ℕ, ◌≡◌, refl, sym, ap, ◌∙◌, inl, inr, Bool, true, false, not, Option, none, some, List, [], ◌∷◌,
  ◌++◌, map, arith, if◌then◌else◌, Bool-cases, Option-cases, Exec, ok, ◌>>=◌, >>=-cong, >>=_assoc,
  >>=_ok, ℤ, pos, negsuc,
}
use cuts.Wayland.Message.{Arg}
use cuts.Wayland.Dispatch.{
  Server, Request, Interface, Handler, Called, is_zero, is_op, call, run_callbacks, run_cb,
  run_impl, unless_failed, request_at, handle_request,
}

-- A place in the queue: a listener of the interface, which may lack a handler, or the implementation.
pub data Slot (W : Type 0) : Type 0 where
  listener : Option (Handler W) → Slot W
  implementation : Handler W → Slot W

module _ {W : Type 0} where
  abbrev handler_of : Slot W → Option (Handler W)
  handler_of (listener h) = h
  handler_of (implementation h) = some h

  -- An implementation counts as called also where it fails.
  abbrev pub on_failure : Slot W → Called → Called
  on_failure (listener h) called = called
  on_failure (implementation h) called = record called { implementation_handler = true }

  abbrev pub on_success : Bool → Slot W → Called → Called
  on_success true (listener h) called = record called { user_handler_d = true }
  on_success false (listener h) called = record called { user_handler = true }
  on_success destructor (implementation h) called = record called { implementation_handler = true }

  -- One after the other, until one fails.
  unfoldable pub run_slots :
      Bool → List (Slot W) → List Arg → Called → Server W → Exec (ℤ × Called × Server W)
  run_slots destructor [] args called s = ok (pos 0, called, s)
  run_slots destructor (slot ∷ slots) args called s = do
    (status, s') ← call (handler_of slot) args s
    if is_zero status
        then run_slots destructor slots args (on_success destructor slot called) s'
        else ok (status, on_failure slot called, s')

  abbrev pub listeners : ℕ → Option (List (ℕ → Option (Handler W))) → List (Slot W)
  listeners op none = []
  listeners op (some cbs) = map (λ cb. listener (cb op)) cbs

  abbrev pub implementations : Option (Handler W) → List (Slot W)
  implementations none = []
  implementations (some h) = implementation h ∷ []

  -- The listeners stand in front of the implementation for the destructor, behind it for the others.
  abbrev pub queue : Bool → Interface W → ℕ → Request W → List (Slot W)
  queue true iface op request = listeners op iface.cb ++ implementations request.impl
  queue false iface op request = implementations request.impl ++ listeners op iface.cb

  unless_failed_error :
      (status : ℤ) (called : Called) (s : Server W)
      (k : Called → Server W → Exec (ℤ × Called × Server W))
      → is_zero status ≡ false
      → ok (status, called, s) ≡ unless_failed (status, called, s) k
  unfolding unless_failed
  unless_failed_error status called s k e = rw e refl

  unless_failed-cong :
      (last : ℤ × Called × Server W) {k k' : Called → Server W → Exec (ℤ × Called × Server W)}
      → ((called : Called) (s : Server W) → k called s ≡ k' called s)
      → unless_failed last k ≡ unless_failed last k'
  unfolding unless_failed
  unless_failed-cong (status, called, s) same = elim (Bool-cases (is_zero status)) [
    | inl e ↦ rw e (same called s)
    | inr e ↦ rw e refl
  ]

  unless_failed_end :
      (status : ℤ) (called : Called) (s : Server W)
      → unless_failed (status, called, s) (λ called s. ok (pos 0, called, s))
        ≡ ok (status, called, s)
  unfolding unless_failed
  unless_failed_end (pos n) called s = ground arith
  unless_failed_end (negsuc n) called s = refl

  run_slots-append :
      (destructor : Bool) (xs ys : List (Slot W)) (args : List Arg) (called : Called) (s : Server W)
      → run_slots destructor (xs ++ ys) args called s ≡ (
          run_slots destructor xs args called s >>= λ first.
          unless_failed first λ called' s'. run_slots destructor ys args called' s')
  unfolding run_slots unless_failed
  run_slots-append destructor [] ys args called s = refl
  run_slots-append destructor (slot ∷ xs) ys args called s =
      >>=-cong (call (handler_of slot) args s) (λ (status, s'). elim (Bool-cases (is_zero status)) [
        | inl e ↦
            rw e (run_slots-append destructor xs ys args (on_success destructor slot called) s')
        | inr e ↦ rw e (
            unless_failed_error status (on_failure slot called) s'
              (λ called' s''. run_slots destructor ys args called' s'') e)
      ])
      ∙ sym (>>=_assoc (call (handler_of slot) args s) _ _)

  run_callbacks_lem :
      (destructor : Bool) (mark : Called → Called)
      → ((h : Option (Handler W)) (c : Called) → mark c ≡ on_success destructor (listener h) c)
      → (cbs : List (ℕ → Option (Handler W))) (op : ℕ) (args : List Arg) (called : Called)
        (s : Server W)
      → run_callbacks mark cbs op args called s
        ≡ run_slots destructor (listeners op (some cbs)) args called s
  unfolding run_callbacks run_slots
  run_callbacks_lem destructor mark same [] op args called s = refl
  run_callbacks_lem destructor mark same (cb ∷ cbs) op args called s =
      >>=-cong (call (cb op) args s) (λ (status, s'). elim (Bool-cases (is_zero status)) [
        | inl e ↦
            rw (e, same (cb op) called)
              (run_callbacks_lem destructor mark same cbs op args
                (on_success destructor (listener (cb op)) called) s')
        | inr e ↦ rw e refl
      ])

  run_cb_lem :
      (destructor : Bool) (mark : Called → Called)
      → ((h : Option (Handler W)) (c : Called) → mark c ≡ on_success destructor (listener h) c)
      → (iface : Interface W) (op : ℕ) (args : List Arg) (called : Called) (s : Server W)
      → run_cb true mark iface op args called s
        ≡ run_slots destructor (listeners op iface.cb) args called s
  unfolding run_cb run_slots
  run_cb_lem destructor mark same iface op args called s = elim (Option-cases iface.cb) [
    | inl e ↦ rw e refl
    | inr (cbs, e) ↦ rw e (run_callbacks_lem destructor mark same cbs op args called s)
  ]

  run_impl_lem :
      (destructor : Bool) (impl : Option (Handler W)) (args : List Arg) (called : Called)
      (s : Server W)
      → run_impl impl args called s ≡ run_slots destructor (implementations impl) args called s
  unfolding run_impl run_slots call unless_failed
  run_impl_lem destructor none args called s = refl
  run_impl_lem true (some h) args called s =
      >>=-cong (h args s) (λ (status, s'). sym (unless_failed_end status _ s'))
  run_impl_lem false (some h) args called s =
      >>=-cong (h args s) (λ (status, s'). sym (unless_failed_end status _ s'))

  in_order :
      (destructor : Bool) (iface : Interface W) (op : ℕ) (request : Request W) (args : List Arg)
      (called : Called) (s : Server W)
      → (run_cb destructor (λ c. record c { user_handler_d = true }) iface op args called s
          >>= λ first. unless_failed first λ called1 s1.
            run_impl request.impl args called1 s1 >>= λ second. unless_failed second λ called2 s2.
              run_cb
                (not destructor)
                (λ c. record c { user_handler = true })
                iface
                op
                args
                called2
                s2)
        ≡ run_slots destructor (queue destructor iface op request) args called s
  unfolding run_cb unless_failed
  in_order true iface op request args called s =
      >>=-cong (run_cb true (λ c. record c { user_handler_d = true }) iface op args called s)
        (λ first. unless_failed-cong first (λ called1 s1.
          >>=-cong (run_impl request.impl args called1 s1)
            (λ (st, c, s2). unless_failed_end st c s2)
          ∙ >>=_ok (run_impl request.impl args called1 s1)
          ∙ run_impl_lem true request.impl args called1 s1))
      ∙ ap
          (λ m. m >>= λ first.
            unless_failed first
              λ called1 s1. run_slots true (implementations request.impl) args called1 s1)
          (run_cb_lem true _ (λ h c. refl) iface op args called s)
      ∙ sym (
          run_slots-append true (listeners op iface.cb) (implementations request.impl) args called
            s)
  in_order false iface op request args called s =
      >>=-cong (run_impl request.impl args called s) (λ second.
        unless_failed-cong second
          (λ called2 s2. run_cb_lem false _ (λ h c. refl) iface op args called2 s2))
      ∙ ap
          (λ m. m >>= λ second.
            unless_failed second
              λ called2 s2. run_slots false (listeners op iface.cb) args called2 s2)
          (run_impl_lem false request.impl args called s)
      ∙ sym (
          run_slots-append false (implementations request.impl) (listeners op iface.cb) args called
            s)

  -- What `handle_request` does is to run one queue until a handler fails: for the destructor request
  -- the listeners of the interface and then the implementation, for any other request the
  -- implementation first. A request past the end of the table is undefined.
  pub handle_request-run_slots :
      (iface : Interface W) (op : ℕ) (args : List Arg) (called : Called) (s : Server W)
      → handle_request iface op args called s ≡ (
          request_at iface op >>= λ request.
          let destructor = is_op iface.destructor_request op in
          run_slots destructor (queue destructor iface op request) args called s)
  unfolding handle_request
  handle_request-run_slots iface op args called s =
      >>=-cong (request_at iface op)
        (λ request. in_order (is_op iface.destructor_request op) iface op request args called s)
