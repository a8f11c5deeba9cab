-- ===== src/Seat/Kernel.antt =====
-- seat/session/impl/diazepam: what the daemon asks of the kernel, and vt.c. The answers of the kernel
-- during one event are a parameter, and each call is recorded.
use cuts.Base.{ℕ, Bool, true, false, List, [], ◌∷◌, ◌==◌, if◌then◌else◌, ℤ, pos, negsuc}

-- The requests of `ioctl`, with the descriptor; the last argument of the first three is what they
-- switch on.
pub data Ioctl : Type 0 where
  kdsetmode kdskbmode vt_reldisp : ℤ → Bool → Ioctl
  vt_setmode drm_set_master drm_drop_master : ℤ → Ioctl

pub data Call : Type 0 where
  called : Ioctl → Call
  open_device : List ℕ → Call
  open_tty : ℤ → Call
  close : ℤ → Call
  ack error enable_seat disable_seat : (client_fd : ℤ) → Call
  ack_device : (client_fd fd : ℤ) → (id : ℕ) → Call

-- `ioctl` says whether a request succeeds, after its repetitions on EINTR and EAGAIN; `vt` is the
-- result of `vt_get_current_num`; `opened` and `tty` are what `open` returns; `sent` says whether
-- a message can be sent.
pub record Kernel : Type 0 where
  pub ioctl : Ioctl → Bool
  pub vt : ℤ
  pub opened : ℤ
  pub tty : ℤ
  pub sent : Bool

abbrev pub same : ℤ → ℤ → Bool
same (pos a) (pos b) = a == b
same (negsuc a) (negsuc b) = a == b
same _ _ = false

abbrev pub is_negative : ℤ → Bool
is_negative (pos n) = false
is_negative (negsuc n) = true

-- One request after the other, until one fails.
unfoldable pub all_of : Kernel → List Ioctl → Bool × List Call
all_of k [] = (true, [])
all_of k (i ∷ is) =
    let (success, calls) = all_of k is in
    if k.ioctl i then (success, called i ∷ calls) else (false, called i ∷ [])

unfoldable pub vt_disable : Kernel → ℤ → Bool × List Call
unfolding all_of
vt_disable k fd = all_of k (vt_setmode fd ∷ kdsetmode fd true ∷ kdskbmode fd false ∷ [])

unfoldable pub vt_enable : Kernel → ℤ → Bool × List Call
unfolding all_of
vt_enable k fd = all_of k (kdsetmode fd false ∷ kdskbmode fd true ∷ [])
