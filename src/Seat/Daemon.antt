-- ===== src/Seat/Daemon.antt =====
-- seat/session/impl/diazepam/daemon.c: the handlers of the seat daemon.
pub mod Invariant
mod Devices
mod Seats
pub mod Reach
use cuts.Base.{
  ℕ, ◌+◌, ◌-◌, ◌%◌, ◌^◌, Bool, true, false, Option, none, some, List, [], ◌∷◌, ◌++◌, map, ltb, ◌==◌,
  if◌then◌else◌, Exec, ok, ◌>>=◌, ◌>>◌, assert, ℤ, pos,
}
use cuts.Seat.Kernel.{
  Kernel, Call, called, open_device, open_tty, close, ack, error, enable_seat, disable_seat,
  ack_device, vt_reldisp, same, is_negative, vt_disable, vt_enable,
}
use cuts.Seat.Clients.{
  SeatDevice, SeatClient, client_masters, drm_activate_master, get_client_from_fd, update_client,
  remove_client, find_device, remove_device, has_vt,
}
use cuts.Seat.Paths.{starts_with, dri_card, input_event}

-- `serv` and `__dev_id`, with the calls so far
pub record Serv : Type 0 where
  pub cur_vt : ℤ
  pub dev_id : ℕ
  pub clients : List SeatClient
  pub calls : List Call

abbrev pub max_devices : ℕ
max_devices = 256

unfoldable pub record_calls : List Call → Serv → Serv
record_calls calls s = record s { calls = s.calls ++ calls }

unfoldable pub seat_enable : ℤ → ℤ → Serv → Serv
unfolding record_calls
seat_enable client_fd vt s = record_calls (enable_seat client_fd ∷ []) (record s { cur_vt = vt })

-- `send_ack`, whose `assert` ends the daemon when the message cannot be sent
unfoldable pub send_ack : Kernel → ℤ → Serv → Exec Serv
unfolding record_calls
send_ack k client_fd s = do assert k.sent; ok (record_calls (ack client_fd ∷ []) s)

unfoldable pub seat_close_device : Kernel → ℤ → ℕ → Serv → Exec Serv
unfolding get_client_from_fd find_device update_client remove_device record_calls send_ack
seat_close_device k client_fd id s = elim (get_client_from_fd client_fd s.clients) [
  | none ↦ ok (record_calls (error client_fd ∷ []) s)
  | some client ↦ elim (find_device id client.devices) [
    | none ↦ ok (record_calls (error client_fd ∷ []) s)
    | some d ↦ send_ack k client_fd (
        record_calls (close d.fd ∷ []) (record s {
          clients =
              update_client client_fd
                (λ c. record c {
                  n_devices = (c.n_devices + (2 ^ 64 - 1)) % 2 ^ 64;
                  devices = remove_device id c.devices;
                })
                s.clients;
        }))
  ]
]

-- The end of `seat_open_device`, where the masters were set
unfoldable pub add_device : ℤ → ℤ → Bool → Serv → Serv
unfolding update_client record_calls
add_device client_fd fd is_drm s =
    let device : SeatDevice = record { fd = fd; id = s.dev_id; is_drm = is_drm } in
    record_calls (ack_device client_fd fd s.dev_id ∷ []) (record s {
      dev_id = (s.dev_id + 1) % 2 ^ 32;
      clients =
          update_client client_fd
            (λ c. record c {
              n_devices = (c.n_devices + 1) % 2 ^ 64;
              devices = c.devices ++ device ∷ [];
            })
            s.clients;
    })

-- From the call of `open` on
unfoldable pub open_path : Kernel → ℤ → SeatClient → List ℕ → Bool → Serv → Serv
unfolding record_calls drm_activate_master add_device
open_path k client_fd client path is_drm s =
    let s1 = record_calls (open_device path ∷ []) s in
    let (success, calls) = drm_activate_master k client.vt s.clients in
    let s2 = record_calls calls s1 in
    if is_negative k.opened
    then record_calls (error client_fd ∷ []) s1
    else if success
    then add_device client_fd k.opened is_drm s2
    else record_calls (error client_fd ∷ []) s2

unfoldable pub seat_open_device : Kernel → ℤ → List ℕ → Serv → Serv
unfolding get_client_from_fd starts_with open_path record_calls
seat_open_device k client_fd path s = elim (get_client_from_fd client_fd s.clients) [
  | none ↦ record_calls (error client_fd ∷ []) s
  | some client ↦
      if ltb max_devices client.n_devices
      then record_calls (error client_fd ∷ []) s
      else if starts_with path dri_card
      then open_path k client_fd client path true s
      else if starts_with path input_event
      then open_path k client_fd client path false s
      else record_calls (error client_fd ∷ []) s
]

-- `VT_RELDISP` is asked for with 1 by `vt_release` and with VT_ACKACQ by `vt_acquire`.
abbrev pub vt_reldisp_or_error : Kernel → Bool → SeatClient → Serv → Serv
vt_reldisp_or_error k acquire client s =
    let s' = record_calls (called (vt_reldisp client.vt_fd acquire) ∷ []) s in
    if k.ioctl (vt_reldisp client.vt_fd acquire) then s' else record_calls (error client.fd ∷ []) s'

unfoldable pub release_client : Kernel → SeatClient → Serv → Serv
unfolding record_calls
release_client k client s =
    vt_reldisp_or_error k false client (record_calls (disable_seat client.fd ∷ []) s)

unfoldable pub activate_client : Kernel → SeatClient → Serv → Serv
unfolding record_calls drm_activate_master seat_enable
activate_client k client s =
    let s1 = seat_enable client.fd client.vt s in
    let (_, calls) = drm_activate_master k client.vt s.clients in
    vt_reldisp_or_error k true client (record_calls calls s1)

-- The loops of `on_vt_release` and `on_vt_activate`
unfoldable pub for_vt : ℤ → (SeatClient → Serv → Serv) → List SeatClient → Serv → Serv
for_vt vt f [] s = s
for_vt vt f (c ∷ cs) s = for_vt vt f cs (if same c.vt vt then f c s else s)

unfoldable pub on_vt_release : Kernel → Serv → Serv
unfolding for_vt release_client
on_vt_release k s = for_vt k.vt (release_client k) s.clients s

unfoldable pub on_vt_activate : Kernel → Serv → Serv
unfolding for_vt activate_client
on_vt_activate k s = for_vt k.vt (activate_client k) s.clients s

-- The end of `seat_open_seat`, where no client uses the terminal; 0 is no descriptor.
unfoldable pub open_vt : Kernel → ℤ → Serv → Serv
unfolding record_calls vt_disable seat_enable
open_vt k client_fd s =
    let s1 = record_calls (open_tty k.vt ∷ []) s in
    let (success, calls) = vt_disable k k.tty in
    let s2 = record_calls calls s1 in
    let client : SeatClient = record {
      fd = client_fd;
      vt = k.vt;
      vt_fd = k.tty;
      n_devices = 0;
      devices = [];
    } in
    if same k.tty (pos 0)
    then record_calls (error client_fd ∷ []) s1
    else if success
    then seat_enable client_fd k.vt (record s2 { clients = s.clients ++ client ∷ [] })
    else record_calls (error client_fd ∷ []) s2

unfoldable pub seat_open_seat : Kernel → ℤ → Serv → Serv
unfolding has_vt open_vt record_calls
seat_open_seat k client_fd s =
    if has_vt k.vt s.clients then record_calls (error client_fd ∷ []) s else open_vt k client_fd s

unfoldable pub seat_close_seat : Kernel → ℤ → Serv → Serv
unfolding get_client_from_fd vt_enable client_masters remove_client record_calls
seat_close_seat k client_fd s = elim (get_client_from_fd client_fd s.clients) [
  | none ↦ record_calls (error client_fd ∷ []) s
  | some client ↦
      let (_, calls) = vt_enable k client.vt_fd in
      record_calls (calls ++ close client.vt_fd ∷ map called (client_masters false client.devices))
        (record s { clients = remove_client client_fd s.clients })
]

-- A message, with its body read as a number or as a path
pub record Message : Type 0 where
  pub op : ℕ
  pub id : ℕ
  pub path : List ℕ

-- `seat_client_callback`; `none` when `seat_recv` has no message. The result is C_EVENT_OK or, false,
-- C_EVENT_ERROR_FD_GONE.
unfoldable pub seat_client_callback : Kernel → ℤ → Option Message → Serv → Exec (Bool × Serv)
unfolding seat_open_seat seat_close_seat seat_open_device seat_close_device
seat_client_callback k fd none s = ok (false, seat_close_seat k fd s)
seat_client_callback k fd (some m) s =
    if m.op == 2
    then ok (true, seat_open_seat k fd s)
    else if m.op == 3
    then ok (true, seat_close_seat k fd s)
    else if m.op == 4
    then ok (true, seat_open_device k fd m.path s)
    else if m.op == 5
    then (do s' ← seat_close_device k fd m.id s; ok (true, s'))
    else ok (true, s)
