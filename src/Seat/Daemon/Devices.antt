-- ===== src/Seat/Daemon/Devices.antt =====
-- The handlers for devices keep the daemon well formed.
use cuts.Base.{
  ℕ, ◌+◌, ◌-◌, ◌%◌, ◌^◌, ◌≤◌, ◌<◌, ◌≡◌, refl, subst, inl, inr, Bool, true, false, some, List, [],
  ◌∷◌, ◌++◌, arith, ltb, ◌==◌, if◌then◌else◌, Bool-cases, Option-cases, ok, ok_injective, ℤ,
}
use cuts.Base.Lists.{length}
use cuts.Seat.Kernel.{all_of, Kernel, error, ack, close, open_device, is_negative}
use cuts.Seat.Paths.{starts_with, dri_card, input_event}
use cuts.Seat.Clients.{
  SeatDevice, SeatClient, masters, drm_activate_master, get_client_from_fd, update_client,
  find_device, remove_device,
}
use cuts.Seat.Clients.Counts.{
  id_count, device_count-add, device_count-remove_device, length-remove_device,
  id_count-update_client, vt_count-update_client, AreCounted-update_client,
}
use cuts.Seat.Daemon.{
  Serv, max_devices, record_calls, send_ack, add_device, open_path, seat_open_device,
  seat_close_device,
}
use cuts.Seat.Daemon.Invariant.{
  IsAllowed, CallsAllowed-all_of, starts_with-prefix, IsServ, IsServ-record_calls, IsServ-later,
}

-- What `seat_close_device` does to its client
abbrev drop : ℕ → SeatClient → SeatClient
drop id c = record c {
  n_devices = (c.n_devices + (2 ^ 64 - 1)) % 2 ^ 64;
  devices = remove_device id c.devices;
}

length-push : (ds : List SeatDevice) (d : SeatDevice) → length (ds ++ d ∷ []) ≡ length ds + 1
length-push [] d = refl
length-push (x ∷ ds) d = rw (length-push ds d) (omega arith)

-- The descriptor that a client gets, with a new id
add_device-IsServ :
    (n : ℕ) (fd device_fd : ℤ) (is_drm : Bool) (s : Serv) (c : SeatClient)
    → get_client_from_fd fd s.clients ≡ some c
    → c.n_devices ≤ 256
    → n + 1 < 2 ^ 32
    → IsServ n s
    → IsServ (n + 1) (add_device fd device_fd is_drm s)
unfolding add_device
add_device-IsServ n fd device_fd is_drm s c found few word is =
    let device : SeatDevice = record { fd = device_fd; id = s.dev_id; is_drm = is_drm } in
    let add : SeatClient → SeatClient = λ c. record c {
      n_devices = (c.n_devices + 1) % 2 ^ 64;
      devices = c.devices ++ device ∷ [];
    } in
    let before = is.next_id in
    let grown : (id : ℕ)
        → id_count id (update_client fd add s.clients)
          ≤ id_count id s.clients + (if s.dev_id == id then 1 else 0) =
      λ id.
        id_count-update_client fd add id _
          (λ c. (let eq = device_count-add id c.devices device in omega arith)) s.clients in
    IsServ-record_calls (n + 1) _ _ (tt, tt)
      (record {
        next_id = omega arith;
        ids_once = λ id.
            (let up = grown id in
              let once = is.ids_once id in let used = is.ids_used id in ground arith);
        ids_used = λ id later. (let up = grown id in let used = is.ids_used id in ground arith);
        terminals =
            λ vt. rw (vt_count-update_client fd add vt (λ c. refl) s.clients) (is.terminals vt);
        counted =
            AreCounted-update_client fd add s.clients found
              (λ (kept, short). (
                rw (length-push c.devices device) (omega arith),
                rw (length-push c.devices device) (omega arith),
              ))
              is.counted;
        calls = is.calls;
      })

open_path-IsServ :
    (k : Kernel) (n : ℕ) (fd : ℤ) (path : List ℕ) (is_drm : Bool) (s : Serv) (c : SeatClient)
    → IsAllowed path
    → get_client_from_fd fd s.clients ≡ some c
    → c.n_devices ≤ 256
    → n + 1 < 2 ^ 32
    → IsServ n s
    → IsServ (n + 1) (open_path k fd c path is_drm s)
unfolding open_path drm_activate_master record_calls
open_path-IsServ k n fd path is_drm s c allowed found few word is =
    let s1 = record_calls (open_device path ∷ []) s in
    let is1 = IsServ-record_calls n (open_device path ∷ []) s (allowed, tt) is in
    let calls = (all_of k (masters c.vt s.clients)).1 in
    let is2 = IsServ-record_calls n calls s1 (CallsAllowed-all_of k (masters c.vt s.clients)) is1 in
    let refused : (s : Serv) → IsServ n s → IsServ (n + 1) (record_calls (error fd ∷ []) s) =
      λ s is. IsServ-later n _ (IsServ-record_calls n (error fd ∷ []) s (tt, tt) is) in
    elim (Bool-cases (is_negative k.opened)) [
      | inl t ↦ rw t (refused s1 is1)
      | inr t ↦ elim (Bool-cases (all_of k (masters c.vt s.clients)).0) [
        | inl u ↦
            rw (t, u)
              (add_device-IsServ n fd k.opened is_drm (record_calls calls s1) c found few word is2)
        | inr u ↦ rw (t, u) (refused (record_calls calls s1) is2)
      ]
    ]

pub seat_open_device-IsServ :
    (k : Kernel) (n : ℕ) (fd : ℤ) (path : List ℕ) (s : Serv)
    → n + 1 < 2 ^ 32
    → IsServ n s
    → IsServ (n + 1) (seat_open_device k fd path s)
unfolding seat_open_device
seat_open_device-IsServ k n fd path s word is =
    let refused : IsServ (n + 1) (record_calls (error fd ∷ []) s) =
      IsServ-later n _ (IsServ-record_calls n (error fd ∷ []) s (tt, tt) is) in
    elim (Option-cases (get_client_from_fd fd s.clients)) [
      | inl e ↦ rw (seat_open_device, e) refused
      | inr (c, e) ↦ elim (Bool-cases (ltb max_devices c.n_devices)) [
        | inl t ↦ rw (seat_open_device, e, t) refused
        | inr t ↦ elim (Bool-cases (starts_with path dri_card)) [
          | inl u ↦
              let (rest, eq) = starts_with-prefix path dri_card u in
              rw (seat_open_device, e, t, u)
                (open_path-IsServ k n fd path true s c (rest, inl eq) e (ground arith) word is)
          | inr u ↦ elim (Bool-cases (starts_with path input_event)) [
            | inl v ↦
                let (rest, eq) = starts_with-prefix path input_event v in
                rw (seat_open_device, e, t, u, v)
                  (open_path-IsServ k n fd path false s c (rest, inr eq) e (ground arith) word is)
            | inr v ↦ rw (seat_open_device, e, t, u, v) refused
          ]
        ]
      ]
    ]

send_ack-IsServ :
    (k : Kernel) (n : ℕ) (fd : ℤ) (s s' : Serv) → send_ack k fd s ≡ ok s' → IsServ n s → IsServ n s'
unfolding send_ack
send_ack-IsServ k n fd s s' run is = elim (Bool-cases k.sent) [
  | inl t ↦
      subst (IsServ n) (ok_injective refl (rw t at run))
        (IsServ-record_calls n (ack fd ∷ []) s (tt, tt) is)
  | inr t ↦ let e = rw t at run in cc
]

drop_device-IsServ :
    (n : ℕ) (fd : ℤ) (id : ℕ) (d : SeatDevice) (s : Serv) (c : SeatClient)
    → get_client_from_fd fd s.clients ≡ some c
    → find_device id c.devices ≡ some d
    → IsServ n s
    → IsServ n (
        record_calls
          (close d.fd ∷ [])
          (record s { clients = update_client fd (drop id) s.clients }))
drop_device-IsServ n fd id d s c found found_device is =
    let fewer : (i : ℕ) → id_count i (update_client fd (drop id) s.clients) ≤ id_count i s.clients =
      λ i.
        let le =
          id_count-update_client fd (drop id) i 0
            (λ c. (let le = device_count-remove_device i id c.devices in omega arith)) s.clients in
        omega arith in
    IsServ-record_calls n (close d.fd ∷ []) _ (tt, tt)
      (record {
        next_id = is.next_id;
        ids_once = λ i. (let le = fewer i in let once = is.ids_once i in omega arith);
        ids_used = λ i later. (let le = fewer i in let used = is.ids_used i later in omega arith);
        terminals = λ vt.
            rw (vt_count-update_client fd (drop id) vt (λ c. refl) s.clients) (is.terminals vt);
        counted =
            AreCounted-update_client fd (drop id) s.clients found
              (λ (kept, short).
                let length = length-remove_device id c.devices found_device in
                (omega arith, omega arith))
              is.counted;
        calls = is.calls;
      })

pub seat_close_device-IsServ :
    (k : Kernel) (n : ℕ) (fd : ℤ) (id : ℕ) (s s' : Serv)
    → seat_close_device k fd id s ≡ ok s'
    → IsServ n s
    → IsServ n s'
unfolding seat_close_device
seat_close_device-IsServ k n fd id s s' run is =
    let refused : IsServ n (record_calls (error fd ∷ []) s) =
      IsServ-record_calls n (error fd ∷ []) s (tt, tt) is in
    elim (Option-cases (get_client_from_fd fd s.clients)) [
      | inl e ↦ subst (IsServ n) (ok_injective refl (rw (seat_close_device, e) at run)) refused
      | inr (c, e) ↦ elim (Option-cases (find_device id c.devices)) [
        | inl e' ↦
            subst (IsServ n) (ok_injective refl (rw (seat_close_device, e, e') at run)) refused
        | inr (d, e') ↦
            send_ack-IsServ k n fd _ s' (rw (seat_close_device, e, e') at run)
              (drop_device-IsServ n fd id d s c e e' is)
      ]
    ]
