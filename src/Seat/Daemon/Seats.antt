-- ===== src/Seat/Daemon/Seats.antt =====
-- The handlers for seats and terminals keep the daemon well formed.
use cuts.Base.{
  ℕ, ◌≡◌, refl, ap, subst, inl, inr, Bool, true, false, List, [], ◌∷◌, ◌++◌, arith, Bool-cases,
  Option-cases, ℤ, pos, negsuc,
}
use cuts.Seat.Kernel.{
  Kernel, called, error, enable_seat, disable_seat, open_tty, vt_setmode, kdsetmode, kdskbmode,
  vt_reldisp, all_of, vt_disable, vt_enable, same,
}
use cuts.Seat.Clients.{
  SeatClient, masters, client_masters, drm_activate_master, get_client_from_fd, remove_client,
  has_vt,
}
use cuts.Seat.Clients.Counts.{
  device_count, vt_count, id_count-add, vt_count-add, AreCounted-add, vt_count-has_vt,
  id_count-remove_client, vt_count-remove_client, AreCounted-remove_client,
}
use cuts.Seat.Daemon.{
  Serv, record_calls, seat_enable, vt_reldisp_or_error, release_client, activate_client, for_vt,
  on_vt_release, on_vt_activate, open_vt, seat_open_seat, seat_close_seat,
}
use cuts.Seat.Daemon.Invariant.{
  CallsAllowed, CallsAllowed-append, CallsAllowed-all_of, CallsAllowed-ioctls, IsServ,
  IsServ-record_calls, IsServ-cur_vt,
}

seat_enable-IsServ : (n : ℕ) (fd vt : ℤ) (s : Serv) → IsServ n s → IsServ n (seat_enable fd vt s)
unfolding seat_enable
seat_enable-IsServ n fd vt s is =
    IsServ-record_calls n (enable_seat fd ∷ []) (record s { cur_vt = vt }) (tt, tt)
      (IsServ-cur_vt n vt s is)

same-eq : (a b : ℤ) → same a b ≡ true → a ≡ b
same-eq (pos a) (pos b) h = ap pos (ground arith)
same-eq (negsuc a) (negsuc b) h = ap negsuc (ground arith)
same-eq (pos a) (negsuc b) h = cc
same-eq (negsuc a) (pos b) h = cc

-- A new client on a terminal that no other has
new_client-IsServ :
    (n : ℕ) (fd vt vt_fd : ℤ) (s : Serv)
    → has_vt vt s.clients ≡ false
    → IsServ n s
    → IsServ n (record s {
      clients =
          s.clients ++ record { fd = fd; vt = vt; vt_fd = vt_fd; n_devices = 0; devices = [] } ∷ [];
    })
unfolding device_count
new_client-IsServ n fd vt vt_fd s free is =
    let c : SeatClient = record { fd = fd; vt = vt; vt_fd = vt_fd; n_devices = 0; devices = [] } in
    record {
      next_id = is.next_id;
      ids_once =
          λ id. (let eq = id_count-add id s.clients c in let once = is.ids_once id in omega arith);
      ids_used = λ id later.
          (let eq = id_count-add id s.clients c in let used = is.ids_used id later in omega arith);
      terminals = λ v. elim (Bool-cases (same vt v)) [
        | inl t ↦
            let free_vt = vt_count-has_vt vt s.clients free in
            let other : vt_count v s.clients ≡ 0 =
              subst (λ u. vt_count u s.clients ≡ 0) (same-eq vt v t) free_vt in
            rw (vt_count-add v s.clients c, t) (omega arith)
        | inr t ↦ let once = is.terminals v in rw (vt_count-add v s.clients c, t) (omega arith)
      ];
      counted = AreCounted-add s.clients c is.counted (refl, omega arith);
      calls = is.calls;
    }

CallsAllowed-vt_disable : (k : Kernel) (fd : ℤ) → CallsAllowed (vt_disable k fd).1
unfolding vt_disable
CallsAllowed-vt_disable k fd =
    CallsAllowed-all_of k (vt_setmode fd ∷ kdsetmode fd true ∷ kdskbmode fd false ∷ [])

CallsAllowed-vt_enable : (k : Kernel) (fd : ℤ) → CallsAllowed (vt_enable k fd).1
unfolding vt_enable
CallsAllowed-vt_enable k fd = CallsAllowed-all_of k (kdsetmode fd false ∷ kdskbmode fd true ∷ [])

open_vt-IsServ :
    (k : Kernel) (n : ℕ) (fd : ℤ) (s : Serv)
    → has_vt k.vt s.clients ≡ false
    → IsServ n s
    → IsServ n (open_vt k fd s)
unfolding open_vt record_calls
open_vt-IsServ k n fd s free is =
    let s1 = record_calls (open_tty k.vt ∷ []) s in
    let is1 = IsServ-record_calls n (open_tty k.vt ∷ []) s (tt, tt) is in
    let calls = (vt_disable k k.tty).1 in
    let is2 = IsServ-record_calls n calls s1 (CallsAllowed-vt_disable k k.tty) is1 in
    elim (Bool-cases (same k.tty (pos 0))) [
      | inl t ↦ rw t (IsServ-record_calls n (error fd ∷ []) s1 (tt, tt) is1)
      | inr t ↦ elim (Bool-cases (vt_disable k k.tty).0) [
        | inl u ↦
            rw (t, u)
              (seat_enable-IsServ n fd k.vt _
                (new_client-IsServ n fd k.vt k.tty (record_calls calls s1) free is2))
        | inr u ↦
            rw (t, u) (IsServ-record_calls n (error fd ∷ []) (record_calls calls s1) (tt, tt) is2)
      ]
    ]

pub seat_open_seat-IsServ :
    (k : Kernel) (n : ℕ) (fd : ℤ) (s : Serv) → IsServ n s → IsServ n (seat_open_seat k fd s)
unfolding seat_open_seat
seat_open_seat-IsServ k n fd s is = elim (Bool-cases (has_vt k.vt s.clients)) [
  | inl t ↦ rw (seat_open_seat, t) (IsServ-record_calls n (error fd ∷ []) s (tt, tt) is)
  | inr t ↦ rw (seat_open_seat, t) (open_vt-IsServ k n fd s t is)
]

pub seat_close_seat-IsServ :
    (k : Kernel) (n : ℕ) (fd : ℤ) (s : Serv) → IsServ n s → IsServ n (seat_close_seat k fd s)
unfolding seat_close_seat
seat_close_seat-IsServ k n fd s is = elim (Option-cases (get_client_from_fd fd s.clients)) [
  | inl e ↦ rw (seat_close_seat, e) (IsServ-record_calls n (error fd ∷ []) s (tt, tt) is)
  | inr (c, e) ↦
      rw (seat_close_seat, e)
        (IsServ-record_calls n _ (record s { clients = remove_client fd s.clients })
          (CallsAllowed-append (vt_enable k c.vt_fd).1 _ (CallsAllowed-vt_enable k c.vt_fd)
            (tt, CallsAllowed-ioctls (client_masters false c.devices)))
          (record {
            next_id = is.next_id;
            ids_once = λ id.
                (let le = id_count-remove_client fd id s.clients in
                  let once = is.ids_once id in omega arith);
            ids_used = λ id later.
                (let le = id_count-remove_client fd id s.clients in
                  let used = is.ids_used id later in omega arith);
            terminals = λ v.
                (let le = vt_count-remove_client fd v s.clients in
                  let once = is.terminals v in omega arith);
            counted = AreCounted-remove_client fd s.clients is.counted;
            calls = is.calls;
          }))
]

reldisp-IsServ :
    (k : Kernel) (n : ℕ) (acquire : Bool) (c : SeatClient) (s : Serv)
    → IsServ n s
    → IsServ n (vt_reldisp_or_error k acquire c s)
reldisp-IsServ k n acquire c s is =
    let asked = IsServ-record_calls n (called (vt_reldisp c.vt_fd acquire) ∷ []) s (tt, tt) is in
    elim (Bool-cases (k.ioctl (vt_reldisp c.vt_fd acquire))) [
      | inl t ↦ rw t asked
      | inr t ↦ rw t (IsServ-record_calls n (error c.fd ∷ []) _ (tt, tt) asked)
    ]

for_vt-IsServ :
    (n : ℕ) (vt : ℤ) (f : SeatClient → Serv → Serv)
    → ((c : SeatClient) (s : Serv) → IsServ n s → IsServ n (f c s))
    → (cs : List SeatClient) (s : Serv) → IsServ n s
    → IsServ n (for_vt vt f cs s)
unfolding for_vt
for_vt-IsServ n vt f keeps [] s is = is
for_vt-IsServ n vt f keeps (c ∷ cs) s is = elim (Bool-cases (same c.vt vt)) [
  | inl t ↦ rw t (for_vt-IsServ n vt f keeps cs (f c s) (keeps c s is))
  | inr t ↦ rw t (for_vt-IsServ n vt f keeps cs s is)
]

pub on_vt_release-IsServ :
    (k : Kernel) (n : ℕ) (s : Serv) → IsServ n s → IsServ n (on_vt_release k s)
unfolding on_vt_release release_client
on_vt_release-IsServ k n s is =
    for_vt-IsServ n k.vt (release_client k)
      (λ c s is.
        reldisp-IsServ k n false c _ (IsServ-record_calls n (disable_seat c.fd ∷ []) s (tt, tt) is))
      s.clients s is

pub on_vt_activate-IsServ :
    (k : Kernel) (n : ℕ) (s : Serv) → IsServ n s → IsServ n (on_vt_activate k s)
unfolding on_vt_activate activate_client drm_activate_master
on_vt_activate-IsServ k n s is =
    for_vt-IsServ n k.vt (activate_client k)
      (λ c s is. reldisp-IsServ k n true c _ (
        IsServ-record_calls n (all_of k (masters c.vt s.clients)).1 _
          (CallsAllowed-all_of k (masters c.vt s.clients)) (seat_enable-IsServ n c.fd c.vt s is)))
      s.clients s is
