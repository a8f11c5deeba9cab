-- ===== src/Seat/Daemon/Reach.antt =====
-- The daemon over its life: any sequence of messages, closed connections and signals.
use cuts.Base.{
  ℕ, ◌+◌, ◌^◌, ◌<◌, ◌≡◌, refl, ap, subst, inl, inr, Bool, true, Option, none, some, [], arith, ◌==◌,
  Bool-cases, Exec, ok, >>=-eq-ok, ok_injective, ℤ, pos,
}
use cuts.Seat.Kernel.{Kernel}
use cuts.Seat.Clients.Counts.{id_count, vt_count}
use cuts.Seat.Daemon.{
  Serv, Message, on_vt_release, on_vt_activate, seat_close_device, seat_client_callback,
}
use cuts.Seat.Daemon.Invariant.{IsServ, IsServ-later}
use cuts.Seat.Daemon.Devices.{seat_open_device-IsServ, seat_close_device-IsServ}
use cuts.Seat.Daemon.Seats.{
  seat_open_seat-IsServ, seat_close_seat-IsServ, on_vt_release-IsServ, on_vt_activate-IsServ,
}

-- Without a client
abbrev pub start : Serv
start = record { cur_vt = pos 0; dev_id = 1; clients = []; calls = [] }

pub data Step : Serv → Serv → Type 0 where
  message :
      {s s' : Serv} (k : Kernel) (fd : ℤ) (m : Option Message) (goes_on : Bool)
      → seat_client_callback k fd m s ≡ ok (goes_on, s')
      → Step s s'
  vt_release : {s : Serv} (k : Kernel) → Step s (on_vt_release k s)
  vt_activate : {s : Serv} (k : Kernel) → Step s (on_vt_activate k s)

-- After so many events
pub data Reach : ℕ → Serv → Type 0 where
  here : Reach 0 start
  next : {n : ℕ} {s s' : Serv} → Reach n s → Step s s' → Reach (n + 1) s'

callback-IsServ :
    (k : Kernel) (n : ℕ) (fd : ℤ) (m : Option Message) (s s' : Serv) (goes_on : Bool)
    → seat_client_callback k fd m s ≡ ok (goes_on, s')
    → n + 1 < 2 ^ 32
    → IsServ n s
    → IsServ (n + 1) s'
unfolding seat_client_callback
callback-IsServ k n fd none s s' goes_on run word is =
    subst (IsServ (n + 1)) (ap (λ p. p.1) (ok_injective refl run))
      (IsServ-later n _ (seat_close_seat-IsServ k n fd s is))
callback-IsServ k n fd (some m) s s' goes_on run word is =
    let done : (x : Serv)
        → IsServ (n + 1) x
        → ◌≡◌ {A = Exec (Bool × Serv)} (ok (true, x)) (ok (goes_on, s'))
        → IsServ (n + 1) s' =
      λ x is e. subst (IsServ (n + 1)) (ap (λ p. p.1) (ok_injective refl e)) is in
    elim (Bool-cases (m.op == 2)) [
      | inl a ↦ done _ (IsServ-later n _ (seat_open_seat-IsServ k n fd s is)) (rw a at run)
      | inr a ↦ elim (Bool-cases (m.op == 3)) [
        | inl b ↦ done _ (IsServ-later n _ (seat_close_seat-IsServ k n fd s is)) (rw (a, b) at run)
        | inr b ↦ elim (Bool-cases (m.op == 4)) [
          | inl c ↦ done _ (seat_open_device-IsServ k n fd m.path s word is) (rw (a, b, c) at run)
          | inr c ↦ elim (Bool-cases (m.op == 5)) [
            | inl d ↦
                let (s1, closed, e) =
                  >>=-eq-ok (seat_close_device k fd m.id s) _ (rw (a, b, c, d) at run) in
                done s1 (IsServ-later n _ (seat_close_device-IsServ k n fd m.id s s1 closed is)) e
            | inr d ↦ done s (IsServ-later n s is) (rw (a, b, c, d) at run)
          ]
        ]
      ]
    ]

Step-IsServ : (n : ℕ) {s s' : Serv} → Step s s' → n + 1 < 2 ^ 32 → IsServ n s → IsServ (n + 1) s'
Step-IsServ n {s} {s'} (message k fd m goes_on run) word is =
    callback-IsServ k n fd m s s' goes_on run word is
Step-IsServ n {s} (vt_release k) word is = IsServ-later n _ (on_vt_release-IsServ k n s is)
Step-IsServ n {s} (vt_activate k) word is = IsServ-later n _ (on_vt_activate-IsServ k n s is)

-- Through fewer than 2 ^ 32 - 1 events, whatever they are and whatever the kernel answers, no two
-- devices have the same id, no two clients have the same terminal, each client's count of devices
-- is the length of its list and at most 257, and all paths opened have one of the two prefixes.
pub Reach-IsServ : {n : ℕ} {s : Serv} → Reach n s → n + 1 < 2 ^ 32 → IsServ (n + 1) s
unfolding id_count vt_count
Reach-IsServ here word = record {
  next_id = omega arith;
  ids_once = λ id. omega arith;
  ids_used = λ id later. refl;
  terminals = λ vt. omega arith;
  counted = tt;
  calls = tt;
}
Reach-IsServ (next {n} r step) word = Step-IsServ (n + 1) step word (Reach-IsServ r (omega arith))
