-- ===== src/Examples/Seats.antt =====
-- The seat daemon: a client opens the seat on terminal 2, and then a card.
use cuts.Base.{ℕ, ◌≡◌, refl, true, some, List, [], ◌∷◌, ◌++◌, arith, pos}
use cuts.Base.Lists.{get_elem?}
use cuts.Seat.Kernel.{Kernel, open_device, all_of, vt_disable}
use cuts.Seat.Paths.{starts_with, dri_card}
use cuts.Seat.Clients.{
  get_client_from_fd, update_client, has_vt, masters, client_masters, drm_activate_master,
}
use cuts.Seat.Daemon.{
  Serv, record_calls, seat_enable, open_vt, seat_open_seat, open_path, add_device, seat_open_device,
  seat_client_callback,
}
use cuts.Seat.Daemon.Invariant.{IsServ}
use cuts.Seat.Daemon.Reach.{start, Reach, message, here, next, Reach-IsServ}

abbrev kernel : Kernel
kernel = record { ioctl = λ i. true; vt = pos 2; opened = pos 9; tty = pos 8; sent = true }

-- "/dev/dri/card0"
abbrev card0 : List ℕ
card0 = dri_card ++ 48 ∷ []

abbrev seated : Serv
seated = seat_open_seat kernel (pos 7) start

abbrev holding : Serv
holding = seat_open_device kernel (pos 7) card0 seated

seat_opened : Reach 1 seated
unfolding seat_client_callback
seat_opened =
    next here (message kernel (pos 7) (some (record { op = 2; id = 0; path = [] })) true refl)

device_opened : Reach 2 holding
unfolding seat_client_callback
device_opened =
    next seat_opened
      (message kernel (pos 7) (some (record { op = 4; id = 0; path = card0 })) true refl)

Reach-IsServ_example : IsServ 3 holding
Reach-IsServ_example = Reach-IsServ device_opened (omega arith)

card_call : get_elem? holding.calls 5 ≡ some (open_device card0)
unfolding seat_open_seat has_vt open_vt vt_disable all_of seat_enable record_calls seat_open_device
    get_client_from_fd starts_with open_path drm_activate_master masters client_masters add_device
    update_client
card_call = refl
