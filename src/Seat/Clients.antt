-- ===== src/Seat/Clients.antt =====
-- seat/session/impl/diazepam/daemon.c: the list of clients and of the devices opened for them.
pub mod Counts
use cuts.Base.{
  ℕ, Bool, true, false, Option, none, some, List, [], ◌∷◌, ◌++◌, ◌==◌, if◌then◌else◌, ℤ,
}
use cuts.Seat.Kernel.{Kernel, Call, Ioctl, drm_set_master, drm_drop_master, same, all_of}

pub record SeatDevice : Type 0 where
  pub fd : ℤ
  pub id : ℕ
  pub is_drm : Bool

pub record SeatClient : Type 0 where
  pub fd : ℤ
  pub vt : ℤ
  pub vt_fd : ℤ
  pub n_devices : ℕ
  pub devices : List SeatDevice

-- What `drm_activate_master` asks for, for one client and for all of them.
unfoldable pub client_masters : Bool → List SeatDevice → List Ioctl
client_masters active [] = []
client_masters active (d ∷ ds) =
    let rest = client_masters active ds in
    if d.is_drm then (if active then drm_set_master d.fd else drm_drop_master d.fd) ∷ rest else rest

unfoldable pub masters : ℤ → List SeatClient → List Ioctl
masters vt [] = []
masters vt (c ∷ cs) = client_masters (same c.vt vt) c.devices ++ masters vt cs

unfoldable pub drm_activate_master : Kernel → ℤ → List SeatClient → Bool × List Call
drm_activate_master k vt clients = all_of k (masters vt clients)

unfoldable pub get_client_from_fd : ℤ → List SeatClient → Option SeatClient
get_client_from_fd fd [] = none
get_client_from_fd fd (c ∷ cs) =
    let rest = get_client_from_fd fd cs in if same fd c.fd then some c else rest

-- A change of the client that `get_client_from_fd` finds
unfoldable pub update_client : ℤ → (SeatClient → SeatClient) → List SeatClient → List SeatClient
update_client fd f [] = []
update_client fd f (c ∷ cs) =
    let rest = update_client fd f cs in if same fd c.fd then f c ∷ cs else c ∷ rest

-- The removal of that client
unfoldable pub remove_client : ℤ → List SeatClient → List SeatClient
remove_client fd [] = []
remove_client fd (c ∷ cs) = let rest = remove_client fd cs in if same fd c.fd then cs else c ∷ rest

unfoldable pub find_device : ℕ → List SeatDevice → Option SeatDevice
find_device id [] = none
find_device id (d ∷ ds) = let rest = find_device id ds in if d.id == id then some d else rest

unfoldable pub remove_device : ℕ → List SeatDevice → List SeatDevice
remove_device id [] = []
remove_device id (d ∷ ds) = let rest = remove_device id ds in if d.id == id then ds else d ∷ rest

unfoldable pub has_vt : ℤ → List SeatClient → Bool
has_vt vt [] = false
has_vt vt (c ∷ cs) = let rest = has_vt vt cs in if same c.vt vt then true else rest
