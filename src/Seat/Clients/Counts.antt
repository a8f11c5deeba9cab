-- ===== src/Seat/Clients/Counts.antt =====
-- How often a device id and a terminal occur among the clients, and the number each client keeps.
use cuts.Base.{
  ℕ, ◌+◌, ◌≤◌, ◌≡◌, refl, sym, subst, inl, inr, true, false, some, List, [], ◌∷◌, ◌++◌, arith, ◌==◌,
  if◌then◌else◌, Bool-cases, ℤ,
}
use cuts.Base.Lists.{length}
use cuts.Seat.Kernel.{same}
use cuts.Seat.Clients.{
  SeatDevice, SeatClient, get_client_from_fd, update_client, remove_client, find_device,
  remove_device, has_vt,
}

unfoldable pub device_count : ℕ → List SeatDevice → ℕ
device_count id [] = 0
device_count id (d ∷ ds) = (if d.id == id then 1 else 0) + device_count id ds

unfoldable pub id_count : ℕ → List SeatClient → ℕ
id_count id [] = 0
id_count id (c ∷ cs) = device_count id c.devices + id_count id cs

unfoldable pub vt_count : ℤ → List SeatClient → ℕ
vt_count vt [] = 0
vt_count vt (c ∷ cs) = (if same c.vt vt then 1 else 0) + vt_count vt cs

-- The guard of `seat_open_device` lets a client with 256 devices open one more.
abbrev pub IsCounted : SeatClient → Type 0
IsCounted c = c.n_devices ≡ length c.devices × length c.devices ≤ 257

abbrev pub AreCounted : List SeatClient → Type 0
AreCounted [] = Unit
AreCounted (c ∷ cs) = IsCounted c × AreCounted cs

pub device_count-add :
    (id : ℕ) (ds : List SeatDevice) (d : SeatDevice)
    → device_count id (ds ++ d ∷ []) ≡ device_count id ds + (if d.id == id then 1 else 0)
unfolding device_count
device_count-add id [] d = omega arith
device_count-add id (x ∷ ds) d = rw (device_count-add id ds d) (omega arith)

pub device_count-remove_device :
    (id j : ℕ) (ds : List SeatDevice) → device_count id (remove_device j ds) ≤ device_count id ds
unfolding device_count remove_device
device_count-remove_device id j [] = omega arith
device_count-remove_device id j (d ∷ ds) =
    let rest = device_count-remove_device id j ds in
    elim (Bool-cases (d.id == j)) [ inl t ↦ rw t (omega arith) | inr t ↦ rw t (omega arith) ]

pub length-remove_device :
    (j : ℕ) (ds : List SeatDevice) {d : SeatDevice}
    → find_device j ds ≡ some d
    → length (remove_device j ds) + 1 ≡ length ds
unfolding find_device remove_device
length-remove_device j [] found = cc
length-remove_device j (x ∷ ds) found = elim (Bool-cases (x.id == j)) [
  | inl t ↦ rw t (omega arith)
  | inr t ↦ let rest = length-remove_device j ds (rw t at found) in rw t (omega arith)
]

module _ (fd : ℤ) (f : SeatClient → SeatClient) where
  pub id_count-update_client :
      (id k : ℕ)
      → ((c : SeatClient) → device_count id (f c).devices ≤ device_count id c.devices + k)
      → (cs : List SeatClient) → id_count id (update_client fd f cs) ≤ id_count id cs + k
  unfolding id_count update_client
  id_count-update_client id k grows [] = omega arith
  id_count-update_client id k grows (c ∷ cs) =
      let rest = id_count-update_client id k grows cs in
      let one = grows c in
      elim (Bool-cases (same fd c.fd)) [ inl t ↦ rw t (omega arith) | inr t ↦ rw t (omega arith) ]

  pub vt_count-update_client :
      (vt : ℤ)
      → ((c : SeatClient) → (f c).vt ≡ c.vt)
      → (cs : List SeatClient) → vt_count vt (update_client fd f cs) ≡ vt_count vt cs
  unfolding vt_count update_client
  vt_count-update_client vt keeps [] = refl
  vt_count-update_client vt keeps (c ∷ cs) = elim (Bool-cases (same fd c.fd)) [
    | inl t ↦ rw (t, keeps c) refl
    | inr t ↦ rw (t, vt_count-update_client vt keeps cs) refl
  ]

  pub AreCounted-update_client :
      (cs : List SeatClient) {c : SeatClient}
      → get_client_from_fd fd cs ≡ some c
      → (IsCounted c → IsCounted (f c))
      → AreCounted cs
      → AreCounted (update_client fd f cs)
  unfolding get_client_from_fd update_client
  AreCounted-update_client [] found keeps counted = cc
  AreCounted-update_client (x ∷ cs) {c} found keeps (one, rest) = elim (Bool-cases (same fd x.fd)) [
    | inl t ↦
        let head : some x ≡ some c = rw t at found in
        let eq : x ≡ c = cc in
        rw t (subst (λ y. IsCounted y → IsCounted (f y)) (sym eq) keeps one, rest)
    | inr t ↦ rw t (one, AreCounted-update_client cs (rw t at found) keeps rest)
  ]

pub id_count-remove_client :
    (fd : ℤ) (id : ℕ) (cs : List SeatClient) → id_count id (remove_client fd cs) ≤ id_count id cs
unfolding id_count remove_client
id_count-remove_client fd id [] = omega arith
id_count-remove_client fd id (c ∷ cs) =
    let rest = id_count-remove_client fd id cs in
    elim (Bool-cases (same fd c.fd)) [ inl t ↦ rw t (omega arith) | inr t ↦ rw t (omega arith) ]

pub vt_count-remove_client :
    (fd vt : ℤ) (cs : List SeatClient) → vt_count vt (remove_client fd cs) ≤ vt_count vt cs
unfolding vt_count remove_client
vt_count-remove_client fd vt [] = omega arith
vt_count-remove_client fd vt (c ∷ cs) =
    let rest = vt_count-remove_client fd vt cs in
    elim (Bool-cases (same fd c.fd)) [ inl t ↦ rw t (omega arith) | inr t ↦ rw t (omega arith) ]

pub AreCounted-remove_client :
    (fd : ℤ) (cs : List SeatClient) → AreCounted cs → AreCounted (remove_client fd cs)
unfolding remove_client
AreCounted-remove_client fd [] counted = tt
AreCounted-remove_client fd (c ∷ cs) (one, rest) = elim (Bool-cases (same fd c.fd)) [
  | inl t ↦ rw t rest
  | inr t ↦ rw t (one, AreCounted-remove_client fd cs rest)
]

pub id_count-add :
    (id : ℕ) (cs : List SeatClient) (c : SeatClient)
    → id_count id (cs ++ c ∷ []) ≡ id_count id cs + device_count id c.devices
unfolding id_count
id_count-add id [] c = omega arith
id_count-add id (x ∷ cs) c = rw (id_count-add id cs c) (omega arith)

pub vt_count-add :
    (vt : ℤ) (cs : List SeatClient) (c : SeatClient)
    → vt_count vt (cs ++ c ∷ []) ≡ vt_count vt cs + (if same c.vt vt then 1 else 0)
unfolding vt_count
vt_count-add vt [] c = omega arith
vt_count-add vt (x ∷ cs) c = rw (vt_count-add vt cs c) (omega arith)

pub AreCounted-add :
    (cs : List SeatClient) (c : SeatClient)
    → AreCounted cs
    → IsCounted c
    → AreCounted (cs ++ c ∷ [])
AreCounted-add [] c counted one = (one, tt)
AreCounted-add (x ∷ cs) c (first, rest) one = (first, AreCounted-add cs c rest one)

pub vt_count-has_vt : (vt : ℤ) (cs : List SeatClient) → has_vt vt cs ≡ false → vt_count vt cs ≡ 0
unfolding has_vt vt_count
vt_count-has_vt vt [] none_has = refl
vt_count-has_vt vt (c ∷ cs) none_has = elim (Bool-cases (same c.vt vt)) [
  | inl t ↦ let e : true ≡ false = rw t at none_has in cc
  | inr t ↦ let rest = vt_count-has_vt vt cs (rw t at none_has) in rw t (omega arith)
]
