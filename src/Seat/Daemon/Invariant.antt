-- ===== src/Seat/Daemon/Invariant.antt =====
-- What holds of the daemon's clients and of the calls it made.
use cuts.Base.{
  ℕ, ◌+◌, ◌≤◌, ◌≡◌, refl, ◌⊎◌, inl, inr, true, false, List, [], ◌∷◌, ◌++◌, map, arith, ◌==◌,
  Bool-cases, ℤ,
}
use cuts.Seat.Kernel.{Kernel, Ioctl, Call, called, open_device, all_of}
use cuts.Seat.Paths.{starts_with, dri_card, input_event}
use cuts.Seat.Clients.Counts.{id_count, vt_count, AreCounted}
use cuts.Seat.Daemon.{Serv, record_calls}

-- The paths that the daemon may open
abbrev pub IsAllowed : List ℕ → Type 0
IsAllowed path = (rest : List ℕ) × ((path ≡ dri_card ++ rest) ⊎ (path ≡ input_event ++ rest))

abbrev pub CallAllowed : Call → Type 0
CallAllowed (open_device path) = IsAllowed path
CallAllowed _ = Unit

abbrev pub CallsAllowed : List Call → Type 0
CallsAllowed [] = Unit
CallsAllowed (c ∷ cs) = CallAllowed c × CallsAllowed cs

-- No two devices have one id and no id is given out beforehand; no two clients use one terminal;
-- each client's number of devices is the length of its list, 257 at most; and only devices below
-- the two prefixes were opened. `n` bounds the next id.
pub record IsServ (n : ℕ) (s : Serv) : Type 0 where
  pub next_id : s.dev_id ≤ n
  pub ids_once : (id : ℕ) → id_count id s.clients ≤ 1
  pub ids_used : (id : ℕ) → s.dev_id ≤ id → id_count id s.clients ≡ 0
  pub terminals : (vt : ℤ) → vt_count vt s.clients ≤ 1
  pub counted : AreCounted s.clients
  pub calls : CallsAllowed s.calls

pub CallsAllowed-append :
    (cs ds : List Call) → CallsAllowed cs → CallsAllowed ds → CallsAllowed (cs ++ ds)
CallsAllowed-append [] ds a b = b
CallsAllowed-append (c ∷ cs) ds (one, a) b = (one, CallsAllowed-append cs ds a b)

pub CallsAllowed-all_of : (k : Kernel) (is : List Ioctl) → CallsAllowed (all_of k is).1
unfolding all_of
CallsAllowed-all_of k [] = tt
CallsAllowed-all_of k (i ∷ is) = elim (Bool-cases (k.ioctl i)) [
  | inl t ↦ rw t (tt, CallsAllowed-all_of k is)
  | inr t ↦ rw t (tt, tt)
]

pub CallsAllowed-ioctls : (is : List Ioctl) → CallsAllowed (map called is)
CallsAllowed-ioctls [] = tt
CallsAllowed-ioctls (i ∷ is) = (tt, CallsAllowed-ioctls is)

pub starts_with-prefix :
    (path prefix : List ℕ)
    → starts_with path prefix ≡ true
    → (rest : List ℕ) × (path ≡ prefix ++ rest)
unfolding starts_with
starts_with-prefix path [] same_start = (path, refl)
starts_with-prefix [] (p ∷ prefix) same_start = cc
starts_with-prefix (x ∷ path) (p ∷ prefix) same_start = elim (Bool-cases (x == p)) [
  | inl t ↦
      let (rest, eq) = starts_with-prefix path prefix (rw t at same_start) in
      let head : x ≡ p = ground arith in (rest, cc)
  | inr t ↦ let e : false ≡ true = rw t at same_start in cc
]

-- More calls and another current terminal change nothing for the clients.
pub IsServ-record_calls :
    (n : ℕ) (calls : List Call) (s : Serv)
    → CallsAllowed calls
    → IsServ n s
    → IsServ n (record_calls calls s)
unfolding record_calls
IsServ-record_calls n calls s allowed is = record {
  next_id = is.next_id;
  ids_once = is.ids_once;
  ids_used = is.ids_used;
  terminals = is.terminals;
  counted = is.counted;
  calls = CallsAllowed-append s.calls calls is.calls allowed;
}

pub IsServ-cur_vt : (n : ℕ) (vt : ℤ) (s : Serv) → IsServ n s → IsServ n (record s { cur_vt = vt })
IsServ-cur_vt n vt s is = record {
  next_id = is.next_id;
  ids_once = is.ids_once;
  ids_used = is.ids_used;
  terminals = is.terminals;
  counted = is.counted;
  calls = is.calls;
}

pub IsServ-later : (n : ℕ) (s : Serv) → IsServ n s → IsServ (n + 1) s
IsServ-later n s is = record {
  next_id = (let before = is.next_id in omega arith);
  ids_once = is.ids_once;
  ids_used = is.ids_used;
  terminals = is.terminals;
  counted = is.counted;
  calls = is.calls;
}
