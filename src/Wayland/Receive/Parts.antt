-- ===== src/Wayland/Receive/Parts.antt =====
-- The parts of `c_wl_connection_dispatch` end.
use cuts.Base.{ℕ, ◌-◌, ◌^◌, List, [], ◌∷◌, ltb, Ends, faults, >>=-Ends, if-Ends}
use cuts.Base.Bytes.{Bytes}
use cuts.Wayland.Wire.Rounds.{read_u32-Ends, read_u16-Ends}
use cuts.Wayland.Objects.Rounds.{object_del-Ends}
use cuts.Wayland.Dispatch.{Server}
use cuts.Wayland.Receive.{read_header, callback_done, next_serial, all_done}

pub read_header-Ends : (b : Bytes) (base : ℕ) → Ends (read_header b base)
unfolding read_header
read_header-Ends b base =
    >>=-Ends (read_u32-Ends b _)
      λ _. >>=-Ends (read_u16-Ends b _) λ _. >>=-Ends (read_u16-Ends b _) λ _. Ends.returns

callback_done-Ends : {W : Type 0} (id : ℕ) (s : Server W) → Ends (callback_done id s)
unfolding callback_done next_serial
callback_done-Ends id s =
    >>=-Ends (if-Ends (ltb s.serial (2 ^ 31 - 1)) Ends.returns faults)
      λ _. >>=-Ends (object_del-Ends _ _) λ _. Ends.returns

pub all_done-Ends : {W : Type 0} (ids : List ℕ) (s : Server W) → Ends (all_done ids s)
unfolding all_done
all_done-Ends [] s = Ends.returns
all_done-Ends (id ∷ ids) s = >>=-Ends (callback_done-Ends id s) λ s'. all_done-Ends ids s'
