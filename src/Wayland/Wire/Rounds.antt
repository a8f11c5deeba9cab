-- ===== src/Wayland/Wire/Rounds.antt =====
-- The readers of wayland/util.c end.
use cuts.Base.{ℕ, zero, suc, ◌+◌, ltb, ◌==◌, Ends, faults, >>=-Ends, if-Ends, assert-Ends}
use cuts.Base.Bytes.{Bytes, load}
use cuts.Wayland.Wire.{read_u32, read_u16, read_i32, read_string, copy_out}

pub load-Ends : (b : Bytes) (i : ℕ) → Ends (load b i)
load-Ends b i = if-Ends (ltb i b.len) Ends.returns faults

pub read_u32-Ends : (b : Bytes) (offset : ℕ) → Ends (read_u32 b offset)
unfolding read_u32
read_u32-Ends b offset = >>=-Ends (load-Ends b _) λ _.
    >>=-Ends (load-Ends b _)
      λ _. >>=-Ends (load-Ends b _) λ _. >>=-Ends (load-Ends b _) λ _. Ends.returns

pub read_u16-Ends : (b : Bytes) (offset : ℕ) → Ends (read_u16 b offset)
unfolding read_u16
read_u16-Ends b offset = >>=-Ends (load-Ends b _) λ _. >>=-Ends (load-Ends b _) λ _. Ends.returns

pub read_i32-Ends : (b : Bytes) (offset : ℕ) → Ends (read_i32 b offset)
unfolding read_i32
read_i32-Ends b offset = >>=-Ends (read_u32-Ends b offset) λ _. Ends.returns

copy_out-Ends : (b : Bytes) (offset n : ℕ) → Ends (copy_out b offset n)
unfolding copy_out
copy_out-Ends b offset zero = Ends.returns
copy_out-Ends b offset (suc n) =
    >>=-Ends (load-Ends b offset) λ _. >>=-Ends (copy_out-Ends b (offset + 1) n) λ _. Ends.returns

pub read_string-Ends : (b : Bytes) (offset out_size : ℕ) → Ends (read_string b offset out_size)
unfolding read_string
read_string-Ends b offset out_size = >>=-Ends (read_u32-Ends b offset) λ (size, offset').
    >>=-Ends (assert-Ends (ltb size out_size)) λ _.
      if-Ends (size == 0) Ends.returns (>>=-Ends (copy_out-Ends b offset' size) λ _. Ends.returns)
