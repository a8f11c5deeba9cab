-- ===== src/Examples/Messages.antt =====
-- wayland/server.c: a message with a number, a text and a descriptor.
use cuts.Base.{◌≡◌, List, [], ◌∷◌, arith, ok}
use cuts.Base.Bytes.{Bytes, zeros}
use cuts.Wayland.Wire.{padded4, read_u32, read_u16}
use cuts.Wayland.Message.{Arg, uint, string, fd, u_val, s_val, fd_val, encode, decode_args}
use cuts.Wayland.Message.Whole.{decode-encode}

abbrev args : List Arg
args = u_val 7 ∷ s_val (104 ∷ 105 ∷ []) ∷ fd_val 12 ∷ []

decode-encode_example :
    (b : Bytes) × (encode (zeros 2048) 3 5 args ≡ ok (b, 20))
    × (read_u32 b 0 ≡ ok (3, 4))
    × (read_u16 b 4 ≡ ok (5, 6))
    × (read_u16 b 6 ≡ ok (20, 8))
    × (decode_args b 8 (12 ∷ 13 ∷ []) (uint ∷ string ∷ fd ∷ [])
        ≡ ok (u_val 7 ∷ s_val (104 ∷ 105 ∷ 0 ∷ []) ∷ fd_val 12 ∷ [], 20, 13 ∷ []))
    × (b.len ≡ 2048)
unfolding padded4
decode-encode_example =
    decode-encode (zeros 2048) 3 5 args (13 ∷ []) (omega arith) (omega arith) (omega arith)
      (omega arith) (omega arith)
