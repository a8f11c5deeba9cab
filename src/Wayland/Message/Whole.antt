-- ===== src/Wayland/Message/Whole.antt =====
-- A whole message: its header and its arguments, from the writer to the reader.
use cuts.Base.{ℕ, ◌+◌, ◌%◌, ◌^◌, ◌≤◌, ◌<◌, ◌≡◌, ◌∙◌, List, ◌++◌, map, arith, ok}
use cuts.Base.Bytes.{Bytes}
use cuts.Wayland.Wire.{read_u32, read_u16}
use cuts.Wayland.Wire.Region.{Holds-same}
use cuts.Wayland.Wire.Numbers.{le32, le16, write_u32_lem, write_u16_lem, read_u32_lem, read_u16_lem}
use cuts.Wayland.Message.{Arg, encode, decode_args, header_size}
use cuts.Wayland.Message.Laws.{kind_of, received, AllSendable, total_size, fds_of, encode_args_lem}

-- A message that fits its temporary buffer: the header that is read has the object, the opcode and
-- the size of the message, and the arguments behind it are read back, with the descriptors that go
-- along, at the offset where the message ends.
pub decode-encode :
    (tmp : Bytes) (id op : ℕ) (args : List Arg) (rest : List ℕ)
    → id < 2 ^ 32
    → op < 2 ^ 16
    → AllSendable args
    → header_size + total_size args ≤ tmp.len
    → header_size + total_size args < 2 ^ 16
    → let size = header_size + total_size args in
      (b : Bytes) × (encode tmp id op args ≡ ok (b, size))
      × (read_u32 b 0 ≡ ok (id, 4))
      × (read_u16 b 4 ≡ ok (op, 6))
      × (read_u16 b 6 ≡ ok (size, 8))
      × (decode_args b header_size (fds_of args ++ rest) (map kind_of args)
          ≡ ok (map received args, size, rest))
      × (b.len ≡ tmp.len)
unfolding encode
decode-encode tmp id op args rest hid hop valid room small =
    let size = header_size + total_size args in
    let (b1, run1, w1) = write_u32_lem tmp 0 id (omega arith) in
    let (b2, run2, w2) = write_u16_lem b1 4 op (omega (arith, w1.len)) in
    let (b3, run3, carries, len3, before3) =
      encode_args_lem b2 8 args valid (omega (arith, w1.len, w2.len)) in
    let (b4, run4, w4) = write_u16_lem b3 6 size (omega (arith, w1.len, w2.len, len3)) in
    let keep = λ (j : ℕ) (h : j < 6). w4.before j h ∙ before3 j (omega arith) in
    let h0 =
      Holds-same b1 b4 0 (le32 id) w1.holds (w4.len ∙ len3 ∙ w2.len)
        (λ j lo hi. keep j (omega arith) ∙ w2.before j (omega arith)) in
    let h4 =
      Holds-same b2 b4 4 (le16 op) w2.holds (w4.len ∙ len3) (λ j lo hi. keep j (omega arith)) in
    let m : size % 2 ^ 16 ≡ size = omega arith in
    (
      b4,
      rw (run1, run2, run3, m, run4),
      read_u32_lem b4 0 id hid h0,
      read_u16_lem b4 4 op hop h4,
      read_u16_lem b4 6 size small w4.holds,
      carries b4 rest w4.len (λ j lo hi. w4.after j (omega arith)),
      w4.len ∙ len3 ∙ w2.len ∙ w1.len,
    )
