-- ===== src/Wayland/Message/Laws.antt =====
-- Arguments that were posted are dispatched as they were.
use cuts.Base.{
  ℕ, ◌+◌, ◌-◌, ◌^◌, ◌≤◌, ◌<◌, ◌≡◌, refl, ap, ◌∙◌, subst, List, [], ◌∷◌, ◌++◌, map, arith, ok, ℤ,
}
use cuts.Base.Bytes.{Bytes}
use cuts.Base.Lists.{length, length-append, take_all}
use cuts.Wayland.Wire.{padded4, write_u32, write_i32, signed32, pattern32, terminated}
use cuts.Wayland.Wire.Region.{Holds, Wrote, Holds-same}
use cuts.Wayland.Wire.Numbers.{
  le32, IsInt32, pattern32-lt, signed32-pattern32, write_u32_lem, write_i32_lem, read_u32_lem,
  read_i32_lem,
}
use cuts.Wayland.Wire.Strings.{
  Filled, string_size, write_string_lem, read_string_lem, padded4_bounds,
}
use cuts.Wayland.Message.{
  Kind, uint, int, fixed, object, new_id, string, enum, fd, array, Arg, u_val, i_val, f_val, o_val,
  n_val, s_val, e_val, fd_val, a_val, max_string, encode_arg, encode_args, decode_arg, decode_args,
}

-- The letter of an argument.
abbrev pub kind_of : Arg → Kind
kind_of (u_val v) = uint
kind_of (i_val z) = int
kind_of (f_val z) = fixed
kind_of (o_val v) = object
kind_of (n_val v) = new_id
kind_of (s_val bytes) = string
kind_of (e_val v) = enum
kind_of (fd_val v) = fd
kind_of (a_val bytes) = array

-- The argument as its reader has it: a string with its end.
abbrev pub received : Arg → Arg
received (s_val bytes) = s_val (terminated bytes)
received arg = arg

-- The values that the types of the arguments have. A string fits the array of its reader, and an
-- array is not sent to this reader.
abbrev pub Sendable : Arg → Type 0
Sendable (u_val v) = v < 2 ^ 32
Sendable (i_val z) = IsInt32 z
Sendable (f_val z) = IsInt32 z
Sendable (o_val v) = v < 2 ^ 32
Sendable (n_val v) = v < 2 ^ 32
Sendable (s_val bytes) = string_size bytes < max_string
Sendable (e_val v) = v < 2 ^ 32
Sendable (fd_val v) = Unit
Sendable (a_val bytes) = ⊥

-- The bytes that an argument takes.
abbrev pub size_of : Arg → ℕ
size_of (s_val bytes) = 4 + padded4 (string_size bytes)
size_of (fd_val v) = 0
size_of (a_val bytes) = 4 + padded4 (length bytes)
size_of arg = 4

abbrev pub bytes_of : Arg → List ℕ
bytes_of (u_val v) = le32 v
bytes_of (i_val z) = le32 (pattern32 z)
bytes_of (f_val z) = le32 (pattern32 z)
bytes_of (o_val v) = le32 v
bytes_of (n_val v) = le32 v
bytes_of (s_val bytes) = le32 (string_size bytes) ++ terminated bytes
bytes_of (e_val v) = le32 (pattern32 (signed32 v))
bytes_of (fd_val v) = []
bytes_of (a_val bytes) = le32 (length bytes) ++ bytes

-- The descriptors among the arguments.
abbrev pub fds_of : List Arg → List ℕ
fds_of [] = []
fds_of (fd_val v ∷ args) = v ∷ fds_of args
fds_of (arg ∷ args) = fds_of args

of_Wrote :
    {b b' : Bytes} {offset end : ℕ} {vs : List ℕ}
    → Wrote b offset vs b'
    → offset + length vs ≡ end
    → Filled b offset end vs b'
of_Wrote w e = record {
  holds = w.holds;
  len = w.len;
  before = w.before;
  after = λ j h. w.after j (omega (arith, e));
}

-- What `encode_arg` does: the argument's bytes at the offset.
abbrev Encodes : Bytes → ℕ → Arg → Type 0
Encodes b offset arg =
    (b' : Bytes) × (encode_arg b offset arg ≡ ok (b', offset + size_of arg))
    × Filled b offset (offset + size_of arg) (bytes_of arg) b'

word :
    (b : Bytes) (offset v : ℕ)
    → offset + 4 ≤ b.len
    → (b' : Bytes) × (write_u32 b offset v ≡ ok (b', offset + 4))
      × Filled b offset (offset + 4) (le32 v) b'
word b offset v room =
    let (b', run, w) = write_u32_lem b offset v room in (b', run, of_Wrote w refl)

signed_word :
    (b : Bytes) (offset : ℕ) (z : ℤ)
    → offset + 4 ≤ b.len
    → (b' : Bytes) × (write_i32 b offset z ≡ ok (b', offset + 4))
      × Filled b offset (offset + 4) (le32 (pattern32 z)) b'
signed_word b offset z room =
    let (b', run, w) = write_i32_lem b offset z room in (b', run, of_Wrote w refl)

encode_arg_lem :
    (b : Bytes) (offset : ℕ) (arg : Arg)
    → Sendable arg
    → offset + size_of arg ≤ b.len
    → Encodes b offset arg
unfolding encode_arg
encode_arg_lem b offset (u_val v) valid room = word b offset v room
encode_arg_lem b offset (i_val z) valid room = signed_word b offset z room
encode_arg_lem b offset (f_val z) valid room = signed_word b offset z room
encode_arg_lem b offset (o_val v) valid room = word b offset v room
encode_arg_lem b offset (n_val v) valid room = word b offset v room
encode_arg_lem b offset (s_val bytes) valid room =
    let whole = take_all (max_string - 1) bytes (omega (arith, valid)) in
    let e : offset + 4 + padded4 (string_size bytes) ≡ offset + (4 + padded4 (string_size bytes)) =
      omega arith in
    let (b', run, w) = write_string_lem b offset bytes (omega (arith, valid)) (omega arith) in
    (
      b',
      rw whole (run ∙ ap (λ k. ok (b', k)) e),
      subst (λ k. Filled b offset k (bytes_of (s_val bytes)) b') e w,
    )
encode_arg_lem b offset (e_val v) valid room = signed_word b offset (signed32 v) room
encode_arg_lem b offset (fd_val v) valid room =
    let e : offset ≡ offset + 0 = omega arith in
    (
      b,
      ap (λ k. ok (b, k)) e,
      record { holds = tt; len = refl; before = λ j h. refl; after = λ j h. refl },
    )
encode_arg_lem b offset (a_val bytes) valid room = absurd valid

-- The descriptors in front of an argument: its own and those of later ones.
abbrev with_fd : Arg → List ℕ → List ℕ
with_fd (fd_val v) fds = v ∷ fds
with_fd arg fds = fds

fds_of-cons :
    (arg : Arg) (args : List Arg) (rest : List ℕ)
    → fds_of (arg ∷ args) ++ rest ≡ with_fd arg (fds_of args ++ rest)
fds_of-cons (u_val v) args rest = refl
fds_of-cons (i_val z) args rest = refl
fds_of-cons (f_val z) args rest = refl
fds_of-cons (o_val v) args rest = refl
fds_of-cons (n_val v) args rest = refl
fds_of-cons (s_val bytes) args rest = refl
fds_of-cons (e_val v) args rest = refl
fds_of-cons (fd_val v) args rest = refl
fds_of-cons (a_val bytes) args rest = refl

length-bytes_of : (arg : Arg) → Sendable arg → length (bytes_of arg) ≤ size_of arg
length-bytes_of (u_val v) h = omega arith
length-bytes_of (i_val z) h = omega arith
length-bytes_of (f_val z) h = omega arith
length-bytes_of (o_val v) h = omega arith
length-bytes_of (n_val v) h = omega arith
length-bytes_of (s_val bytes) h =
    omega
      (arith, padded4_bounds (string_size bytes) (omega (arith, h)), length-append bytes (0 ∷ []))
length-bytes_of (e_val v) h = omega arith
length-bytes_of (fd_val v) h = omega arith
length-bytes_of (a_val bytes) h = absurd h

pattern32-signed32 : (v : ℕ) → v < 2 ^ 32 → pattern32 (signed32 v) ≡ v
pattern32-signed32 v h = ground arith

signed32-IsInt32 : (v : ℕ) → v < 2 ^ 32 → IsInt32 (signed32 v)
signed32-IsInt32 v h = ground arith

decode_arg_lem :
    (b : Bytes) (offset : ℕ) (arg : Arg) (fds : List ℕ)
    → Sendable arg
    → Holds b offset (bytes_of arg)
    → decode_arg b offset (with_fd arg fds) (kind_of arg)
      ≡ ok (received arg, offset + size_of arg, fds)
unfolding decode_arg
decode_arg_lem b offset (u_val v) fds valid h = rw (read_u32_lem b offset v valid h)
decode_arg_lem b offset (i_val z) fds valid h = rw (read_i32_lem b offset z valid h)
decode_arg_lem b offset (f_val z) fds valid h =
    rw (read_u32_lem b offset (pattern32 z) (pattern32-lt z) h, signed32-pattern32 z valid)
decode_arg_lem b offset (o_val v) fds valid h = rw (read_u32_lem b offset v valid h)
decode_arg_lem b offset (n_val v) fds valid h = rw (read_u32_lem b offset v valid h)
decode_arg_lem b offset (s_val bytes) fds valid h =
    let e : offset + 4 + padded4 (string_size bytes) ≡ offset + (4 + padded4 (string_size bytes)) =
      omega arith in
    rw (read_string_lem b offset max_string bytes valid (omega (arith, valid)) h, e)
decode_arg_lem b offset (e_val v) fds valid h =
    rw (read_i32_lem b offset (signed32 v) (signed32-IsInt32 v valid) h, pattern32-signed32 v valid)
decode_arg_lem b offset (fd_val v) fds valid h =
    let e : offset ≡ offset + 0 = omega arith in ap (λ k. ok (fd_val v, k, fds)) e
decode_arg_lem b offset (a_val bytes) fds valid h = absurd valid

abbrev pub AllSendable : List Arg → Type 0
AllSendable [] = Unit
AllSendable (arg ∷ args) = Sendable arg × AllSendable args

abbrev pub total_size : List Arg → ℕ
total_size [] = 0
total_size (arg ∷ args) = size_of arg + total_size args

-- Whoever reads a buffer with these bytes from `offset` to `end` gets the arguments back.
abbrev pub Carries : Bytes → ℕ → List Arg → Type 0
Carries b offset args =
    (b' : Bytes) (rest : List ℕ)
    → b'.len ≡ b.len
    → ((j : ℕ) → offset ≤ j → j < offset + total_size args → b'.at j ≡ b.at j)
    → decode_args b' offset (fds_of args ++ rest) (map kind_of args)
      ≡ ok (map received args, offset + total_size args, rest)

-- Arguments that fit the buffer are written from the offset on, for a reader with their signature
-- and their descriptors.
pub encode_args_lem :
    (b : Bytes) (offset : ℕ) (args : List Arg)
    → AllSendable args
    → offset + total_size args ≤ b.len
    → (b' : Bytes) × (encode_args b offset args ≡ ok (b', offset + total_size args))
      × Carries b' offset args
      × (b'.len ≡ b.len)
      × ((j : ℕ) → j < offset → b'.at j ≡ b.at j)
unfolding encode_args decode_args
encode_args_lem b offset [] valid room =
    let e : offset ≡ offset + 0 = omega arith in
    (b, ap (λ k. ok (b, k)) e, λ b' rest len same. ap (λ k. ok ([], k, rest)) e, refl, λ j h. refl)
encode_args_lem b offset (arg ∷ args) (valid, valids) room =
    let (b1, run1, w) = encode_arg_lem b offset arg valid (omega arith) in
    let next = offset + size_of arg in
    let (b2, run2, back, len, before) =
      encode_args_lem b1 next args valids (omega (arith, w.len)) in
    let short = length-bytes_of arg valid in
    let h =
      Holds-same b1 b2 offset (bytes_of arg) w.holds len
        (λ j lo hi. before j (omega (arith, short))) in
    let e : next + total_size args ≡ offset + (size_of arg + total_size args) = omega arith in
    (
      b2,
      rw run1 (run2 ∙ ap (λ k. ok (b2, k)) e),
      λ b' rest len' same.
          let h' =
            Holds-same b2 b' offset (bytes_of arg) h len'
              (λ j lo hi. same j lo (omega (arith, short))) in
          rw
            (
              fds_of-cons arg args rest,
              decode_arg_lem b' offset arg (fds_of args ++ rest) valid h',
              back b' rest len' (λ j lo hi. same j (omega arith) (omega arith)),
            )
            (ap (λ k. ok (received arg ∷ map received args, k, rest)) e),
      len ∙ w.len,
      λ j lt. before j (omega arith) ∙ w.before j lt,
    )

-- The bytes of the arguments stand one after the other from `offset` on; what pads a string is not
-- said.
abbrev pub HoldsArgs : Bytes → ℕ → List Arg → Type 0
HoldsArgs b offset [] = Unit
HoldsArgs b offset (arg ∷ args) =
    Holds b offset (bytes_of arg) × HoldsArgs b (offset + size_of arg) args

pub decode_args_lem :
    (b : Bytes) (offset : ℕ) (args : List Arg) (rest : List ℕ)
    → AllSendable args
    → HoldsArgs b offset args
    → decode_args b offset (fds_of args ++ rest) (map kind_of args)
      ≡ ok (map received args, offset + total_size args, rest)
unfolding decode_args
decode_args_lem b offset [] rest valid h =
    let e : offset ≡ offset + 0 = omega arith in ap (λ k. ok ([], k, rest)) e
decode_args_lem b offset (arg ∷ args) rest (valid, valids) (h, hs) =
    let next = offset + size_of arg in
    let e : next + total_size args ≡ offset + (size_of arg + total_size args) = omega arith in
    rw
      (
        fds_of-cons arg args rest,
        decode_arg_lem b offset arg (fds_of args ++ rest) valid h,
        decode_args_lem b next args rest valids hs,
      )
      (ap (λ k. ok (received arg ∷ map received args, k, rest)) e)
