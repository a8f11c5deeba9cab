-- ===== src/Wayland/Message.antt =====
-- Messages in wayland/server.c: the arguments that `c_wl_connection_post` writes and `dispatch`
-- reads, by the letters of a signature.
pub mod Laws
pub mod Whole
use cuts.Base.{ℕ, ◌+◌, ◌-◌, ◌%◌, ◌^◌, List, [], ◌∷◌, Exec, ok, undefined, aborted, ◌>>=◌, ◌>>◌, ℤ}
use cuts.Base.Bytes.{Bytes, put, load, store}
use cuts.Base.Lists.{length, take}
use cuts.Wayland.Wire.{
  read_u32, read_i32, read_string, write_u32, write_u16, write_i32, write_string, write_array,
  signed32, pattern32,
}

-- The letters of a signature: u, i, f, o, n, s, e, F and a.
pub data Kind : Type 0 where
  uint int fixed object new_id string enum fd array : Kind

-- `union c_wl_arg`, a constructor for each member; a string or an array by its bytes, an enum as a `uint32_t`
pub data Arg : Type 0 where
  u_val : ℕ → Arg
  i_val : ℤ → Arg
  f_val : ℤ → Arg
  o_val : ℕ → Arg
  n_val : ℕ → Arg
  s_val : List ℕ → Arg
  e_val : ℕ → Arg
  fd_val : ℕ → Arg
  a_val : List ℕ → Arg

abbrev pub buffer_size : ℕ
buffer_size = 2048

abbrev pub header_size : ℕ
header_size = 8

abbrev pub max_string : ℕ
max_string = buffer_size - header_size - 4

-- One round of the loop of `c_wl_connection_post`. `snprintf` cuts a string to its array.
unfoldable pub encode_arg : Bytes → ℕ → Arg → Exec (Bytes × ℕ)
encode_arg b offset (u_val v) = write_u32 b offset v
encode_arg b offset (i_val z) = write_i32 b offset z
encode_arg b offset (f_val z) = write_i32 b offset z
encode_arg b offset (o_val v) = write_u32 b offset v
encode_arg b offset (n_val v) = write_u32 b offset v
encode_arg b offset (s_val bytes) = write_string b offset (take (max_string - 1) bytes)
encode_arg b offset (e_val v) = write_i32 b offset (signed32 v)
encode_arg b offset (fd_val v) = ok (b, offset)
encode_arg b offset (a_val bytes) = write_array b offset bytes

unfoldable pub encode_args : Bytes → ℕ → List Arg → Exec (Bytes × ℕ)
unfolding encode_arg
encode_args b offset [] = ok (b, offset)
encode_args b offset (arg ∷ args) = do
  (b', offset') ← encode_arg b offset arg
  encode_args b' offset' args

-- The message of `c_wl_connection_post` in its temporary buffer, and its size: the header has the
-- object's id, the opcode and, once the arguments are written, the size.
unfoldable pub encode : Bytes → ℕ → ℕ → List Arg → Exec (Bytes × ℕ)
unfolding encode_args
encode tmp id op args = do
  (b1, offset1) ← write_u32 tmp 0 id
  (b2, offset2) ← write_u16 b1 offset1 op
  (b3, offset3) ← encode_args b2 (offset2 + 2) args
  (b4, _) ← write_u16 b3 6 (offset3 % 2 ^ 16)
  ok (b4, offset3)

-- The descriptor that is sent along: that of the last `F`, 0 for none.
unfoldable pub event_fd : ℕ → List Arg → ℕ
event_fd last [] = last
event_fd last (fd_val v ∷ args) = event_fd v args
event_fd last (arg ∷ args) = event_fd last args

-- One round of the loop of `dispatch`: the argument, the new offset, the descriptors left. Arrays
-- are refused by an `assert`. A read past the received descriptors is undefined.
unfoldable pub decode_arg : Bytes → ℕ → List ℕ → Kind → Exec (Arg × ℕ × List ℕ)
decode_arg b offset fds uint = do (v, next) ← read_u32 b offset; ok (u_val v, next, fds)
decode_arg b offset fds int = do (z, next) ← read_i32 b offset; ok (i_val z, next, fds)
decode_arg b offset fds fixed = do (v, next) ← read_u32 b offset; ok (f_val (signed32 v), next, fds)
decode_arg b offset fds object = do (v, next) ← read_u32 b offset; ok (o_val v, next, fds)
decode_arg b offset fds new_id = do (v, next) ← read_u32 b offset; ok (n_val v, next, fds)
decode_arg b offset fds string = do
  (bytes, next) ← read_string b offset max_string
  ok (s_val bytes, next, fds)
decode_arg b offset fds enum = do (z, next) ← read_i32 b offset; ok (e_val (pattern32 z), next, fds)
decode_arg b offset [] fd = undefined
decode_arg b offset (v ∷ fds) fd = ok (fd_val v, offset, fds)
decode_arg b offset fds array = aborted

unfoldable pub decode_args : Bytes → ℕ → List ℕ → List Kind → Exec (List Arg × ℕ × List ℕ)
unfolding decode_arg
decode_args b offset fds [] = ok ([], offset, fds)
decode_args b offset fds (kind ∷ kinds) = do
  (arg, offset', fds') ← decode_arg b offset fds kind
  (args, end, rest) ← decode_args b offset' fds' kinds
  ok (arg ∷ args, end, rest)
