-- ===== src/Wayland/Outbox.antt =====
-- wayland/server.c: the buffer of events that a connection has not sent, and its descriptors. The
-- result of `send` and `sendmsg` is a parameter, for the bytes and descriptors they are given.
pub mod Flush
pub mod Append
pub mod Post
use cuts.Base.{
  ℕ, zero, suc, ◌+◌, ◌-◌, ◌*◌, ◌%◌, ◌^◌, ◌||◌, List, [], ◌∷◌, ◌++◌, ltb, leb, ◌==◌, if◌then◌else◌,
  Exec, ok, undefined, ◌>>=◌, ◌>>◌, ℤ, pos, negsuc,
}
use cuts.Base.Bytes.{Bytes}
use cuts.Base.Lists.{length, take}
use cuts.Wayland.Wire.{copy_out, copy_in}
use cuts.Wayland.Message.{Arg, buffer_size, encode, event_fd}

-- `MAX_CMSG_FDS`, and the size of `send_fds` in bytes
abbrev pub max_fds : ℕ
max_fds = 256

abbrev pub send_fds_bytes : ℕ
send_fds_bytes = 4 * max_fds

-- Of `struct c_wl_connection`: `buffer`, `buffer_size` and the first `send_fd_n` of `send_fds`.
-- Beside them, what has left it: the bytes that the kernel took, the descriptors it was given, and
-- those that were closed.
pub record Outbox : Type 0 where
  pub buffer : Bytes
  pub size : ℕ
  pub send_fds : List ℕ
  pub taken : List ℕ
  pub passed : List ℕ
  pub closed : List ℕ

-- The difference of two `size_t`.
unfoldable pub minus64 : ℕ → ℕ → ℕ
minus64 a b = (a + 2 ^ 64 - b) % 2 ^ 64

-- `memmove` of what remains to the front: the source is `buffer + buffer_size`.
unfoldable pub shift : Bytes → ℕ → ℕ → Exec Bytes
shift b size remaining =
    if remaining == 0 then ok b else (do rest ← copy_out b size remaining; copy_in b 0 rest)

-- What `c_wl_connection_flush` does with the result of `send`.
unfoldable pub sent : Outbox → List ℕ → ℤ → Exec (ℤ × Outbox)
sent o bytes (negsuc k) = ok (negsuc k, o)
sent o bytes (pos zero) = ok (pos 0, o)
sent o bytes (pos (suc k)) = do
  let remaining = minus64 o.size (suc k)
  buffer ← shift o.buffer o.size remaining
  ok (
    pos (suc k),
    record {
      buffer = buffer;
      size = remaining;
      send_fds = [];
      taken = o.taken ++ take (suc k) bytes;
      passed = o.passed ++ o.send_fds;
      closed = o.closed ++ o.send_fds;
    },
  )

-- A descriptor past the end of `send_fds` is written out of bounds. 0 stands for none.
unfoldable pub queue_fd : ℕ → Outbox → Exec Outbox
queue_fd fd o =
    if fd == 0
    then ok o
    else (if ltb (length o.send_fds) max_fds
        then ok (record o { send_fds = o.send_fds ++ fd ∷ [] })
        else undefined)

module _ (send : List ℕ → List ℕ → ℤ) where
  -- `c_wl_connection_flush`
  unfoldable pub flush : Outbox → Exec (ℤ × Outbox)
  flush o =
      if o.size == 0
      then ok (pos 0, o)
      else (do bytes ← copy_out o.buffer 0 o.size; sent o bytes (send bytes o.send_fds))

  -- `c_wl_connection_post` makes room by a flush, whose result it does not read.
  unfoldable pub make_room : Outbox → ℕ → Exec Outbox
  make_room o len =
      if leb buffer_size (o.size + len) || leb send_fds_bytes (length o.send_fds + 1)
      then (do (_, o') ← flush o; ok o')
      else ok o

  -- The end of `c_wl_connection_post`: the message in `tmp` goes to the end of the buffer.
  unfoldable pub append : Outbox → Bytes → ℕ → ℕ → Exec Outbox
  append o tmp len fd = do
    o' ← make_room o len
    bytes ← copy_out tmp 0 len
    buffer ← copy_in o'.buffer o'.size bytes
    queue_fd fd (record o' { buffer = buffer; size = o'.size + len })

  -- `c_wl_connection_post` for an object that is registered; `tmp` is `tmp_buffer` as it comes.
  unfoldable pub post : Outbox → Bytes → ℕ → ℕ → List Arg → Exec Outbox
  post o tmp id op args = do
    (tmp', len) ← encode tmp id op args
    append o tmp' len (event_fd 0 args)
