-- ===== src/Connection/Recv.antt =====
-- The receive buffer of `connection::poll_recv`, server/connection.cpp: `_recv_buf` and `_recv_idx`.
use irc_chat.Base.{ℕ, suc, ◌+◌, ◌-◌, ◌++◌, Option, none, some, Str, length, take, drop, find_byte}
use irc_chat.Connection.{Connection, zeros, buf_size}

-- `v.resize(n, 0)`.
unfoldable pub resize : ℕ → Str → Str
resize n v = take n v ++ zeros (n - length v)

-- `nonblocking_recv` writes `chunk` at `_recv_idx`; then the index moves on and the buffer is made to
-- hold `buf_size` more bytes.
unfoldable pub store_chunk : Str → Connection → Connection
unfolding resize
store_chunk chunk c =
    let idx = c.recv_idx + length chunk in
    let written = take c.recv_idx c.recv_buf ++ (chunk ++ drop idx c.recv_buf) in
    record c { recv_idx = idx; recv_buf = resize (idx + buf_size) written }

-- `std::find` for the newline, in the last `n` bytes received only: the index in the buffer.
unfoldable pub find_end : ℕ → Connection → Option ℕ
find_end n c = elim (find_byte b'\n' (take n (drop (c.recv_idx - n) c.recv_buf))) [
  | none ↦ none
  | some i ↦ some (c.recv_idx - n + i)
]

-- The text up to and with the byte at `msg_end`.
unfoldable pub copy_message : ℕ → Connection → Str
copy_message msg_end c = take (suc msg_end) c.recv_buf

-- `std::rotate(begin, msg_end + 1, begin + _recv_idx)`, the new index and the resize.
unfoldable pub drop_message : ℕ → Connection → Connection
unfolding resize
drop_message msg_end c =
    let used = take c.recv_idx c.recv_buf in
    let rotated =
      drop (suc msg_end) used ++ (take (suc msg_end) used ++ drop c.recv_idx c.recv_buf) in
    let idx = length (drop (suc msg_end) used) in
    record c { recv_idx = idx; recv_buf = resize (idx + buf_size) rotated }
