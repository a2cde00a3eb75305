-- ===== src/Connection/Send.antt =====
-- `connection::poll_send` of server/connection.cpp.
use irc_chat.Base.{
  ℕ, zero, suc, List, [], ◌∷◌, ◌++◌, Option, none, some, Str, take, drop, Result, ok, throw,
  runtime_error, null_deref,
}
use irc_chat.Registry.{PollRegistry, unregister_event}
use irc_chat.Connection.{Connection, disconnect}

-- What `send` with `MSG_DONTWAIT` answers: so many bytes taken, `EWOULDBLOCK` or `EAGAIN`, or another
-- error.
pub data SendResult : Type 0 where
  sent : ℕ → SendResult
  would_block failed : SendResult

-- The kernel: the answer to the n-th `send` of one `poll_send`, on that buffer.
abbrev pub Kernel : Type 0
Kernel = ℕ → Str → SendResult

-- How a run of the loop ends: with nothing left to send, with the slice and the queue that stay for the
-- next time, with the stream at its end, or by an error.
pub data SendEnd : Type 0 where
  drained : SendEnd
  blocked closed : Str → List Str → SendEnd
  faulted : SendEnd
  underflow : SendEnd

-- The bytes that the kernel took, and the end.
abbrev pub SendRun : Type 0
SendRun = Str × SendEnd

abbrev pub taking : Str → SendRun → SendRun
taking s (t, e) = (s ++ t, e)

-- One round from `nonblocking_send` on, with `_send_buf` at `buf` and the queue that holds its text at
-- the front; `next` is the rest of the loop, once that text is sent and popped.
unfoldable pub send_slice : SendResult → Str → List Str → SendRun → SendRun
send_slice would_block buf queue next = ([], blocked buf queue)
send_slice failed buf queue next = ([], faulted)
send_slice (sent n) buf queue next = elim n [
  | zero ↦ ([], closed buf queue)
  | suc m ↦ elim (drop (suc m) buf) [
    | [] ↦ taking (take (suc m) buf) next
    | c ∷ rest ↦ (take (suc m) buf, blocked (c ∷ rest) queue)
  ]
]

-- The loop from an empty `_send_buf` on. Each round pops one text or is the last.
unfoldable pub send_loop : Kernel → ℕ → List Str → SendRun
unfolding send_slice
send_loop k i [] = ([], drained)
send_loop k i (q ∷ qs) = let rest = send_loop k (suc i) qs in send_slice (k i q) q (q ∷ qs) rest

-- The loop as `poll_send` enters it. A slice with no text behind it is never reached: popping the empty
-- queue would be undefined.
unfoldable pub send_from : Kernel → Str → List Str → SendRun
unfolding send_loop
send_from k [] queue = send_loop k 0 queue
send_from k (c ∷ buf) [] = send_slice (k 0 (c ∷ buf)) (c ∷ buf) [] ([], underflow)
send_from k (c ∷ buf) (q ∷ qs) = send_slice (k 0 (c ∷ buf)) (c ∷ buf) (q ∷ qs) (send_loop k 1 qs)

abbrev pub take_bytes : Str → Connection → Connection
take_bytes s c = record c { stream = record { fd = c.stream.fd; taken = c.stream.taken ++ s } }

-- `unregister_event(*_send_tok)`, then `_send_tok = std::nullopt`.
unfoldable pub stop_sending :
    Connection → PollRegistry → Option ℕ → Result (Connection × PollRegistry)
stop_sending c r none = throw null_deref
stop_sending c r (some tok) = ok (record c { send_tok = none }, (unregister_event tok r).0)

unfoldable pub end_sending :
    Connection → PollRegistry → SendEnd → Result (Connection × PollRegistry)
unfolding stop_sending
end_sending c r drained = stop_sending (record c { send_buf = []; send_queue = [] }) r c.send_tok
end_sending c r (blocked buf queue) = ok (record c { send_buf = buf; send_queue = queue }, r)
end_sending c r (closed buf queue) =
    ok (disconnect (record c { send_buf = buf; send_queue = queue }) r)
end_sending c r faulted = throw runtime_error
end_sending c r underflow = throw null_deref

unfoldable pub poll_send : Kernel → Connection → PollRegistry → Result (Connection × PollRegistry)
unfolding send_from end_sending
poll_send k c r =
    let (bytes, e) = send_from k c.send_buf c.send_queue in end_sending (take_bytes bytes c) r e
