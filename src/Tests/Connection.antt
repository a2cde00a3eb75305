-- ===== src/Tests/Connection.antt =====
-- server/connection.cpp and server/poll_registry.cpp at concrete values.
use irc_chat.Base.{◌≡◌, ◌++◌, refl, [], ◌∷◌, some, Str, codes, arith, concat, ok}
use irc_chat.Connection.Buffer.{
  length-zeros, waiting, IsRoomy, waiting-store_chunk, copy-drop_message,
}
use irc_chat.Connection.Recv.{store_chunk, copy_message, drop_message}
use irc_chat.Connection.Chunks.{AreSlices, chunks-concat, chunks-AreSlices}
use irc_chat.Connection.Delivery.{pending, IsSending, IsKernel, poll_send-pending}
use irc_chat.Connection.Send.{SendResult, sent, would_block, failed, Kernel}
use irc_chat.Connection.Send
use irc_chat.Connection.{zeros, buf_size, Connection, chunks}
use irc_chat.Registry.{
  poll_recv, poll_send, pollin, pollout, PollRegistry, register_event, unregister_event,
}
use irc_chat.Registry.Removal.{unregister_event-register_event}
use irc_chat.Base.{true}
use irc_chat.Registry.{pollout, poll_send}
use irc_chat.Registry.Tokens.{
  entries, IsRegistry, remove_tok, has_tok, register_event-IsRegistry, unregister_event-remove_tok,
}
use irc_chat.Tests.World.{idle}

abbrev hello : Str
hello = codes "hello"

chunks-concat_example : concat (chunks 2 hello) ≡ hello
chunks-concat_example = chunks-concat 2 hello (omega arith)

chunks-AreSlices_example : AreSlices 2 (chunks 2 hello)
chunks-AreSlices_example = chunks-AreSlices 2 hello (omega arith) (omega arith)

-- A kernel that takes one byte of each buffer.
abbrev slow : Kernel
slow i [] = sent 0
slow i (c ∷ s) = sent 1

slow-IsKernel : IsKernel slow
slow-IsKernel = record { within = λ i s n e. ground arith; works = λ i s e. ground arith }

abbrev two_entries : PollRegistry
two_entries = record {
  next_tok = 7;
  fds =
      record { fd = 5; events = pollin; revents = 0 }
      ∷ record { fd = 5; events = pollout; revents = 0 }
      ∷ [];
  callbacks_and_toks = (poll_recv 0, 3) ∷ (poll_send 0, 6) ∷ [];
}

two_entries-IsRegistry : IsRegistry two_entries
two_entries-IsRegistry = record {
  in_step = refl;
  rising = (omega arith, (omega arith, omega arith));
}

register_event-IsRegistry_example : IsRegistry (register_event 9 pollin (poll_recv 1) two_entries).1
register_event-IsRegistry_example =
    register_event-IsRegistry 9 pollin (poll_recv 1) two_entries two_entries-IsRegistry
      (omega arith)

unregister_event-register_event_example :
    let (a, r₁) = register_event 9 pollin (poll_recv 1) two_entries in
    let (b, r₂) = register_event 9 pollout (poll_send 1) r₁ in
    (entries (unregister_event a r₂).0
      ≡ entries two_entries
        ++ record { tok = b; fd = 9; events = pollout; callback = poll_send 1 } ∷ [])
    × (entries (unregister_event b r₂).0
        ≡ entries two_entries
          ++ record { tok = a; fd = 9; events = pollin; callback = poll_recv 1 } ∷ [])
    × ((unregister_event a r₂).1 ≡ true)
    × ((unregister_event b r₂).1 ≡ true)
unregister_event-register_event_example =
    unregister_event-register_event 9 pollin 9 pollout (poll_recv 1) (poll_send 1) two_entries
      two_entries-IsRegistry (omega arith)

unregister_event-remove_tok_example :
    (entries (unregister_event 6 two_entries).0 ≡ remove_tok 6 (entries two_entries))
    × ((unregister_event 6 two_entries).1 ≡ has_tok 6 (entries two_entries))
    × IsRegistry (unregister_event 6 two_entries).0
unregister_event-remove_tok_example =
    unregister_event-remove_tok 6 two_entries two_entries-IsRegistry

abbrev sending : Connection
sending = record (idle 0) {
  send_tok = some 6;
  send_buf = codes "lo";
  send_queue = hello ∷ codes "!" ∷ [];
}

poll_send-pending_example :
    (c' : Connection) × (r' : PollRegistry) × (Send.poll_send slow sending two_entries
      ≡ ok (c', r'))
    × (c'.stream.taken ++ pending c' ≡ sending.stream.taken ++ pending sending)
    × IsSending c'
poll_send-pending_example =
    poll_send-pending slow slow-IsKernel sending two_entries 6 refl
      (record { points = (codes "hel", refl); nonempty = (omega arith, (omega arith, tt)) })

-- Half of a line has come in.
abbrev half_line : Connection
half_line = record (idle 0) { recv_buf = codes "PI" ++ zeros buf_size; recv_idx = 2 }

half_line-IsRoomy : IsRoomy half_line
half_line-IsRoomy = omega (arith, length-zeros buf_size)

waiting-store_chunk_example :
    (waiting (store_chunk (codes "NG\nNI") half_line) ≡ waiting half_line ++ codes "NG\nNI")
    × IsRoomy (store_chunk (codes "NG\nNI") half_line)
waiting-store_chunk_example = waiting-store_chunk half_line (codes "NG\nNI") half_line-IsRoomy

-- A line and the start of the next.
abbrev line_and_more : Connection
line_and_more = record (idle 0) { recv_buf = codes "PING\nNI" ++ zeros buf_size; recv_idx = 7 }

copy-drop_message_example :
    (copy_message 4 line_and_more ++ waiting (drop_message 4 line_and_more) ≡ waiting line_and_more)
    × IsRoomy (drop_message 4 line_and_more)
copy-drop_message_example = copy-drop_message line_and_more 4 (omega arith)
