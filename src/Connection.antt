-- ===== src/Connection.antt =====
-- server/connection.hpp and server/connection.cpp: one client of the server. The socket is the stream
-- of the bytes that it has taken; what the kernel answers is an argument. `poll_send` is in Send, the
-- buffer of `poll_recv` in Recv. The whole of `poll_recv` with its callback is in Server/Loop.
pub mod Send
pub mod Recv
pub mod Buffer
pub mod Chunks
pub mod Delivery
pub mod Frugal
pub mod Wiring
pub mod Rewiring
use irc_chat.Base.{
  ℕ, zero, suc, ◌-◌, Bool, true, false, List, [], ◌∷◌, ◌++◌, Option, none, some, Str, length, take,
  drop, leb, if◌then◌else◌,
}
use irc_chat.Registry.{
  PollRegistry, pollin, pollout, Callback, poll_recv, poll_send, register_event, unregister_event,
}
use irc_chat.Message.{Message}
use irc_chat.Message.Print.{to_string}

-- `MSG_SIZE_LIMIT` and `buf_size`.
pub msg_size_limit : ℕ
msg_size_limit = 4096

unfoldable pub buf_size : ℕ
buf_size = 4096

-- `tcpstream`: the descriptor, and the bytes that the kernel has taken for sending, in order.
pub record TcpStream : Type 0 where
  pub fd : ℕ
  pub taken : Str

pub record Connection : Type 0 where
  pub id : ℕ
  pub stream : TcpStream
  pub connected : Bool
  pub recv_tok : Option ℕ
  pub recv_buf : Str
  pub recv_idx : ℕ
  pub send_tok : Option ℕ
  pub send_buf : Str
  pub send_queue : List Str

abbrev pub zeros : ℕ → Str
zeros zero = []
zeros (suc n) = 0 ∷ zeros n

-- The constructor: the receive buffer is filled with zeros, and `poll_recv` is registered.
unfoldable pub connect : ℕ → ℕ → PollRegistry → Connection × PollRegistry
connect fd id r =
    let (tok, r') = register_event fd pollin (poll_recv id) r in
    (
      record {
        id = id;
        stream = record { fd = fd; taken = [] };
        connected = true;
        recv_tok = some tok;
        recv_buf = zeros buf_size;
        recv_idx = 0;
        send_tok = none;
        send_buf = [];
        send_queue = [];
      },
      r',
    )

-- The `do … while` loop of `send_message`: slices of at most `limit` bytes, and at least one slice.
chunks_loop : ℕ → ℕ → Str → List Str
chunks_loop limit zero s = []
chunks_loop limit (suc f) s =
    let slice = drop (if leb limit (length s) then limit else length s) s in
    let rest = chunks_loop limit f slice in
    take limit s ∷ (if leb 1 (length slice) then rest else [])

-- Each round but the last takes a byte or more, so that one round more than bytes is enough.
unfoldable pub chunks : ℕ → Str → List Str
unfolding chunks_loop
chunks limit s = chunks_loop limit (suc (length s)) s

-- `poll_registry::register_event` if there is no token yet.
start_sending : Connection → PollRegistry → Connection × PollRegistry
start_sending c r = elim c.send_tok [
  | some tok ↦ (c, r)
  | none ↦
      let (tok, r') = register_event c.stream.fd pollout (poll_send c.id) r in
      (record c { send_tok = some tok }, r')
]

-- `send_message(std::string)`.
unfoldable pub send_text : Str → Connection → PollRegistry → Connection × PollRegistry
unfolding start_sending
send_text s c r =
    start_sending (record c { send_queue = c.send_queue ++ chunks msg_size_limit s }) r

-- `send_message(irc::message)`.
unfoldable pub send_message : Message → Connection → PollRegistry → Connection × PollRegistry
send_message msg = send_text (to_string msg)

unregister_opt : Option ℕ → PollRegistry → PollRegistry
unregister_opt none r = r
unregister_opt (some tok) r = (unregister_event tok r).0

-- The tokens stay set, and so does the descriptor: the `tcpstream` is closed again when the
-- connection is destroyed.
unfoldable pub disconnect : Connection → PollRegistry → Connection × PollRegistry
unfolding unregister_opt
disconnect c r =
    if c.connected
    then (record c { connected = false }, unregister_opt c.send_tok (unregister_opt c.recv_tok r))
    else (c, r)
