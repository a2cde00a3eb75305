-- ===== src/Server/Loop.antt =====
-- The main loop of server/main.cpp, with `connection::poll_recv` of server/connection.cpp: new clients,
-- bytes that come in and go out, and the sweep of the connections that have ended.
pub mod Poll
pub mod Invariant
pub mod Sweep
pub mod Reachable
use irc_chat.Base.{nat_eq, text_eq}
use irc_chat.Base.{
  ℕ, ◌+◌, ◌%◌, ◌==◌, true, false, List, [], ◌∷◌, ◌++◌, Option, none, some, Str, codes, length, Map,
  lookup, contains, insert, update, erase, if◌then◌else◌, Exception, runtime_error, null_deref,
  Result, ok, throw,
}
use irc_chat.Connection.Recv.{store_chunk, find_end, copy_message, drop_message}
use irc_chat.Connection.Send.{Kernel, poll_send}
use irc_chat.Connection.{Connection, connect, disconnect}
use irc_chat.Db.{Db, ConnInfo, register_connection, remove_connection}
use irc_chat.Registry.{size_mod, PollRegistry}
use irc_chat.Server.Dispatch.{handle_message}
use irc_chat.Server.World.{
  World, M, pure, ◌>>=◌, ◌>>◌, lift, modify_db, conn_info, channel_at, value, on_option,
  on_connection, send_to_members, privmsg_from, quit_chan,
}

-- `poll_accept`, with the descriptor and the address of the stream that `accept` returned. The id is
-- new, so that `emplace` takes the connection in.
unfoldable pub poll_accept : ℕ → ℕ → World → World
poll_accept fd ipv4 w =
    let id = w.curr_id_count in
    let (c, r) = connect fd id w.registry in
    record {
      db = register_connection id ipv4 w.db;
      curr_id_count = (id + 1) % size_mod;
      connections = insert id c w.connections;
      registry = r;
    }

-- What `nonblocking_recv` returns: bytes (none where the peer has closed), `EWOULDBLOCK` or another
-- error.
pub data RecvResult : Type 0 where
  received : Str → RecvResult
  would_block recv_failed : RecvResult

-- The reader behind a chunk that is not empty: at most one message is taken off the buffer.
unfoldable pub read_message : ℕ → ℕ → M (Unit {0})
read_message id n w = elim (lookup id w.connections) [
  | none ↦ throw null_deref
  | some c ↦
      on_option (find_end n c) (pure tt)
        (λ msg_end.
          handle_message id (copy_message msg_end c)
          >> on_connection id (λ c r. (drop_message msg_end c, r)))
        w
]

unfoldable pub poll_recv : ℕ → RecvResult → M (Unit {0})
unfolding read_message
poll_recv id would_block = pure tt
poll_recv id recv_failed = λ w. throw runtime_error
poll_recv id (received chunk) =
    if length chunk == 0
    then on_connection id disconnect
    else on_connection id (λ c r. (store_chunk chunk c, r)) >> read_message id (length chunk)

-- The words to a channel whose member has gone, and leaving it.
unfoldable pub quit_swept : ℕ → ConnInfo → Option Str → M (Unit {0})
quit_swept id info none = pure tt
quit_swept id info (some joined) = do
  chan ← channel_at joined
  nick ← value info.nick
  send_to_members chan.members (privmsg_from nick (joined ∷ (nick ++ codes " quit") ∷ []))
  quit ← quit_chan id joined
  pure tt

-- The client is forgotten. The destructor of its connection, which has ended, does no more than close
-- the stream.
abbrev pub forget : ℕ → M (Unit {0})
forget id w =
    ok (tt, record w { db = remove_connection id w.db; connections = erase id w.connections })

unfoldable pub sweep_ended : ℕ → M (Unit {0})
unfolding quit_swept
sweep_ended id = do info ← conn_info id; quit_swept id info info.joined_channel; forget id

-- One round of the sweep: a connection is kept under its own id.
unfoldable pub sweep_one : ℕ → M (Unit {0})
unfolding sweep_ended
sweep_one id w = elim (lookup id w.connections) [
  | none ↦ ok (tt, w)
  | some c ↦ if c.connected then ok (tt, w) else sweep_ended id w
]

-- The rounds for these ids, in the order of iteration.
unfoldable pub sweep_all : List ℕ → M (Unit {0})
unfolding sweep_one
sweep_all [] = pure tt
sweep_all (id ∷ ids) = sweep_one id >> sweep_all ids

unfoldable pub ids_of : Map ℕ Connection → List ℕ
ids_of [] = []
ids_of ((id, c) ∷ cs) = id ∷ ids_of cs

unfoldable pub sweep : M (Unit {0})
unfolding sweep_all ids_of
sweep w = sweep_all (ids_of w.connections) w

-- `poll_send` of one connection.
unfoldable pub poll_send_at : ℕ → Kernel → M (Unit {0})
poll_send_at id k w = elim (lookup id w.connections) [
  | none ↦ throw null_deref
  | some c ↦ elim (poll_send k c w.registry) [
    | throw e ↦ throw e
    | ok (c', r) ↦
        ok (tt, record w { connections = update id (λ _. c') w.connections; registry = r })
  ]
]
