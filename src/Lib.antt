-- ===== src/Lib.antt =====
-- IRC-Chat: an IRC server over `poll` and its terminal client, in C++. This library models the server,
-- the message format and the client's handling of lines, as functions on explicit state.
--
-- The parts, and the files that model them:
-- * Message (common/message.hpp, common/message.cpp): `message` with its parser `message::parse`
--   (Message/Parse), its printer `to_string` (Message/Print) and the canned replies (Message/Replies).
--   Text is a list of bytes. A `std::string_view` that shrinks is an argument that shrinks, and its
--   `substr` throws behind the end. Message/Total is the parser without these errors, which it equals.
-- * Tcp (tcp/): streams and listeners, who holds a descriptor and the calls that open and close it
--   (Tcp/Stream, Tcp/Listener). What the system answers is an argument. Connection counts on a stream
--   for what is received and sent alone.
-- * Registry (server/poll_registry.hpp and .cpp): the vectors of descriptors and callbacks. A callback
--   is the name of the function that it calls, with the id of its connection. Tokens and ids are taken
--   modulo `2 ^ 64`. `poll` and the test of `poll_and_dispatch` are in Registry/Poll, the loop of
--   `poll_and_dispatch` with the callbacks of the server in Server/Loop/Poll.
-- * Connection (server/connection.hpp and .cpp): the queue of texts to send (Connection), `poll_send`
--   (Connection/Send) and the receive buffer (Connection/Recv). What `recv` and `send` answer is a
--   parameter: a `RecvResult`, and a `Kernel` that answers the n-th `send` of a call.
-- * Channel (server/channel.hpp and .cpp): the members of a channel, by id, with their flags. The
--   pointer to a connection is the id of that connection.
-- * Db (server/db.hpp and .cpp): the tables of channels and of clients. An ordered or a hash map is an
--   association list, whose order is the order of iteration. `joined_channel` is the name itself, where
--   the source has a view of the key.
-- * Server (server/main.cpp): the whole state with the calls on it (Server/World), one function per
--   command (Server/Handlers), `handle_message` (Server/Dispatch) and the main loop (Server/Loop, and
--   Server/Loop/Poll for its rounds).
-- * Client (client/main.cpp): the keys that make up a line (Client/Input), the translation of a line to
--   the protocol (Client/Translate), the loop that sends it (Client/Send) and the reader of the server's
--   messages (Client/Receive), and the two threads, step by step, with the flag and the eventfd that
--   end them (Client/Threads). What `epoll_wait` and the socket answer is a parameter, and so is the
--   code of the backspace key.
--
-- An operation that may throw is a function from the state to a `Result`: the exception, or the value
-- and the new state (`M` of Server/World). A read through a null pointer, an empty `optional` or a
-- missing connection is the exception `null_deref`, which stands for undefined behaviour. No handler
-- catches an exception, except for `parse_error`.
--
-- Server/Invariant states what holds between two messages; Db/Invariant does so for the tables alone.
-- Client/Commands and Client/Talk relate the client's lines to the server's parser.
-- Db/Preserve, Db/Steps and Db/Clients are about the operations on the tables, Server/Leaving and
-- Server/Safety about the commands, and the children of Server/Loop about the main loop. Server/Keeping
-- proves once, for any property of the state, what handlers and reads leave of it; Server/Clients,
-- Server/Wiring and Server/Loop/Poll/Budget apply it. Connection/Wiring, Connection/Rewiring and
-- Connection/Frugal say what a call on a connection does to the callbacks and the entries of the
-- registry, and Registry/Removal relates the two calls that change its entries. Server/Moving is the
-- abstract view of the channels, one at most for each client, and the steps that a message may take
-- there. Server/Safety/Lines follows a line from `recv` to its handler. Server/Loop/Poll/Guarded is
-- a round that tests for each callback that its connection has not ended. Server/Closing is the end of
-- the process. Tcp/Lifetime counts how often descriptors are opened and closed. Tests applies the
-- theorems to concrete values.
--
-- Bounds and fuel: the loop of the parser over the parameters and the loop that cuts a text into slices
-- run on the length of what is left, and one more round than bytes is enough, as each round takes a
-- byte. A round of the main loop runs on `enough_rounds`: a callback adds two entries at most beyond
-- those of connections that had no send event, and each descriptor that had an event when `poll`
-- returned calls back once at most. A result about fresh ids or tokens assumes that the 64-bit
-- counter has not wrapped round.
--
-- Not modelled: the windows of the client and the set-up of its waits (client/main.cpp), steps of its
-- threads that overlap (what RUN reads inside the sending of a line is an argument in Client/Send, and
-- is what it was before in Client/Threads), the addresses of sockets (tcp/), the signal handler of
-- the server, and what it prints to the terminal.
pub mod Base
pub mod Message
pub mod Registry
pub mod Tcp
pub mod Connection
pub mod Channel
pub mod Db
pub mod Server
pub mod Client
pub mod Tests
