-- ===== src/Server.antt =====
-- server/main.cpp: the class `server`. Its state and the calls on it are in World, the cases of
-- `handle_message` in Handlers, `handle_message` itself in Dispatch, the events of `run` in Loop.
pub mod World
pub mod Handlers
pub mod Dispatch
pub mod Invariant
pub mod Leaving
pub mod Safety
pub mod Keeping
pub mod Moving
pub mod Wiring
pub mod Clients
pub mod Loop
pub mod Closing
