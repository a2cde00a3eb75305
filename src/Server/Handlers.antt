-- ===== src/Server/Handlers.antt =====
-- The cases of `server::handle_message` in server/main.cpp, one function each. `info` is what `conn_info`
-- shows when the message comes in; a later write goes to the table.
mod Register
mod Members
mod Talk
mod Moderate
unfoldable pub use Register.*
unfoldable pub use Members.*
unfoldable pub use Talk.*
unfoldable pub use Moderate.*
