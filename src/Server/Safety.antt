-- ===== src/Server/Safety.antt =====
-- The invariant of the server under the handlers of server/main.cpp, and the exceptions that they
-- may throw.
pub mod Common
pub mod Register
pub mod Members
pub mod Join
pub mod Talk
pub mod Moderate
pub mod Messages
pub mod Outside
pub mod Lines
