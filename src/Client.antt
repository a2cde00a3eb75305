-- ===== src/Client.antt =====
-- client/main.cpp: the keys that make up a line (Input), the translation of a line to a message
-- (Translate), the loop that sends it (Send), and the reader of the server's messages (Receive).
-- The windows of the terminal are the texts that are printed to them.
pub mod Input
pub mod Translate
pub mod Commands
pub mod Talk
pub mod Send
pub mod Receive
pub mod Threads
