-- ===== src/Tests.antt =====
-- The program at concrete inputs: states, runs of the operations, and the theorems applied to them.
mod World
mod Message
mod Connection
mod Server
mod Moving
mod Tcp
mod Poll
mod Client
