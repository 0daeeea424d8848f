-- ===== src/Net.antt =====
-- rkvm-net/src: the messages between the server and a client.
pub mod Message
pub mod Protocol
pub mod Frames
mod Tests
