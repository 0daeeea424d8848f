-- ===== src/Client.antt =====
-- rkvm-client/src/client.rs: the table of writers, and what the client does with an update.
pub mod Updates
pub mod Legal
mod Tests
