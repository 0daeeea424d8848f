-- ===== src/Server.antt =====
-- rkvm-server/src/server.rs: the devices, the clients and the router of the running server.
pub mod Channel
pub mod State
pub mod Loop
pub mod Clients
pub mod Invariant
pub mod Stable
pub mod Catchup
pub mod Handlers
pub mod Arms
pub mod Run
pub mod Agreement
mod Tests
