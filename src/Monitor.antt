-- ===== src/Monitor.antt =====
-- The input monitor, rkvm-input/src/monitor.rs.
pub mod Policy
pub mod Candidate
pub mod Inventory
pub mod Claims
pub mod Lives
pub mod Labels
pub mod Orderly
pub mod Refresh
pub mod Claimable
pub mod Claiming
pub mod Loop
pub mod Run
pub mod Timing
pub mod Releases
pub mod Choice
pub mod First
pub mod Tests
