-- ===== src/Routing.antt =====
-- rkvm-server/src/routing.rs: which output receives which input event, and the chords that switch
-- outputs. A method that mutates `Router` returns the new record.
pub mod Router
pub mod Flush
pub mod Frame
pub mod Held
pub mod Outputs
pub mod Invariant
pub mod Keys
pub mod Switch
pub mod Sound
pub mod Branches
pub mod Process
pub mod Recovery
pub mod Devices
pub mod Removal
pub mod Retain
pub mod Targets
pub mod Known
pub mod Session
pub mod Tests
pub mod Writers
pub mod Bindings
pub mod Stuck
