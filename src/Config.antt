-- ===== src/Config.antt =====
-- The configuration of the server: rkvm-server/src/config.rs and the checks of main.rs.
pub mod SwitchKeys
pub mod Names
pub mod Bindings
pub mod Chords
pub mod Devices
pub mod Accepted
pub mod Fits
pub mod Tests
