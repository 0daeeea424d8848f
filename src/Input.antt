-- ===== src/Input.antt =====
-- rkvm-input: keys and events, the uinput writer, the interceptor and the device monitor.
pub mod Codes
pub mod Key
pub mod Event
pub mod Device
pub mod Convert
pub mod Decode
pub mod Interceptor
pub mod Writer
pub mod Tests
