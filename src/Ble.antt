-- ===== src/Ble.antt =====
-- crates/mkey-ble: the shell of the session over a Bluetooth transport.
pub mod Discovery
pub mod Lock
pub mod Task
pub mod Btleplug
pub mod Pump
