-- ===== src/Examples.antt =====
-- Concrete ciphers, keys, managers and sessions, and the theorems at them.
pub mod Fixtures
pub mod Crypto
pub mod Security
pub mod Command
pub mod Session
pub mod Pump
pub mod Ber
pub mod Lock
pub mod Container
pub mod Virgil
pub mod Heap
pub mod Decryption
pub mod Btleplug
pub mod Bindings
