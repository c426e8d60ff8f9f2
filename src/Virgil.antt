-- ===== src/Virgil.antt =====
-- crates/mkey-sdk-virgil: the keys of the key service and its encrypted containers.
pub mod Attempt
pub mod Container
pub mod Library
pub mod Runtime
pub mod Keys
pub mod Wrapping
pub mod Decrypt
