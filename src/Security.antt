-- ===== src/Security.antt =====
-- crates/mkey-core/src/security: the random source and the secure protocol.
pub mod Random
pub mod SspTypes
pub mod Ssp
