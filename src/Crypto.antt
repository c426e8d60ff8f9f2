-- ===== src/Crypto.antt =====
-- crates/mkey-core/src/crypto: padding, checksums, the rotation of the challenge, session keys, and
-- AES-CBC over the cipher crates' interface.
pub mod Padding
pub mod Crc
pub mod Rotation
pub mod SessionKey
pub mod Aes
