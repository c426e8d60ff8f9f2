-- ===== src/Command.antt =====
-- crates/mkey-core/src/command: the Justin command layer.
pub mod Justin
