-- ===== src/Data.antt =====
-- crates/mkey-core/src/data: the mobile key with its tags and their TLV form, and base62.
pub mod Base62
pub mod Permissions
pub mod TagMap
pub mod MobileKey
