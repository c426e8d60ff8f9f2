-- ===== src/Data/Permissions.antt =====
-- crates/mkey-core/src/data/mobile_key.rs: the permission flags of a tag.
use mkey_rs.Prelude.{Bool, bit_and, not, ℕ, ◌==◌}

pub record Permissions : Type 0 where
  pub flags : ℕ

abbrev pub write_without_security_flag : ℕ
write_without_security_flag = 0x20

abbrev pub read_without_security_flag : ℕ
read_without_security_flag = 0x10

abbrev pub writable_flag : ℕ
writable_flag = 0x08

abbrev pub readable_flag : ℕ
readable_flag = 0x04

abbrev pub remove_if_absent_flag : ℕ
remove_if_absent_flag = 0x02

abbrev pub overwrite_if_present_flag : ℕ
overwrite_if_present_flag = 0x01

-- `Permissions::new`.
abbrev pub with_flags : ℕ → Permissions
with_flags flags = record { flags = flags }

-- `self.contains(other)`, where `other` has the given flags.
unfoldable pub contains : Permissions → ℕ → Bool
contains p other = not (bit_and p.flags other == 0)

unfoldable pub is_readable : Permissions → Bool
unfolding contains
is_readable p = contains p readable_flag

unfoldable pub is_writable : Permissions → Bool
unfolding contains
is_writable p = contains p writable_flag

unfoldable pub read_without_security : Permissions → Bool
unfolding contains
read_without_security p = contains p read_without_security_flag

unfoldable pub write_without_security : Permissions → Bool
unfolding contains
write_without_security p = contains p write_without_security_flag

unfoldable pub remove_if_absent : Permissions → Bool
unfolding contains
remove_if_absent p = contains p remove_if_absent_flag

unfoldable pub overwrite_if_present : Permissions → Bool
unfolding contains
overwrite_if_present p = contains p overwrite_if_present_flag
