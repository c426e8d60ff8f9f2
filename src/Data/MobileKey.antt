-- ===== src/Data/MobileKey.antt =====
-- crates/mkey-core/src/data/mobile_key.rs: the mobile key, its TLV form, and access to its tags. The
-- TLV parser is that of the crate iso7816-tlv, a parameter.
pub mod RoundTrip
pub mod Sizes
use mkey_rs.Prelude.{
  Bool, Bytes, List, Option, String, [], bit_and, bit_or, if◌then◌else◌, length, ltb, none, some, ℕ,
  ◌%◌, ◌++◌, ◌/◌, ◌==◌, ◌^◌, ◌||◌, ◌∷◌,
}
use mkey_rs.Error.{Error, invalid_key_length, msg, tlv_error}
use mkey_rs.Result.{Result, and_then, err, ok, ok_or, panic}
use mkey_rs.Data.Permissions.{
  Permissions, readable_flag, with_flags, writable_flag, write_without_security_flag,
}
use mkey_rs.Data.TagMap.{GeneralPurposeTag, Tags, find, insert, or_insert}

pub record TagData : Type 0 where
  pub permissions : Permissions
  pub bytes : Bytes

pub record MobileKey : Type 0 where
  pub tag_0 : Bytes
  pub tag_1 : Bytes
  pub kn_key : Bytes
  pub tags : Tags

-- What the code reads of the crate's `Tlv` and `Value`.
pub data Value : Type 0 where
  primitive : Bytes → Value
  constructed : Value

pub record Tlv : Type 0 where
  pub tag_bytes : Bytes
  pub value : Value

abbrev pub tag_system_deprecated_audit : ℕ
tag_system_deprecated_audit = 0x0A

abbrev pub tag_system_audit : ℕ
tag_system_audit = 0x0B

abbrev pub tag_system_opening_mode : ℕ
tag_system_opening_mode = 0x10

-- The local variables of the loop of `from_bytes`.
pub record Parsed : Type 0 where
  pub tag_0 : Option Bytes
  pub tag_1 : Option Bytes
  pub kn_key : Option Bytes
  pub tags : Tags

abbrev pub nothing_parsed : Parsed
nothing_parsed = record { tag_0 = none; tag_1 = none; kn_key = none; tags = [] }

-- `tag().to_bytes()[0] & 0x1F`, where the index panics on no bytes at all.
unfoldable pub tag_number : Tlv → Result ℕ
tag_number t = elim t.tag_bytes [ [] ↦ panic | b ∷ bs ↦ ok (bit_and b 0x1F) ]

abbrev pub with_tag : ℕ → Permissions → Value → Tags → Tags
with_tag id p (primitive v) ts = insert id (record { tag_id = id; permissions = p; value = v }) ts
with_tag id p constructed ts = ts

-- The loop over the inner TLVs of a container.
unfoldable pub insert_inner : Permissions → List Tlv → Tags → Result Tags
insert_inner p [] ts = ok ts
insert_inner p (t ∷ rest) ts =
    and_then (tag_number t) (λ id. insert_inner p rest (with_tag id p t.value ts))

abbrev pub audit_permissions : Permissions
audit_permissions = with_flags (bit_or writable_flag write_without_security_flag)

abbrev pub empty_tag : ℕ → GeneralPurposeTag
empty_tag id = record { tag_id = id; permissions = audit_permissions; value = [] }

-- The system audit tags that every key has in memory.
unfoldable pub with_system_tags : Tags → Tags
with_system_tags ts =
    or_insert tag_system_audit (empty_tag tag_system_audit)
      (or_insert tag_system_deprecated_audit (empty_tag tag_system_deprecated_audit) ts)

module _ (parse_all : Bytes → List Tlv) where
  -- The arm of a container, tag 0x03.
  unfoldable pub read_container : Bytes → Parsed → Result Parsed
  read_container [] s = ok s
  read_container (flags ∷ inner) s =
      and_then (insert_inner (with_flags flags) (parse_all inner) s.tags)
        (λ ts. ok (record s { tags = ts }))

  -- The `match tag_number` of the loop.
  unfoldable pub read_primitive : ℕ → Bytes → Parsed → Result Parsed
  unfolding read_container
  read_primitive number bytes s =
      if number == 0x00
      then ok (record s { tag_0 = some bytes })
      else if number == 0x01
      then ok (record s { tag_1 = some bytes })
      else if number == 0x02
      then (if length bytes == 16
          then ok (record s { kn_key = some bytes })
          else err (Error.invalid_key_length (length bytes)))
      else if number == 0x03
      then read_container bytes s
      else ok s

  abbrev pub read_value : ℕ → Value → Parsed → Result Parsed
  read_value number (primitive bytes) s = read_primitive number bytes s
  read_value number constructed s = ok s

  unfoldable pub read_tlvs : List Tlv → Parsed → Result Parsed
  unfolding read_primitive
  read_tlvs [] s = ok s
  read_tlvs (t ∷ rest) s =
      and_then (tag_number t) (λ number. and_then (read_value number t.value s) (read_tlvs rest))

  unfoldable pub from_bytes : Bytes → Result MobileKey
  unfolding read_tlvs with_system_tags
  from_bytes bytes = and_then (read_tlvs (parse_all bytes) nothing_parsed) λ s.
      and_then (ok_or s.tag_0 (Error.tlv_error (msg "missing tag 0"))) λ tag_0.
        and_then (ok_or s.tag_1 (Error.tlv_error (msg "missing tag 1"))) λ tag_1.
          and_then (ok_or s.kn_key (Error.tlv_error (msg "missing kN key"))) λ kn_key. ok (record {
            tag_0 = tag_0;
            tag_1 = tag_1;
            kn_key = kn_key;
            tags = with_system_tags s.tags;
          })

  -- `hex::decode` is the hex crate's.
  unfoldable pub from_hex : (String → Result Bytes) → String → Result MobileKey
  from_hex decode hex_text = and_then (decode hex_text) from_bytes

-- The length field of `encode_tlv`.
unfoldable pub encode_length : ℕ → Bytes
encode_length len =
    if ltb len 128
    then len % 256 ∷ []
    else if ltb len 256
    then 0x81 ∷ len % 256 ∷ []
    else if ltb len 65536
    then 0x82 ∷ len / 2 ^ 8 % 256 ∷ len % 256 ∷ []
    else 0x83 ∷ len / 2 ^ 16 % 256 ∷ len / 2 ^ 8 % 256 ∷ len % 256 ∷ []

-- What `encode_tlv` appends to its output.
unfoldable pub encode_tlv : ℕ → Bytes → Bytes
unfolding encode_length
encode_tlv number value =
    bit_or 0xC0 (bit_and number 0x1F) ∷ (encode_length (length value) ++ value)

abbrev pub is_system : ℕ → Bool
is_system id =
    id == tag_system_deprecated_audit || id == tag_system_audit || id == tag_system_opening_mode

-- The loop of `to_bytes` over `self.tags.values()`.
unfoldable pub encode_tags : Tags → Bytes
encode_tags [] = []
encode_tags ((k, t) ∷ ts) =
    let container = encode_tlv 0x03 (t.permissions.flags ∷ encode_tlv t.tag_id t.value) in
    (if is_system t.tag_id then [] else container) ++ encode_tags ts

unfoldable pub to_bytes : MobileKey → Bytes
unfolding encode_tags
to_bytes key =
    encode_tlv 0x00 key.tag_0
    ++ (encode_tlv 0x01 key.tag_1 ++ (encode_tlv 0x02 key.kn_key ++ encode_tags key.tags))

-- `MobileKey::new`.
unfoldable pub new : Bytes → MobileKey
new kn_key = record { tag_0 = []; tag_1 = []; kn_key = kn_key; tags = [] }

abbrev pub read_only : Bytes → TagData
read_only bytes = record { permissions = with_flags readable_flag; bytes = bytes }

abbrev pub tag_data : GeneralPurposeTag → TagData
tag_data t = record { permissions = t.permissions; bytes = t.value }

abbrev pub map_tag : Option GeneralPurposeTag → Option TagData
map_tag none = none
map_tag (some t) = some (tag_data t)

unfoldable pub get_tag : MobileKey → ℕ → Option TagData
get_tag key id =
    if id == 0x00
    then some (read_only key.tag_0)
    else if id == 0x01
    then some (read_only key.tag_1)
    else if id == 0x02
    then some (read_only key.kn_key)
    else map_tag (find id key.tags)

abbrev pub new_value : Option GeneralPurposeTag → ℕ → Bytes → GeneralPurposeTag
new_value none id bytes = record {
  tag_id = id;
  permissions = with_flags (bit_or readable_flag writable_flag);
  value = bytes;
}
new_value (some t) id bytes = record t { value = bytes }

unfoldable pub set_tag_data : MobileKey → ℕ → Bytes → MobileKey
set_tag_data key id bytes = record key {
  tags = insert id (new_value (find id key.tags) id bytes) key.tags;
}
