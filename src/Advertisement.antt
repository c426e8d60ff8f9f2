-- ===== src/Advertisement.antt =====
-- crates/mkey-core/src/advertisement.rs: what a lock tells of itself before a connection.
use mkey_rs.Prelude.{
  Bool, Bytes, Option, [], arith, bit_and, false, get_or, if◌then◌else◌, length, ltb, none, not,
  refl, some, sym, true, ℕ, ◌%◌, ◌*◌, ◌/◌, ◌<◌, ◌==◌, ◌^◌, ◌∷◌, ◌≡◌,
}
use mkey_rs.Prelude.Bits.{agree_below, same_below}

pub data Rf3State : Type 0 where
  off ini link lost : Rf3State

-- `Rf3State::from_bits`.
unfoldable pub from_bits : ℕ → Rf3State
from_bits bits =
    if bits == 0
    then off
    else if bits == 1
    then ini
    else if bits == 2
    then link
    else if bits == 3
    then lost
    else off

pub record ProtocolFlags : Type 0 where
  pub remote : Bool
  pub has_messages : Bool
  pub rf3_state : Rf3State

abbrev pub default_flags : ProtocolFlags
default_flags = record { remote = false; has_messages = false; rf3_state = off }

-- `ProtocolFlags::from_byte`.
unfoldable pub from_byte : ℕ → ProtocolFlags
unfolding from_bits
from_byte byte = record {
  remote = not (bit_and byte 0x01 == 0);
  has_messages = not (bit_and byte 0x04 == 0);
  rf3_state = from_bits (bit_and (byte / 2 ^ 4) 0x03);
}

pub record SaltoAdvertisement : Type 0 where
  pub protocol_version : ℕ
  pub flags : ProtocolFlags

unfoldable pub parse_salto_advertisement : Bytes → Option SaltoAdvertisement
unfolding from_byte
parse_salto_advertisement bytes =
    if ltb (length bytes) 3
    then none
    else some (record { protocol_version = get_or bytes 0 0; flags = from_byte (get_or bytes 2 0) })

-- The byte that a peer sends for the flags: bit 0, bit 2, and bits 4 and 5.
abbrev pub bit : Bool → ℕ
bit true = 1
bit false = 0

abbrev pub rf3_number : Rf3State → ℕ
rf3_number off = 0
rf3_number ini = 1
rf3_number link = 2
rf3_number lost = 3

abbrev pub Encodes : ProtocolFlags → ℕ → Type 0
Encodes f byte =
    (byte % 2 ≡ bit f.remote)
    × (byte / 4 % 2 ≡ bit f.has_messages)
    × (byte / 16 % 4 ≡ rf3_number f.rf3_state)

low_bit : (b : ℕ) → b < 256 → bit_and b 0x01 ≡ b % 2
low_bit b h = agree_below 256 (λ x. bit_and x 0x01) (λ x. x % 2) (unfold same_below in refl) b h

third_bit : (b : ℕ) → b < 256 → bit_and b 0x04 ≡ b / 4 % 2 * 4
third_bit b h =
    agree_below 256 (λ x. bit_and x 0x04) (λ x. x / 4 % 2 * 4) (unfold same_below in refl) b h

rf3_bits : (b : ℕ) → b < 256 → bit_and (b / 2 ^ 4) 0x03 ≡ b / 16 % 4
rf3_bits b h =
    agree_below 256 (λ x. bit_and (x / 2 ^ 4) 0x03) (λ x. x / 16 % 4) (unfold same_below in refl) b
      h

rf3_number-from_bits : (n : ℕ) → n < 4 → rf3_number (from_bits n) ≡ n
unfolding from_bits
rf3_number-from_bits n h = ground arith

from_byte-Encodes : (byte : ℕ) → byte < 256 → Encodes (from_byte byte) byte
unfolding from_byte
from_byte-Encodes byte h = (
  ground (arith, low_bit byte h),
  ground (arith, third_bit byte h),
  rw (rf3_bits byte h) (sym (rf3_number-from_bits (byte / 16 % 4) (omega arith))),
)

-- A record of three bytes or more, and no shorter one, is read; its version is the first byte, and its
-- flags are those that the third byte encodes, whatever that byte is: no state of RF3 is lost.
pub parse_salto_advertisement_lem :
    (version reserved flags : ℕ) (rest : Bytes)
    → flags < 256
    → (parse_salto_advertisement [] ≡ none)
      × (parse_salto_advertisement (version ∷ []) ≡ none)
      × (parse_salto_advertisement (version ∷ reserved ∷ []) ≡ none)
      × ((a : SaltoAdvertisement) × (parse_salto_advertisement (version ∷ reserved ∷ flags ∷ rest)
            ≡ some a)
          × (a.protocol_version ≡ version)
          × Encodes a.flags flags)
unfolding parse_salto_advertisement
parse_salto_advertisement_lem version reserved flags rest h =
    let long : ltb (length (version ∷ reserved ∷ flags ∷ rest)) 3 ≡ false = ground arith in
    (
      refl,
      refl,
      refl,
      (
        record { protocol_version = version; flags = from_byte flags },
        rw long refl,
        refl,
        from_byte-Encodes flags h,
      ),
    )
