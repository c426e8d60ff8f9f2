-- ===== src/Crypto/Crc.antt =====
-- crates/mkey-core/src/crypto/crc.rs. A `u16` is a number below 2 ^ 16.
mod Bits
pub mod Reflected
use mkey_rs.Prelude.{
  Bytes, [], bit_and, bit_xor, if◌then◌else◌, refl, suc, zero, ℕ, ◌%◌, ◌*◌, ◌/◌, ◌==◌, ◌^◌, ◌∷◌,
  ◌≡◌,
}

-- Masking before the product keeps it below 2 ^ 16; the product is of `u16` all the same.
abbrev pub nibble : ℕ → ℕ → ℕ
nibble crc low = bit_xor (crc / 2 ^ 4) (bit_and (bit_xor crc low) 0x0F * 4225 % 2 ^ 16)

-- One round of the loop of `crc16_ssp`.
unfoldable pub ssp_round : ℕ → ℕ → ℕ
ssp_round crc byte = nibble (nibble crc byte) (byte / 2 ^ 4)

unfoldable pub ssp_loop : ℕ → Bytes → ℕ
ssp_loop crc [] = crc
ssp_loop crc (b ∷ bs) = ssp_loop (ssp_round crc b) bs

-- `[(crc & 0xFF) as u8, ((crc >> 8) & 0xFF) as u8]`.
abbrev pub little_endian : ℕ → Bytes
little_endian crc = bit_and crc 0xFF ∷ (bit_and (crc / 2 ^ 8) 0xFF ∷ [])

unfoldable pub crc16_ssp : Bytes → Bytes
unfolding ssp_loop
crc16_ssp bytes = little_endian (ssp_loop 0x6363 bytes)

-- One shift of the loop that fills `TABLE`.
unfoldable pub shift_bit : ℕ → ℕ
shift_bit crc = if bit_and crc 1 == 0 then crc / 2 else bit_xor (crc / 2) 0x8408

abbrev pub shifts : ℕ → ℕ → ℕ
shifts zero crc = crc
shifts (suc n) crc = shifts n (shift_bit crc)

-- `TABLE[i]`.
unfoldable pub table : ℕ → ℕ
unfolding shift_bit
table i = shifts 8 i

unfoldable pub hasher_round : ℕ → ℕ → ℕ
unfolding table
hasher_round seed byte = bit_xor (table (bit_xor (bit_and seed 0xFF) byte)) (seed / 2 ^ 8)

unfoldable pub hasher_loop : ℕ → Bytes → ℕ
hasher_loop seed [] = seed
hasher_loop seed (b ∷ bs) = hasher_loop (hasher_round seed b) bs

unfoldable pub crc16_hasher : Bytes → Bytes
unfolding hasher_loop
crc16_hasher bytes = little_endian (bit_xor (hasher_loop 0xFFFF bytes) 0xFFFF)

ssp_vector : crc16_ssp (1 ∷ 2 ∷ []) ≡ 0x6a ∷ 0x24 ∷ []
unfolding crc16_ssp ssp_round
ssp_vector = refl

hasher_vector :
    crc16_hasher (0 ∷ 0x11 ∷ 0x22 ∷ 0x33 ∷ 0x44 ∷ 0x55 ∷ 0x66 ∷ 0x77 ∷ []) ≡ 0xfc ∷ 0x05 ∷ []
unfolding crc16_hasher hasher_round
hasher_vector = refl
