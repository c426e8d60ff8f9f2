-- ===== src/Examples/Crypto.antt =====
-- The cryptographic helpers at concrete bytes.
use mkey_rs.Prelude.{[], arith, bit_xor, ◌∷◌, ◌≡◌}
use mkey_rs.Data.Base62.{encode_base62}
use mkey_rs.Data.Base62.Value.{encode_base62_lem, text_value, value}
use mkey_rs.Crypto.Crc.{crc16_hasher, crc16_ssp}
use mkey_rs.Crypto.Crc.Reflected.{bitwise_crc, crc16_hasher_lem, crc16_ssp_lem, two_bytes}

encode_base62_lem_example :
    text_value 0 (encode_base62 (0x12 ∷ 0x34 ∷ [])) ≡ value (0x12 ∷ 0x34 ∷ [])
encode_base62_lem_example = encode_base62_lem (0x12 ∷ 0x34 ∷ []) (omega arith, (omega arith, tt))

crc16_ssp_lem_example : crc16_ssp (1 ∷ 2 ∷ []) ≡ two_bytes (bitwise_crc 0x6363 (1 ∷ 2 ∷ []))
crc16_ssp_lem_example = crc16_ssp_lem (1 ∷ 2 ∷ []) (omega arith, (omega arith, tt))

crc16_hasher_lem_example :
    crc16_hasher (1 ∷ 2 ∷ []) ≡ two_bytes (bit_xor (bitwise_crc 0xFFFF (1 ∷ 2 ∷ [])) 0xFFFF)
crc16_hasher_lem_example = crc16_hasher_lem (1 ∷ 2 ∷ [])
