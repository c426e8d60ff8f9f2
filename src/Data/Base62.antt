-- ===== src/Data/Base62.antt =====
-- crates/mkey-core/src/data/base62.rs. The text is the list of its ASCII codes.
pub mod Value
use Prim.Native.Char.{code}
use Prim.Native.String.{String}
use mkey_rs.Prelude.{
  Bool, Bytes, [], bit_or, get_or, if◌then◌else◌, length, refl, replicate, reverse, suc, true, zero,
  ℕ, ◌%◌, ◌&&◌, ◌*◌, ◌++◌, ◌+◌, ◌/◌, ◌==◌, ◌^◌, ◌∷◌, ◌≡◌,
}

abbrev codes : String → Bytes
codes String.[] = []
codes (String.◌∷◌ c s) = code c ∷ codes s

unfoldable pub base62_chars : Bytes
base62_chars = codes "0123456789abcdefghijklmnopqrstuvwxyzABCDEFGHIJKLMNOPQRSTUVWXYZ"

-- `BASE62_CHARS[remainder]`; a remainder by 62 is always in range.
unfoldable pub digit_char : ℕ → ℕ
unfolding base62_chars
digit_char remainder = get_or base62_chars remainder 0

-- `data.iter().all(|&byte| byte == 0)`.
unfoldable pub all_zero : Bytes → Bool
all_zero [] = true
all_zero (b ∷ bs) = b == 0 && all_zero bs

-- The `for` loop over `value[start..]`: the bytes of the quotient, and the remainder.
unfoldable pub divide : ℕ → Bytes → Bytes × ℕ
divide remainder [] = ([], remainder)
divide remainder (b ∷ bs) =
    let accumulator = bit_or (remainder * 2 ^ 8 % 2 ^ 16) b in
    let (quotient, last) = divide (accumulator % 62) bs in (accumulator / 62 % 256 ∷ quotient, last)

-- `while start < value.len() && value[start] == 0 { start += 1 }`, on the slice from `start`.
unfoldable pub skip_leading : Bytes → Bytes
skip_leading [] = []
skip_leading (b ∷ bs) = let rest = skip_leading bs in if b == 0 then rest else b ∷ bs

-- The outer loop, on the slice from `start`. Two rounds for each byte are enough, since
-- 256 < 62 ^ 2; the digits come lowest first.
unfoldable pub digits_loop : ℕ → Bytes → Bytes → Bytes
digits_loop fuel [] digits = digits
digits_loop zero (b ∷ bs) digits = digits
digits_loop (suc fuel) (b ∷ bs) digits =
    let (quotient, remainder) = divide 0 (b ∷ bs) in
    digits_loop fuel (skip_leading quotient) (digits ++ (digit_char remainder ∷ []))

unfoldable pub encode_base62 : Bytes → Bytes
unfolding all_zero divide skip_leading digits_loop digit_char
encode_base62 [] = []
encode_base62 (b ∷ bs) =
    let bytes = b ∷ bs in
    if all_zero bytes
    then replicate (length bytes + 1) b'0'
    else reverse (digits_loop (2 * length bytes) bytes [])

alphabet : encode_base62 (0xff ∷ []) ≡ codes "47"
unfolding encode_base62
alphabet = refl

big_endian :
    encode_base62 (0x00 ∷ 0x11 ∷ 0x22 ∷ 0x33 ∷ 0x44 ∷ 0x55 ∷ 0x66 ∷ 0x77 ∷ []) ≡ codes "m5rX98TTp"
unfolding encode_base62
big_endian = refl
