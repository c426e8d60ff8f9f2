-- ===== src/Crypto/Crc/Reflected.antt =====
-- crates/mkey-core/src/crypto/crc.rs: both checksums against the bit by bit division of the polynomial
-- 0x8408.
use mkey_rs.Prelude.{
  All, Bool-cases, Bytes, IsByte, [], ap, ap₂, arith, bit_and, bit_xor, if◌then◌else◌, inl, inr,
  refl, suc, sym, zero, ℕ, ◌%◌, ◌*◌, ◌+◌, ◌/◌, ◌<◌, ◌==◌, ◌^◌, ◌∙◌, ◌∷◌, ◌≡◌, ◌≤◌,
}
use mkey_rs.Crypto.Crc.{
  crc16_hasher, crc16_ssp, hasher_loop, hasher_round, little_endian, nibble, shift_bit, shifts,
  ssp_loop, ssp_round, table,
}
use mkey_rs.Crypto.Crc.Bits.{
  bit_and-byte, bit_and-nibble, bit_and-one, bit_xor-byte, bit_xor-low_nibble, bit_xor-nibble,
  bit_xor-zero, bit_xor_assoc, bit_xor_comm, bit_xor_medial, half, odd,
}
use mkey_rs.Prelude.Bits.{agree_below, same_below}

-- The textbook register: each byte is added to it, and eight bits are shifted out.
abbrev pub bitwise_crc : ℕ → Bytes → ℕ
bitwise_crc crc [] = crc
bitwise_crc crc (b ∷ bs) = bitwise_crc (shifts 8 (bit_xor crc b)) bs

abbrev tap : ℕ → ℕ
tap a = if a % 2 == 0 then 0 else 0x8408

shift_bit_lem : (a : ℕ) → shift_bit a ≡ bit_xor (a / 2) (tap a)
unfolding shift_bit
shift_bit_lem a = elim (Bool-cases (a % 2 == 0)) [
  | inl e ↦ rw (bit_and-one a, e) (sym (bit_xor-zero (a / 2) (a / 2) (omega arith)))
  | inr e ↦ rw (bit_and-one a, e) refl
]

tap-le : (a : ℕ) → tap a ≤ 0x8408
tap-le a = ground arith

taps :
    (x y : ℕ)
    → x < 2
    → y < 2
    → (if (x + y) % 2 == 0 then 0 else 0x8408)
      ≡ bit_xor (if x == 0 then 0 else 0x8408) (if y == 0 then 0 else 0x8408)
taps zero zero p q = refl
taps zero (suc zero) p q = refl
taps (suc zero) zero p q = refl
taps (suc zero) (suc zero) p q = refl
taps (suc (suc x)) y p q = absurd (omega arith)
taps x (suc (suc y)) p q = absurd (omega arith)

tap-bit_xor : (a b : ℕ) → tap (bit_xor a b) ≡ bit_xor (tap a) (tap b)
tap-bit_xor a b =
    let e : bit_xor a b % 2 ≡ (a % 2 + b % 2) % 2 = omega (arith, odd a b) in
    ap (λ (n : ℕ). if n == 0 then 0 else 0x8408) e
    ∙ taps (a % 2) (b % 2) (omega arith) (omega arith)

shift_bit-bit_xor : (a b : ℕ) → shift_bit (bit_xor a b) ≡ bit_xor (shift_bit a) (shift_bit b)
shift_bit-bit_xor a b =
    shift_bit_lem (bit_xor a b)
    ∙ ap₂ bit_xor (half a b) (tap-bit_xor a b)
    ∙ sym (
        bit_xor_medial (a + b + 0x8408) (a / 2) (tap a) (b / 2) (tap b) (omega arith)
          (omega (arith, tap-le a)) (omega arith) (omega (arith, tap-le b)))
    ∙ sym (ap₂ bit_xor (shift_bit_lem a) (shift_bit_lem b))

shifts-bit_xor : (n a b : ℕ) → shifts n (bit_xor a b) ≡ bit_xor (shifts n a) (shifts n b)
shifts-bit_xor zero a b = refl
shifts-bit_xor (suc n) a b =
    ap (shifts n) (shift_bit-bit_xor a b) ∙ shifts-bit_xor n (shift_bit a) (shift_bit b)

shift_bit-even : (x : ℕ) → shift_bit (x * 2) ≡ x
shift_bit-even x =
    let e : x * 2 / 2 ≡ x = omega arith in
    let z : x * 2 % 2 ≡ 0 = omega arith in
    shift_bit_lem (x * 2)
    ∙ ap₂ bit_xor e (ap (λ (n : ℕ). if n == 0 then 0 else 0x8408) z)
    ∙ bit_xor-zero x x (omega arith)

shifts-nibble : (x : ℕ) → shifts 4 (x * 16) ≡ x
shifts-nibble x =
    let e : x * 16 ≡ x * 2 * 2 * 2 * 2 = omega arith in
    ap (shifts 4) e
    ∙ ap (shifts 3) (shift_bit-even (x * 2 * 2 * 2))
    ∙ ap (shifts 2) (shift_bit-even (x * 2 * 2))
    ∙ ap (shifts 1) (shift_bit-even (x * 2))
    ∙ shift_bit-even x

shifts-byte : (x : ℕ) → shifts 8 (x * 256) ≡ x
shifts-byte x =
    let e : x * 256 ≡ x * 16 * 16 = omega arith in
    ap (shifts 8) e ∙ ap (shifts 4) (shifts-nibble (x * 16)) ∙ shifts-nibble x

-- A byte of the register, and what is above it.
hasher_round_lem : (seed byte : ℕ) → hasher_round seed byte ≡ shifts 8 (bit_xor seed byte)
unfolding hasher_round table
hasher_round_lem seed byte =
    let hi = seed / 256 in
    let lo = seed % 256 in
    let whole : bit_xor (hi * 256) lo ≡ seed = bit_xor-byte hi lo (omega arith) ∙ (omega arith) in
    ap (λ x. bit_xor (shifts 8 (bit_xor x byte)) hi) (bit_and-byte seed)
    ∙ bit_xor_comm (shifts 8 (bit_xor lo byte)) hi
    ∙ ap (λ x. bit_xor x (shifts 8 (bit_xor lo byte))) (sym (shifts-byte hi))
    ∙ sym (shifts-bit_xor 8 (hi * 256) (bit_xor lo byte))
    ∙ ap (shifts 8) (sym (bit_xor_assoc (hi * 256) lo byte))
    ∙ ap (λ x. shifts 8 (bit_xor x byte)) whole

nibble_table : (n : ℕ) → n < 16 → n * 4225 % 2 ^ 16 ≡ shifts 4 n
nibble_table n h =
    agree_below 16 (λ x. x * 4225 % 2 ^ 16) (shifts 4) (unfold same_below shift_bit in refl) n h

nibble_lem : (crc low : ℕ) → nibble crc low ≡ shifts 4 (bit_xor crc (low % 16))
nibble_lem crc low =
    let hi = crc / 16 in
    let lo = crc % 16 in
    let whole : bit_xor (hi * 16) lo ≡ crc = bit_xor-nibble hi lo (omega arith) ∙ (omega arith) in
    let mixed : bit_and (bit_xor crc low) 0x0F ≡ bit_xor lo (low % 16) =
      bit_and-nibble (bit_xor crc low) ∙ bit_xor-low_nibble crc low in
    let small : bit_xor lo (low % 16) < 16 = omega (arith, bit_xor-low_nibble crc low) in
    ap (λ x. bit_xor hi (x * 4225 % 2 ^ 16)) mixed
    ∙ ap₂ bit_xor (sym (shifts-nibble hi)) (nibble_table (bit_xor lo (low % 16)) small)
    ∙ sym (shifts-bit_xor 4 (hi * 16) (bit_xor lo (low % 16)))
    ∙ ap (shifts 4) (sym (bit_xor_assoc (hi * 16) lo (low % 16)))
    ∙ ap (λ x. shifts 4 (bit_xor x (low % 16))) whole

ssp_round_lem : (crc byte : ℕ) → byte < 256 → ssp_round crc byte ≡ shifts 8 (bit_xor crc byte)
unfolding ssp_round
ssp_round_lem crc byte h =
    let hi = byte / 16 in
    let lo = byte % 16 in
    let top : hi % 16 ≡ hi = omega arith in
    let whole : bit_xor lo (hi * 16) ≡ byte =
      bit_xor_comm lo (hi * 16) ∙ bit_xor-nibble hi lo (omega arith) ∙ (omega arith) in
    nibble_lem (nibble crc byte) hi
    ∙ ap₂ (λ x y. shifts 4 (bit_xor x y)) (nibble_lem crc byte) (top ∙ sym (shifts-nibble hi))
    ∙ ap (shifts 4) (sym (shifts-bit_xor 4 (bit_xor crc lo) (hi * 16)))
    ∙ ap (shifts 8) (bit_xor_assoc crc lo (hi * 16) ∙ ap (bit_xor crc) whole)

ssp_loop_lem : (crc : ℕ) (bs : Bytes) → All IsByte bs → ssp_loop crc bs ≡ bitwise_crc crc bs
unfolding ssp_loop
ssp_loop_lem crc [] h = refl
ssp_loop_lem crc (b ∷ bs) (byte, h) =
    ssp_loop_lem (ssp_round crc b) bs h ∙ ap (λ x. bitwise_crc x bs) (ssp_round_lem crc b byte)

hasher_loop_lem : (seed : ℕ) (bs : Bytes) → hasher_loop seed bs ≡ bitwise_crc seed bs
unfolding hasher_loop
hasher_loop_lem seed [] = refl
hasher_loop_lem seed (b ∷ bs) =
    hasher_loop_lem (hasher_round seed b) bs ∙ ap (λ x. bitwise_crc x bs) (hasher_round_lem seed b)

-- A number as two bytes, the low one first.
abbrev pub two_bytes : ℕ → Bytes
two_bytes n = n % 256 ∷ (n / 256 % 256 ∷ [])

-- The checksum of the packets, computed four bits at a time, is that of the register that starts at
-- 0x6363 and shifts bit by bit.
pub crc16_ssp_lem : (bs : Bytes) → All IsByte bs → crc16_ssp bs ≡ two_bytes (bitwise_crc 0x6363 bs)
unfolding crc16_ssp
crc16_ssp_lem bs h =
    ap little_endian (ssp_loop_lem 0x6363 bs h)
    ∙ ap₂ (λ x y. x ∷ (y ∷ [])) (bit_and-byte (bitwise_crc 0x6363 bs))
        (bit_and-byte (bitwise_crc 0x6363 bs / 256))

-- The checksum of the key identifiers, computed with a table of 256 entries, is the inverted register that
-- starts at 0xFFFF and shifts bit by bit.
pub crc16_hasher_lem :
    (bs : Bytes) → crc16_hasher bs ≡ two_bytes (bit_xor (bitwise_crc 0xFFFF bs) 0xFFFF)
unfolding crc16_hasher
crc16_hasher_lem bs =
    let v = bit_xor (bitwise_crc 0xFFFF bs) 0xFFFF in
    ap (λ x. little_endian (bit_xor x 0xFFFF)) (hasher_loop_lem 0xFFFF bs)
    ∙ ap₂ (λ x y. x ∷ (y ∷ [])) (bit_and-byte v) (bit_and-byte (v / 256))
