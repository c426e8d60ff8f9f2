-- ===== src/Crypto/Crc/Bits.antt =====
-- Exclusive or and masks on native numbers, from their lowest digits.
use Prim.Native.Nat.{◌/◌, ◌%◌, digits, differ, bit_and-bitwise, bit_xor-bitwise, min}
use mkey_rs.Prelude.{
  ap, ap₂, arith, bit_and, bit_xor, refl, suc, sym, zero, ℕ, ◌*◌, ◌+◌, ◌<◌, ◌∙◌, ◌≡◌, ◌≤◌,
}

-- One digit.
differ_lem : (x y : ℕ) → x < 2 → y < 2 → differ x y ≡ (x + y) % 2
differ_lem zero y p q = omega arith
differ_lem (suc x) zero p q = omega arith
differ_lem (suc zero) (suc zero) p q = refl
differ_lem (suc (suc x)) (suc y) p q = absurd (omega arith)
differ_lem (suc zero) (suc (suc y)) p q = absurd (omega arith)

digits-zero : (z : ℕ → ℕ) (f : ℕ → ℕ → ℕ) (n b : ℕ) → digits z f n 0 b ≡ z b
digits-zero z f zero b = refl
digits-zero z f (suc n) b = refl

-- More rounds than digits change nothing.
digits-rounds :
    (z : ℕ → ℕ) (f : ℕ → ℕ → ℕ) (n k a b : ℕ) → a ≤ n → a ≤ k → digits z f n a b ≡ digits z f k a b
digits-rounds z f n k zero b p q = digits-zero z f n b ∙ sym (digits-zero z f k b)
digits-rounds z f zero k (suc a) b p q = absurd (omega arith)
digits-rounds z f (suc n) zero (suc a) b p q = absurd (omega arith)
digits-rounds z f (suc n) (suc k) (suc a) b p q =
    ap (λ x. x * 2 + f (suc a % 2) (b % 2))
      (digits-rounds z f n k (suc a / 2) (b / 2) (omega arith) (omega arith))

zero-bit_xor : (b : ℕ) → bit_xor 0 b ≡ b
zero-bit_xor b = bit_xor-bitwise 0 b

pub xor_step : (a b : ℕ) → bit_xor a b ≡ bit_xor (a / 2) (b / 2) * 2 + (a + b) % 2
xor_step zero b = omega (arith, zero-bit_xor b, zero-bit_xor (b / 2))
xor_step (suc a) b = omega (
  arith,
  bit_xor-bitwise (suc a) b,
  bit_xor-bitwise (suc a / 2) (b / 2),
  digits-rounds (λ y. y) differ a (suc a / 2) (suc a / 2) (b / 2) (omega arith) (omega arith),
  differ_lem (suc a % 2) (b % 2) (omega arith) (omega arith),
)

pub bit_xor-zero : (n a : ℕ) → a ≤ n → bit_xor a 0 ≡ a
bit_xor-zero n zero h = zero-bit_xor 0
bit_xor-zero zero (suc a) h = absurd (omega arith)
bit_xor-zero (suc n) (suc a) h =
    omega (arith, xor_step (suc a) 0, bit_xor-zero n (suc a / 2) (omega arith))

pub half : (a b : ℕ) → bit_xor a b / 2 ≡ bit_xor (a / 2) (b / 2)
half a b = omega (arith, xor_step a b)

pub odd : (a b : ℕ) → bit_xor a b % 2 ≡ (a + b) % 2
odd a b = omega (arith, xor_step a b)

-- Four numbers, two by two in either order.
pub bit_xor_medial :
    (n u m v k : ℕ)
    → u ≤ n
    → m ≤ n
    → v ≤ n
    → k ≤ n
    → bit_xor (bit_xor u m) (bit_xor v k) ≡ bit_xor (bit_xor u v) (bit_xor m k)
bit_xor_medial zero u m v k a b c d =
    let eu : u ≡ 0 = omega arith in
    let em : m ≡ 0 = omega arith in
    let ev : v ≡ 0 = omega arith in let ek : k ≡ 0 = omega arith in rw (eu, em, ev, ek) refl
bit_xor_medial (suc n) u m v k a b c d =
    let rest =
      bit_xor_medial n (u / 2) (m / 2) (v / 2) (k / 2) (omega arith) (omega arith) (omega arith)
        (omega arith) in
    let left : bit_xor (bit_xor u m / 2) (bit_xor v k / 2)
        ≡ bit_xor (bit_xor (u / 2) (m / 2)) (bit_xor (v / 2) (k / 2)) =
      ap₂ bit_xor (half u m) (half v k) in
    let right : bit_xor (bit_xor u v / 2) (bit_xor m k / 2)
        ≡ bit_xor (bit_xor (u / 2) (v / 2)) (bit_xor (m / 2) (k / 2)) =
      ap₂ bit_xor (half u v) (half m k) in
    omega (
      arith,
      xor_step (bit_xor u m) (bit_xor v k),
      xor_step (bit_xor u v) (bit_xor m k),
      left,
      right,
      rest,
      odd u m,
      odd v k,
      odd u v,
      odd m k,
    )

-- Numbers without digits in common are added.
wider :
    (x m : ℕ)
    → ((l : ℕ) → l < m → bit_xor x l ≡ x + l)
    → (l : ℕ) → l < m * 2
    → bit_xor (x * 2) l ≡ x * 2 + l
wider x m h l lt =
    let e : (x * 2) / 2 ≡ x = omega arith in
    omega (arith, xor_step (x * 2) l, ap (λ y. bit_xor y (l / 2)) e, h (l / 2) (omega arith))

narrowest : (x l : ℕ) → l < 1 → bit_xor x l ≡ x + l
narrowest x l lt =
    let z : l ≡ 0 = omega arith in rw z (bit_xor-zero x x (omega arith) ∙ (omega arith))

nibble_wide : (x l : ℕ) → l < 16 → bit_xor (x * 2 * 2 * 2 * 2) l ≡ x * 2 * 2 * 2 * 2 + l
nibble_wide x =
    wider (x * 2 * 2 * 2) 8 (wider (x * 2 * 2) 4 (wider (x * 2) 2 (wider x 1 (narrowest x))))

pub bit_xor-nibble : (x l : ℕ) → l < 16 → bit_xor (x * 16) l ≡ x * 16 + l
bit_xor-nibble x l h =
    let e : x * 2 * 2 * 2 * 2 ≡ x * 16 = omega arith in rw e at (nibble_wide x l h)

pub bit_xor-byte : (x l : ℕ) → l < 256 → bit_xor (x * 256) l ≡ x * 256 + l
bit_xor-byte x l h =
    let y : ℕ = x * 16 in
    let f =
      wider (y * 2 * 2 * 2) 128
        (wider (y * 2 * 2) 64 (wider (y * 2) 32 (wider y 16 (bit_xor-nibble x)))) in
    let e : x * 16 * 2 * 2 * 2 * 2 ≡ x * 256 = omega arith in rw e at (f l h)

digits_of_zero : (n a : ℕ) → digits (λ y. 0) min n a 0 ≡ 0
digits_of_zero zero a = refl
digits_of_zero (suc n) zero = refl
digits_of_zero (suc n) (suc a) = omega (arith, digits_of_zero n (suc a / 2))

pub bit_and-one : (a : ℕ) → bit_and a 1 ≡ a % 2
bit_and-one zero = bit_and-bitwise 0 1
bit_and-one (suc a) = omega (arith, bit_and-bitwise (suc a) 1, digits_of_zero a (suc a / 2))

and_step : (a b : ℕ) → bit_and a b ≡ bit_and (a / 2) (b / 2) * 2 + min (a % 2) (b % 2)
and_step zero b = omega (arith, bit_and-bitwise 0 b, bit_and-bitwise 0 (b / 2))
and_step (suc a) b = omega (
  arith,
  bit_and-bitwise (suc a) b,
  bit_and-bitwise (suc a / 2) (b / 2),
  digits-rounds (λ y. 0) min a (suc a / 2) (suc a / 2) (b / 2) (omega arith) (omega arith),
)

-- Masks of ones, digit after digit.
mask_2 : (a : ℕ) → bit_and a 3 ≡ a % 4
mask_2 a = omega (arith, and_step a 3, bit_and-one (a / 2))

mask_3 : (a : ℕ) → bit_and a 7 ≡ a % 8
mask_3 a = omega (arith, and_step a 7, mask_2 (a / 2))

pub bit_and-nibble : (a : ℕ) → bit_and a 0x0F ≡ a % 16
bit_and-nibble a = omega (arith, and_step a 15, mask_3 (a / 2))

mask_5 : (a : ℕ) → bit_and a 31 ≡ a % 32
mask_5 a = omega (arith, and_step a 31, bit_and-nibble (a / 2))

mask_6 : (a : ℕ) → bit_and a 63 ≡ a % 64
mask_6 a = omega (arith, and_step a 63, mask_5 (a / 2))

mask_7 : (a : ℕ) → bit_and a 127 ≡ a % 128
mask_7 a = omega (arith, and_step a 127, mask_6 (a / 2))

pub bit_and-byte : (a : ℕ) → bit_and a 0xFF ≡ a % 256
bit_and-byte a = omega (arith, and_step a 255, mask_7 (a / 2))

-- The lowest digits of an exclusive or are those of its two sides.
low_1 : (a b : ℕ) → bit_xor a b % 2 ≡ bit_xor (a % 2) (b % 2)
low_1 a b =
    let x : a % 2 / 2 ≡ 0 = omega arith in
    let y : b % 2 / 2 ≡ 0 = omega arith in
    omega (arith, odd a b, xor_step (a % 2) (b % 2), ap₂ bit_xor x y, zero-bit_xor 0)

low_2 : (a b : ℕ) → bit_xor a b % 4 ≡ bit_xor (a % 4) (b % 4)
low_2 a b =
    let x : a % 4 / 2 ≡ a / 2 % 2 = omega arith in
    let y : b % 4 / 2 ≡ b / 2 % 2 = omega arith in
    omega (arith, xor_step a b, low_1 (a / 2) (b / 2), xor_step (a % 4) (b % 4), ap₂ bit_xor x y)

low_3 : (a b : ℕ) → bit_xor a b % 8 ≡ bit_xor (a % 8) (b % 8)
low_3 a b =
    let x : a % 8 / 2 ≡ a / 2 % 4 = omega arith in
    let y : b % 8 / 2 ≡ b / 2 % 4 = omega arith in
    omega (arith, xor_step a b, low_2 (a / 2) (b / 2), xor_step (a % 8) (b % 8), ap₂ bit_xor x y)

pub bit_xor-low_nibble : (a b : ℕ) → bit_xor a b % 16 ≡ bit_xor (a % 16) (b % 16)
bit_xor-low_nibble a b =
    let x : a % 16 / 2 ≡ a / 2 % 8 = omega arith in
    let y : b % 16 / 2 ≡ b / 2 % 8 = omega arith in
    omega (arith, xor_step a b, low_3 (a / 2) (b / 2), xor_step (a % 16) (b % 16), ap₂ bit_xor x y)

pub bit_xor_comm : (a b : ℕ) → bit_xor a b ≡ bit_xor b a
bit_xor_comm a b =
    sym (ap₂ bit_xor (zero-bit_xor a) (bit_xor-zero b b (omega arith)))
    ∙ bit_xor_medial (a + b) 0 a b 0 (omega arith) (omega arith) (omega arith) (omega arith)
    ∙ ap₂ bit_xor (zero-bit_xor b) (bit_xor-zero a a (omega arith))

-- A third number may be added to the second of two.
pub bit_xor_assoc : (a b d : ℕ) → bit_xor (bit_xor a b) d ≡ bit_xor a (bit_xor b d)
bit_xor_assoc a b d =
    ap (bit_xor (bit_xor a b)) (sym (zero-bit_xor d))
    ∙ bit_xor_medial (a + b + d) a b 0 d (omega arith) (omega arith) (omega arith) (omega arith)
    ∙ ap (λ x. bit_xor x (bit_xor b d)) (bit_xor-zero a a (omega arith))
