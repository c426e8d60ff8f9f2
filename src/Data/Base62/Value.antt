-- ===== src/Data/Base62/Value.antt =====
-- crates/mkey-core/src/data/base62.rs: the number that the text stands for.
use mkey_rs.Prelude.{
  All, Bool-cases, Bytes, IsByte, [], ap, append-nil, append_assoc, arith, bit_or, if◌then◌else◌,
  inl, inr, leb, length, refl, replicate, reverse, reverse-cons, suc, sym, true, zero, ℕ, ◌%◌, ◌*◌,
  ◌++◌, ◌+◌, ◌-◌, ◌/◌, ◌<◌, ◌==◌, ◌^◌, ◌∙◌, ◌∷◌, ◌≡◌, ◌≤◌,
}
use mkey_rs.Prelude.Bits.{agree_below, same_below}
use mkey_rs.Data.Base62.{
  all_zero, base62_chars, digit_char, digits_loop, divide, encode_base62, skip_leading,
}

-- Bytes as one big-endian number, with what stands before them.
abbrev pub value_from : ℕ → Bytes → ℕ
value_from acc [] = acc
value_from acc (b ∷ bs) = value_from (acc * 256 + b) bs

abbrev pub value : Bytes → ℕ
value bs = value_from 0 bs

join : (x : ℕ) → x < 15872 → bit_or (x / 256 * 2 ^ 8 % 2 ^ 16) (x % 256) ≡ x
join x h =
    agree_below 15872 (λ x. bit_or (x / 256 * 2 ^ 8 % 2 ^ 16) (x % 256)) (λ x. x)
      (unfold same_below in refl) x h

accumulator : (r b : ℕ) → r < 62 → b < 256 → bit_or (r * 2 ^ 8 % 2 ^ 16) b ≡ r * 256 + b
accumulator r b small byte =
    let high : (r * 256 + b) / 256 ≡ r = omega arith in
    let low : (r * 256 + b) % 256 ≡ b = omega arith in
    rw (high, low) at (join (r * 256 + b) (omega arith))

-- Long division by 62, with the quotient so far in front.
divide-value :
    (before r : ℕ) (bs : Bytes)
    → r < 62
    → All IsByte bs
    → (value_from (before * 62 + r) bs ≡ value_from before (divide r bs).0 * 62 + (divide r bs).1)
      × ((divide r bs).1 < 62)
      × All IsByte (divide r bs).0
unfolding divide
divide-value before r [] small bytes = (refl, small, tt)
divide-value before r (b ∷ bs) small (byte, bytes) =
    let a : ℕ = r * 256 + b in
    let e : bit_or (r * 2 ^ 8 % 2 ^ 16) b ≡ r * 256 + b = accumulator r b small byte in
    let (v, last, out) = divide-value (before * 256 + a / 62) (a % 62) bs (omega arith) bytes in
    let front : (before * 62 + r) * 256 + b ≡ (before * 256 + a / 62) * 62 + a % 62 = omega arith in
    let whole : a / 62 % 256 ≡ a / 62 = omega arith in
    rw e (rw (front, whole) v, last, (omega arith, out))

value-skip_leading : (bs : Bytes) → value (skip_leading bs) ≡ value bs
unfolding skip_leading
value-skip_leading [] = refl
value-skip_leading (b ∷ bs) = elim (Bool-cases (b == 0)) [
  | inr e ↦ rw e refl
  | inl e ↦ let z : b ≡ 0 = ground arith in rw (e, z) (value-skip_leading bs)
]

skip_leading-IsByte : (bs : Bytes) → All IsByte bs → All IsByte (skip_leading bs)
unfolding skip_leading
skip_leading-IsByte [] h = tt
skip_leading-IsByte (b ∷ bs) h = elim (Bool-cases (b == 0)) [
  | inl e ↦ rw e (skip_leading-IsByte bs h.1)
  | inr e ↦ rw e h
]

-- The value of a character: digits, then lower case, then upper case.
abbrev pub char_value : ℕ → ℕ
char_value c = if leb c 57 then c - 48 else if leb c 90 then c - 65 + 36 else c - 97 + 10

-- The number that a text stands for, in base 62 with its highest digit first.
abbrev pub text_value : ℕ → Bytes → ℕ
text_value acc [] = acc
text_value acc (c ∷ cs) = text_value (acc * 62 + char_value c) cs

abbrev low_value : Bytes → ℕ
low_value [] = 0
low_value (c ∷ cs) = char_value c + low_value cs * 62

char_value-digit_char : (n : ℕ) → n < 62 → char_value (digit_char n) ≡ n
char_value-digit_char n h =
    agree_below 62 (λ x. char_value (digit_char x)) (λ x. x)
      (unfold same_below digit_char base62_chars in refl) n h

text_value_snoc :
    (acc : ℕ) (cs : Bytes) (c : ℕ)
    → text_value acc (cs ++ (c ∷ [])) ≡ text_value acc cs * 62 + char_value c
text_value_snoc acc [] c = refl
text_value_snoc acc (d ∷ cs) c = text_value_snoc (acc * 62 + char_value d) cs c

text_value-reverse : (cs : Bytes) → text_value 0 (reverse cs) ≡ low_value cs
text_value-reverse [] = refl
text_value-reverse (c ∷ cs) = omega (
  arith,
  ap (text_value 0) (reverse-cons c cs),
  text_value_snoc 0 (reverse cs) c,
  text_value-reverse cs,
)

digits_loop-append :
    (fuel : ℕ) (bs digits : Bytes) → digits_loop fuel bs digits ≡ digits ++ digits_loop fuel bs []
unfolding digits_loop
digits_loop-append fuel [] digits = sym (append-nil digits)
digits_loop-append zero (b ∷ bs) digits = sym (append-nil digits)
digits_loop-append (suc fuel) (b ∷ bs) digits =
    let (q, last) = divide 0 (b ∷ bs) in
    digits_loop-append fuel (skip_leading q) (digits ++ (digit_char last ∷ []))
    ∙ append_assoc digits (digit_char last ∷ []) (digits_loop fuel (skip_leading q) [])
    ∙ ap (◌++◌ digits) (sym (digits_loop-append fuel (skip_leading q) (digit_char last ∷ [])))

abbrev powers : ℕ → ℕ
powers zero = 1
powers (suc n) = 62 * powers n

low_value-digits_loop :
    (fuel : ℕ) (bs : Bytes)
    → All IsByte bs
    → value bs < powers fuel
    → low_value (digits_loop fuel bs []) ≡ value bs
unfolding digits_loop
low_value-digits_loop fuel [] bytes small = refl
low_value-digits_loop zero (b ∷ bs) bytes small = omega arith
low_value-digits_loop (suc fuel) (b ∷ bs) bytes small =
    let (q, last) = divide 0 (b ∷ bs) in
    let (v, l, out) = divide-value 0 0 (b ∷ bs) (omega arith) bytes in
    let rest =
      low_value-digits_loop fuel (skip_leading q) (skip_leading-IsByte q out)
        (omega (arith, value-skip_leading q)) in
    omega (
      arith,
      ap low_value (digits_loop-append fuel (skip_leading q) (digit_char last ∷ [])),
      rest,
      value-skip_leading q,
      char_value-digit_char last l,
    )

grown : ℕ → ℕ → ℕ
grown zero m = m
grown (suc n) m = grown n (m * 256)

value_from-lt :
    (acc m : ℕ) (bs : Bytes) → acc < m → All IsByte bs → value_from acc bs < grown (length bs) m
unfolding grown
value_from-lt acc m [] h bytes = h
value_from-lt acc m (b ∷ bs) h (byte, bytes) =
    value_from-lt (acc * 256 + b) (m * 256) bs (omega arith) bytes

grown-le : (n m k : ℕ) → m ≤ powers k → grown n m ≤ powers (k + 2 * n)
unfolding grown
grown-le zero m k h = let e : k + 2 * 0 ≡ k = omega arith in rw e h
grown-le (suc n) m k h =
    let e : k + 2 * suc n ≡ suc (suc k) + 2 * n = omega arith in
    rw e (grown-le n (m * 256) (suc (suc k)) (omega arith))

value-all_zero : (bs : Bytes) → all_zero bs ≡ true → value bs ≡ 0
unfolding all_zero
value-all_zero [] h = refl
value-all_zero (b ∷ bs) h = let z : b ≡ 0 = ground arith in rw z (value-all_zero bs (ground arith))

text_value-zeros : (n : ℕ) → text_value 0 (replicate n b'0') ≡ 0
text_value-zeros zero = refl
text_value-zeros (suc n) = text_value-zeros n

enough_rounds : (bs : Bytes) → All IsByte bs → value bs < powers (2 * length bs)
enough_rounds bs bytes =
    let n : 0 + 2 * length bs ≡ 2 * length bs = omega arith in
    let below = value_from-lt 0 1 bs (omega arith) bytes in
    let most = rw n at (grown-le (length bs) 1 0 (omega arith)) in omega arith

-- The text of any bytes stands, in base 62 and with digits before lower case before upper case, for the
-- big-endian number that the bytes are: the rounds of the division are always enough.
pub encode_base62_lem : (bs : Bytes) → All IsByte bs → text_value 0 (encode_base62 bs) ≡ value bs
unfolding encode_base62
encode_base62_lem [] bytes = refl
encode_base62_lem (b ∷ bs) bytes = elim (Bool-cases (all_zero (b ∷ bs))) [
  | inl e ↦ rw e (text_value-zeros (length (b ∷ bs) + 1) ∙ sym (value-all_zero (b ∷ bs) e))
  | inr e ↦ rw e (
      text_value-reverse (digits_loop (2 * length (b ∷ bs)) (b ∷ bs) [])
      ∙ low_value-digits_loop (2 * length (b ∷ bs)) (b ∷ bs) bytes (enough_rounds (b ∷ bs) bytes))
]
