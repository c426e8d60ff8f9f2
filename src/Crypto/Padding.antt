-- ===== src/Crypto/Padding.antt =====
-- crates/mkey-core/src/crypto/padding.rs.
use mkey_rs.Prelude.{
  ==_iff, Bool-cases, Bytes, [], ap, append-nil, append_assoc, ap₂, arith, if◌then◌else◌, inl, inr,
  length, length-append, length-replicate, refl, replicate, reverse, reverse-append,
  reverse-reverse, suc, sym, take, take-append, zero, ℕ, ◌%◌, ◌++◌, ◌+◌, ◌-◌, ◌<◌, ◌==◌, ◌↔◌, ◌∙◌,
  ◌∷◌, ◌≡◌, ◌≤◌,
}
use mkey_rs.Error.{Error}
use mkey_rs.Result.{IsPanic, Result, err, ok}

abbrev pub zeros : ℕ → Bytes
zeros n = replicate n 0

-- `while !padded.len().is_multiple_of(16) { padded.push(0) }`, on fuel: the number of rounds.
pub push_zeros : ℕ → Bytes → Bytes
push_zeros zero padded = padded
push_zeros (suc fuel) padded =
    let rest = push_zeros fuel (padded ++ (0 ∷ [])) in
    if length padded % 16 == 0 then padded else rest

-- Sixteen rounds are enough, by `length-push_zeros` below.
unfoldable pub apply_padding : Bytes → Bytes
unfolding push_zeros
apply_padding bytes = push_zeros 16 (bytes ++ (0x80 ∷ []))

-- The loop of `remove_padding` that shortens the slice, over the bytes in reverse order, so that
-- its head is `data[len - 1]`.
pub skip_zeros : Bytes → Bytes
skip_zeros [] = []
skip_zeros (b ∷ bs) = let rest = skip_zeros bs in if b == 0 then rest else b ∷ bs

drop_marker : Bytes → Result Bytes
drop_marker [] = err Error.invalid_padding
drop_marker (b ∷ bs) = if b == 0x80 then ok (reverse bs) else err Error.invalid_padding

unfoldable pub remove_padding : Bytes → Result Bytes
unfolding skip_zeros drop_marker
remove_padding bytes = drop_marker (skip_zeros (reverse bytes))

zeros-suc : (n : ℕ) (xs : Bytes) → xs ++ (0 ∷ []) ++ zeros n ≡ xs ++ zeros (suc n)
zeros-suc n xs = rw (append_assoc xs)

-- The number of zeros that bring a length to a multiple of 16.
abbrev pub gap : ℕ → ℕ
gap n = (16 - n % 16) % 16

push_zeros_lem :
    (fuel : ℕ) (xs : Bytes)
    → gap (length xs) ≤ fuel
    → push_zeros fuel xs ≡ xs ++ zeros (gap (length xs))
unfolding push_zeros
push_zeros_lem zero xs h = let e : gap (length xs) ≡ 0 = omega arith in rw e (sym (append-nil xs))
push_zeros_lem (suc fuel) xs h = elim (Bool-cases (length xs % 16 == 0)) [
  | inl done ↦ let e : gap (length xs) ≡ 0 = ground arith in rw (done, e) (sym (append-nil xs))
  | inr more ↦
      let l : length (xs ++ (0 ∷ [])) ≡ length xs + 1 = omega (arith, length-append xs (0 ∷ [])) in
      let e : gap (length xs) ≡ suc (gap (length (xs ++ (0 ∷ [])))) = ground arith in
      rw (more, e)
        (push_zeros_lem fuel (xs ++ (0 ∷ [])) (omega arith)
          ∙ zeros-suc (gap (length (xs ++ (0 ∷ [])))) xs)
]

-- The loop ends within its fuel: the marker and then the zeros up to the block boundary.
pub apply_padding_lem :
    (bytes : Bytes) → apply_padding bytes ≡ (bytes ++ (0x80 ∷ [])) ++ zeros (gap (length bytes + 1))
unfolding apply_padding
apply_padding_lem bytes =
    let l : length (bytes ++ (0x80 ∷ [])) ≡ length bytes + 1 =
      omega (arith, length-append bytes (0x80 ∷ [])) in
    rw (← l) (push_zeros_lem 16 (bytes ++ (0x80 ∷ [])) (omega arith))

-- Padded bytes are the input, then at least one byte more, up to the next block boundary.
pub length-apply_padding :
    (bytes : Bytes)
    → (length (apply_padding bytes) % 16 ≡ 0)
      × (length bytes < length (apply_padding bytes))
      × (length (apply_padding bytes) ≤ length bytes + 16)
      × (take (length bytes) (apply_padding bytes) ≡ bytes)
length-apply_padding bytes =
    let pad = zeros (gap (length bytes + 1)) in
    let n : length (apply_padding bytes) ≡ length bytes + 1 + gap (length bytes + 1) =
      rw apply_padding_lem (
        omega (
          arith,
          length-append (bytes ++ (0x80 ∷ [])) pad,
          length-append bytes (0x80 ∷ []),
          length-replicate {0} {A = ℕ} (gap (length bytes + 1)) 0,
        )) in
    (
      omega arith,
      omega arith,
      omega arith,
      rw (apply_padding_lem, append_assoc bytes) (take-append bytes ((0x80 ∷ []) ++ pad)),
    )

zeros_snoc : (n : ℕ) (xs : Bytes) → zeros n ++ (0 ∷ xs) ≡ 0 ∷ (zeros n ++ xs)
zeros_snoc zero xs = refl
zeros_snoc (suc n) xs = ap (◌∷◌ 0) (zeros_snoc n xs)

reverse-zeros : (n : ℕ) → reverse (zeros n) ≡ zeros n
reverse-zeros zero = refl
reverse-zeros (suc n) =
    reverse-append {A = ℕ} (0 ∷ []) (zeros n)
    ∙ ap (λ (xs : Bytes). xs ++ (0 ∷ [])) (reverse-zeros n)
    ∙ zeros_snoc n []
    ∙ ap (◌∷◌ 0) (append-nil (zeros n))

skip_zeros-zeros : (n : ℕ) (xs : Bytes) → skip_zeros (zeros n ++ (0x80 ∷ xs)) ≡ 0x80 ∷ xs
unfolding skip_zeros
skip_zeros-zeros zero xs = refl
skip_zeros-zeros (suc n) xs = skip_zeros-zeros n xs

-- Any number of zeros behind the marker is accepted.
remove_padding_of_marker :
    (bytes : Bytes) (n : ℕ) → remove_padding ((bytes ++ (0x80 ∷ [])) ++ zeros n) ≡ ok bytes
unfolding remove_padding
remove_padding_of_marker bytes n = rw (
  reverse-append (bytes ++ (0x80 ∷ [])) (zeros n),
  reverse-append bytes (0x80 ∷ []),
  reverse-zeros n,
  skip_zeros-zeros n (reverse bytes),
  reverse-reverse bytes,
)

skip_zeros_split : (xs : Bytes) → (n : ℕ) × (xs ≡ zeros n ++ skip_zeros xs)
unfolding skip_zeros
skip_zeros_split [] = (0, refl)
skip_zeros_split (b ∷ bs) = elim (Bool-cases (b == 0)) [
  | inl z ↦ let (n, e) = skip_zeros_split bs in (suc n, rw z (ap₂ ◌∷◌ ((==_iff b 0).0 z) e))
  | inr nz ↦ (0, rw nz refl)
]

drop_marker_ok : (xs bytes : Bytes) → drop_marker xs ≡ ok bytes → xs ≡ 0x80 ∷ reverse bytes
unfolding drop_marker
drop_marker_ok [] bytes h = cc
drop_marker_ok (b ∷ bs) bytes h = ground (arith, reverse-reverse bs)

reverse_marker :
    (n : ℕ) (bytes : Bytes)
    → reverse (zeros n ++ (0x80 ∷ reverse bytes)) ≡ (bytes ++ (0x80 ∷ [])) ++ zeros n
reverse_marker n bytes = rw (
  reverse-append (zeros n) (0x80 ∷ reverse bytes),
  reverse-append (0x80 ∷ []) (reverse bytes),
  reverse-reverse bytes,
  reverse-zeros n,
)

-- `remove_padding` undoes `apply_padding`, and succeeds on nothing but the data, the marker byte and
-- zeros: exactly the byte strings of that shape give the data back.
pub remove_padding_iff :
    (padded bytes : Bytes)
    → (remove_padding padded ≡ ok bytes) ↔ ((n : ℕ) × (padded ≡ (bytes ++ (0x80 ∷ [])) ++ zeros n))
unfolding remove_padding
remove_padding_iff padded bytes = (
  λ h.
      let (n, e) = skip_zeros_split (reverse padded) in
      let m = drop_marker_ok (skip_zeros (reverse padded)) bytes h in
      (
        n,
        sym (reverse-reverse padded)
            ∙ ap reverse (e ∙ ap (λ (xs : Bytes). zeros n ++ xs) m)
            ∙ reverse_marker n bytes,
      ),
  λ (n, e). rw e (remove_padding_of_marker bytes n),
)

-- Padding any bytes and removing the padding gives the bytes back.
pub remove_padding-apply_padding : (bytes : Bytes) → remove_padding (apply_padding bytes) ≡ ok bytes
remove_padding-apply_padding bytes =
    rw apply_padding_lem (remove_padding_of_marker bytes (gap (length bytes + 1)))

drop_marker-safe : (xs : Bytes) → ¬ (IsPanic (drop_marker xs))
unfolding drop_marker
drop_marker-safe [] = λ h. h
drop_marker-safe (b ∷ bs) = elim (Bool-cases (b == 0x80)) [
  | inl e ↦ rw e (λ h. h)
  | inr e ↦ rw e (λ h. h)
]

pub remove_padding-safe : (xs : Bytes) → ¬ (IsPanic (remove_padding xs))
unfolding remove_padding
remove_padding-safe xs = drop_marker-safe (skip_zeros (reverse xs))
