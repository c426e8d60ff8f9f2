-- ===== src/Virgil/Container/RoundTrip.antt =====
-- crates/mkey-sdk-virgil/src/lib.rs: a container that was put together, whole and cut off.
use mkey_rs.Virgil.Container.{
  cut_at, extract_recipient_id, is_sequence, marker, marker_position, message_info_length,
  parse_after_marker, parse_virgil_container, starts_with_marker,
}
use mkey_rs.Virgil.Attempt.{ok, panic}
use mkey_rs.Data.MobileKey.{encode_length}
use mkey_rs.Prelude.{
  All, Bool-cases, Bytes, [], ap, append_assoc, arith, drop, drop-append, false, inl, inr, length,
  length-append, length-take, ltb, refl, some, suc, sym, take, take-append, true, zero, ℕ, ◌%◌, ◌*◌,
  ◌++◌, ◌+◌, ◌-◌, ◌/◌, ◌<◌, ◌^◌, ◌∙◌, ◌∷◌, ◌≡◌, ◌≢◌, ◌≤◌,
}

-- An ASN.1 sequence of fewer than 65536 bytes.
unfoldable pub sequence_of : Bytes → Bytes
sequence_of body = 0x30 ∷ (encode_length (length body) ++ body)

-- No byte of the header is the first one of the marker.
abbrev pub IsPlain : Bytes → Type 0
IsPlain header = All (λ b. b ≢ 0x56) header

marker_position-header :
    (header rest : Bytes)
    → IsPlain header
    → marker_position (header ++ (marker ++ rest)) ≡ some (length header)
unfolding marker_position
marker_position-header [] rest p = refl
marker_position-header (b ∷ bs) rest (p, q) =
    let ih = marker_position-header bs rest q in
    let here : starts_with_marker (b ∷ (bs ++ (marker ++ rest))) ≡ false = ground arith in
    rw (here, ih) refl

drop-header :
    (header rest : Bytes) → drop (length header + length marker) (header ++ (marker ++ rest)) ≡ rest
drop-header header rest =
    let n : length header + length marker ≡ length (header ++ marker) =
      omega (arith, length-append {0} {A = ℕ} header marker) in
    rw n (
      ap (drop (length (header ++ marker))) (sym (append_assoc header marker rest))
      ∙ drop-append (header ++ marker) rest)

-- What is parsed is what stands behind the marker.
parse-header :
    (header rest : Bytes)
    → IsPlain header
    → parse_virgil_container (header ++ (marker ++ rest)) ≡ parse_after_marker rest
unfolding parse_virgil_container
parse-header header rest p =
    rw (marker_position-header header rest p) (ap parse_after_marker (drop-header header rest))

-- The bytes of a length, and what they are read as: one byte, or one or two behind their count.
pub data Der (n : ℕ) (bytes : Bytes) : Type 0 where
  short : ltb n 0x80 ≡ true → bytes ≡ n ∷ [] → Der n bytes
  one : bytes ≡ 0x81 ∷ n ∷ [] → Der n bytes
  two : (high low : ℕ) → bytes ≡ 0x82 ∷ high ∷ low ∷ [] → high * 256 + low ≡ n → Der n bytes

encode_length-Der : (n : ℕ) → n < 65536 → Der n (encode_length n)
unfolding encode_length
encode_length-Der n h = elim (Bool-cases (ltb n 128)) [
  | inl p ↦ short p (rw p (ap (λ (x : ℕ). x ∷ []) (ground arith)))
  | inr p ↦ elim (Bool-cases (ltb n 256)) [
    | inl q ↦ one (rw (p, q) (ap (λ (x : ℕ). 0x81 ∷ x ∷ []) (ground arith)))
    | inr q ↦
        let w : ltb n 65536 ≡ true = ground arith in
        two (n / 2 ^ 8 % 256) (n % 256) (rw (p, q, w) refl) (omega arith)
  ]
]

-- The size of the header of a sequence.
abbrev header_size : {n : ℕ} {bytes : Bytes} → Der n bytes → ℕ
header_size (short p e) = 2
header_size (one e) = 3
header_size (two high low e q) = 4

Der-length : {n : ℕ} {bytes : Bytes} (d : Der n bytes) → suc (length bytes) ≡ header_size d
Der-length (short p e) = ap (λ (x : Bytes). suc (length x)) e
Der-length (one e) = ap (λ (x : Bytes). suc (length x)) e
Der-length (two high low e q) = ap (λ (x : Bytes). suc (length x)) e

Der-read :
    {n : ℕ} {bytes : Bytes} (d : Der n bytes) (rest : Bytes)
    → message_info_length (0x30 ∷ (bytes ++ rest)) ≡ ok (n, header_size d)
unfolding message_info_length
Der-read (short p e) rest = rw (e, p) refl
Der-read (one e) rest = rw e refl
Der-read (two high low e q) rest = rw (e, q) refl

-- Fewer bytes than the message info declares are a panic.
cut-panics :
    (after : Bytes) (len header : ℕ)
    → is_sequence after ≡ true
    → message_info_length after ≡ ok (len, header)
    → length after < header + len
    → parse_after_marker after ≡ panic
unfolding parse_after_marker
cut-panics after len header sq m h =
    let cut : ltb (length after) (header + len) ≡ true = ground arith in rw (sq, m, cut) refl

no_length-panics :
    (after : Bytes)
    → is_sequence after ≡ true
    → message_info_length after ≡ panic
    → parse_after_marker after ≡ panic
unfolding parse_after_marker
no_length-panics after sq m = rw (sq, m) refl

-- A length that is cut off.
cut_length :
    {n : ℕ} {bytes : Bytes} (d : Der n bytes) (k : ℕ)
    → suc k < header_size d
    → message_info_length (0x30 ∷ take k bytes) ≡ panic
unfolding message_info_length
cut_length (short p e) zero h = refl
cut_length (short p e) (suc k) h = absurd (omega arith)
cut_length (one e) zero h = refl
cut_length (one e) (suc zero) h = rw e refl
cut_length (one e) (suc (suc k)) h = absurd (omega arith)
cut_length (two high low e q) zero h = refl
cut_length (two high low e q) (suc zero) h = rw e refl
cut_length (two high low e q) (suc (suc zero)) h = rw e refl
cut_length (two high low e q) (suc (suc (suc k))) h = absurd (omega arith)

take-append_le : (k : ℕ) (xs ys : Bytes) → k ≤ length xs → take k (xs ++ ys) ≡ take k xs
take-append_le zero xs ys h = refl
take-append_le (suc k) [] ys h = absurd (omega arith)
take-append_le (suc k) (x ∷ xs) ys h = ap (◌∷◌ x) (take-append_le k xs ys (omega arith))

take-append_ge : (k : ℕ) (xs ys : Bytes) → take (length xs + k) (xs ++ ys) ≡ xs ++ take k ys
take-append_ge k [] ys = let e : 0 + k ≡ k = omega arith in rw e refl
take-append_ge k (x ∷ xs) ys =
    let e : suc (length xs) + k ≡ suc (length xs + k) = omega arith in
    rw e (ap (◌∷◌ x) (take-append_ge k xs ys))

cut_sequence :
    {n : ℕ} {bytes : Bytes} (d : Der n bytes) (body : Bytes) (k : ℕ)
    → length body ≡ n
    → k < length bytes + length body
    → parse_after_marker (0x30 ∷ take k (bytes ++ body)) ≡ panic
cut_sequence {n} {bytes} d body k same h = elim (Bool-cases (ltb k (length bytes))) [
  | inl p ↦
      let below : k ≤ length bytes = ground arith in
      rw (take-append_le k bytes body below) (
        no_length-panics (0x30 ∷ take k bytes) refl
          (cut_length d k (omega (arith, Der-length d, below_of p))))
  | inr p ↦
      let above : length bytes + (k - length bytes) ≡ k = ground arith in
      let part : Bytes = take (k - length bytes) body in
      let cut : take k (bytes ++ body) ≡ bytes ++ part =
        ap (λ (m : ℕ). take m (bytes ++ body)) (sym above)
        ∙ take-append_ge (k - length bytes) bytes body in
      rw cut (
        cut-panics (0x30 ∷ (bytes ++ part)) n (header_size d) refl (Der-read d part) (
          ground
            (arith, Der-length d, length-append bytes part, length-take (k - length bytes) body)))
]
  where
    below_of : ltb k (length bytes) ≡ true → k < length bytes
    below_of p = ground arith

cut_at-whole :
    (info content id : Bytes)
    → extract_recipient_id info ≡ some id
    → cut_at (length info) (info ++ content)
      ≡ ok (record { message_info = info; encrypted_content = content; recipient_id = id })
cut_at-whole info content id e =
    let fits : ltb (length (info ++ content)) (length info) ≡ false =
      ground (arith, length-append info content) in
    rw (fits, take-append info content, drop-append info content, e) refl

whole_sequence :
    (body : Bytes) (d : Der (length body) (encode_length (length body))) (content id : Bytes)
    → extract_recipient_id (sequence_of body) ≡ some id
    → parse_after_marker (sequence_of body ++ content)
      ≡ ok (record {
        message_info = sequence_of body;
        encrypted_content = content;
        recipient_id = id;
      })
unfolding parse_after_marker sequence_of
whole_sequence body d content id e =
    let enc : Bytes = encode_length (length body) in
    let m : message_info_length (sequence_of body ++ content) ≡ ok (length body, header_size d) =
      ap (λ (x : Bytes). message_info_length (0x30 ∷ x)) (append_assoc enc body content)
      ∙ Der-read d (body ++ content) in
    let total : header_size d + length body ≡ length (sequence_of body) =
      omega (arith, Der-length d, length-append {0} {A = ℕ} enc body) in
    rw m (
      ap (λ (t : ℕ). cut_at t (sequence_of body ++ content)) total
      ∙ cut_at-whole (sequence_of body) content id e)

-- A container that was put together is read as its parts: behind any header without the first byte of the
-- marker, a sequence of fewer than 65536 bytes that names its recipient, and any content.
pub parse_virgil_container-seal :
    (header body content id : Bytes)
    → IsPlain header
    → length body < 65536
    → extract_recipient_id (sequence_of body) ≡ some id
    → parse_virgil_container (header ++ (marker ++ (sequence_of body ++ content)))
      ≡ ok (record {
        message_info = sequence_of body;
        encrypted_content = content;
        recipient_id = id;
      })
parse_virgil_container-seal header body content id p h e =
    parse-header header (sequence_of body ++ content) p
    ∙ whole_sequence body (encode_length-Der (length body) h) content id e

-- A container that ends inside its message info is a panic, not an error: wherever it was cut, behind
-- the first byte of the sequence.
pub truncated-panics :
    (header body : Bytes) (n : ℕ)
    → IsPlain header
    → length body < 65536
    → 1 ≤ n
    → n < length (sequence_of body)
    → parse_virgil_container (header ++ (marker ++ take n (sequence_of body))) ≡ panic
unfolding sequence_of
truncated-panics header body zero p h pos cut = absurd (omega arith)
truncated-panics header body (suc k) p h pos cut =
    parse-header header (0x30 ∷ take k (encode_length (length body) ++ body)) p
    ∙ cut_sequence (encode_length-Der (length body) h) body k refl
        (omega (arith, length-append {0} {A = ℕ} (encode_length (length body)) body))
