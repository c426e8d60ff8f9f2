-- ===== src/Data/MobileKey/RoundTrip.antt =====
-- crates/mkey-core/src/data/mobile_key.rs: what is encoded is read back.
use mkey_rs.Prelude.{
  All, Bool-cases, Bytes, List, [], ap, append-nil, append_assoc, ap₂, arith, bit_and, bit_or,
  false, if◌then◌else◌, inl, inr, length, length-append, ltb, none, refl, some, sym, ℕ, ◌%◌, ◌*◌,
  ◌++◌, ◌+◌, ◌/◌, ◌<◌, ◌==◌, ◌^◌, ◌∙◌, ◌∷◌, ◌≡◌, ◌≤◌,
}
use mkey_rs.Result.{and_then, ok}
use mkey_rs.Data.MobileKey.{
  MobileKey, Parsed, Tlv, encode_length, encode_tags, encode_tlv, from_bytes, insert_inner,
  is_system, nothing_parsed, primitive, read_container, read_primitive, read_tlvs, tag_number,
  to_bytes, with_system_tags,
}
use mkey_rs.Prelude.Bits.{agree_below, same_below}
use mkey_rs.Data.TagMap.{GeneralPurposeTag, Tags, find, insert}

-- The length field of BER, in the short form or in the long one with up to three bytes.
pub data Len : ℕ → Bytes → Type 0 where
  short : (n : ℕ) → n < 128 → Len n (n ∷ [])
  one : (n : ℕ) → 128 ≤ n → n < 256 → Len n (0x81 ∷ n ∷ [])
  two : (n a b : ℕ) → a < 256 → b < 256 → n ≡ a * 256 + b → 256 ≤ n → Len n (0x82 ∷ a ∷ b ∷ [])
  three :
      (n a b d : ℕ)
      → a < 256
      → b < 256
      → d < 256
      → n ≡ a * 65536 + b * 256 + d
      → 65536 ≤ n
      → Len n (0x83 ∷ a ∷ b ∷ d ∷ [])

-- What the crate documents of `parse_all`, for the tags that the program writes: a private-class primitive
-- tag below 31 takes one byte, its length and as many bytes, and the parsing goes on behind it.
pub record IsBer (parse_all : Bytes → List Tlv) : Type 0 where
  pub stops : parse_all [] ≡ []
  pub reads :
      (number : ℕ) (len value rest : Bytes)
      → number < 31
      → Len (length value) len
      → parse_all ((0xC0 + number) ∷ (len ++ (value ++ rest)))
        ≡ record { tag_bytes = (0xC0 + number) ∷ []; value = primitive value } ∷ parse_all rest

encode_length-Len : (n : ℕ) → n < 2 ^ 24 → Len n (encode_length n)
unfolding encode_length
encode_length-Len n h = elim (Bool-cases (ltb n 128)) [
  | inl e ↦
      let small : n < 128 = ground arith in
      let same : n % 256 ≡ n = omega arith in rw (e, same) (short n small)
  | inr e ↦ elim (Bool-cases (ltb n 256)) [
    | inl p ↦
        let big : 128 ≤ n = ground arith in
        let small : n < 256 = ground arith in
        let same : n % 256 ≡ n = omega arith in rw (e, p, same) (one n big small)
    | inr p ↦ elim (Bool-cases (ltb n 65536)) [
      | inl q ↦
          let big : 256 ≤ n = ground arith in
          let small : n < 65536 = ground arith in
          rw (e, p, q)
            (two n (n / 2 ^ 8 % 256) (n % 256) (omega arith) (omega arith) (omega arith) big)
      | inr q ↦
          let big : 65536 ≤ n = ground arith in
          rw (e, p, q)
            (three n (n / 2 ^ 16 % 256) (n / 2 ^ 8 % 256) (n % 256) (omega arith) (omega arith)
              (omega arith) (omega arith) big)
    ]
  ]
]

tag_byte : (number : ℕ) → number < 32 → bit_or 0xC0 (bit_and number 0x1F) ≡ 0xC0 + number
tag_byte n h =
    agree_below 32 (λ x. bit_or 0xC0 (bit_and x 0x1F)) (λ x. 0xC0 + x) (unfold same_below in refl) n
      h

number_of : (number : ℕ) → number < 32 → bit_and (0xC0 + number) 0x1F ≡ number
number_of n h =
    agree_below 32 (λ x. bit_and (0xC0 + x) 0x1F) (λ x. x) (unfold same_below in refl) n h

abbrev tlv_of : ℕ → Bytes → Tlv
tlv_of number value = record { tag_bytes = (0xC0 + number) ∷ []; value = primitive value }

tag_number-tlv_of :
    (number : ℕ) (v : Bytes) → number < 32 → tag_number (tlv_of number v) ≡ ok number
unfolding tag_number
tag_number-tlv_of n v h = ap ok (number_of n h)

-- A value whose length fits into the length field.
abbrev pub Fits : Bytes → Type 0
Fits v = length v < 2 ^ 24

insert-absent :
    (k : ℕ) (t : GeneralPurposeTag) (ts : Tags)
    → find k ts ≡ none
    → insert k t ts ≡ ts ++ ((k, t) ∷ [])
unfolding find insert
insert-absent k t [] h = refl
insert-absent k t ((j, u) ∷ ts) h = elim (Bool-cases (j == k)) [
  | inl e ↦ absurd (none-some u (rw e at h))
  | inr e ↦ rw e (ap (◌∷◌ (j, u)) (insert-absent k t ts (rw e at h)))
]
  where
    none-some : (u : GeneralPurposeTag) → some u ≡ none → ⊥
    none-some u h = cc

-- None of the keys of the second map is one of the first.
abbrev Absent : Tags → Tags → Type 0
Absent acc [] = Unit
Absent acc ((k, t) ∷ ts) = (find k acc ≡ none) × Absent acc ts

find_snoc :
    (j k : ℕ) (t : GeneralPurposeTag) (acc : Tags)
    → find j acc ≡ none
    → (k == j) ≡ false
    → find j (acc ++ ((k, t) ∷ [])) ≡ none
unfolding find
find_snoc j k t [] h e = rw e refl
find_snoc j k t ((i, u) ∷ acc) h e = elim (Bool-cases (i == j)) [
  | inl p ↦ rw p (rw p at h)
  | inr p ↦ rw p (find_snoc j k t acc (rw p at h) e)
]

Absent-snoc :
    (k : ℕ) (t : GeneralPurposeTag) (acc ts : Tags)
    → Absent acc ts
    → find k ts ≡ none
    → Absent (acc ++ ((k, t) ∷ [])) ts
unfolding find
Absent-snoc k t acc [] h f = tt
Absent-snoc k t acc ((j, u) ∷ ts) h f = elim (Bool-cases (j == k)) [
  | inl e ↦ absurd (none-some u (rw e at f))
  | inr e ↦ (find_snoc j k t acc h.0 (ground arith), Absent-snoc k t acc ts h.1 (rw e at f))
]
  where
    none-some : (u : GeneralPurposeTag) → some u ≡ none → ⊥
    none-some u h = cc

Absent-nil : (ts : Tags) → Absent [] ts
unfolding find
Absent-nil [] = tt
Absent-nil ((k, t) ∷ ts) = (refl, Absent-nil ts)

-- The keys of a map are distinct.
abbrev pub IsDistinct : Tags → Type 0
IsDistinct [] = Unit
IsDistinct ((k, t) ∷ ts) = (find k ts ≡ none) × IsDistinct ts

-- The tags that are written: those that the lock did not add.
abbrev pub written : Tags → Tags
written [] = []
written ((k, t) ∷ ts) = if is_system t.tag_id then written ts else (k, t) ∷ written ts

-- A tag that is written: its number fits into the tag byte, its value into the length fields.
abbrev pub IsWritable : ℕ × GeneralPurposeTag → Type 0
IsWritable (k, t) = (t.tag_id ≡ k) × (k < 31) × (length t.value + 6 < 2 ^ 24)

pub length-encode_length : (n : ℕ) → length (encode_length n) ≤ 4
unfolding encode_length
length-encode_length n = ground arith

module _ (parse_all : Bytes → List Tlv) (ber : IsBer parse_all) where
  parse_all-encode_tlv :
      (number : ℕ) (v rest : Bytes)
      → number < 31
      → Fits v
      → parse_all (encode_tlv number v ++ rest) ≡ tlv_of number v ∷ parse_all rest
  unfolding encode_tlv
  parse_all-encode_tlv number v rest h fits =
      ap parse_all
        (ap₂ ◌∷◌ (tag_byte number (omega arith)) (append_assoc (encode_length (length v)) v rest))
      ∙ ber.reads number (encode_length (length v)) v rest h (encode_length-Len (length v) fits)

  read_tlvs-encode_tlv :
      (number : ℕ) (v rest : Bytes) (s : Parsed)
      → number < 31
      → Fits v
      → read_tlvs parse_all (parse_all (encode_tlv number v ++ rest)) s
        ≡ and_then (read_primitive parse_all number v s) (read_tlvs parse_all (parse_all rest))
  unfolding read_tlvs
  read_tlvs-encode_tlv number v rest s h fits =
      rw (parse_all-encode_tlv number v rest h fits, tag_number-tlv_of number v (omega arith)) refl

  inner_read :
      (t : GeneralPurposeTag) (s : Parsed)
      → t.tag_id < 31
      → Fits t.value
      → read_container parse_all (t.permissions.flags ∷ encode_tlv t.tag_id t.value) s
        ≡ ok (record s { tags = insert t.tag_id t s.tags })
  unfolding read_container insert_inner
  inner_read t s h fits =
      let one : parse_all (encode_tlv t.tag_id t.value) ≡ tlv_of t.tag_id t.value ∷ [] =
        ap parse_all (sym (append-nil (encode_tlv t.tag_id t.value)))
        ∙ parse_all-encode_tlv t.tag_id t.value [] h fits
        ∙ ap (◌∷◌ (tlv_of t.tag_id t.value)) ber.stops in
      rw (one, tag_number-tlv_of t.tag_id t.value (omega arith)) refl

  container_room :
      (t : GeneralPurposeTag)
      → length t.value + 6 < 2 ^ 24
      → Fits t.value × Fits (t.permissions.flags ∷ encode_tlv t.tag_id t.value)
  unfolding encode_tlv
  container_room t w = (
    omega arith,
    omega (
      arith,
      length-append (encode_length (length t.value)) t.value,
      length-encode_length (length t.value),
    ),
  )

  three_small : 3 < 31
  three_small = omega arith

  read_tlvs-encode_tags :
      (ts acc : Tags) (s : Parsed)
      → All IsWritable ts
      → IsDistinct ts
      → Absent acc ts
      → read_tlvs parse_all (parse_all (encode_tags ts)) (record s { tags = acc })
        ≡ ok (record s { tags = acc ++ written ts })
  unfolding encode_tags read_tlvs read_primitive
  read_tlvs-encode_tags [] acc s w d a = rw (ber.stops, append-nil acc) refl
  read_tlvs-encode_tags ((k, t) ∷ ts) acc s w d a = elim (Bool-cases (is_system t.tag_id)) [
    | inl sys ↦ rw sys (read_tlvs-encode_tags ts acc s w.1 d.1 a.1)
    | inr own ↦
        let (same, small, short_enough) = w.0 in
        let (inner, outer) = container_room t short_enough in
        let key_of : ℕ → ℕ × GeneralPurposeTag = λ j. (j, t) in
        let below : t.tag_id < 31 = omega arith in
        let absent : find t.tag_id acc ≡ none = rw same a.0 in
        rw own (
          read_tlvs-encode_tlv 0x03 (t.permissions.flags ∷ encode_tlv t.tag_id t.value)
            (encode_tags ts) (record s { tags = acc }) three_small outer
          ∙ ap (λ r. and_then r (read_tlvs parse_all (parse_all (encode_tags ts))))
              (inner_read t (record s { tags = acc }) below inner)
          ∙ ap (λ x. read_tlvs parse_all (parse_all (encode_tags ts)) (record s { tags = x }))
              (insert-absent t.tag_id t acc absent ∙ ap (λ j. acc ++ (key_of j ∷ [])) same)
          ∙ read_tlvs-encode_tags ts (acc ++ ((k, t) ∷ [])) s w.1 d.1
              (Absent-snoc k t acc ts a.1 d.0)
          ∙ ap (λ x. ok (record s { tags = x })) (append_assoc acc ((k, t) ∷ []) (written ts)))
  ]

  -- A key with a kN key of 16 bytes, distinct tags below 31 and values that the length fields can hold is
  -- read back from its own encoding, but for the system tags: those are not written, and the two audit
  -- tags are empty again.
  pub from_bytes-to_bytes :
      (key : MobileKey)
      → length key.kn_key ≡ 16
      → Fits key.tag_0
      → Fits key.tag_1
      → All IsWritable key.tags
      → IsDistinct key.tags
      → from_bytes parse_all (to_bytes key)
        ≡ ok (record key { tags = with_system_tags (written key.tags) })
  unfolding from_bytes to_bytes read_primitive
  from_bytes-to_bytes key kn_16 fits_0 fits_1 w d =
      let rest = encode_tags key.tags in
      let s1 : Parsed = record nothing_parsed { tag_0 = some key.tag_0 } in
      let s2 : Parsed = record s1 { tag_1 = some key.tag_1 } in
      let s3 : Parsed = record s2 { kn_key = some key.kn_key } in
      let fits_2 : Fits key.kn_key = omega arith in
      let third = read_tlvs-encode_tlv 0x02 key.kn_key rest s2 (omega arith) fits_2 in
      let second =
        read_tlvs-encode_tlv 0x01 key.tag_1 (encode_tlv 0x02 key.kn_key ++ rest) s1 (omega arith)
          fits_1 in
      let first =
        read_tlvs-encode_tlv 0x00 key.tag_0
          (encode_tlv 0x01 key.tag_1 ++ (encode_tlv 0x02 key.kn_key ++ rest)) nothing_parsed
          (omega arith) fits_0 in
      rw
        (
          first,
          second,
          third,
          kn_16,
          read_tlvs-encode_tags key.tags [] s3 w d (Absent-nil key.tags),
        )
        refl
