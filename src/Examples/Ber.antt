-- ===== src/Examples/Ber.antt =====
-- A parser of the encoding that the mobile key uses, and a key that is read back.
use mkey_rs.Prelude.{
  Bytes, List, Option, [], ap, ap₂, arith, drop, drop-append, if◌then◌else◌, length, length-append,
  length-drop, ltb, none, refl, some, suc, sym, take, take-append, zero, ℕ, ◌*◌, ◌++◌, ◌+◌, ◌<◌,
  ◌==◌, ◌∙◌, ◌∷◌, ◌≡◌, ◌≤◌,
}
use mkey_rs.Result.{ok}
use mkey_rs.Data.TagMap.{find}
use mkey_rs.Data.MobileKey.{MobileKey, Tlv, from_bytes, primitive, to_bytes, with_system_tags}
use mkey_rs.Data.MobileKey.RoundTrip.{
  IsBer, Len, from_bytes-to_bytes, one, short, three, two, written,
}
use mkey_rs.Examples.Fixtures.{kn, mobile_key}
use mkey_rs.Data.Permissions.{with_flags}

abbrev one_more : Bytes → Option (ℕ × Bytes)
one_more [] = none
one_more (a ∷ bs) = some (a, bs)

abbrev two_more : Bytes → Option (ℕ × Bytes)
two_more (a ∷ (b ∷ bs)) = some (a * 256 + b, bs)
two_more _ = none

abbrev three_more : Bytes → Option (ℕ × Bytes)
three_more (a ∷ (b ∷ (d ∷ bs))) = some (a * 65536 + b * 256 + d, bs)
three_more _ = none

-- The length field, and what stands behind it.
abbrev length_field : Bytes → Option (ℕ × Bytes)
length_field [] = none
length_field (l ∷ bs) =
    if ltb l 128
    then some (l, bs)
    else if l == 0x81
    then one_more bs
    else if l == 0x82
    then two_more bs
    else if l == 0x83
    then three_more bs
    else none

abbrev cut : ℕ → Option (ℕ × Bytes) → (Bytes → List Tlv) → List Tlv
cut t none f = []
cut t (some (n, bs)) f =
    record { tag_bytes = t ∷ []; value = primitive (take n bs) } ∷ f (drop n bs)

abbrev parse : ℕ → Bytes → List Tlv
parse zero bs = []
parse (suc n) [] = []
parse (suc n) (t ∷ bs) = cut t (length_field bs) (parse n)

abbrev pub parse_all : Bytes → List Tlv
parse_all bs = parse (length bs) bs

abbrev Within : ℕ → Option (ℕ × Bytes) → Type 0
Within n none = Unit
Within n (some (m, bs)) = length bs ≤ n

length_field-Within : (bs : Bytes) → Within (length bs) (length_field bs)
length_field-Within bs = ground arith

cut-same :
    (t n : ℕ) (o : Option (ℕ × Bytes)) (f g : Bytes → List Tlv)
    → Within n o
    → ((bs : Bytes) → length bs ≤ n → f bs ≡ g bs)
    → cut t o f ≡ cut t o g
cut-same t n none f g w h = refl
cut-same t n (some (m, bs)) f g w h =
    ap (◌∷◌ (record { tag_bytes = t ∷ []; value = primitive (take m bs) }))
      (h (drop m bs) (omega (arith, length-drop m bs)))

parse-rounds : (n k : ℕ) (bs : Bytes) → length bs ≤ n → length bs ≤ k → parse n bs ≡ parse k bs
parse-rounds zero zero bs p q = refl
parse-rounds zero (suc k) [] p q = refl
parse-rounds (suc n) zero [] p q = refl
parse-rounds (suc n) (suc k) [] p q = refl
parse-rounds zero (suc k) (t ∷ bs) p q = absurd (omega arith)
parse-rounds (suc n) zero (t ∷ bs) p q = absurd (omega arith)
parse-rounds (suc n) (suc k) (t ∷ bs) p q =
    cut-same t (length bs) (length_field bs) (parse n) (parse k) (length_field-Within bs)
      (λ xs le. parse-rounds n k xs (omega arith) (omega arith))

length_field-Len : (n : ℕ) (len xs : Bytes) → Len n len → length_field (len ++ xs) ≡ some (n, xs)
length_field-Len n len xs (short m h) = ground arith
length_field-Len n len xs (one m h i) = refl
length_field-Len n len xs (two m a b h i e j) = ap (λ (x : ℕ). some (x, xs)) (sym e)
length_field-Len n len xs (three m a b d h i j e l) = ap (λ (x : ℕ). some (x, xs)) (sym e)

parse_all-reads :
    (number : ℕ) (len v rest : Bytes)
    → number < 31
    → Len (length v) len
    → parse_all ((0xC0 + number) ∷ (len ++ (v ++ rest)))
      ≡ record { tag_bytes = (0xC0 + number) ∷ []; value = primitive v } ∷ parse_all rest
parse_all-reads number len v rest h l =
    ap (λ o. cut (0xC0 + number) o (parse (length (len ++ (v ++ rest)))))
      (length_field-Len (length v) len (v ++ rest) l)
    ∙ ap₂
        (λ (x y : Bytes).
          record { tag_bytes = (0xC0 + number) ∷ []; value = primitive x }
          ∷ parse (length (len ++ (v ++ rest))) y)
        (take-append v rest) (drop-append v rest)
    ∙ ap (◌∷◌ (record { tag_bytes = (0xC0 + number) ∷ []; value = primitive v })) (
        parse-rounds (length (len ++ (v ++ rest))) (length rest) rest
          (omega (arith, length-append len (v ++ rest), length-append v rest)) (omega arith))

pub parse_all-IsBer : IsBer parse_all
parse_all-IsBer = record { stops = refl; reads = parse_all-reads }

abbrev pub shared_key : MobileKey
shared_key = record (mobile_key kn) {
  tags =
      (0x05, record { tag_id = 0x05; permissions = with_flags 0x3C; value = 9 ∷ [] })
      ∷ (mobile_key kn).tags;
}

from_bytes-to_bytes_example :
    from_bytes parse_all (to_bytes shared_key)
    ≡ ok (record shared_key { tags = with_system_tags (written shared_key.tags) })
from_bytes-to_bytes_example =
    from_bytes-to_bytes parse_all parse_all-IsBer shared_key refl (omega arith) (omega arith)
      (
        (refl, omega arith, omega arith),
        ((refl, omega arith, omega arith), ((refl, omega arith, omega arith), tt)),
      )
      (unfold find in (refl, (refl, (refl, tt))))
