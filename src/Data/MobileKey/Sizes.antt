-- ===== src/Data/MobileKey/Sizes.antt =====
-- crates/mkey-core/src/data/mobile_key.rs: the size of the kN key, `[u8; 16]` in the source.
use mkey_rs.Data.MobileKey.{
  MobileKey, Parsed, Tlv, Value, constructed, from_bytes, insert_inner, nothing_parsed, primitive,
  read_container, read_primitive, read_tlvs, read_value, tag_number, with_system_tags,
}
use mkey_rs.Result.{Result, and_then, err, ok, ok_or, panic}
use mkey_rs.Error.{Error, msg}
use mkey_rs.Prelude.{
  ==_iff, Bool, Bytes, List, Option, [], arith, false, if◌then◌else◌, length, none, refl, some,
  true, ℕ, ◌==◌, ◌∷◌, ◌≡◌,
}
use mkey_rs.Data.Permissions.{with_flags}

abbrev SizedKn : Option Bytes → Type 0
SizedKn none = Unit
SizedKn (some kn) = length kn ≡ 16

abbrev Sized : Result Parsed → Type 0
Sized (ok s) = SizedKn s.kn_key
Sized (err e) = Unit
Sized panic = Unit

and_then-Sized :
    {A : Type 0} (r : Result A) (f : A → Result Parsed)
    → ((a : A) → Sized (f a))
    → Sized (and_then r f)
and_then-Sized (ok a) f h = h a
and_then-Sized (err e) f h = tt
and_then-Sized panic f h = tt

Sized-then :
    (r : Result Parsed) (f : Parsed → Result Parsed)
    → Sized r
    → ((s : Parsed) → SizedKn s.kn_key → Sized (f s))
    → Sized (and_then r f)
Sized-then (ok s) f p h = h s p
Sized-then (err e) f p h = tt
Sized-then panic f p h = tt

if-Sized :
    (b : Bool) (x y : Result Parsed)
    → (b ≡ true → Sized x)
    → (b ≡ false → Sized y)
    → Sized (if b then x else y)
if-Sized true x y p q = p refl
if-Sized false x y p q = q refl

module _ (parse_all : Bytes → List Tlv) where
  read_container-Sized :
      (bytes : Bytes) (s : Parsed) → SizedKn s.kn_key → Sized (read_container parse_all bytes s)
  unfolding read_container
  read_container-Sized [] s h = h
  read_container-Sized (flags ∷ inner) s h =
      and_then-Sized (insert_inner (with_flags flags) (parse_all inner) s.tags)
        (λ ts. ok (record s { tags = ts })) (λ ts. h)

  read_primitive-Sized :
      (number : ℕ) (bytes : Bytes) (s : Parsed)
      → SizedKn s.kn_key
      → Sized (read_primitive parse_all number bytes s)
  unfolding read_primitive
  read_primitive-Sized number bytes s h =
      if-Sized (number == 0x00) _ _ (λ _. h)
        λ _.
          if-Sized (number == 0x01) _ _ (λ _. h)
            λ _.
              if-Sized (number == 0x02) _ _
                (λ _.
                  if-Sized (length bytes == 16) _ _ (λ e. (==_iff (length bytes) 16).0 e) (λ _. tt))
                λ _. if-Sized (number == 0x03) _ _ (λ _. read_container-Sized bytes s h) (λ _. h)

  read_value-Sized :
      (number : ℕ) (v : Value) (s : Parsed)
      → SizedKn s.kn_key
      → Sized (read_value parse_all number v s)
  read_value-Sized number (primitive bytes) s h = read_primitive-Sized number bytes s h
  read_value-Sized number constructed s h = h

  read_tlvs-Sized :
      (ts : List Tlv) (s : Parsed) → SizedKn s.kn_key → Sized (read_tlvs parse_all ts s)
  unfolding read_tlvs
  read_tlvs-Sized [] s h = h
  read_tlvs-Sized (t ∷ rest) s h = and_then-Sized (tag_number t) _ λ number.
      Sized-then (read_value parse_all number t.value s) (read_tlvs parse_all rest)
        (read_value-Sized number t.value s h) (read_tlvs-Sized rest)

  -- A key that is read has a kN key of 16 bytes.
  pub from_bytes-kn_16 :
      (bytes : Bytes) (key : MobileKey)
      → from_bytes parse_all bytes ≡ ok key
      → length key.kn_key ≡ 16
  unfolding from_bytes
  from_bytes-kn_16 bytes key e =
      built (read_tlvs parse_all (parse_all bytes) nothing_parsed)
        (read_tlvs-Sized (parse_all bytes) nothing_parsed tt) e
    where
      built :
          (r : Result Parsed)
          → Sized r
          → and_then r (λ s.
            and_then (ok_or s.tag_0 (Error.tlv_error (msg "missing tag 0"))) λ tag_0.
              and_then (ok_or s.tag_1 (Error.tlv_error (msg "missing tag 1"))) λ tag_1.
                and_then (ok_or s.kn_key (Error.tlv_error (msg "missing kN key"))) λ kn_key.
                  ok (record {
                    tag_0 = tag_0;
                    tag_1 = tag_1;
                    kn_key = kn_key;
                    tags = with_system_tags s.tags;
                  }))
            ≡ ok key
          → length key.kn_key ≡ 16
      built (ok s) h q = ground arith
      built (err x) h q = cc
      built panic h q = cc
