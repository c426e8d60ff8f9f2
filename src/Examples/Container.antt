-- ===== src/Examples/Container.antt =====
-- A container with one recipient, whole and cut short.
use mkey_rs.Virgil.Container.{
  VirgilContainer, extract_recipient_id, id_prefix, marker, parse_virgil_container,
}
use mkey_rs.Virgil.Container.Split.{Splits, parse_virgil_container-Splits}
use mkey_rs.Virgil.Container.RoundTrip.{
  IsPlain, parse_virgil_container-seal, sequence_of, truncated-panics,
}
use mkey_rs.Virgil.Attempt.{ok, panic}
use mkey_rs.Data.MobileKey.{encode_length}
use mkey_rs.Prelude.{Bytes, [], arith, length, refl, replicate, some, take, ◌++◌, ◌<◌, ◌∷◌, ◌≡◌}

abbrev pub recipient : Bytes
recipient = replicate 32 0xAB

abbrev pub body : Bytes
body = id_prefix ++ recipient

abbrev pub header : Bytes
header = 0x01 ∷ 0x02 ∷ []

abbrev content : Bytes
content = 0xC0 ∷ 0xC1 ∷ []

pub header-IsPlain : IsPlain header
header-IsPlain = (λ e. omega (arith, e), (λ e. omega (arith, e), tt))

abbrev whole : Bytes
whole = header ++ (marker ++ (0x30 ∷ 36 ∷ (body ++ content)))

abbrev parts : VirgilContainer
parts = record {
  message_info = 0x30 ∷ 36 ∷ body;
  encrypted_content = content;
  recipient_id = recipient;
}

parsed : parse_virgil_container whole ≡ ok parts
unfolding parse_virgil_container
parsed = refl

parse_virgil_container-Splits_example : Splits whole parts
parse_virgil_container-Splits_example = parse_virgil_container-Splits whole parts parsed

pub named : extract_recipient_id (sequence_of body) ≡ some recipient
unfolding extract_recipient_id sequence_of encode_length
named = refl

parse_virgil_container-seal_example :
    parse_virgil_container (header ++ (marker ++ (sequence_of body ++ content)))
    ≡ ok (record {
      message_info = sequence_of body;
      encrypted_content = content;
      recipient_id = recipient;
    })
parse_virgil_container-seal_example =
    parse_virgil_container-seal header body content recipient header-IsPlain (omega arith) named

cut_before_end : 20 < length (sequence_of body)
unfolding sequence_of encode_length
cut_before_end = omega arith

truncated-panics_example :
    parse_virgil_container (header ++ (marker ++ take 20 (sequence_of body))) ≡ panic
truncated-panics_example =
    truncated-panics header body 20 header-IsPlain (omega arith) (omega arith) cut_before_end
