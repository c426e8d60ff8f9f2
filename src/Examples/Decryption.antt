-- ===== src/Examples/Decryption.antt =====
-- A mobile key that was sealed for a recipient, and is decrypted over the library with a memory.
use mkey_rs.Virgil.Decrypt.{decrypt_mobile_key}
use mkey_rs.Virgil.Decrypt.RoundTrip.{decrypt_mobile_key-seal}
use mkey_rs.Virgil.Decrypt.Serving.{IsData, Opens}
use mkey_rs.Virgil.Container.{marker}
use mkey_rs.Virgil.Container.RoundTrip.{sequence_of}
use mkey_rs.Virgil.Attempt.{ok}
use mkey_rs.Data.MobileKey.{encode_length, encode_tlv, to_bytes, with_system_tags}
use mkey_rs.Data.MobileKey.RoundTrip.{written}
use mkey_rs.Data.TagMap.{find}
use mkey_rs.Examples.Ber.{parse_all, parse_all-IsBer, shared_key}
use mkey_rs.Examples.Container.{body, header, header-IsPlain, named, recipient}
use mkey_rs.Examples.Heap.{heap, heap-Serves, IsNext, Knows, scheme}
use mkey_rs.Examples.Virgil.{halved, plain-Lawful, plain_rsa, unary, wrapped, wraps}
use mkey_rs.Prelude.{Bytes, [], arith, drop, length, refl, take, ◌++◌, ◌∷◌, ◌≡◌}

abbrev content : Bytes
content = to_bytes shared_key

content-length : length content ≡ 31
unfolding to_bytes encode_tlv encode_length
content-length = refl

content-IsData : IsData content
content-IsData = (omega (arith, content-length), omega (arith, content-length))

opens : Opens scheme (1 ∷ 2 ∷ []) (sequence_of body) content recipient (to_bytes shared_key)
unfolding to_bytes encode_tlv
opens = record {
  is_key = refl;
  secret = 1 ∷ 2 ∷ [];
  accepted = refl;
  first = take 3 content;
  rest = drop 3 content;
  opened = refl;
  whole = refl;
  fits = (omega (arith, content-length), omega arith);
  small = omega (arith, content-length);
}

decrypt_mobile_key-seal_example :
    decrypt_mobile_key heap plain_rsa unary parse_all
      (3 ∷ [])
      wrapped
      (header ++ (marker ++ (sequence_of body ++ content)))
    ≡ ok (record shared_key { tags = with_system_tags (written shared_key.tags) })
decrypt_mobile_key-seal_example =
    decrypt_mobile_key-seal heap scheme Knows IsNext IsNext heap-Serves plain_rsa unary parse_all
      plain-Lawful parse_all-IsBer 5 (3 ∷ []) (3 ∷ []) (1 ∷ 2 ∷ []) wrapped (3 ∷ []) refl halved
      wraps header body content recipient header-IsPlain (omega arith) named
      (omega arith, omega arith) content-IsData (omega arith, omega arith) shared_key refl
      (omega arith) (omega arith)
      (
        (refl, omega arith, omega arith),
        ((refl, omega arith, omega arith), ((refl, omega arith, omega arith), tt)),
      )
      (unfold find in (refl, (refl, (refl, tt)))) opens
