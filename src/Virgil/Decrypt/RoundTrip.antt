-- ===== src/Virgil/Decrypt/RoundTrip.antt =====
-- crates/mkey-sdk-virgil/src/lib.rs: a mobile key that was encoded, sealed and sent with a wrapped private key
-- is decrypted to the key that it was.
use mkey_rs.Virgil.Decrypt.{decrypt_mobile_key}
use mkey_rs.Virgil.Decrypt.Serving.{Fact, IsData, Opens, Scheme, Serves}
use mkey_rs.Virgil.Decrypt.Starting.{decrypt_container-Opens}
use mkey_rs.Virgil.Library.{Library, returns}
use mkey_rs.Virgil.Container.{extract_recipient_id, marker}
use mkey_rs.Virgil.Container.RoundTrip.{IsPlain, parse_virgil_container-seal, sequence_of}
use mkey_rs.Virgil.Wrapping.{
  Base64, Lawful, Rsa, decrypt-encrypt_virgil_private_key, encrypt_virgil_private_key,
  rsa_public_key,
}
use mkey_rs.Virgil.Attempt.{ok}
use mkey_rs.Data.MobileKey.{MobileKey, Tlv, encode_length, encode_tlv, to_bytes, with_system_tags}
use mkey_rs.Data.MobileKey.RoundTrip.{
  Fits, IsBer, IsDistinct, IsWritable, from_bytes-to_bytes, length-encode_length, written,
}
use mkey_rs.Prelude.{
  All, Bytes, List, arith, length, length-append, refl, some, ℕ, ◌++◌, ◌<◌, ◌≡◌, ◌≤◌,
}
use mkey_rs.Virgil.Wrapping.{
  Base64, Lawful, Rsa, decrypt-encrypt_virgil_private_key, encrypt_virgil_private_key,
  rsa_public_key,
}
use mkey_rs.Prelude.{
  All, Bytes, List, arith, length, length-append, refl, some, ℕ, ◌++◌, ◌<◌, ◌≡◌, ◌≤◌,
}

module _ {S K P : Type 0} (lib : Library S) (scheme : Scheme) (knows : S → Fact → Type 0)
    (is_new is_empty : S → ℕ → ℕ → Type 0) (serves : Serves lib scheme knows is_new is_empty)
    (rsa : Rsa K P) (base64 : Base64) (parse_all : Bytes → List Tlv) where
  sequence_of-IsData : (body : Bytes) → length body < 65536 → IsData (sequence_of body)
  unfolding sequence_of
  sequence_of-IsData body h = (
    omega arith,
    omega (
      arith,
      length-append (encode_length (length body)) body,
      length-encode_length (length body),
    ),
  )

  to_bytes-length : (mkey : MobileKey) → 1 ≤ length (to_bytes mkey)
  unfolding to_bytes encode_tlv
  to_bytes-length mkey = omega arith

  -- A mobile key arrives as it was sent, over a library that serves its calls. It was encoded, sealed in a
  -- container behind any header without the first byte of the marker, and the private key of the recipient
  -- was wrapped for the public half of an RSA key. Where the library's scheme has the encoding as what this
  -- private key, with the parts of this container, makes of its content, the client with the RSA key obtains
  -- the mobile key; but for its system tags, which are not written. The library asks for 10000 bytes of room
  -- at most, and what it is handed is not empty. The conditions on the mobile key are those of its encoding:
  -- a kN key of 16 bytes, distinct tags below 31 and values that the length fields can hold.
  pub decrypt_mobile_key-seal :
      Lawful rsa base64
      → IsBer parse_all
      → (draw : ℕ) (public_der private_der der wrapped : Bytes) (k : K)
      → rsa.from_pkcs8_der private_der ≡ returns k
      → rsa_public_key rsa base64 public_der ≡ ok (rsa.to_public_key k)
      → encrypt_virgil_private_key rsa base64 draw public_der der ≡ ok wrapped
      → (header body content id : Bytes) → IsPlain header
      → length body < 65536
      → extract_recipient_id (sequence_of body) ≡ some id
      → IsData der
      → IsData content
      → IsData id
      → (mkey : MobileKey) → length mkey.kn_key ≡ 16
      → Fits mkey.tag_0
      → Fits mkey.tag_1
      → All IsWritable mkey.tags
      → IsDistinct mkey.tags
      → Opens scheme der (sequence_of body) content id (to_bytes mkey)
      → decrypt_mobile_key lib rsa base64 parse_all private_der wrapped
          (header ++ (marker ++ (sequence_of body ++ content)))
        ≡ ok (record mkey { tags = with_system_tags (written mkey.tags) })
  unfolding decrypt_mobile_key
  decrypt_mobile_key-seal laws ber draw public_der private_der der wrapped k own half wraps header
        body content id p h e size_der size size_id mkey kn_16 fits_0 fits_1 w d opens =
      rw
        (
          parse_virgil_container-seal header body content id p h e,
          decrypt-encrypt_virgil_private_key rsa base64 laws draw public_der private_der der wrapped
              k own half wraps,
          decrypt_container-Opens lib scheme knows is_new is_empty serves der (sequence_of body)
              content id (to_bytes mkey) size_der (sequence_of-IsData body h) size size_id opens
              (to_bytes-length mkey),
          from_bytes-to_bytes parse_all ber mkey kn_16 fits_0 fits_1 w d,
        )
        refl
