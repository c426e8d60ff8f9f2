-- ===== src/Crypto/Aes.antt =====
-- crates/mkey-core/src/crypto/aes.rs, over the `aes` and `cbc` crates.
use mkey_rs.Prelude.{Bytes, Option, length, none, refl, some, ◌%◌, ◌≡◌}
use mkey_rs.Error.{Error}
use mkey_rs.Result.{Result, ok, ok_or, panic}

-- What the code calls of the crates, on a key, an IV and a buffer: `encrypt_padded_mut::<NoPadding>`
-- and `decrypt_padded_mut::<NoPadding>`. `none` is their error.
pub record Cbc : Type 0 where
  pub encrypt_padded : Bytes → Bytes → Bytes → Option Bytes
  pub decrypt_padded : Bytes → Bytes → Bytes → Option Bytes

abbrev pub IsBlocks : Bytes → Type 0
IsBlocks xs = length xs % 16 ≡ 0

-- What the crates document: whole blocks are accepted and keep their length, and decryption is the
-- inverse of encryption under the same key and IV.
pub record IsCbc (c : Cbc) : Type 0 where
  pub encrypts :
      (key iv plain : Bytes)
      → IsBlocks plain
      → (ct : Bytes) × (c.encrypt_padded key iv plain ≡ some ct) × (length ct ≡ length plain)
  pub decrypts :
      (key iv ct : Bytes)
      → IsBlocks ct
      → (plain : Bytes) × (c.decrypt_padded key iv ct ≡ some plain) × (length plain ≡ length ct)
  pub decrypt-encrypt :
      (key iv plain ct : Bytes)
      → c.encrypt_padded key iv plain ≡ some ct
      → c.decrypt_padded key iv ct ≡ some plain

-- `.expect("Encryption failed: …")`.
abbrev or_panic {ℓ} : {A : Type ℓ} → Option A → Result A
or_panic none = panic
or_panic (some a) = ok a

module _ (c : Cbc) where
  unfoldable pub encrypt_aes_cbc : Bytes → Bytes → Bytes → Result Bytes
  encrypt_aes_cbc key iv plaintext = or_panic (c.encrypt_padded key iv plaintext)

  unfoldable pub decrypt_aes_cbc : Bytes → Bytes → Bytes → Result Bytes
  decrypt_aes_cbc key iv ciphertext =
      ok_or (c.decrypt_padded key iv ciphertext) Error.decryption_failed

module _ (c : Cbc) (lawful : IsCbc c) where
  -- Whole blocks never make the encryption panic, and what it returns decrypts to them.
  pub decrypt_aes_cbc-encrypt_aes_cbc :
      (key iv plain : Bytes)
      → IsBlocks plain
      → (ct : Bytes) × (encrypt_aes_cbc c key iv plain ≡ ok ct)
        × (length ct ≡ length plain)
        × (decrypt_aes_cbc c key iv ct ≡ ok plain)
  unfolding encrypt_aes_cbc decrypt_aes_cbc
  decrypt_aes_cbc-encrypt_aes_cbc key iv plain h =
      let (ct, e, l) = lawful.encrypts key iv plain h in
      (ct, rw e refl, l, rw (lawful.decrypt-encrypt key iv plain ct e) refl)
