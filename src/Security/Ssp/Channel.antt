-- ===== src/Security/Ssp/Channel.antt =====
-- crates/mkey-core/src/security/ssp.rs: what one side encrypts, the other decrypts.
use mkey_rs.Prelude.{
  Bool, Bytes, ap, arith, bytes_eq_refl, drop-append, false, if◌then◌else◌, leb, length,
  length-append, ltb, not, refl, take-append, true, ℕ, ◌%◌, ◌++◌, ◌+◌, ◌-◌, ◌==◌, ◌||◌, ◌≡◌, ◌≤◌,
}
use mkey_rs.Result.{continue, ok, pure}
use mkey_rs.Crypto.Padding.{apply_padding, length-apply_padding, remove_padding-apply_padding}
use mkey_rs.Crypto.Crc.{crc16_ssp}
use mkey_rs.Crypto.Aes.{Cbc, IsCbc, decrypt_aes_cbc-encrypt_aes_cbc}
use mkey_rs.Security.SspTypes.{
  Ssp, current_encryption_key, is_encrypted, last16, update_iv_from_ciphertext,
}
use mkey_rs.Security.Ssp.{
  check_payload, decrypt_payload, encrypt_payload, process_payload, route_payload,
}

length-crc16_ssp : (bytes : Bytes) → length (crc16_ssp bytes) ≡ 2
unfolding crc16_ssp
length-crc16_ssp bytes = refl

check_payload_lem :
    (bytes : Bytes) → check_payload (apply_padding (bytes ++ crc16_ssp bytes)) ≡ ok bytes
unfolding check_payload
check_payload_lem bytes =
    let n : length (bytes ++ crc16_ssp bytes) ≡ length bytes + 2 =
      omega (arith, length-append bytes (crc16_ssp bytes), length-crc16_ssp bytes) in
    let l : length (bytes ++ crc16_ssp bytes) - 2 ≡ length bytes = omega arith in
    let short : ltb (length (bytes ++ crc16_ssp bytes)) 2 ≡ false = ground arith in
    rw (
      remove_padding-apply_padding (bytes ++ crc16_ssp bytes),
      short,
      l,
      take-append bytes (crc16_ssp bytes),
      drop-append bytes (crc16_ssp bytes),
      bytes_eq_refl (crc16_ssp bytes),
    )

module _ (c : Cbc) (lawful : IsCbc c) where
  -- `encrypt_payload` never panics, whatever the data. It moves the IV to the last block that it
  -- wrote, and a peer with the same key and IV reads the data back and moves its IV to the same.
  pub encrypt_payload_lem :
      (bytes : Bytes) (s : Ssp)
      → (ct : Bytes) × (encrypt_payload c bytes s ≡ (ok ct, record s { iv = last16 ct }))
        × (16 ≤ length ct)
        × ((t : Ssp)
            → current_encryption_key t ≡ current_encryption_key s
            → t.iv ≡ s.iv
            → decrypt_payload c ct t ≡ (ok bytes, record t { iv = last16 ct }))
  unfolding encrypt_payload decrypt_payload update_iv_from_ciphertext
  encrypt_payload_lem bytes s =
      let padded = apply_padding (bytes ++ crc16_ssp bytes) in
      let p = length-apply_padding (bytes ++ crc16_ssp bytes) in
      let (ct, e, l, d) =
        decrypt_aes_cbc-encrypt_aes_cbc c lawful (current_encryption_key s) s.iv padded p.0 in
      let long : 16 ≤ length ct = omega arith in
      let whole : leb 16 (length ct) ≡ true = ground arith in
      let blocks : (ltb (length ct) 16 || not (length ct % 16 == 0)) ≡ false = ground arith in
      (
        ct,
        rw (e, whole) refl,
        long,
        λ t key iv. rw (blocks, key, iv, d, whole, check_payload_lem bytes) refl,
      )

  -- `process_packet` in two parts: the decryption, where the control byte asks for it, and the rest.

  -- A payload of any length is encrypted without a panic, and a manager that agrees on the key and on the
  -- IV decrypts it: both then hold the same IV, that of the last block.
  pub decrypt_payload-encrypt_payload :
      (bytes : Bytes) (s t : Ssp)
      → current_encryption_key t ≡ current_encryption_key s
      → t.iv ≡ s.iv
      → (ct : Bytes) × (encrypt_payload c bytes s ≡ (ok ct, record s { iv = last16 ct }))
        × (16 ≤ length ct)
        × (decrypt_payload c ct t ≡ (ok bytes, record t { iv = last16 ct }))
  decrypt_payload-encrypt_payload bytes s t key iv =
      let (ct, e, long, d) = encrypt_payload_lem bytes s in (ct, e, long, d t key iv)

pub process_plain :
    (c : Cbc) (cb : ℕ) (rest : Bytes) (s : Ssp)
    → is_encrypted cb ≡ false
    → process_payload c cb rest s ≡ route_payload c cb rest s
unfolding process_payload
process_plain c cb rest s e = rw e refl

pub process_encrypted :
    (c : Cbc) (cb : ℕ) (rest : Bytes) (s : Ssp)
    → is_encrypted cb ≡ true
    → process_payload c cb rest s ≡ continue (decrypt_payload c rest s) (route_payload c cb)
unfolding process_payload
process_encrypted c cb rest s e =
    ap
      (λ (b : Bool).
        continue ((if b then decrypt_payload c rest else pure rest) s) (route_payload c cb))
      e
