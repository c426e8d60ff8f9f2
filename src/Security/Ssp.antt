-- ===== src/Security/Ssp.antt =====
-- crates/mkey-core/src/security/ssp.rs: the packet handlers of the `SecureProtocolManager`. A method on
-- `&mut self` is a state transformer, over the cipher crates' interface.
pub mod Channel
pub mod Refusal
pub mod Authentication
pub mod Relation
pub mod Steps
pub mod Invariant
pub mod Preservation
pub mod Handshake
use mkey_rs.Prelude.{
  Bool, Bytes, [], bytes_eq, drop, if◌then◌else◌, leb, length, ltb, not, some, take, ℕ, ◌%◌, ◌++◌,
  ◌-◌, ◌==◌, ◌||◌, ◌∷◌,
}
use mkey_rs.Error.{
  Error, authentication_failed, invalid_crc, invalid_data, invalid_state, msg, num, text,
}
use mkey_rs.Result.{
  Exec, Result, and_then, continue, ensure, err, fail, lift, modify, ok, ok_or, pure, ◌>>=◌, ◌>>◌,
}
use mkey_rs.Crypto.Padding.{apply_padding, remove_padding}
use mkey_rs.Crypto.Crc.{crc16_ssp}
use mkey_rs.Crypto.Rotation.{rotate_right}
use mkey_rs.Crypto.SessionKey.{derive_session_key}
use mkey_rs.Crypto.Aes.{Cbc, decrypt_aes_cbc, encrypt_aes_cbc}
use mkey_rs.Security.Random.{random16}
use mkey_rs.Security.SspTypes.{
  OpCode, Ssp, auth_step1, current_encryption_key, encrypted_control, encrypted_data, error,
  get_version, in_session, is_auth_step1, is_control, is_encrypted, is_in_session, is_ready,
  opcode_byte, opcode_try_from, open_session_step1, open_session_step2, ready, set_key_value,
  unencrypted_control, update_iv_from_ciphertext, wrong_state,
}

-- The checks on the bytes that the cipher gave: padding, length, checksum.
unfoldable pub check_payload : Bytes → Result Bytes
check_payload decrypted = and_then (remove_padding decrypted) (λ unpadded.
    let n = length unpadded - 2 in
    if ltb (length unpadded) 2
    then err (Error.invalid_data (msg "Decrypted data too short for CRC"))
    else if bytes_eq (drop n unpadded) (crc16_ssp (take n unpadded))
    then ok (take n unpadded)
    else err Error.invalid_crc)

-- `self.random.random16()`.
unfoldable pub draw : Exec Ssp Bytes
draw s = let (r, random) = random16 s.random in (r, record s { random = random })

unfoldable pub handle_get_version : Exec Ssp Bytes
handle_get_version s = (
  ok (
      unencrypted_control
      ∷ opcode_byte OpCode.get_version
      ∷ s.version.major
      ∷ s.version.minor
      ∷ []),
  s,
)

unfoldable pub process_data_packet : Bytes → Exec Ssp Bytes
process_data_packet payload s =
    (do ensure (is_in_session s.state) (wrong_state "IN_SESSION" s); pure payload) s

abbrev pub no_random_b : Error
no_random_b = Error.invalid_state (msg "RandomB stored") (msg "RandomB not found")

abbrev pub bad_length : Bytes → Error
bad_length ciphertext = Error.invalid_data (
    text "Invalid ciphertext length: "
    ∷ num (length ciphertext)
    ∷ text " (must be multiple of 16)"
    ∷ [])

module _ (c : Cbc) where
  unfoldable pub encrypt_payload : Bytes → Exec Ssp Bytes
  encrypt_payload bytes s =
      continue
        (
          encrypt_aes_cbc c (current_encryption_key s) s.iv
              (apply_padding (bytes ++ crc16_ssp bytes)),
          s,
        )
        (λ ciphertext. do modify (update_iv_from_ciphertext ciphertext); pure ciphertext)

  unfoldable pub decrypt_payload : Bytes → Exec Ssp Bytes
  unfolding check_payload
  decrypt_payload ciphertext s =
      if ltb (length ciphertext) 16 || not (length ciphertext % 16 == 0)
      then (err (bad_length ciphertext), s)
      else continue (decrypt_aes_cbc c (current_encryption_key s) s.iv ciphertext, s)
          (λ decrypted. do
            modify (update_iv_from_ciphertext ciphertext)
            lift (check_payload decrypted))

  unfoldable pub handle_open_session_step1 : Bytes → Bool → Exec Ssp Bytes
  handle_open_session_step1 payload was_encrypted s =
      (do
        ensure (not was_encrypted)
            (Error.invalid_data (msg "OpenSessionStep1 request should not be encrypted"))
        ensure (is_ready s.state) (wrong_state "READY" s)
        random_b ← draw
        modify (λ t. record t { random_b = some random_b })
        encrypted ← encrypt_payload (opcode_byte OpCode.open_session_step1 ∷ random_b)
        modify (λ t. record t { state = auth_step1 })
        pure (encrypted_control ∷ encrypted))
        s

  -- The part of `handle_open_session_step2` behind its length check.
  unfoldable pub finish_step2 : Bytes → Bytes → Bytes → Exec Ssp Bytes
  finish_step2 stored_random_b random_a random_b_prime =
      if not (bytes_eq random_b_prime (rotate_right stored_random_b))
      then (do modify (λ t. record t { state = ready }); fail Error.authentication_failed)
      else (do
        modify (λ t. record t { random_a = some random_a })
        encrypted ← encrypt_payload (opcode_byte OpCode.open_session_step2 ∷ rotate_right random_a)
        modify (λ t. record t {
          session_key = some (derive_session_key random_a stored_random_b);
          state = in_session;
        })
        pure (encrypted_control ∷ encrypted))

  unfoldable pub handle_open_session_step2 : Bytes → Bool → Exec Ssp Bytes
  unfolding finish_step2
  handle_open_session_step2 payload was_encrypted s =
      (do
        ensure was_encrypted (Error.invalid_data (msg "OpenSessionStep2 request must be encrypted"))
        ensure (is_auth_step1 s.state) (wrong_state "AUTH_STEP_1" s)
        ensure (leb 32 (length payload)) (
            Error.invalid_data (
              text "OpenSessionStep2 payload too short: expected 32 bytes, got "
              ∷ num (length payload)
              ∷ []))
        stored_random_b ← lift (ok_or s.random_b no_random_b)
        finish_step2 stored_random_b (take 16 payload) (take 16 (drop 16 payload)))
        s

  unfoldable pub handle_set_key_value : Bytes → Exec Ssp Bytes
  handle_set_key_value payload s =
      (do
        ensure (is_in_session s.state) (wrong_state "IN_SESSION" s)
        ensure (leb 17 (length payload)) (
            Error.invalid_data (
              text "SetKeyValue payload too short: expected 17 bytes, got "
              ∷ num (length payload)
              ∷ []))
        modify (λ t. record t { session_key = some (take 16 (drop 1 payload)) })
        encrypted ← encrypt_payload (opcode_byte OpCode.set_key_value ∷ [])
        pure (encrypted_control ∷ encrypted))
        s

  unfoldable pub dispatch_opcode : OpCode → Bytes → Bool → Exec Ssp Bytes
  dispatch_opcode OpCode.error payload was_encrypted =
      fail (Error.invalid_data (msg "Received SSPError control packet"))
  dispatch_opcode OpCode.open_session_step1 payload was_encrypted =
      handle_open_session_step1 payload was_encrypted
  dispatch_opcode OpCode.open_session_step2 payload was_encrypted =
      handle_open_session_step2 payload was_encrypted
  dispatch_opcode OpCode.set_key_value payload was_encrypted = handle_set_key_value payload
  dispatch_opcode OpCode.get_version payload was_encrypted = handle_get_version

  unfoldable pub process_control_packet : Bytes → Bool → Exec Ssp Bytes
  unfolding dispatch_opcode
  process_control_packet [] was_encrypted = fail (Error.invalid_data (msg "Empty control packet"))
  process_control_packet (b ∷ payload) was_encrypted = do
    opcode ← lift (opcode_try_from b)
    dispatch_opcode opcode payload was_encrypted

  -- What becomes of the payload at the end of `process_packet`.
  unfoldable pub route_payload : ℕ → Bytes → Exec Ssp Bytes
  route_payload control_byte payload =
      if is_control control_byte
      then process_control_packet payload (is_encrypted control_byte)
      else process_data_packet payload

  -- `process_packet` behind its length check.
  unfoldable pub process_payload : ℕ → Bytes → Exec Ssp Bytes
  unfolding route_payload
  process_payload control_byte rest = do
    payload ← (if is_encrypted control_byte then decrypt_payload rest else pure rest)
    route_payload control_byte payload

  unfoldable pub process_packet : Bytes → Exec Ssp Bytes
  unfolding process_payload
  process_packet [] = fail (Error.invalid_data (msg "SSP packet too short"))
  process_packet (control_byte ∷ []) = fail (Error.invalid_data (msg "SSP packet too short"))
  process_packet (control_byte ∷ (b ∷ bs)) = process_payload control_byte (b ∷ bs)

  unfoldable pub wrap_data : Bytes → Exec Ssp Bytes
  wrap_data bytes s =
      (do
        ensure (is_in_session s.state) (wrong_state "IN_SESSION" s)
        encrypted ← encrypt_payload bytes
        pure (encrypted_data ∷ encrypted))
        s

  unfoldable pub unwrap_data : Bytes → Exec Ssp Bytes
  unwrap_data [] = fail (Error.invalid_data (msg "Empty packet"))
  unwrap_data (control_byte ∷ rest) = do
    ensure (is_encrypted control_byte) (Error.invalid_data (msg "Expected encrypted packet"))
    decrypt_payload rest
