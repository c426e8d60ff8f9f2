-- ===== src/Virgil/Decrypt.antt =====
-- crates/mkey-sdk-virgil/src/lib.rs: the decryption of a mobile key.
pub mod Balance
pub mod Released
pub mod Serving
pub mod Calls
pub mod Opening
pub mod Starting
pub mod RoundTrip
use mkey_rs.Virgil.Runtime.{
  Run, data_view, fail, ignoring, new_buffer, pure, status_error, take_buffer, wasm_call,
  with_runtime, ◌>>=◌, ◌>>◌,
}
use mkey_rs.Virgil.Library.{Export, Library, len_i32, signed_clamp}
use mkey_rs.Virgil.Container.{VirgilContainer, parse_virgil_container}
use mkey_rs.Virgil.Keys.{import_private_key}
use mkey_rs.Virgil.Wrapping.{Base64, Rsa, decrypt_virgil_private_key}
use mkey_rs.Data.MobileKey.{MobileKey, Tlv, from_bytes}
use mkey_rs.Virgil.Attempt.{Attempt, VirgilError, and_then, err, key, ok, panic, wasm}
use mkey_rs.Error.{Message, msg}
use mkey_rs.Result.{Result}
use mkey_rs.Prelude.{Bytes, List, [], if◌then◌else◌, ℕ, ◌++◌, ◌==◌, ◌∷◌}

abbrev pub nothing_decrypted : VirgilError
nothing_decrypted = VirgilError.wasm (msg "Decryption produced no output")

-- `Ok(MobileKey::from_bytes(&decrypted)?)`.
abbrev pub with_key_error : {A : Type 0} → Result A → Attempt A
with_key_error (Result.ok a) = ok a
with_key_error (Result.err e) = err (VirgilError.key e)
with_key_error Result.panic = panic

module _ {S : Type 0} where
  -- `let _ = wasm_call!(…)` for each of the objects, and the error.
  abbrev pub give_up : Message → ℕ → List (Export S (Unit {0})) → Run S Bytes
  give_up op status [] = fail (status_error op status)
  give_up op status (d ∷ ds) = do ignoring d; give_up op status ds

  abbrev pub or_give_up : Message → ℕ → List (Export S (Unit {0})) → Run S Bytes → Run S Bytes
  or_give_up op status deletes rest = if status == 0 then rest else give_up op status deletes

  abbrev pub non_empty : Bytes → Run S Bytes
  non_empty [] = fail nothing_decrypted
  non_empty (b ∷ bytes) = pure (b ∷ bytes)

module _ {S : Type 0} (lib : Library S) where
  -- The end of step 6: the two outputs are taken, and the cipher is deleted.
  unfoldable pub collect_output : ℕ → ℕ → ℕ → Run S Bytes
  unfolding take_buffer
  collect_output cipher process_buffer finish_buffer = do
    processed ← take_buffer lib process_buffer
    finished ← take_buffer lib finish_buffer
    ignoring (lib.recipient_cipher_delete cipher)
    non_empty (processed ++ finished)

  -- Step 6.
  unfoldable pub finish_decryption : ℕ → ℕ → Run S Bytes
  unfolding new_buffer collect_output
  finish_decryption cipher process_buffer = do
    out_len ←
        wasm_call "recipient_cipher_decryption_out_len"
          (lib.recipient_cipher_decryption_out_len cipher 0)
    finish_buffer ← new_buffer lib (signed_clamp out_len 64 10000)
    status ←
        wasm_call "recipient_cipher_finish_decryption"
          (lib.recipient_cipher_finish_decryption cipher finish_buffer)
    or_give_up (msg "finish_decryption") status
        (lib.buffer_delete finish_buffer
          ∷ lib.buffer_delete process_buffer
          ∷ lib.recipient_cipher_delete cipher
          ∷ [])
        (collect_output cipher process_buffer finish_buffer)

  -- Step 5.
  unfoldable pub process_decryption : ℕ → Bytes → Run S Bytes
  unfolding data_view new_buffer finish_decryption
  process_decryption cipher encrypted_content = do
    content ← data_view lib encrypted_content
    out_len ←
        wasm_call "recipient_cipher_decryption_out_len"
          (lib.recipient_cipher_decryption_out_len cipher (len_i32 encrypted_content))
    process_buffer ← new_buffer lib (signed_clamp out_len 64 10000)
    status ←
        wasm_call "recipient_cipher_process_decryption"
          (lib.recipient_cipher_process_decryption cipher content process_buffer)
    or_give_up (msg "process_decryption") status
        (lib.buffer_delete process_buffer ∷ lib.recipient_cipher_delete cipher ∷ [])
        (finish_decryption cipher process_buffer)

  -- Step 4, and the steps behind it.
  unfoldable pub decrypt_content : VirgilContainer → ℕ → Run S Bytes
  unfolding data_view process_decryption
  decrypt_content c private_key = do
    cipher ← wasm_call "recipient_cipher_new" lib.recipient_cipher_new
    λ rt. wasm_call "recipient_cipher_use_random" (lib.recipient_cipher_use_random cipher rt.rng) rt
    recipient_id ← data_view lib c.recipient_id
    message_info ← data_view lib c.message_info
    status ← wasm_call "recipient_cipher_start_decryption_with_key" (
        lib.recipient_cipher_start_decryption_with_key cipher recipient_id private_key message_info)
    or_give_up (msg "start_decryption_with_key") status (lib.recipient_cipher_delete cipher ∷ [])
        (process_decryption cipher c.encrypted_content)

  -- Step 3, and the steps behind it.
  unfoldable pub decrypt_container : VirgilContainer → Bytes → Run S Bytes
  unfolding import_private_key decrypt_content
  decrypt_container c private_key_der = do
    private_key ← import_private_key lib private_key_der
    decrypt_content c private_key

  module _ {K P : Type 0} (rsa : Rsa K P) (base64 : Base64) (parse_all : Bytes → List Tlv) where
    unfoldable pub decrypt_mobile_key : Bytes → Bytes → Bytes → Attempt MobileKey
    unfolding decrypt_container with_runtime
    decrypt_mobile_key rsa_private_key_der encrypted_virgil_key encrypted_mkey_data =
        and_then (parse_virgil_container encrypted_mkey_data) λ c.
          and_then (decrypt_virgil_private_key rsa base64 rsa_private_key_der encrypted_virgil_key)
            λ private_key_der.
              and_then (with_runtime lib (decrypt_container c private_key_der))
                λ decrypted. with_key_error (from_bytes parse_all decrypted)
