-- ===== src/Virgil/Library.antt =====
-- crates/mkey-sdk-virgil/src/lib.rs: the exports of the foundation library that the crate calls, as an
-- interface on the state of its instance. An `i32` is the number of its 32 bits.
use mkey_rs.Error.{Message, code}
use mkey_rs.Prelude.{
  Bool, Bytes, List, String, [], if◌then◌else◌, leb, length, ltb, ℕ, ◌%◌, ◌+◌, ◌-◌, ◌==◌, ◌^◌, ◌||◌,
  ◌∷◌,
}

-- What a call into the module comes to: it returns, or it traps with a text.
pub data Called (A : Type 0) : Type 0 where
  returns : A → Called A
  traps : Message → Called A

abbrev pub Export : Type 0 → Type 0 → Type 0
Export S A = S → Called A × S

-- `Funcs`, with the memory of the instance.
pub record Library (S : Type 0) : Type 0 where
  pub instantiate : Called S
  pub memory_write : ℕ → Bytes → S → Called (Unit {0}) × S
  pub memory_read : ℕ → ℕ → S → Called Bytes
  pub malloc : ℕ → Export S ℕ
  pub buffer_new_with_capacity : ℕ → Export S ℕ
  pub buffer_delete : ℕ → Export S (Unit {0})
  pub buffer_bytes : ℕ → Export S ℕ
  pub buffer_len : ℕ → Export S ℕ
  pub data_ctx_size : Export S ℕ
  pub data_init : ℕ → ℕ → ℕ → Export S (Unit {0})
  pub error_ctx_size : Export S ℕ
  pub error_reset : ℕ → Export S (Unit {0})
  pub error_status : ℕ → Export S ℕ
  pub ctr_drbg_new : Export S ℕ
  pub ctr_drbg_delete : ℕ → Export S (Unit {0})
  pub ctr_drbg_setup_defaults : ℕ → Export S ℕ
  pub key_provider_new : Export S ℕ
  pub key_provider_delete : ℕ → Export S (Unit {0})
  pub key_provider_setup_defaults : ℕ → Export S ℕ
  pub key_provider_use_random : ℕ → ℕ → Export S (Unit {0})
  pub key_provider_generate_private_key : ℕ → ℕ → ℕ → Export S ℕ
  pub key_provider_import_private_key : ℕ → ℕ → ℕ → Export S ℕ
  pub key_provider_import_public_key : ℕ → ℕ → ℕ → Export S ℕ
  pub key_provider_export_public_key : ℕ → ℕ → ℕ → Export S ℕ
  pub key_provider_exported_private_key_len : ℕ → ℕ → Export S ℕ
  pub key_provider_export_private_key : ℕ → ℕ → ℕ → Export S ℕ
  pub ecc_private_key_extract_public_key : ℕ → Export S ℕ
  pub recipient_cipher_new : Export S ℕ
  pub recipient_cipher_delete : ℕ → Export S (Unit {0})
  pub recipient_cipher_use_random : ℕ → ℕ → Export S (Unit {0})
  pub recipient_cipher_start_decryption_with_key : ℕ → ℕ → ℕ → ℕ → Export S ℕ
  pub recipient_cipher_decryption_out_len : ℕ → ℕ → Export S ℕ
  pub recipient_cipher_process_decryption : ℕ → ℕ → ℕ → Export S ℕ
  pub recipient_cipher_finish_decryption : ℕ → ℕ → Export S ℕ

-- An `i32`: the bits of a negative number, and whether a number is one.
abbrev pub minus : ℕ → ℕ
minus n = 2 ^ 32 - n

abbrev pub is_negative : ℕ → Bool
is_negative n = leb (2 ^ 31) n

-- `n.max(m)` for an `m` that is not negative.
abbrev pub signed_max : ℕ → ℕ → ℕ
signed_max n m = if is_negative n || ltb n m then m else n

-- `n.clamp(lo, hi)` for bounds that are not negative.
abbrev pub signed_clamp : ℕ → ℕ → ℕ → ℕ
signed_clamp n lo hi = if is_negative n || ltb n lo then lo else if ltb hi n then hi else n

-- `n as usize`, on 64 bits.
abbrev pub as_usize : ℕ → ℕ
as_usize n = if is_negative n then 2 ^ 64 - 2 ^ 32 + n else n

-- `len() as i32`.
abbrev pub len_i32 : Bytes → ℕ
len_i32 bytes = length bytes % 2 ^ 32

abbrev named_statuses : List (ℕ × String)
named_statuses =
    (0, "SUCCESS")
    ∷ (minus 1, "ERROR_BAD_ARGUMENTS")
    ∷ (minus 2, "ERROR_UNINITIALIZED")
    ∷ (minus 3, "ERROR_UNHANDLED_THIRDPARTY_ERROR")
    ∷ (minus 101, "ERROR_SMALL_BUFFER")
    ∷ (minus 200, "ERROR_UNSUPPORTED_ALGORITHM")
    ∷ (minus 201, "ERROR_AUTH_FAILED")
    ∷ (minus 202, "ERROR_OUT_OF_DATA")
    ∷ (minus 203, "ERROR_BAD_ASN1")
    ∷ (minus 207, "ERROR_BAD_PKCS8_PUBLIC_KEY")
    ∷ (minus 208, "ERROR_BAD_PKCS8_PRIVATE_KEY")
    ∷ (minus 209, "ERROR_BAD_ENCRYPTED_DATA")
    ∷ (minus 210, "ERROR_RANDOM_FAILED")
    ∷ (minus 211, "ERROR_KEY_GENERATION_FAILED")
    ∷ (minus 212, "ERROR_ENTROPY_SOURCE_FAILED")
    ∷ (minus 221, "ERROR_BAD_SEC1_PUBLIC_KEY")
    ∷ (minus 222, "ERROR_BAD_SEC1_PRIVATE_KEY")
    ∷ (minus 223, "ERROR_BAD_DER_PUBLIC_KEY")
    ∷ (minus 224, "ERROR_BAD_DER_PRIVATE_KEY")
    ∷ (minus 225, "ERROR_MISMATCH_PUBLIC_KEY_AND_ALGORITHM")
    ∷ (minus 226, "ERROR_MISMATCH_PRIVATE_KEY_AND_ALGORITHM")
    ∷ (minus 236, "ERROR_BAD_ASN1_ALGORITHM")
    ∷ (minus 237, "ERROR_BAD_ASN1_ALGORITHM_ECC")
    ∷ (minus 301, "ERROR_NO_MESSAGE_INFO")
    ∷ (minus 302, "ERROR_BAD_MESSAGE_INFO")
    ∷ (minus 303, "ERROR_KEY_RECIPIENT_IS_NOT_FOUND")
    ∷ (minus 304, "ERROR_KEY_RECIPIENT_PRIVATE_KEY_IS_WRONG")
    ∷ (minus 311, "ERROR_KEY_RECIPIENT_KEK_IS_WRONG")
    ∷ (minus 501, "ERROR_INVALID_PADDING")
    ∷ []

abbrev name_in : List (ℕ × String) → ℕ → String
name_in [] status = "unknown status"
name_in ((code, name) ∷ rest) status = if code == status then name else name_in rest status

unfoldable pub status_name : ℕ → String
status_name status = name_in named_statuses status
