-- ===== src/Virgil/Keys.antt =====
-- crates/mkey-sdk-virgil/src/lib.rs: the keys of the library.
use mkey_rs.Virgil.Runtime.{
  Run, VirgilRuntime, data_view, error_status, fail, ignoring, new_buffer, null_check, pure,
  reset_error, status_error, take_buffer, wasm_call, with_runtime, ◌>>=◌, ◌>>◌,
}
use mkey_rs.Virgil.Library.{Export, Library, signed_max}
use mkey_rs.Virgil.Attempt.{Attempt, VirgilError}
use mkey_rs.Error.{Message, msg, num, text}
use mkey_rs.Prelude.{Bytes, String, [], if◌then◌else◌, not, ℕ, ◌==◌, ◌||◌, ◌∷◌}

abbrev pub alg_id_secp256r1 : ℕ
alg_id_secp256r1 = 10

abbrev pub export_buffer_capacity : ℕ
export_buffer_capacity = 512

pub record VirgilKeyPair : Type 0 where
  pub private_key_der : Bytes
  pub public_key_der : Bytes

module _ {S : Type 0} (lib : Library S) where
  -- A key that is null, or a status that is not success.
  abbrev key_check : Message → ℕ → ℕ → Run S ℕ
  key_check op k status =
      if k == 0 || not (status == 0) then fail (status_error op status) else pure k

  -- What the three makers of keys share: the error context is reset before the call and read after it.
  abbrev checked : Message → String → (VirgilRuntime S → Export S ℕ) → Run S ℕ
  checked op what call = do
    reset_error lib
    k ← λ rt. wasm_call what (call rt) rt
    status ← error_status lib
    key_check op k status

  unfoldable pub generate_private_key : ℕ → Run S ℕ
  unfolding reset_error error_status
  generate_private_key alg_id =
      checked (text "generate_private_key(alg_id=" ∷ num alg_id ∷ text ")" ∷ [])
        "key_provider_generate_private_key"
        λ rt. lib.key_provider_generate_private_key rt.key_provider alg_id rt.error_ctx

  unfoldable pub import_private_key : Bytes → Run S ℕ
  unfolding data_view reset_error error_status
  import_private_key der = do
    view ← data_view lib der
    checked (msg "import_private_key") "key_provider_import_private_key"
        λ rt. lib.key_provider_import_private_key rt.key_provider view rt.error_ctx

  unfoldable pub import_public_key : Bytes → Run S ℕ
  unfolding data_view reset_error error_status
  import_public_key der = do
    view ← data_view lib der
    checked (msg "import_public_key") "key_provider_import_public_key"
        λ rt. lib.key_provider_import_public_key rt.key_provider view rt.error_ctx

  -- The end of an export: the buffer is taken, or deleted where the export failed.
  abbrev exported : Message → ℕ → ℕ → Run S Bytes
  exported op buffer status =
      if status == 0
      then take_buffer lib buffer
      else (do ignoring (lib.buffer_delete buffer); fail (status_error op status))

  unfoldable pub export_private_key : ℕ → Run S Bytes
  unfolding new_buffer take_buffer
  export_private_key k = do
    len ← λ rt.
        wasm_call "key_provider_exported_private_key_len"
          (lib.key_provider_exported_private_key_len rt.key_provider k) rt
    buffer ← new_buffer lib (signed_max len export_buffer_capacity)
    status ← λ rt.
        wasm_call "key_provider_export_private_key"
          (lib.key_provider_export_private_key rt.key_provider k buffer) rt
    exported (msg "export_private_key") buffer status

  unfoldable pub export_public_key : ℕ → Run S Bytes
  unfolding new_buffer take_buffer
  export_public_key k = do
    buffer ← new_buffer lib export_buffer_capacity
    status ← λ rt.
        wasm_call "key_provider_export_public_key"
          (lib.key_provider_export_public_key rt.key_provider k buffer) rt
    exported (msg "export_public_key") buffer status

  unfoldable pub extract_public_key : ℕ → Run S ℕ
  extract_public_key k = do
    public ←
        wasm_call "ecc_private_key_extract_public_key" (lib.ecc_private_key_extract_public_key k)
    null_check (VirgilError.wasm (msg "ecc_private_key_extract_public_key returned null")) public

  unfoldable pub generate_virgil_key_pair : Attempt VirgilKeyPair
  unfolding with_runtime generate_private_key export_private_key extract_public_key
      export_public_key
  generate_virgil_key_pair = with_runtime lib (do
    private ← generate_private_key alg_id_secp256r1
    private_der ← export_private_key private
    public ← extract_public_key private
    public_der ← export_public_key public
    pure (record { private_key_der = private_der; public_key_der = public_der }))

  unfoldable pub derive_virgil_public_key : Bytes → Attempt Bytes
  unfolding with_runtime import_private_key extract_public_key export_public_key
  derive_virgil_public_key der = with_runtime lib (do
    private ← import_private_key der
    public ← extract_public_key private
    export_public_key public)

  unfoldable pub roundtrip_virgil_public_key : Bytes → Attempt Bytes
  unfolding with_runtime import_public_key export_public_key
  roundtrip_virgil_public_key der =
      with_runtime lib (do public ← import_public_key der; export_public_key public)
