-- ===== src/Virgil/Runtime.antt =====
-- crates/mkey-sdk-virgil/src/lib.rs: `VirgilRuntime`. A method returns the runtime beside its result.
use mkey_rs.Virgil.Library.{
  Called, Export, Library, as_usize, is_negative, len_i32, returns, status_name, traps,
}
use mkey_rs.Virgil.Attempt.{Attempt, VirgilError, err, ok, panic}
use mkey_rs.Error.{Message, msg, num, text}
use mkey_rs.Prelude.{Bytes, String, [], if◌then◌else◌, ℕ, ◌++◌, ◌==◌, ◌∷◌}

pub record VirgilRuntime (S : Type 0) : Type 0 where
  pub store : S
  pub rng : ℕ
  pub key_provider : ℕ
  pub error_ctx : ℕ
  pub data_ctx_size : ℕ

abbrev pub Run : Type 0 → Type 0 → Type 0
Run S A = VirgilRuntime S → Attempt A × VirgilRuntime S

abbrev pub at : {S : Type 0} → VirgilRuntime S → S → VirgilRuntime S
at rt s = record rt { store = s }

module _ {S A : Type 0} where
  abbrev pub pure : A → Run S A
  pure a rt = (ok a, rt)

  abbrev pub fail : VirgilError → Run S A
  fail e rt = (err e, rt)

  abbrev pub field : (VirgilRuntime S → A) → Run S A
  field f rt = (ok (f rt), rt)

module _ {S A B : Type 0} where
  abbrev pub continue : Attempt A × VirgilRuntime S → (A → Run S B) → Attempt B × VirgilRuntime S
  continue (ok a, rt) f = f a rt
  continue (err e, rt) f = (err e, rt)
  continue (panic, rt) f = (panic, rt)

  infixl 10 ◌>>=◌ ◌>>◌
  abbrev pub ◌>>=◌ : Run S A → (A → Run S B) → Run S B
  ◌>>=◌ m f rt = continue (m rt) f

  abbrev pub ◌>>◌ : Run S A → Run S B → Run S B
  ◌>>◌ m n rt = continue (m rt) (λ _. n)

-- `status_error`.
unfoldable pub status_error : Message → ℕ → VirgilError
unfolding status_name
status_error op status = VirgilError.wasm (
    op
    ++ (text " failed: Virgil status "
        ∷ num status
        ∷ text " ("
        ∷ text (status_name status)
        ∷ text ")"
        ∷ []))

abbrev pub trap_error : String → Message → VirgilError
trap_error what e = VirgilError.wasm (text what ∷ text " trapped: " ∷ e)

abbrev pub memory_error : String → Message → VirgilError
memory_error what e = VirgilError.wasm (text what ∷ text " failed: " ∷ e)

module _ {S A : Type 0} where
  abbrev pub returned :
      (Message → VirgilError) → VirgilRuntime S → Called A × S → Attempt A × VirgilRuntime S
  returned wrong rt (returns a, s) = (ok a, at rt s)
  returned wrong rt (traps e, s) = (err (wrong e), at rt s)

  -- The macro `wasm_call!`.
  abbrev pub wasm_call : String → Export S A → Run S A
  wasm_call what f rt = returned (trap_error what) rt (f rt.store)

  -- `let _ = wasm_call!(…)`.
  abbrev pub ignoring : Export S A → Run S (Unit {0})
  ignoring f rt = (ok tt, at rt (f rt.store).1)

module _ {S : Type 0} where
  abbrev pub null_check : VirgilError → ℕ → Run S ℕ
  null_check e ptr = if ptr == 0 then fail e else pure ptr

  abbrev pub status_check : Message → ℕ → Run S (Unit {0})
  status_check op status = if status == 0 then pure tt else fail (status_error op status)

module _ {S : Type 0} (lib : Library S) where
  unfoldable pub alloc : ℕ → Run S ℕ
  alloc size = do
    ptr ← wasm_call "malloc" (lib.malloc size)
    null_check (VirgilError.wasm (text "WASM malloc(" ∷ num size ∷ text ") returned null" ∷ [])) ptr

  abbrev write_at : ℕ → Bytes → Run S (Unit {0})
  write_at ptr bytes rt =
      returned (memory_error "memory write") rt (lib.memory_write (as_usize ptr) bytes rt.store)

  unfoldable pub write_bytes : Bytes → Run S ℕ
  unfolding alloc
  write_bytes bytes = do ptr ← alloc (len_i32 bytes); write_at ptr bytes; pure ptr

  -- `len.max(0) as usize`.
  abbrev pub read_length : ℕ → ℕ
  read_length len = if is_negative len then 0 else len

  unfoldable pub read_bytes : ℕ → ℕ → Run S Bytes
  read_bytes ptr len rt =
      returned (memory_error "memory read") rt
        (lib.memory_read (as_usize ptr) (read_length len) rt.store, rt.store)

  unfoldable pub data_view : Bytes → Run S ℕ
  unfolding write_bytes alloc
  data_view bytes = do
    ptr ← write_bytes bytes
    size ← field (λ (rt : VirgilRuntime S). rt.data_ctx_size)
    ctx ← alloc size
    wasm_call "data_init" (lib.data_init ctx ptr (len_i32 bytes))
    pure ctx

  unfoldable pub new_buffer : ℕ → Run S ℕ
  new_buffer capacity = do
    buffer ← wasm_call "buffer_new_with_capacity" (lib.buffer_new_with_capacity capacity)
    null_check (VirgilError.wasm (msg "vsc_buffer_new returned null")) buffer

  unfoldable pub take_buffer : ℕ → Run S Bytes
  unfolding read_bytes
  take_buffer buffer = do
    ptr ← wasm_call "buffer_bytes" (lib.buffer_bytes buffer)
    len ← wasm_call "buffer_len" (lib.buffer_len buffer)
    out ← read_bytes ptr len
    ignoring (lib.buffer_delete buffer)
    pure out

  unfoldable pub reset_error : Run S (Unit {0})
  reset_error rt = wasm_call "error_reset" (lib.error_reset rt.error_ctx) rt

  unfoldable pub error_status : Run S ℕ
  error_status rt = wasm_call "error_status" (lib.error_status rt.error_ctx) rt

  -- The runtime before its set-up.
  abbrev pub bare : S → VirgilRuntime S
  bare s = record { store = s; rng = 0; key_provider = 0; error_ctx = 0; data_ctx_size = 0 }

  abbrev set_data_ctx_size : ℕ → Run S (Unit {0})
  set_data_ctx_size n rt = (ok tt, record rt { data_ctx_size = n })

  abbrev set_error_ctx : ℕ → Run S (Unit {0})
  set_error_ctx n rt = (ok tt, record rt { error_ctx = n })

  abbrev set_rng : ℕ → Run S (Unit {0})
  set_rng n rt = (ok tt, record rt { rng = n })

  abbrev set_key_provider : ℕ → Run S (Unit {0})
  set_key_provider n rt = (ok tt, record rt { key_provider = n })

  -- The part of `VirgilRuntime::new` behind the struct.
  unfoldable pub set_up : Run S (Unit {0})
  unfolding alloc
  set_up = do
    data_size ← wasm_call "data_ctx_size" lib.data_ctx_size
    set_data_ctx_size data_size
    error_size ← wasm_call "error_ctx_size" lib.error_ctx_size
    error_ctx ← alloc error_size
    set_error_ctx error_ctx
    rng ← wasm_call "ctr_drbg_new" lib.ctr_drbg_new
    set_rng rng
    seeded ← wasm_call "ctr_drbg_setup_defaults" (lib.ctr_drbg_setup_defaults rng)
    status_check (msg "CTR-DRBG setup") seeded
    provider ← wasm_call "key_provider_new" lib.key_provider_new
    set_key_provider provider
    wasm_call "key_provider_use_random" (lib.key_provider_use_random provider rng)
    ready ← wasm_call "key_provider_setup_defaults" (lib.key_provider_setup_defaults provider)
    status_check (msg "Key provider setup") ready

  -- The body of a function that makes a runtime. Its drop calls deletes into a store that goes with it.
  unfoldable pub with_runtime : {A : Type 0} → Run S A → Attempt A
  unfolding set_up
  with_runtime body = elim lib.instantiate [
    | traps e ↦ err (VirgilError.wasm (text "Failed to instantiate WASM: " ∷ e))
    | returns s ↦ ((set_up >>= λ _. body) (bare s)).0
  ]
