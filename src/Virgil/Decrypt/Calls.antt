-- ===== src/Virgil/Decrypt/Calls.antt =====
-- crates/mkey-sdk-virgil/src/lib.rs: the calls of the runtime over a library that serves them.
use mkey_rs.Virgil.Runtime.{
  Run, VirgilRuntime, alloc, at, fail, ignoring, memory_error, continue, data_view, error_status,
  new_buffer, null_check, pure, read_bytes, read_length, reset_error, returned, take_buffer,
  trap_error, wasm_call, write_bytes,
}
use mkey_rs.Virgil.Keys.{import_private_key}
use mkey_rs.Virgil.Library.{Export, Library, as_usize, len_i32}
use mkey_rs.Virgil.Attempt.{Attempt, VirgilError, ok}
use mkey_rs.Virgil.Decrypt.Serving.{
  Fact, Gives, IsData, IsSize, Keeps, Scheme, Serves, block, holds, viewed, stored, provided,
  imported, clean,
}
use mkey_rs.Prelude.{
  Bool, Bytes, String, ap, arith, false, if◌then◌else◌, length, refl, true, ℕ, ◌<◌, ◌==◌, ◌≡◌, ◌≢◌,
  ◌∙◌, ◌^◌,
}

module _ {S : Type 0} (rt : VirgilRuntime S) where
  -- A method that succeeds, and what holds then of its value and the store; the other fields are kept.
  abbrev pub Gets : {A : Type 0} → Attempt A × VirgilRuntime S → (A → S → Type 0) → Type 0
  Gets {A} m Q = (a : A) × (v : S) × (m ≡ (ok a, at rt v)) × Q a v

  pub Gets-bind :
      {A B : Type 0} (Q : A → S → Type 0) (R : B → S → Type 0) (m : Attempt A × VirgilRuntime S)
      (f : A → Run S B)
      → Gets m Q
      → ((a : A) (v : S) → Q a v → Gets (f a (at rt v)) R)
      → Gets (continue m f) R
  Gets-bind Q R m f (a, v, e, q) g =
      let (b, w, e1, r) = g a v q in (b, w, ap (λ x. continue x f) e ∙ e1, r)

  pub Gets-call :
      {A : Type 0} (Q : A → S → Type 0) (what : String) (f : Export S A) (s : S)
      → Gives f s Q
      → Gets (wasm_call what f (at rt s)) Q
  Gets-call Q what f s (a, v, e, q) = (a, v, ap (returned (trap_error what) (at rt s)) e, q)

pub len_of : (bytes : Bytes) → IsData bytes → len_i32 bytes ≡ length bytes
len_of bytes (lo, hi) = ground arith

module _ {S : Type 0} (lib : Library S) (scheme : Scheme) (knows : S → Fact → Type 0)
    (is_new is_empty : S → ℕ → ℕ → Type 0) (serves : Serves lib scheme knows is_new is_empty)
    (rt : VirgilRuntime S) where
  open serves use {
    data_size, data-IsSize, malloc-Gives, write-Gives, init-Gives, new-Gives, bytes-Gives,
    len-Gives, read-Gives, delete-knows, reset-Gives, import-Gives, status-Succeeds, error_size,
  }

  not_null :
      (e : VirgilError) (p : ℕ) (s : S) (Q : ℕ → S → Type 0)
      → (p == 0) ≡ false
      → Q p s
      → Gets rt (null_check e p (at rt s)) Q
  not_null e p s Q h q = (p, s, ap (λ (b : Bool). (if b then fail e else pure p) (at rt s)) h, q)

  pub alloc-Gets :
      (n : ℕ) (s : S)
      → IsSize n
      → Gets rt
          (alloc lib n (at rt s))
          (λ p v. is_new v p n × knows v (block p n) × Keeps knows s v)
  unfolding alloc
  alloc-Gets n s size =
      Gets-bind rt _ _ _ _ (Gets-call rt _ "malloc" (lib.malloc n) s (malloc-Gives n s size))
        λ p v (q, fresh, there, kept). not_null _ p v _ q (fresh, there, kept)

  write_bytes-Gets :
      (bytes : Bytes) (s : S)
      → IsData bytes
      → Gets rt
          (write_bytes lib bytes (at rt s))
          (λ p v. knows v (stored p bytes) × Keeps knows s v)
  unfolding write_bytes
  write_bytes-Gets bytes s size =
      Gets-bind rt _ _ _ _ (alloc-Gets (len_i32 bytes) s (rw (len_of bytes size) size))
        λ p v (fresh, _, kept).
          let (a, w, e, (known, k)) = write-Gives p bytes v (rw (len_of bytes size) at fresh) in
          (
            p,
            w,
            ap (λ x. continue (returned (memory_error "memory write") (at rt v) x) (λ _. pure p)) e,
            (known, λ x h. k x (kept x h)),
          )

  init_of :
      (ctx p : ℕ) (bytes : Bytes) (s : S)
      → IsData bytes
      → is_new s ctx data_size
      → knows s (stored p bytes)
      → Gives
          (lib.data_init ctx p (len_i32 bytes))
          s
          (λ _ v. knows v (viewed ctx bytes) × Keeps knows s v)
  init_of ctx p bytes s size fresh there =
      rw (len_of bytes size) (init-Gives ctx p bytes s fresh there)

  -- A view of bytes that are handed to the library.
  pub data_view-Gets :
      (bytes : Bytes) (s : S)
      → IsData bytes
      → rt.data_ctx_size ≡ data_size
      → Gets rt
          (data_view lib bytes (at rt s))
          (λ ctx v. knows v (viewed ctx bytes) × Keeps knows s v)
  unfolding data_view
  data_view-Gets bytes s size sized =
      Gets-bind rt _ _ _ _ (write_bytes-Gets bytes s size) λ p v (there, kept).
        Gets-bind rt _ _ _ _ (alloc-Gets rt.data_ctx_size v (rw sized data-IsSize))
          λ ctx u (fresh, _, k).
            Gets-bind rt _ _ _ _
              (Gets-call rt _ "data_init" (lib.data_init ctx p (len_i32 bytes)) u
                (init_of ctx p bytes u size (rw sized at fresh) (k (stored p bytes) there)))
              λ _ w (known, j). (ctx, w, refl, (known, λ x h. j x (k x (kept x h))))

  pub new_buffer-Gets :
      (n : ℕ) (s : S)
      → IsSize n
      → Gets rt (new_buffer lib n (at rt s)) (λ b v.
        is_empty v b n
        × Keeps knows s v
        × ((other : ℕ) (bytes : Bytes) → knows s (holds other bytes) → other ≢ b))
  unfolding new_buffer
  new_buffer-Gets n s size =
      Gets-bind rt _ _ _ _
        (Gets-call rt _ "buffer_new_with_capacity" (lib.buffer_new_with_capacity n) s
          (new-Gives n s size))
        λ b v (q, blank, kept, apart). not_null _ b v _ q (blank, kept, apart)

  -- The content of a buffer, which is deleted; another buffer holds what it held.
  pub take_buffer-Gets :
      (b : ℕ) (bytes : Bytes) (s : S)
      → length bytes < 2 ^ 31
      → knows s (holds b bytes)
      → Gets rt (take_buffer lib b (at rt s)) (λ out v.
        (out ≡ bytes)
        × ((other : ℕ) (more : Bytes)
            → other ≢ b
            → knows s (holds other more)
            → knows v (holds other more)))
  unfolding take_buffer read_bytes
  take_buffer-Gets b bytes s short there =
      Gets-bind rt _ _ _ _
        (Gets-call rt _ "buffer_bytes" (lib.buffer_bytes b) s (bytes-Gives b bytes s there))
        λ p v (here, kept).
          Gets-bind rt _ _ _ _
            (Gets-call rt _ "buffer_len" (lib.buffer_len b) v
              (len-Gives b bytes v (kept (holds b bytes) there)))
            λ n u (same, k).
              let whole : read_length lib n ≡ length bytes = ground arith in
              let read =
                ap (λ (m : ℕ). lib.memory_read (as_usize p) m u) whole
                ∙ read-Gives p bytes u (k (stored p bytes) here) in
              (
                bytes,
                (lib.buffer_delete b u).1,
                ap
                    (λ x.
                      continue (returned (memory_error "memory read") (at rt u) (x, u))
                        (λ out w. continue (ignoring (lib.buffer_delete b) w) (λ _. pure out)))
                    read,
                (
                  refl,
                  λ other more apart h.
                      delete-knows b other more u apart
                        (k (holds other more) (kept (holds other more) h)),
                ),
              )

  -- The key that is imported.
  pub import_private_key-Gets :
      (der : Bytes) (s : S)
      → IsData der
      → scheme.is_key der ≡ true
      → rt.data_ctx_size ≡ data_size
      → knows s (block rt.error_ctx error_size)
      → knows s (provided rt.key_provider)
      → Gets rt
          (import_private_key lib der (at rt s))
          (λ k v. knows v (imported k der) × Keeps knows s v)
  unfolding import_private_key reset_error error_status
  import_private_key-Gets der s size good sized errors ready =
      Gets-bind rt _ _ _ _ (data_view-Gets der s size sized) λ view v (seen, k1).
        Gets-bind rt _ _ _ _
          (Gets-call rt _ "error_reset" (lib.error_reset rt.error_ctx) v
            (reset-Gives rt.error_ctx v (k1 (block rt.error_ctx error_size) errors)))
          λ _ u (tidy, k2).
            Gets-bind rt _ _ _ _
              (Gets-call rt _ "key_provider_import_private_key"
                (lib.key_provider_import_private_key rt.key_provider view rt.error_ctx) u
                (import-Gives rt.key_provider view rt.error_ctx der u
                  (k2 (provided rt.key_provider) (k1 (provided rt.key_provider) ready))
                  (k2 (viewed view der) seen) tidy good))
              λ k w (there, known, k3).
                Gets-bind rt _ _ _ _
                  (Gets-call rt _ "error_status" (lib.error_status rt.error_ctx) w
                    (status-Succeeds rt.error_ctx w (k3 (clean rt.error_ctx) tidy)))
                  λ status x (fine, k4). (
                    k,
                    x,
                    rw (there, fine) refl,
                    (k4 (imported k der) known, λ y h. k4 y (k3 y (k2 y (k1 y h)))),
                  )
