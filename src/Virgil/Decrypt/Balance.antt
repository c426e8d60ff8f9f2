-- ===== src/Virgil/Decrypt/Balance.antt =====
-- crates/mkey-sdk-virgil/src/lib.rs: that a decryption deletes what it makes.
use mkey_rs.Virgil.Runtime.{
  Run, VirgilRuntime, alloc, at, continue, data_view, error_status, fail, memory_error, new_buffer,
  null_check, pure, read_bytes, read_length, reset_error, returned, status_error, take_buffer,
  trap_error, wasm_call, write_bytes,
}
use mkey_rs.Virgil.Library.{Called, Export, Library, as_usize, len_i32, returns, traps}
use mkey_rs.Virgil.Attempt.{Attempt, VirgilError, err, ok, panic}
use mkey_rs.Error.{msg, text}
use mkey_rs.Prelude.{
  Bool, Bytes, List, String, [], ap, false, if◌then◌else◌, is_text, not, refl, true, ℕ, ◌==◌, ◌||◌,
  ◌∙◌, ◌∷◌, ◌≡◌,
}
use mkey_rs.Virgil.Keys.{import_private_key}

-- The list without the first entry that is the handle.
abbrev pub remove : ℕ → List ℕ → List ℕ
remove h [] = []
remove h (x ∷ xs) = if x == h then xs else x ∷ remove h xs

-- An error that names a status of the library, or that there was no output.
abbrev pub is_reported : VirgilError → Bool
is_reported (VirgilError.wasm (text p ∷ [])) = is_text p "Decryption produced no output"
is_reported (VirgilError.wasm (text p ∷ (text q ∷ rest))) = is_text q " failed: Virgil status "
is_reported _ = false

module _ {S : Type 0} where
  abbrev pub Calm : {A : Type 0} → (S → List ℕ) → Export S A → Type 0
  Calm live f = (s : S) → live (f s).1 ≡ live s

  abbrev pub Makes : (S → List ℕ) → S → Called ℕ × S → Type 0
  Makes live s (returns b, u) = live u ≡ (if b == 0 then live s else b ∷ live s)
  Makes live s (traps e, u) = Unit

  abbrev pub Made : (S → List ℕ) → S → Called ℕ × S → Type 0
  Made live s (returns c, u) = live u ≡ c ∷ live s
  Made live s (traps e, u) = Unit

  -- The buffers and ciphers that are live: a call that makes one adds it, unless it answers null, a delete
  -- removes one, and no other call changes them.
  pub record Accounts (lib : Library S) (live : S → List ℕ) : Type 0 where
    pub new-Makes : (n : ℕ) (s : S) → Makes live s (lib.buffer_new_with_capacity n s)
    pub cipher-Made : (s : S) → Made live s (lib.recipient_cipher_new s)
    pub delete-live : (b : ℕ) (s : S) → live (lib.buffer_delete b s).1 ≡ remove b (live s)
    pub cipher_delete-live :
        (c : ℕ) (s : S) → live (lib.recipient_cipher_delete c s).1 ≡ remove c (live s)
    pub write-Calm : (p : ℕ) (bytes : Bytes) → Calm live (lib.memory_write p bytes)
    pub malloc-Calm : (n : ℕ) → Calm live (lib.malloc n)
    pub bytes-Calm : (b : ℕ) → Calm live (lib.buffer_bytes b)
    pub len-Calm : (b : ℕ) → Calm live (lib.buffer_len b)
    pub init-Calm : (a b c : ℕ) → Calm live (lib.data_init a b c)
    pub reset-Calm : (e : ℕ) → Calm live (lib.error_reset e)
    pub status-Calm : (e : ℕ) → Calm live (lib.error_status e)
    pub import-Calm : (a b c : ℕ) → Calm live (lib.key_provider_import_private_key a b c)
    pub random-Calm : (a b : ℕ) → Calm live (lib.recipient_cipher_use_random a b)
    pub start-Calm :
        (a b c d : ℕ) → Calm live (lib.recipient_cipher_start_decryption_with_key a b c d)
    pub out_len-Calm : (a b : ℕ) → Calm live (lib.recipient_cipher_decryption_out_len a b)
    pub process-Calm : (a b c : ℕ) → Calm live (lib.recipient_cipher_process_decryption a b c)
    pub finish-Calm : (a b : ℕ) → Calm live (lib.recipient_cipher_finish_decryption a b)

module _ {S : Type 0} (live : S → List ℕ) where
  -- From a state with the objects `old`: where it succeeds, what is said of the value and the objects; and
  -- where it fails with a reported error, the objects are `old`.
  abbrev pub Does :
      {A : Type 0} → List ℕ → (A → List ℕ → Type 0) → Attempt A × VirgilRuntime S → Type 0
  Does old Q (ok a, rt) = Q a (live rt.store)
  Does old Q (err e, rt) = is_reported e ≡ true → live rt.store ≡ old
  Does old Q (panic, rt) = ⊥

  pub Does-bind :
      {A B : Type 0} (old : List ℕ) (Q : A → List ℕ → Type 0) (R : B → List ℕ → Type 0)
      (m : Attempt A × VirgilRuntime S) (f : A → Run S B)
      → Does old Q m
      → ((a : A) (rt : VirgilRuntime S) → Q a (live rt.store) → Does old R (f a rt))
      → Does old R (continue m f)
  Does-bind old Q R (ok a, rt) f h g = g a rt h
  Does-bind old Q R (err e, rt) f h g = h
  Does-bind old Q R (panic, rt) f h g = h

  abbrev pub Now : {A : Type 0} → List ℕ → A → List ℕ → Type 0
  Now xs a ys = ys ≡ xs

  pub calling :
      {A : Type 0} (old now : List ℕ) (what : String) (f : Export S A) (rt : VirgilRuntime S)
      → Calm live f
      → live rt.store ≡ now
      → Does old (Now now) (wasm_call what f rt)
  calling {A} old now what f rt calm h = after (f rt.store) (calm rt.store)
    where
      after :
          (x : Called A × S)
          → live x.1 ≡ live rt.store
          → Does old (Now now) (returned (trap_error what) rt x)
      after (returns a, s) e = e ∙ h
      after (traps m, s) e = λ r. cc

  pub checking :
      (old now : List ℕ) (ptr : ℕ) (e : VirgilError) (rt : VirgilRuntime S)
      → is_reported e ≡ false
      → live rt.store ≡ now
      → Does old (Now now) (null_check e ptr rt)
  checking old now ptr e rt quiet h = branch (ptr == 0)
    where
      branch : (b : Bool) → Does old (Now now) ((if b then fail e else pure ptr) rt)
      branch true = λ r. cc
      branch false = h

module _ {S : Type 0} (lib : Library S) (live : S → List ℕ) (accounts : Accounts lib live) where
  open accounts use {
    new-Makes, delete-live, write-Calm, malloc-Calm, bytes-Calm, len-Calm, init-Calm, reset-Calm,
    status-Calm, import-Calm,
  }

  alloc-Does :
      (old now : List ℕ) (size : ℕ) (rt : VirgilRuntime S)
      → live rt.store ≡ now
      → Does live old (Now live now) (alloc lib size rt)
  unfolding alloc
  alloc-Does old now size rt h =
      Does-bind live old (Now live now) (Now live now) _ _
        (calling live old now "malloc" (lib.malloc size) rt (malloc-Calm size) h)
        λ ptr u k. checking live old now ptr _ u refl k

  pub data_view-Does :
      (old now : List ℕ) (bytes : Bytes) (rt : VirgilRuntime S)
      → live rt.store ≡ now
      → Does live old (Now live now) (data_view lib bytes rt)
  unfolding data_view write_bytes
  data_view-Does old now bytes rt h =
      Does-bind live old (Now live now) (Now live now) _ _
        (Does-bind live old (Now live now) (Now live now) _ _
          (alloc-Does old now (len_i32 bytes) rt h)
          λ ptr u k.
            Does-bind live old (Now live now) (Now live now) _ _
              (written ptr (lib.memory_write (as_usize ptr) bytes u.store)
                (write-Calm (as_usize ptr) bytes u.store) u k)
              λ _ v q. q)
        λ ptr u k.
          Does-bind live old (Now live now) (Now live now) _ _
            (alloc-Does old now u.data_ctx_size u k)
            λ ctx v q.
              Does-bind live old (Now live now) (Now live now) _ _
                (calling live old now "data_init" (lib.data_init ctx ptr (len_i32 bytes)) v
                  (init-Calm ctx ptr (len_i32 bytes)) q)
                λ _ w r. r
    where
      written :
          (ptr : ℕ) (x : Called (Unit {0}) × S) {s : S}
          → live x.1 ≡ live s
          → (u : VirgilRuntime S) → live s ≡ now
          → Does live old (Now live now) (returned (memory_error "memory write") u x)
      written ptr (returns a, s) e u k = e ∙ k
      written ptr (traps m, s) e u k = λ r. cc

  -- A new buffer is live, with the objects that were.
  pub new_buffer-Does :
      (old now : List ℕ) (capacity : ℕ) (rt : VirgilRuntime S)
      → live rt.store ≡ now
      → Does live old (λ b xs. xs ≡ b ∷ now) (new_buffer lib capacity rt)
  unfolding new_buffer
  new_buffer-Does old now capacity rt h =
      made (lib.buffer_new_with_capacity capacity rt.store) (new-Makes capacity rt.store)
    where
      null : VirgilError
      null = VirgilError.wasm (msg "vsc_buffer_new returned null")

      checked :
          (b : Bool) (n : ℕ) (s : S)
          → live s ≡ (if b then live rt.store else n ∷ live rt.store)
          → Does live old (λ b xs. xs ≡ b ∷ now) ((if b then fail null else pure n) (at rt s))
      checked true n s e = λ r. cc
      checked false n s e = e ∙ ap (λ (xs : List ℕ). n ∷ xs) h

      made :
          (x : Called ℕ × S)
          → Makes live rt.store x
          → Does live old
              (λ b xs. xs ≡ b ∷ now)
              (continue (returned (trap_error "buffer_new_with_capacity") rt x) (null_check null))
      made (returns n, s) e = checked (n == 0) n s e
      made (traps m, s) e = λ r. cc

  -- A buffer that is taken is deleted.
  pub take_buffer-Does :
      (old now : List ℕ) (buffer : ℕ) (rt : VirgilRuntime S)
      → live rt.store ≡ now
      → Does live old (Now live (remove buffer now)) (take_buffer lib buffer rt)
  unfolding take_buffer read_bytes
  take_buffer-Does old now buffer rt h =
      Does-bind live old (Now live now) (Now live (remove buffer now)) _ _
        (calling live old now "buffer_bytes" (lib.buffer_bytes buffer) rt (bytes-Calm buffer) h)
        λ ptr u k.
          Does-bind live old (Now live now) (Now live (remove buffer now)) _ _
            (calling live old now "buffer_len" (lib.buffer_len buffer) u (len-Calm buffer) k)
            λ len v q.
              Does-bind live old (Now live now) (Now live (remove buffer now)) _ _
                (read (lib.memory_read (as_usize ptr) (read_length lib len) v.store) v q)
                λ out w r. delete-live buffer w.store ∙ ap (remove buffer) r
    where
      read :
          (x : Called Bytes) (v : VirgilRuntime S)
          → live v.store ≡ now
          → Does live old (Now live now) (returned (memory_error "memory read") v (x, v.store))
      read (returns a) v q = q
      read (traps m) v q = λ r. cc

  pub import_private_key-Does :
      (old : List ℕ) (der : Bytes) (rt : VirgilRuntime S)
      → live rt.store ≡ old
      → Does live old (Now live old) (import_private_key lib der rt)
  unfolding import_private_key reset_error error_status
  import_private_key-Does old der rt h =
      Does-bind live old (Now live old) (Now live old) _ _ (data_view-Does old old der rt h)
        λ view u k.
          Does-bind live old (Now live old) (Now live old) _ _
            (calling live old old "error_reset" (lib.error_reset u.error_ctx) u
              (reset-Calm u.error_ctx) k)
            λ _ v q.
              Does-bind live old (Now live old) (Now live old) _ _
                (calling live old old "key_provider_import_private_key"
                  (lib.key_provider_import_private_key v.key_provider view v.error_ctx) v
                  (import-Calm v.key_provider view v.error_ctx) q)
                λ imported w r.
                  Does-bind live old (Now live old) (Now live old) _ _
                    (calling live old old "error_status" (lib.error_status w.error_ctx) w
                      (status-Calm w.error_ctx) r)
                    λ status x y. sound (imported == 0 || not (status == 0)) imported status x y
    where
      sound :
          (b : Bool) (imported status : ℕ) (x : VirgilRuntime S)
          → live x.store ≡ old
          → Does live old (Now live old) (
              (if b then fail (status_error (msg "import_private_key") status) else pure imported)
                x)
      sound true imported status x y = λ _. y
      sound false imported status x y = y
