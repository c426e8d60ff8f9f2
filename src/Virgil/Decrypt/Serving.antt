-- ===== src/Virgil/Decrypt/Serving.antt =====
-- crates/mkey-sdk-virgil/src/lib.rs: what a decryption relies on, of the foundation library.
use mkey_rs.Virgil.Library.{Export, Library, as_usize, returns}
use mkey_rs.Prelude.{
  Bool, Bytes, Option, false, length, some, true, ℕ, ◌++◌, ◌<◌, ◌==◌, ◌≡◌, ◌⊎◌, ◌≢◌, ◌≤◌, ◌^◌,
}

-- What the library is to do with keys and messages: which keys it imports, what a key makes of a message
-- info with the id of a recipient, what this makes of a content, in two pieces, and the room that it asks
-- for.
pub record Scheme : Type 0 where
  pub is_key : Bytes → Bool
  pub accepts : Bytes → Bytes → Bytes → Option Bytes
  pub decipher : Bytes → Bytes → Option (Bytes × Bytes)
  pub room : ℕ → ℕ

-- What is known of the memory and the objects of the library.
pub data Fact : Type 0 where
  block : ℕ → ℕ → Fact
  stored viewed imported started processed holds : ℕ → Bytes → Fact
  source seeded provider drawing_provider provided clean cipher drawing : ℕ → Fact

-- A size that can be asked for, and bytes that can be handed to the library.
abbrev pub IsSize : ℕ → Type 0
IsSize n = (1 ≤ n) × (n < 2 ^ 31)

abbrev pub IsData : Bytes → Type 0
IsData bytes = IsSize (length bytes)

-- What has to hold for a container to be opened: the library imports the key, which makes a secret of the
-- message info, and the secret makes the plaintext of the content, in two pieces, each of which asks for
-- the room that there is, at most.
pub record Opens (scheme : Scheme) (der info content id plain : Bytes) : Type 0 where
  pub is_key : scheme.is_key der ≡ true
  pub secret : Bytes
  pub accepted : scheme.accepts der id info ≡ some secret
  pub first : Bytes
  pub rest : Bytes
  pub opened : scheme.decipher secret content ≡ some (first, rest)
  pub whole : first ++ rest ≡ plain
  pub fits : (scheme.room (length content) ≤ 10000) × (scheme.room 0 ≤ 10000)
  pub small : length plain < 2 ^ 31

module _ {S : Type 0} where
  -- A call that returns, and what holds then.
  abbrev pub Gives : {A : Type 0} → Export S A → S → (A → S → Type 0) → Type 0
  Gives {A} f s Q = (a : A) × (v : S) × (f s ≡ (returns a, v)) × Q a v

  -- A status of success, and what holds then.
  abbrev pub Succeeds : Export S ℕ → S → (S → Type 0) → Type 0
  Succeeds f s Q = Gives f s (λ status v. (status ≡ 0) × Q v)

  abbrev pub Keeps : (S → Fact → Type 0) → S → S → Type 0
  Keeps knows s v = (x : Fact) → knows s x → knows v x

  -- The documented behaviour of the calls. Memory that was just allocated may be written once, and a buffer
  -- that was just made may be filled once; what is known otherwise stays known, but where a cipher goes on
  -- or a buffer is deleted. Memory does not run out.
  pub record Serves (lib : Library S) (scheme : Scheme) (knows : S → Fact → Type 0)
      (is_new is_empty : S → ℕ → ℕ → Type 0) : Type 0 where
    pub begins : (s : S) × (lib.instantiate ≡ returns s)
    pub data_size : ℕ
    pub error_size : ℕ
    pub data-IsSize : IsSize data_size
    pub error-IsSize : IsSize error_size
    pub data_size-Gives :
        (s : S) → Gives lib.data_ctx_size s (λ n v. (n ≡ data_size) × Keeps knows s v)
    pub error_size-Gives :
        (s : S) → Gives lib.error_ctx_size s (λ n v. (n ≡ error_size) × Keeps knows s v)
    pub malloc-Gives :
        (n : ℕ) (s : S)
        → IsSize n
        → Gives
            (lib.malloc n)
            s
            (λ p v. ((p == 0) ≡ false) × is_new v p n × knows v (block p n) × Keeps knows s v)
    pub write-Gives :
        (p : ℕ) (bytes : Bytes) (s : S)
        → is_new s p (length bytes)
        → Gives
            (lib.memory_write (as_usize p) bytes)
            s
            (λ _ v. knows v (stored p bytes) × Keeps knows s v)
    pub init-Gives :
        (ctx p : ℕ) (bytes : Bytes) (s : S)
        → is_new s ctx data_size
        → knows s (stored p bytes)
        → Gives
            (lib.data_init ctx p (length bytes))
            s
            (λ _ v. knows v (viewed ctx bytes) × Keeps knows s v)
    pub source-Gives :
        (s : S) → Gives lib.ctr_drbg_new s (λ r v. knows v (source r) × Keeps knows s v)
    pub seed-Succeeds :
        (r : ℕ) (s : S)
        → knows s (source r)
        → Succeeds (lib.ctr_drbg_setup_defaults r) s (λ v. knows v (seeded r) × Keeps knows s v)
    pub provider-Gives :
        (s : S) → Gives lib.key_provider_new s (λ p v. knows v (provider p) × Keeps knows s v)
    pub provider_random-Gives :
        (p r : ℕ) (s : S)
        → knows s (provider p)
        → knows s (seeded r)
        → Gives
            (lib.key_provider_use_random p r)
            s
            (λ _ v. knows v (drawing_provider p) × Keeps knows s v)
    pub provide-Succeeds :
        (p : ℕ) (s : S)
        → knows s (drawing_provider p)
        → Succeeds
            (lib.key_provider_setup_defaults p)
            s
            (λ v. knows v (provided p) × Keeps knows s v)
    pub reset-Gives :
        (e : ℕ) (s : S)
        → knows s (block e error_size)
        → Gives (lib.error_reset e) s (λ _ v. knows v (clean e) × Keeps knows s v)
    pub import-Gives :
        (p view e : ℕ) (der : Bytes) (s : S)
        → knows s (provided p)
        → knows s (viewed view der)
        → knows s (clean e)
        → scheme.is_key der ≡ true
        → Gives
            (lib.key_provider_import_private_key p view e)
            s
            (λ k v. ((k == 0) ≡ false) × knows v (imported k der) × Keeps knows s v)
    pub status-Succeeds :
        (e : ℕ) (s : S) → knows s (clean e) → Succeeds (lib.error_status e) s (λ v. Keeps knows s v)
    pub cipher-Gives :
        (s : S) → Gives lib.recipient_cipher_new s (λ c v. knows v (cipher c) × Keeps knows s v)
    pub cipher_random-Gives :
        (c r : ℕ) (s : S)
        → knows s (cipher c)
        → knows s (seeded r)
        → Gives
            (lib.recipient_cipher_use_random c r)
            s
            (λ _ v. knows v (drawing c) × Keeps knows s v)
    pub start-Succeeds :
        (c id_view k info_view : ℕ) (id der info secret : Bytes) (s : S)
        → knows s (drawing c)
        → knows s (viewed id_view id)
        → knows s (imported k der)
        → knows s (viewed info_view info)
        → scheme.accepts der id info ≡ some secret
        → Succeeds
            (lib.recipient_cipher_start_decryption_with_key c id_view k info_view)
            s
            (λ v. knows v (started c secret))
    pub room-Gives :
        (c n : ℕ) (bytes : Bytes) (s : S)
        → knows s (started c bytes) ⊎ knows s (processed c bytes)
        → Gives
            (lib.recipient_cipher_decryption_out_len c n)
            s
            (λ m v. (m ≡ scheme.room n) × Keeps knows s v)
    pub new-Gives :
        (n : ℕ) (s : S)
        → IsSize n
        → Gives (lib.buffer_new_with_capacity n) s (λ b v.
          ((b == 0) ≡ false)
          × is_empty v b n
          × Keeps knows s v
          × ((other : ℕ) (bytes : Bytes) → knows s (holds other bytes) → other ≢ b))
    pub process-Succeeds :
        (c view b n : ℕ) (secret content first rest : Bytes) (s : S)
        → knows s (started c secret)
        → knows s (viewed view content)
        → is_empty s b n
        → scheme.room (length content) ≤ n
        → scheme.decipher secret content ≡ some (first, rest)
        → Succeeds
            (lib.recipient_cipher_process_decryption c view b)
            s
            (λ v. knows v (holds b first) × knows v (processed c rest))
    pub finish-Succeeds :
        (c b n : ℕ) (rest : Bytes) (s : S)
        → knows s (processed c rest)
        → is_empty s b n
        → scheme.room 0 ≤ n
        → Succeeds (lib.recipient_cipher_finish_decryption c b) s (λ v.
          knows v (holds b rest)
          × ((other : ℕ) (bytes : Bytes)
              → other ≢ b
              → knows s (holds other bytes)
              → knows v (holds other bytes)))
    pub bytes-Gives :
        (b : ℕ) (bytes : Bytes) (s : S)
        → knows s (holds b bytes)
        → Gives (lib.buffer_bytes b) s (λ p v. knows v (stored p bytes) × Keeps knows s v)
    pub len-Gives :
        (b : ℕ) (bytes : Bytes) (s : S)
        → knows s (holds b bytes)
        → Gives (lib.buffer_len b) s (λ n v. (n ≡ length bytes) × Keeps knows s v)
    pub read-Gives :
        (p : ℕ) (bytes : Bytes) (s : S)
        → knows s (stored p bytes)
        → lib.memory_read (as_usize p) (length bytes) s ≡ returns bytes
    pub delete-knows :
        (b other : ℕ) (bytes : Bytes) (s : S)
        → other ≢ b
        → knows s (holds other bytes)
        → knows (lib.buffer_delete b s).1 (holds other bytes)
