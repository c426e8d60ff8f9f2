-- ===== src/Examples/Virgil.antt =====
-- A library that keeps a list of what is live, and a wrapping that encodes nothing.
use mkey_rs.Virgil.Library.{Called, Library, returns, traps}
use mkey_rs.Virgil.Runtime.{VirgilRuntime}
use mkey_rs.Virgil.Container.{VirgilContainer}
use mkey_rs.Virgil.Decrypt.{decrypt_container}
use mkey_rs.Virgil.Decrypt.Balance.{Accounts, Does, Now, remove}
use mkey_rs.Virgil.Decrypt.Released.{decrypt_container-Does}
use mkey_rs.Virgil.Wrapping.{
  Base64, Lawful, Rsa, decrypt-encrypt_virgil_private_key, decrypt_virgil_private_key,
  encrypt_virgil_private_key, rsa_public_key,
}
use mkey_rs.Virgil.Attempt.{ok}
use mkey_rs.Prelude.{
  All, Bytes, List, [], ap, arith, if◌then◌else◌, refl, suc, zero, ℕ, ◌+◌, ◌<◌, ◌==◌, ◌∙◌, ◌∷◌, ◌≡◌,
  ◌≤◌,
}

abbrev Live : Type 0
Live = List ℕ

abbrev quiet : {A : Type 0} → A → Live → Called A × Live
quiet a s = (returns a, s)

abbrev foundation : Library Live
foundation = record {
  instantiate = returns [];
  memory_write = λ ptr bytes. quiet tt;
  memory_read = λ ptr len s. returns (0xD0 ∷ []);
  malloc = λ size. quiet 64;
  buffer_new_with_capacity = λ n s. (returns 7, 7 ∷ s);
  buffer_delete = λ b s. (returns tt, remove b s);
  buffer_bytes = λ b. quiet 128;
  buffer_len = λ b. quiet 1;
  data_ctx_size = quiet 8;
  data_init = λ a b c. quiet tt;
  error_ctx_size = quiet 8;
  error_reset = λ e. quiet tt;
  error_status = λ e. quiet 0;
  ctr_drbg_new = quiet 1;
  ctr_drbg_delete = λ r. quiet tt;
  ctr_drbg_setup_defaults = λ r. quiet 0;
  key_provider_new = quiet 2;
  key_provider_delete = λ k. quiet tt;
  key_provider_setup_defaults = λ k. quiet 0;
  key_provider_use_random = λ k r. quiet tt;
  key_provider_generate_private_key = λ a b c. quiet 3;
  key_provider_import_private_key = λ a b c. quiet 4;
  key_provider_import_public_key = λ a b c. quiet 5;
  key_provider_export_public_key = λ a b c. quiet 0;
  key_provider_exported_private_key_len = λ a b. quiet 64;
  key_provider_export_private_key = λ a b c. quiet 0;
  ecc_private_key_extract_public_key = λ k. quiet 5;
  recipient_cipher_new = λ s. (returns 9, 9 ∷ s);
  recipient_cipher_delete = λ c s. (returns tt, remove c s);
  recipient_cipher_use_random = λ c r. quiet tt;
  recipient_cipher_start_decryption_with_key = λ a b c d. quiet 0;
  recipient_cipher_decryption_out_len = λ c n. quiet 100;
  recipient_cipher_process_decryption = λ a b c. quiet 0;
  recipient_cipher_finish_decryption = λ a b. quiet 0;
}

foundation-Accounts : Accounts foundation (λ s. s)
foundation-Accounts = record {
  new-Makes = λ n s. refl;
  cipher-Made = λ s. refl;
  delete-live = λ b s. refl;
  cipher_delete-live = λ c s. refl;
  write-Calm = λ p bytes s. refl;
  malloc-Calm = λ n s. refl;
  bytes-Calm = λ b s. refl;
  len-Calm = λ b s. refl;
  init-Calm = λ a b c s. refl;
  reset-Calm = λ e s. refl;
  status-Calm = λ e s. refl;
  import-Calm = λ a b c s. refl;
  random-Calm = λ a b s. refl;
  start-Calm = λ a b c d s. refl;
  out_len-Calm = λ a b s. refl;
  process-Calm = λ a b c s. refl;
  finish-Calm = λ a b s. refl;
}

abbrev runtime : VirgilRuntime Live
runtime = record { store = 20 ∷ []; rng = 1; key_provider = 2; error_ctx = 64; data_ctx_size = 8 }

abbrev sealed : VirgilContainer
sealed = record {
  message_info = 0x30 ∷ 0 ∷ [];
  encrypted_content = 0xC0 ∷ [];
  recipient_id = 0xAB ∷ [];
}

decrypt_container-Does_example :
    Does
      (λ (s : Live). s)
      (20 ∷ [])
      (Now (λ (s : Live). s) (20 ∷ []))
      (decrypt_container foundation sealed (1 ∷ []) runtime)
decrypt_container-Does_example =
    decrypt_container-Does foundation (λ s. s) foundation-Accounts sealed (1 ∷ []) runtime

-- Keys are bytes, and the wrapping puts a draw in front.
abbrev unwrapped : Bytes → Called Bytes
unwrapped [] = traps []
unwrapped (b ∷ bytes) = returns bytes

abbrev pub plain_rsa : Rsa Bytes Bytes
plain_rsa = record {
  generate = λ draw bits. returns (draw ∷ []);
  to_pkcs8_der = λ k. returns k;
  from_pkcs8_der = λ der. returns der;
  from_public_key_der = λ der. traps [];
  from_pkcs1_der = λ der. traps [];
  to_public_key = λ k. k;
  encrypt = λ p draw bytes. returns (draw ∷ bytes);
  decrypt = λ k bytes. unwrapped bytes;
}

-- A byte `b` is written as `b` strokes and a point.
abbrev strokes : ℕ → List ℕ → List ℕ
strokes zero rest = 0x2E ∷ rest
strokes (suc n) rest = 0x2F ∷ strokes n rest

abbrev written : Bytes → List ℕ
written [] = []
written (b ∷ bytes) = strokes b (written bytes)

abbrev read_from : ℕ → List ℕ → Bytes
read_from n [] = []
read_from n (c ∷ cs) =
    let one = n ∷ read_from 0 cs in
    let more = read_from (suc n) cs in if c == 0x2E then one else more

abbrev pub unary : Base64
unary = record { encode = written; decode = λ cs. returns (read_from 0 cs) }

read_from-strokes :
    (b n : ℕ) (rest : List ℕ) → read_from n (strokes b rest) ≡ (n + b) ∷ read_from 0 rest
read_from-strokes zero n rest = ap (λ (x : ℕ). x ∷ read_from 0 rest) (omega arith)
read_from-strokes (suc b) n rest =
    read_from-strokes b (suc n) rest ∙ ap (λ (x : ℕ). x ∷ read_from 0 rest) (omega arith)

read_from-written : (bytes : Bytes) → read_from 0 (written bytes) ≡ bytes
read_from-written [] = refl
read_from-written (b ∷ bytes) =
    read_from-strokes b 0 (written bytes)
    ∙ ap (λ (n : ℕ). n ∷ read_from 0 (written bytes)) (omega arith)
    ∙ ap (λ (x : Bytes). b ∷ x) (read_from-written bytes)

abbrev Printable : List ℕ → Type 0
Printable cs = All (λ c. (0x21 ≤ c) × (c < 0x7F)) cs

strokes-Printable : (b : ℕ) (rest : List ℕ) → Printable rest → Printable (strokes b rest)
strokes-Printable zero rest p = ((omega arith, omega arith), p)
strokes-Printable (suc b) rest p = ((omega arith, omega arith), strokes-Printable b rest p)

written-Printable : (bytes : Bytes) → Printable (written bytes)
written-Printable [] = tt
written-Printable (b ∷ bytes) = strokes-Printable b (written bytes) (written-Printable bytes)

pub plain-Lawful : Lawful plain_rsa unary
plain-Lawful = record {
  encode-Printable = written-Printable;
  decode-encode = λ bytes. ap (λ (x : Bytes). returns x) (read_from-written bytes);
  decrypt-encrypt = undone;
}
  where
    undone :
        (k : Bytes) (draw : ℕ) (bytes cipher : Bytes)
        → plain_rsa.encrypt k draw bytes ≡ returns cipher
        → plain_rsa.decrypt k cipher ≡ returns bytes
    undone k draw bytes [] e = cc
    undone k draw bytes (c ∷ cipher) e = cc

abbrev pub wrapped : Bytes
wrapped = 5 ∷ written (1 ∷ 2 ∷ [])

pub halved : rsa_public_key plain_rsa unary (3 ∷ []) ≡ ok (3 ∷ [])
unfolding rsa_public_key
halved = refl

pub wraps : encrypt_virgil_private_key plain_rsa unary 5 (3 ∷ []) (1 ∷ 2 ∷ []) ≡ ok wrapped
unfolding encrypt_virgil_private_key
wraps = refl

decrypt-encrypt_virgil_private_key_example :
    decrypt_virgil_private_key plain_rsa unary (3 ∷ []) wrapped ≡ ok (1 ∷ 2 ∷ [])
decrypt-encrypt_virgil_private_key_example =
    decrypt-encrypt_virgil_private_key plain_rsa unary plain-Lawful 5 (3 ∷ []) (3 ∷ []) (1 ∷ 2 ∷ [])
      wrapped (3 ∷ []) refl halved wraps
