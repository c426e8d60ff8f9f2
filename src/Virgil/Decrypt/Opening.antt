-- ===== src/Virgil/Decrypt/Opening.antt =====
-- crates/mkey-sdk-virgil/src/lib.rs: a decryption over a library that serves its calls opens the container.
use mkey_rs.Virgil.Decrypt.{collect_output, decrypt_content, finish_decryption, process_decryption}
use mkey_rs.Virgil.Decrypt.Calls.{
  Gets, Gets-bind, Gets-call, len_of, data_view-Gets, new_buffer-Gets, take_buffer-Gets,
}
use mkey_rs.Virgil.Decrypt.Serving.{
  Fact, IsData, Scheme, Serves, drawing, holds, imported, processed, seeded, started, viewed,
}
use mkey_rs.Virgil.Runtime.{VirgilRuntime, at}
use mkey_rs.Virgil.Library.{Library, len_i32, signed_clamp}
use mkey_rs.Virgil.Attempt.{Attempt}
use mkey_rs.Prelude.{
  Bytes, arith, inl, inr, length, refl, some, ℕ, ◌++◌, ◌<◌, ◌∷◌, ◌≡◌, ◌≢◌, ◌≤◌, ◌^◌, sym,
}

clamped : (n : ℕ) → n ≤ 10000 → n ≤ signed_clamp n 64 10000
clamped n h = ground arith

clamped-IsSize : (n : ℕ) → (1 ≤ signed_clamp n 64 10000) × (signed_clamp n 64 10000 < 2 ^ 31)
clamped-IsSize n = ground arith

module _ {S : Type 0} (lib : Library S) (scheme : Scheme) (knows : S → Fact → Type 0)
    (is_new is_empty : S → ℕ → ℕ → Type 0) (serves : Serves lib scheme knows is_new is_empty) where
  open serves use {
    data_size, error_size, cipher-Gives, cipher_random-Gives, start-Succeeds, room-Gives,
    process-Succeeds, finish-Succeeds,
  }

  module _ (rt : VirgilRuntime S) where
    -- The output, which is not empty.
    abbrev pub Puts : Bytes → Attempt Bytes × VirgilRuntime S → Type 0
    Puts bytes m = Gets rt m (λ out v. out ≡ bytes)

    collect-Puts :
        (c process finish first_byte : ℕ) (first rest more : Bytes) (s : S)
        → first ++ rest ≡ first_byte ∷ more
        → length first < 2 ^ 31
        → length rest < 2 ^ 31
        → finish ≢ process
        → knows s (holds process first)
        → knows s (holds finish rest)
        → Puts (first_byte ∷ more) (collect_output lib c process finish (at rt s))
    unfolding collect_output
    collect-Puts c process finish first_byte first rest more s whole small_1 small_2 apart h1 h2 =
        Gets-bind rt _ _ _ _
          (take_buffer-Gets lib scheme knows is_new is_empty serves rt process first s small_1 h1)
          λ a v (e1, k1).
            Gets-bind rt _ _ _ _
              (take_buffer-Gets lib scheme knows is_new is_empty serves rt finish rest v small_2
                (k1 finish rest apart h2))
              λ b u (e2, _). (
                first_byte ∷ more,
                (lib.recipient_cipher_delete c u).1,
                rw (e1, e2, whole) refl,
                refl,
              )

    finish-Puts :
        (c process first_byte : ℕ) (first rest more : Bytes) (s : S)
        → first ++ rest ≡ first_byte ∷ more
        → length first < 2 ^ 31
        → length rest < 2 ^ 31
        → scheme.room 0 ≤ 10000
        → knows s (holds process first)
        → knows s (processed c rest)
        → Puts (first_byte ∷ more) (finish_decryption lib c process (at rt s))
    unfolding finish_decryption
    finish-Puts c process first_byte first rest more s whole small_1 small_2 fits h1 h2 =
        Gets-bind rt _ _ _ _
          (Gets-call rt _ "recipient_cipher_decryption_out_len"
            (lib.recipient_cipher_decryption_out_len c 0) s (room-Gives c 0 rest s (inr h2)))
          λ n v (e1, k1).
            Gets-bind rt _ _ _ _
              (new_buffer-Gets lib scheme knows is_new is_empty serves rt (signed_clamp n 64 10000)
                v (clamped-IsSize n))
              λ b u (blank, k2, apart).
                Gets-bind rt _ _ _ _
                  (Gets-call rt _ "recipient_cipher_finish_decryption"
                    (lib.recipient_cipher_finish_decryption c b) u
                    (finish-Succeeds c b (signed_clamp n 64 10000) rest u
                      (k2 (processed c rest) (k1 (processed c rest) h2)) blank
                      (rw e1 (clamped (scheme.room 0) fits))))
                  λ status w (e2, (there, others)).
                    let other : process ≢ b = apart process first (k1 (holds process first) h1) in
                    rw e2 (
                      collect-Puts c process b first_byte first rest more w whole small_1 small_2
                        (λ q. other (sym q))
                        (others process first other
                          (k2 (holds process first) (k1 (holds process first) h1)))
                        there)

    process-Puts :
        (c first_byte : ℕ) (secret content first rest more : Bytes) (s : S)
        → IsData content
        → rt.data_ctx_size ≡ data_size
        → scheme.room (length content) ≤ 10000
        → scheme.room 0 ≤ 10000
        → scheme.decipher secret content ≡ some (first, rest)
        → first ++ rest ≡ first_byte ∷ more
        → length first < 2 ^ 31
        → length rest < 2 ^ 31
        → knows s (started c secret)
        → Puts (first_byte ∷ more) (process_decryption lib c content (at rt s))
    unfolding process_decryption
    process-Puts c first_byte secret content first rest more s size sized fits fits_0 opens whole
          small_1 small_2 h =
        Gets-bind rt _ _ _ _
          (data_view-Gets lib scheme knows is_new is_empty serves rt content s size sized)
          λ view v (seen, k1).
            Gets-bind rt _ _ _ _
              (Gets-call rt _ "recipient_cipher_decryption_out_len"
                (lib.recipient_cipher_decryption_out_len c (len_i32 content)) v
                (room-Gives c (len_i32 content) secret v (inl (k1 (started c secret) h))))
              λ n u (e1, k2).
                Gets-bind rt _ _ _ _
                  (new_buffer-Gets lib scheme knows is_new is_empty serves rt
                    (signed_clamp n 64 10000) u (clamped-IsSize n))
                  λ b w (blank, k3, _).
                    Gets-bind rt _ _ _ _
                      (Gets-call rt _ "recipient_cipher_process_decryption"
                        (lib.recipient_cipher_process_decryption c view b) w
                        (process-Succeeds c view b (signed_clamp n 64 10000) secret content first
                          rest w
                          (k3 (started c secret) (k2 (started c secret) (k1 (started c secret) h)))
                          (k3 (viewed view content) (k2 (viewed view content) seen)) blank
                          (roomy n e1) opens))
                      λ status x (e2, (there, left)). rw e2 (
                        finish-Puts c b first_byte first rest more x whole small_1 small_2 fits_0
                          there left)
      where
        roomy :
            (n : ℕ)
            → n ≡ scheme.room (len_i32 content)
            → scheme.room (length content) ≤ signed_clamp n 64 10000
        roomy n e = rw (e, len_of content size) (clamped (scheme.room (length content)) fits)

    pub content-Puts :
        (k first_byte : ℕ) (der id info secret content first rest more : Bytes) (s : S)
        → IsData id
        → IsData info
        → IsData content
        → rt.data_ctx_size ≡ data_size
        → scheme.accepts der id info ≡ some secret
        → scheme.room (length content) ≤ 10000
        → scheme.room 0 ≤ 10000
        → scheme.decipher secret content ≡ some (first, rest)
        → first ++ rest ≡ first_byte ∷ more
        → length first < 2 ^ 31
        → length rest < 2 ^ 31
        → knows s (imported k der)
        → knows s (seeded rt.rng)
        → Puts (first_byte ∷ more) (
            decrypt_content lib
              (record { message_info = info; encrypted_content = content; recipient_id = id })
              k
              (at rt s))
    unfolding decrypt_content
    content-Puts k first_byte der id info secret content first rest more s size_id size_info size
          sized accepted fits fits_0 opens whole small_1 small_2 h rng =
        Gets-bind rt _ _ _ _
          (Gets-call rt _ "recipient_cipher_new" lib.recipient_cipher_new s (cipher-Gives s))
          λ c v (made, k1).
            Gets-bind rt _ _ _ _
              (Gets-call rt _ "recipient_cipher_use_random"
                (lib.recipient_cipher_use_random c rt.rng) v
                (cipher_random-Gives c rt.rng v made (k1 (seeded rt.rng) rng)))
              λ _ u (random, k2).
                Gets-bind rt _ _ _ _
                  (data_view-Gets lib scheme knows is_new is_empty serves rt id u size_id sized)
                  λ id_view w (seen_id, k3).
                    Gets-bind rt _ _ _ _
                      (data_view-Gets lib scheme knows is_new is_empty serves rt info w size_info
                        sized)
                      λ info_view x (seen_info, k4).
                        Gets-bind rt _ _ _ _
                          (Gets-call rt _ "recipient_cipher_start_decryption_with_key"
                            (lib.recipient_cipher_start_decryption_with_key c id_view k info_view) x
                            (start-Succeeds c id_view k info_view id der info secret x
                              (k4 (drawing c) (k3 (drawing c) random))
                              (k4 (viewed id_view id) seen_id)
                              (k4 (imported k der)
                                (k3 (imported k der) (k2 (imported k der) (k1 (imported k der) h))))
                              seen_info accepted))
                          λ status y (e, going). rw e (
                            process-Puts c first_byte secret content first rest more y size sized
                              fits fits_0 opens whole small_1 small_2 going)
