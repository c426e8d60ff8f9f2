-- ===== src/Virgil/Decrypt/Released.antt =====
-- crates/mkey-sdk-virgil/src/lib.rs: the steps of a decryption, and what they leave alive.
use mkey_rs.Virgil.Decrypt.{
  collect_output, decrypt_container, decrypt_content, finish_decryption, give_up, non_empty,
  or_give_up, process_decryption,
}
use mkey_rs.Virgil.Decrypt.Balance.{
  Accounts, Does, Does-bind, Made, Now, calling, data_view-Does, import_private_key-Does,
  new_buffer-Does, remove, take_buffer-Does,
}
use mkey_rs.Virgil.Runtime.{Run, VirgilRuntime, at, returned, status_error, take_buffer, trap_error}
use mkey_rs.Virgil.Library.{Called, Export, Library, len_i32, returns, signed_clamp, traps}
use mkey_rs.Virgil.Container.{VirgilContainer}
use mkey_rs.Error.{Message, msg}
use mkey_rs.Prelude.{
  ==_iff, Bool, Bool-cases, Bytes, List, [], ap, arith, false, if◌then◌else◌, inl, inr, refl, subst,
  sym, true, ℕ, ◌++◌, ◌==◌, ◌∙◌, ◌∷◌, ◌≡◌,
}

remove_first : (x : ℕ) (xs : List ℕ) → remove x (x ∷ xs) ≡ xs
remove_first x xs = ground arith

-- Equal handles are the same one.
remove_second : (x y : ℕ) (xs : List ℕ) → remove y (x ∷ (y ∷ xs)) ≡ x ∷ xs
remove_second x y xs = elim (Bool-cases (x == y)) [
  | inl e ↦ rw e (ap (λ (z : ℕ). z ∷ xs) (sym ((==_iff x y).0 e)))
  | inr e ↦ rw e (ap (λ (ys : List ℕ). x ∷ ys) (remove_first y xs))
]

module _ {S : Type 0} (lib : Library S) (live : S → List ℕ) (accounts : Accounts lib live) where
  open accounts use {
    delete-live, cipher_delete-live, cipher-Made, random-Calm, start-Calm, out_len-Calm,
    process-Calm, finish-Calm,
  }

  collect-Does :
      (old : List ℕ) (cipher process finish : ℕ) (rt : VirgilRuntime S)
      → live rt.store ≡ finish ∷ (process ∷ (cipher ∷ old))
      → Does live old (Now live old) (collect_output lib cipher process finish rt)
  unfolding collect_output
  collect-Does old cipher process finish rt h =
      Does-bind live old (Now live (finish ∷ (cipher ∷ old))) (Now live old) _ _
        (subst (λ (xs : List ℕ). Does live old (Now live xs) (take_buffer lib process rt))
          (remove_second finish process (cipher ∷ old))
          (take_buffer-Does lib live accounts old (finish ∷ (process ∷ (cipher ∷ old))) process rt
            h))
        λ processed u k.
          Does-bind live old (Now live (cipher ∷ old)) (Now live old) _ _
            (subst (λ (xs : List ℕ). Does live old (Now live xs) (take_buffer lib finish u))
              (remove_first finish (cipher ∷ old))
              (take_buffer-Does lib live accounts old (finish ∷ (cipher ∷ old)) finish u k))
            λ finished v q.
              filled (processed ++ finished) (at v (lib.recipient_cipher_delete cipher v.store).1)
                (cipher_delete-live cipher v.store ∙ ap (remove cipher) q ∙ remove_first cipher old)
    where
      filled :
          (bytes : Bytes) (v : VirgilRuntime S)
          → live v.store ≡ old
          → Does live old (Now live old) (non_empty bytes v)
      filled [] v e = λ _. e
      filled (b ∷ bytes) v e = e

  -- Either branch of a status.
  branching :
      (old now : List ℕ) (op : Message) (status : ℕ) (deletes : List (Export S (Unit {0})))
      (rest : Run S Bytes) (rt : VirgilRuntime S)
      → live rt.store ≡ now
      → Does live old (Now live old) (give_up op status deletes rt)
      → Does live old (Now live old) (rest rt)
      → Does live old (Now live old) (or_give_up op status deletes rest rt)
  branching old now op status deletes rest rt h p q = branch (status == 0)
    where
      branch :
          (b : Bool)
          → Does live old (Now live old) ((if b then rest else give_up op status deletes) rt)
      branch true = q
      branch false = p

  dropped :
      (old : List ℕ) (cipher : ℕ) (s : S)
      → live s ≡ cipher ∷ old
      → live (lib.recipient_cipher_delete cipher s).1 ≡ old
  dropped old cipher s h =
      cipher_delete-live cipher s ∙ ap (remove cipher) h ∙ remove_first cipher old

  deleted :
      (old : List ℕ) (buffer : ℕ) (s : S)
      → live s ≡ buffer ∷ old
      → live (lib.buffer_delete buffer s).1 ≡ old
  deleted old buffer s h = delete-live buffer s ∙ ap (remove buffer) h ∙ remove_first buffer old

  finish-Does :
      (old : List ℕ) (cipher process : ℕ) (rt : VirgilRuntime S)
      → live rt.store ≡ process ∷ (cipher ∷ old)
      → Does live old (Now live old) (finish_decryption lib cipher process rt)
  unfolding finish_decryption status_error
  finish-Does old cipher process rt h =
      let held : List ℕ = process ∷ (cipher ∷ old) in
      Does-bind live old (Now live held) (Now live old) _ _
        (calling live old held "recipient_cipher_decryption_out_len"
          (lib.recipient_cipher_decryption_out_len cipher 0) rt (out_len-Calm cipher 0) h)
        λ out_len u k.
          Does-bind live old (λ b xs. xs ≡ b ∷ held) (Now live old) _ _
            (new_buffer-Does lib live accounts old held (signed_clamp out_len 64 10000) u k)
            λ finish v q.
              Does-bind live old (Now live (finish ∷ held)) (Now live old) _ _
                (calling live old (finish ∷ held) "recipient_cipher_finish_decryption"
                  (lib.recipient_cipher_finish_decryption cipher finish) v
                  (finish-Calm cipher finish) q)
                λ status w r.
                  branching old (finish ∷ held) (msg "finish_decryption") status
                    (lib.buffer_delete finish
                      ∷ lib.buffer_delete process
                      ∷ lib.recipient_cipher_delete cipher
                      ∷ [])
                    (collect_output lib cipher process finish) w r
                    (λ _.
                      dropped old cipher _
                        (deleted (cipher ∷ old) process _ (deleted held finish w.store r)))
                    (collect-Does old cipher process finish w r)

  process-Does :
      (old : List ℕ) (cipher : ℕ) (content : Bytes) (rt : VirgilRuntime S)
      → live rt.store ≡ cipher ∷ old
      → Does live old (Now live old) (process_decryption lib cipher content rt)
  unfolding process_decryption status_error
  process-Does old cipher content rt h =
      let held : List ℕ = cipher ∷ old in
      Does-bind live old (Now live held) (Now live old) _ _
        (data_view-Does lib live accounts old held content rt h)
        λ view u k.
          Does-bind live old (Now live held) (Now live old) _ _
            (calling live old held "recipient_cipher_decryption_out_len"
              (lib.recipient_cipher_decryption_out_len cipher (len_i32 content)) u
              (out_len-Calm cipher (len_i32 content)) k)
            λ out_len v q.
              Does-bind live old (λ b xs. xs ≡ b ∷ held) (Now live old) _ _
                (new_buffer-Does lib live accounts old held (signed_clamp out_len 64 10000) v q)
                λ process w r.
                  Does-bind live old (Now live (process ∷ held)) (Now live old) _ _
                    (calling live old (process ∷ held) "recipient_cipher_process_decryption"
                      (lib.recipient_cipher_process_decryption cipher view process) w
                      (process-Calm cipher view process) r)
                    λ status x y.
                      branching old (process ∷ held) (msg "process_decryption") status
                        (lib.buffer_delete process ∷ lib.recipient_cipher_delete cipher ∷ [])
                        (finish_decryption lib cipher process) x y
                        (λ _. dropped old cipher _ (deleted held process x.store y))
                        (finish-Does old cipher process x y)

  content-Does :
      (old : List ℕ) (c : VirgilContainer) (private_key : ℕ) (rt : VirgilRuntime S)
      → live rt.store ≡ old
      → Does live old (Now live old) (decrypt_content lib c private_key rt)
  unfolding decrypt_content status_error
  content-Does old c private_key rt h =
      Does-bind live old (λ cipher xs. xs ≡ cipher ∷ old) (Now live old) _ _
        (made (lib.recipient_cipher_new rt.store) (cipher-Made rt.store))
        λ cipher u k.
          Does-bind live old (Now live (cipher ∷ old)) (Now live old) _ _
            (calling live old (cipher ∷ old) "recipient_cipher_use_random"
              (lib.recipient_cipher_use_random cipher u.rng) u (random-Calm cipher u.rng) k)
            λ _ v q.
              Does-bind live old (Now live (cipher ∷ old)) (Now live old) _ _
                (data_view-Does lib live accounts old (cipher ∷ old) c.recipient_id v q)
                λ id w r.
                  Does-bind live old (Now live (cipher ∷ old)) (Now live old) _ _
                    (data_view-Does lib live accounts old (cipher ∷ old) c.message_info w r)
                    λ info x y.
                      Does-bind live old (Now live (cipher ∷ old)) (Now live old) _ _
                        (calling live old (cipher ∷ old)
                          "recipient_cipher_start_decryption_with_key"
                          (lib.recipient_cipher_start_decryption_with_key cipher id private_key
                            info)
                          x (start-Calm cipher id private_key info) y)
                        λ status z g.
                          branching old (cipher ∷ old) (msg "start_decryption_with_key") status
                            (lib.recipient_cipher_delete cipher ∷ [])
                            (process_decryption lib cipher c.encrypted_content) z g
                            (λ _. dropped old cipher z.store g)
                            (process-Does old cipher c.encrypted_content z g)
    where
      made :
          (x : Called ℕ × S)
          → Made live rt.store x
          → Does live old
              (λ cipher xs. xs ≡ cipher ∷ old)
              (returned (trap_error "recipient_cipher_new") rt x)
      made (returns n, s) e = e ∙ ap (λ (xs : List ℕ). n ∷ xs) h
      made (traps m, s) e = λ r. cc

  -- A decryption that succeeds, and one that fails with a status of the library or for want of output, leaves
  -- no buffer and no cipher alive that was not alive before, and deletes none that was; and it never panics.
  pub decrypt_container-Does :
      (c : VirgilContainer) (private_key_der : Bytes) (rt : VirgilRuntime S)
      → Does live
          (live rt.store)
          (Now live (live rt.store))
          (decrypt_container lib c private_key_der rt)
  unfolding decrypt_container
  decrypt_container-Does c private_key_der rt =
      let old : List ℕ = live rt.store in
      Does-bind live old (Now live old) (Now live old) _ _
        (import_private_key-Does lib live accounts old private_key_der rt refl)
        λ private_key u k. content-Does old c private_key u k
