-- ===== src/Virgil/Decrypt/Starting.antt =====
-- crates/mkey-sdk-virgil/src/lib.rs: a runtime over a library that serves its calls is set up, and a
-- decryption in it opens the container.
use mkey_rs.Virgil.Decrypt.{decrypt_container}
use mkey_rs.Virgil.Decrypt.Calls.{Gets, Gets-bind, Gets-call, alloc-Gets, import_private_key-Gets}
use mkey_rs.Virgil.Decrypt.Opening.{content-Puts}
use mkey_rs.Virgil.Decrypt.Serving.{Fact, IsData, Opens, Scheme, Serves, block, provided, seeded}
use mkey_rs.Virgil.Runtime.{
  Run, VirgilRuntime, alloc, at, bare, continue, set_up, status_check, with_runtime, wasm_call,
  ◌>>=◌, ◌>>◌,
}
use mkey_rs.Virgil.Library.{Called, Library, returns, traps}
use mkey_rs.Virgil.Attempt.{Attempt, VirgilError, err, ok}
use mkey_rs.Error.{msg, text}
use mkey_rs.Prelude.{
  Bytes, [], ap, length, refl, ℕ, ◌+◌, length-append, ◌<◌, arith, ◌∷◌, ◌∙◌, ◌≡◌, ◌≤◌, ◌^◌,
}

module _ {S : Type 0} where
  -- A method that succeeds, and what holds then of its value and the runtime.
  abbrev Ends : {A : Type 0} → Attempt A × VirgilRuntime S → (A → VirgilRuntime S → Type 0) → Type 0
  Ends {A} m Q = (a : A) × (u : VirgilRuntime S) × (m ≡ (ok a, u)) × Q a u

  Gets-Ends :
      {A B : Type 0} (rt : VirgilRuntime S) (Q : A → S → Type 0) (R : B → VirgilRuntime S → Type 0)
      (m : Attempt A × VirgilRuntime S) (f : A → Run S B)
      → Gets rt m Q
      → ((a : A) (v : S) → Q a v → Ends (f a (at rt v)) R)
      → Ends (continue m f) R
  Gets-Ends rt Q R m f (a, v, e, q) g =
      let (b, w, e1, r) = g a v q in (b, w, ap (λ x. continue x f) e ∙ e1, r)

module _ {S : Type 0} (lib : Library S) (scheme : Scheme) (knows : S → Fact → Type 0)
    (is_new is_empty : S → ℕ → ℕ → Type 0) (serves : Serves lib scheme knows is_new is_empty) where
  open serves use {
    begins, data_size, error_size, error-IsSize, data_size-Gives, error_size-Gives, source-Gives,
    seed-Succeeds, provider-Gives, provider_random-Gives, provide-Succeeds,
  }

  -- A runtime that is set up: the size of a view is known, and there are an error context, a seeded source of
  -- random values and a provider of keys.
  abbrev IsReady : VirgilRuntime S → Type 0
  IsReady rt =
      (rt.data_ctx_size ≡ data_size)
      × knows rt.store (block rt.error_ctx error_size)
      × knows rt.store (seeded rt.rng)
      × knows rt.store (provided rt.key_provider)

  error-Gets :
      (rt : VirgilRuntime S) (n : ℕ) (s : S)
      → n ≡ error_size
      → Gets rt (alloc lib n (at rt s)) (λ e v. knows v (block e error_size))
  error-Gets rt n s e = rw e (
      let (p, v, q, (_, there, _)) =
        alloc-Gets lib scheme knows is_new is_empty serves rt error_size s error-IsSize in
      (p, v, q, there))

  -- The end of the set-up.
  abbrev provide : ℕ → Run S (Unit {0})
  provide rng = do
    made ← wasm_call "key_provider_new" lib.key_provider_new
    λ rt. (ok tt, record rt { key_provider = made })
    wasm_call "key_provider_use_random" (lib.key_provider_use_random made rng)
    ready ← wasm_call "key_provider_setup_defaults" (lib.key_provider_setup_defaults made)
    status_check (msg "Key provider setup") ready

  provide-Ends :
      (rt : VirgilRuntime S) (s : S)
      → rt.data_ctx_size ≡ data_size
      → knows s (block rt.error_ctx error_size)
      → knows s (seeded rt.rng)
      → Ends (provide rt.rng (at rt s)) (λ _ u. IsReady u)
  provide-Ends rt s sized errors random =
      Gets-Ends rt _ _ _ _
        (Gets-call rt _ "key_provider_new" lib.key_provider_new s (provider-Gives s))
        λ p v (made, k1).
          let r1 : VirgilRuntime S = record rt { key_provider = p } in
          Gets-Ends r1 _ _ _ _
            (Gets-call r1 _ "key_provider_use_random" (lib.key_provider_use_random p rt.rng) v
              (provider_random-Gives p rt.rng v made (k1 (seeded rt.rng) random)))
            λ _ u (draws, k2).
              Gets-Ends r1 _ _ _ _
                (Gets-call r1 _ "key_provider_setup_defaults" (lib.key_provider_setup_defaults p) u
                  (provide-Succeeds p u draws))
                λ status w (fine, (ready, k3)).
                  let kept = λ (x : Fact) (h : knows s x). k3 x (k2 x (k1 x h)) in
                  (
                    tt,
                    at r1 w,
                    rw fine refl,
                    (
                      sized,
                      kept (block rt.error_ctx error_size) errors,
                      kept (seeded rt.rng) random,
                      ready,
                    ),
                  )

  set_up-Ends : (s : S) → Ends (set_up lib (bare lib s)) (λ _ rt. IsReady rt)
  unfolding set_up
  set_up-Ends s =
      Gets-Ends (bare lib s) _ _ _ _
        (Gets-call (bare lib s) _ "data_ctx_size" lib.data_ctx_size s (data_size-Gives s))
        λ n v (sized, _).
          let r1 : VirgilRuntime S = record (bare lib v) { data_ctx_size = n } in
          Gets-Ends r1 _ _ _ _
            (Gets-call r1 _ "error_ctx_size" lib.error_ctx_size v (error_size-Gives v))
            λ m u (sized_2, _). Gets-Ends r1 _ _ _ _ (error-Gets r1 m u sized_2) λ e w there.
              let r2 : VirgilRuntime S = record (at r1 w) { error_ctx = e } in
              Gets-Ends r2 _ _ _ _
                (Gets-call r2 _ "ctr_drbg_new" lib.ctr_drbg_new w (source-Gives w))
                λ r x (made, k1).
                  let r3 : VirgilRuntime S = record (at r2 x) { rng = r } in
                  Gets-Ends r3 _ _ _ _
                    (Gets-call r3 _ "ctr_drbg_setup_defaults" (lib.ctr_drbg_setup_defaults r) x
                      (seed-Succeeds r x made))
                    λ status y (fine, (ready, k2)). rw fine (
                      provide-Ends r3 y sized
                        (k2 (block e error_size) (k1 (block e error_size) there)) ready)

  run_of :
      {A : Type 0} (body : Run S A) (s : S)
      → lib.instantiate ≡ returns s
      → with_runtime lib body ≡ (continue (set_up lib (bare lib s)) (λ _. body)).0
  unfolding with_runtime
  run_of body s begun =
      ap
        (λ (x : Called S). elim x [
          | traps e ↦ err (VirgilError.wasm (text "Failed to instantiate WASM: " ∷ e))
          | returns s ↦ (continue (set_up lib (bare lib s)) (λ _. body)).0
        ])
        begun

  open_non_empty :
      (der info content id : Bytes) (first_byte : ℕ) (more : Bytes)
      → IsData der
      → IsData info
      → IsData content
      → IsData id
      → Opens scheme der info content id (first_byte ∷ more)
      → with_runtime lib (
          decrypt_container lib
            (record { message_info = info; encrypted_content = content; recipient_id = id })
            der)
        ≡ ok (first_byte ∷ more)
  unfolding decrypt_container
  open_non_empty der info content id first_byte more size_der size_info size size_id o =
      let (s, begun) = begins in
      let (_, rt, e, (sized, errors, random, ready)) = set_up-Ends s in
      let small : length o.first + length o.rest < 2 ^ 31 =
        omega
          (arith, length-append o.first o.rest, ap (λ (x : Bytes). length x) o.whole, o.small) in
      let (out, v, e1, same) =
        Gets-bind rt _ _ _ _
          (import_private_key-Gets lib scheme knows is_new is_empty serves rt der rt.store size_der
            o.is_key sized errors ready)
          (λ k v (there, kept).
            content-Puts lib scheme knows is_new is_empty serves rt k first_byte der id info
              o.secret content o.first o.rest more v size_id size_info size sized o.accepted
              o.fits.0 o.fits.1 o.opened o.whole (omega (arith, small)) (omega (arith, small)) there
              (kept (seeded rt.rng) random)) in
      let body : Run S Bytes =
        decrypt_container lib
          (record { message_info = info; encrypted_content = content; recipient_id = id }) der in
      run_of body s begun
      ∙ ap (λ m. (continue m (λ _. body)).0) e
      ∙ ap (λ m. m.0) e1
      ∙ ap (λ (x : Bytes). ok x) same

  -- A container that can be opened is decrypted to its plaintext.
  pub decrypt_container-Opens :
      (der info content id plain : Bytes)
      → IsData der
      → IsData info
      → IsData content
      → IsData id
      → Opens scheme der info content id plain
      → 1 ≤ length plain
      → with_runtime lib (
          decrypt_container lib
            (record { message_info = info; encrypted_content = content; recipient_id = id })
            der)
        ≡ ok plain
  decrypt_container-Opens der info content id [] size_der size_info size size_id o pos =
      absurd (omega arith)
  decrypt_container-Opens der info content id (b ∷ more) size_der size_info size size_id o pos =
      open_non_empty der info content id b more size_der size_info size size_id o
