-- ===== src/Security/Ssp/Handshake/Opening.antt =====
-- crates/mkey-core/src/security/ssp.rs against an honest lock: how a session is opened.
use mkey_rs.Prelude.{
  Bytes, [], arith, bytes_eq, bytes_eq_refl, drop, drop-append, leb, length, length-append, refl,
  some, subst, take, take-append, take_all, true, ◌++◌, ◌<◌, ◌∙◌, ◌∷◌, ◌≡◌,
}
use mkey_rs.Result.{ok}
use mkey_rs.Crypto.Rotation.{length-rotate_right, rotate_right}
use mkey_rs.Crypto.SessionKey.{derive_session_key}
use mkey_rs.Crypto.Aes.{Cbc, IsCbc}
use mkey_rs.Security.Random.{RandomSource, random16}
use mkey_rs.Security.SspTypes.{
  OpCode, Ssp, auth_step1, build_open_session_step1_request, current_encryption_key,
  encrypted_control, in_session, is_auth_step1, is_control, is_encrypted, is_ready, last16,
  opcode_byte, opcode_try_from, ready, with_random,
}
use mkey_rs.Security.Ssp.{
  decrypt_payload, draw, handle_open_session_step1, handle_open_session_step2,
  process_control_packet, process_packet, unwrap_data,
}
use mkey_rs.Security.Ssp.Channel.{encrypt_payload_lem}
use mkey_rs.Security.Ssp.Handshake.{Synced, handshake}

module _ (c : Cbc) (lawful : IsCbc c) where
  -- The request that opens a session: the phone draws `RandomB`, and sends it encrypted.
  step1_lem :
      (s : Ssp) (b : Bytes) (random' : RandomSource)
      → s.state ≡ ready
      → random16 s.random ≡ (ok b, random')
      → (ct : Bytes) × (process_packet c build_open_session_step1_request s ≡ (
        ok (encrypted_control ∷ ct),
        record s { iv = last16 ct; random_b = some b; random = random'; state = auth_step1 },
      ))
        × ((t : Ssp)
            → current_encryption_key t ≡ current_encryption_key s
            → t.iv ≡ s.iv
            → decrypt_payload c ct t
              ≡ (ok (opcode_byte OpCode.open_session_step1 ∷ b), record t { iv = last16 ct }))
  unfolding process_packet is_encrypted is_control process_control_packet opcode_try_from
      handle_open_session_step1 draw current_encryption_key
  step1_lem s b random' st e =
      let s' : Ssp = record s { random_b = some b; random = random' } in
      let (ct, ee, long, d) =
        encrypt_payload_lem c lawful (opcode_byte OpCode.open_session_step1 ∷ b) s' in
      let is : is_ready s.state ≡ true = rw st refl in (ct, rw (is, e, ee) refl, d)

  -- The lock's challenge, read by a phone that waits for it.
  step2_lem :
      (s : Ssp) (a b ct : Bytes)
      → s.state ≡ auth_step1
      → s.random_b ≡ some b
      → length a ≡ 16
      → length b ≡ 16
      → 0 < length ct
      → decrypt_payload c ct s ≡ (
        ok (opcode_byte OpCode.open_session_step2 ∷ (a ++ rotate_right b)),
        record s { iv = last16 ct },
      )
      → (ct' : Bytes) × (process_packet c (encrypted_control ∷ ct) s ≡ (
        ok (encrypted_control ∷ ct'),
        record s {
          iv = last16 ct';
          random_a = some a;
          session_key = some (derive_session_key a b);
          state = in_session;
        },
      ))
        × ((t : Ssp)
            → current_encryption_key t ≡ current_encryption_key s
            → t.iv ≡ last16 ct
            → decrypt_payload c ct' t ≡ (
              ok (opcode_byte OpCode.open_session_step2 ∷ rotate_right a),
              record t { iv = last16 ct' },
            ))
  unfolding process_packet is_encrypted is_control process_control_packet opcode_try_from
      handle_open_session_step2 current_encryption_key opcode_byte
  step2_lem s a b [] st sb la lb pos d = absurd (omega arith)
  step2_lem s a b (x ∷ xs) st sb la lb pos d =
      let s' : Ssp = record s { iv = last16 (x ∷ xs); random_a = some a; random_b = some b } in
      let (ct', ee, long, back) =
        encrypt_payload_lem c lawful (opcode_byte OpCode.open_session_step2 ∷ rotate_right a) s' in
      let is : is_auth_step1 s.state ≡ true = rw st refl in
      let n : length (a ++ rotate_right b) ≡ 32 =
        omega (arith, length-append a (rotate_right b), length-rotate_right b) in
      let enough : leb 32 (length (a ++ rotate_right b)) ≡ true = rw n refl in
      let front : take 16 (a ++ rotate_right b) ≡ a =
        subst (λ k. take k (a ++ rotate_right b) ≡ a) la (take-append a (rotate_right b)) in
      let behind : drop 16 (a ++ rotate_right b) ≡ rotate_right b =
        subst (λ k. drop k (a ++ rotate_right b) ≡ rotate_right b) la
          (drop-append a (rotate_right b)) in
      let whole : take 16 (rotate_right b) ≡ rotate_right b =
        subst (λ k. take k (rotate_right b) ≡ rotate_right b) (length-rotate_right b ∙ lb)
          (take_all (rotate_right b)) in
      let match : bytes_eq (rotate_right b) (rotate_right b) ≡ true =
        bytes_eq_refl (rotate_right b) in
      (ct', rw (d, is, enough, sb, front, behind, whole, match, ee) refl, back)

  -- An honest phone and an honest lock that hold the same kN key, from fresh managers: the handshake
  -- completes without an error or a panic, both are in session with the key derived from the two
  -- random values and with one IV, so that `converse_lem` applies.
  pub handshake_lem :
      (kn a b : Bytes) (random random' lock_random : RandomSource)
      → length a ≡ 16
      → length b ≡ 16
      → random16 random ≡ (ok b, random')
      → (p : Ssp) × (q : Ssp) × (handshake c a (with_random kn random) (with_random kn lock_random)
          ≡ ok (p, q))
        × Synced p q
        × (p.session_key ≡ some (derive_session_key a b))
  unfolding with_random unwrap_data is_encrypted opcode_byte current_encryption_key
  handshake_lem kn a b random random' lock_random la lb e =
      let phone : Ssp = with_random kn random in
      let lock : Ssp = with_random kn lock_random in
      let (ct1, e1, d1) = step1_lem phone b random' refl e in
      let phone1 : Ssp = record phone {
        iv = last16 ct1;
        random_b = some b;
        random = random';
        state = auth_step1;
      } in
      let lock1 : Ssp = record lock { iv = last16 ct1; random_a = some a; random_b = some b } in
      let (ct2, e2, long2, d2) =
        encrypt_payload_lem c lawful (opcode_byte OpCode.open_session_step2 ∷ (a ++ rotate_right b))
          lock1 in
      let lock2 : Ssp = record lock1 { iv = last16 ct2 } in
      let (ct3, e3, d3) =
        step2_lem phone1 a b ct2 refl refl la lb (omega arith) (d2 phone1 refl refl) in
      let same : bytes_eq (rotate_right a) (rotate_right a) ≡ true =
        bytes_eq_refl (rotate_right a) in
      (
        record phone1 {
          iv = last16 ct3;
          random_a = some a;
          session_key = some (derive_session_key a b);
          state = in_session;
        },
        record lock2 {
          iv = last16 ct3;
          session_key = some (derive_session_key a b);
          state = in_session;
        },
        rw (e1, d1 lock refl refl, e2, e3, d3 lock2 refl refl, same) refl,
        record { first_open = refl; second_open = refl; same_key = refl; same_iv = refl },
        refl,
      )
