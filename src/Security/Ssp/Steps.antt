-- ===== src/Security/Ssp/Steps.antt =====
-- crates/mkey-core/src/security/ssp.rs: the handlers of control payloads against their step relation.
use mkey_rs.Prelude.{
  Bool, Bool-cases, Bytes, Option-cases, [], ap, arith, bytes_eq, bytes_eq_refl, bytes_eq→eq, drop,
  false, inl, inr, leb, length, length-drop, length-take, refl, some, subst, sym, take,
  take-append-drop, true, ◌++◌, ◌∙◌, ◌∷◌, ◌≡◌, ◌≢◌, ◌≤◌,
}
use mkey_rs.Result.{ok_or}
use mkey_rs.Crypto.Rotation.{rotate_right}
use mkey_rs.Crypto.Aes.{Cbc, IsCbc}
use mkey_rs.Security.Random.{random16, random16-cases}
use mkey_rs.Security.SspTypes.{
  OpCode, Ssp, SspState, auth_step1, in_session, is_auth_step1, is_auth_step1→eq, is_in_session,
  is_in_session→eq, is_ready, is_ready→eq, opcode_byte, opcode_try_from-cases, ready,
}
use mkey_rs.Security.Ssp.{
  dispatch_opcode, draw, finish_step2, handle_get_version, handle_open_session_step1,
  handle_open_session_step2, handle_set_key_value, no_random_b, process_control_packet,
}
use mkey_rs.Security.Ssp.Channel.{encrypt_payload_lem}
use mkey_rs.Security.Ssp.Relation.{
  Handles, challenges, error_opcode, exhausts, no_answer_now, no_challenge_now, no_key_now,
  no_opcode, opens, refuses, rejects, rekeys, tells_version, unknown_opcode,
}

abbrev first_of {ℓ κ} : {A : Type ℓ} {B : Type κ} → A × B → A
first_of p = p.0

not_ready : (st : SspState) → is_ready st ≡ false → st ≢ ready
not_ready st e q = let h : is_ready ready ≡ false = subst (λ x. is_ready x ≡ false) q e in cc

not_auth_step1 : (st : SspState) → is_auth_step1 st ≡ false → st ≢ auth_step1
not_auth_step1 st e q =
    let h : is_auth_step1 auth_step1 ≡ false = subst (λ x. is_auth_step1 x ≡ false) q e in cc

not_in_session : (st : SspState) → is_in_session st ≡ false → st ≢ in_session
not_in_session st e q =
    let h : is_in_session in_session ≡ false = subst (λ x. is_in_session x ≡ false) q e in cc

bytes_eq→ne : (xs ys : Bytes) → bytes_eq xs ys ≡ false → xs ≢ ys
bytes_eq→ne xs ys e q =
    let h : bytes_eq ys ys ≡ false = subst (λ x. bytes_eq x ys ≡ false) q e in
    let k = bytes_eq_refl ys in cc

module _ (c : Cbc) (lawful : IsCbc c) where
  split32 :
      (payload : Bytes)
      → payload ≡ take 16 payload ++ (take 16 (drop 16 payload) ++ drop 16 (drop 16 payload))
  split32 payload =
      sym (take-append-drop 16 payload)
      ∙ ap (◌++◌ (take 16 payload)) (sym (take-append-drop 16 (drop 16 payload)))

  step1-Handles :
      (payload : Bytes) (enc : Bool) (s : Ssp)
      → let (r, t) = handle_open_session_step1 c payload enc s in
        Handles c (opcode_byte OpCode.open_session_step1 ∷ payload) enc s r t
  unfolding handle_open_session_step1 draw
  step1-Handles payload true s = refuses _ (no_challenge_now payload refl (inl refl)) refl refl
  step1-Handles payload false s = elim (Bool-cases (is_ready s.state)) [
    | inr other ↦
        rw other
          (refuses _ (no_challenge_now payload refl (inr (not_ready s.state other))) refl refl)
    | inl e ↦ elim (random16-cases s.random) [
      | inl p ↦ rw (e, p) (exhausts payload refl (is_ready→eq s.state e) refl p refl refl)
      | inr (b, p) ↦
          let s' : Ssp = record s { random_b = some b; random = (random16 s.random).1 } in
          let (ct, ee, big, _) =
            encrypt_payload_lem c lawful (opcode_byte OpCode.open_session_step1 ∷ b) s' in
          rw (e, p, ee)
            (challenges b payload ct refl (is_ready→eq s.state e) refl p (ap first_of ee) refl refl)
    ]
  ]

  finish_step2-Handles :
      (payload b : Bytes) (s : Ssp)
      → s.state ≡ auth_step1
      → s.random_b ≡ some b
      → 32 ≤ length payload
      → let (r, t) = finish_step2 c b (take 16 payload) (take 16 (drop 16 payload)) s in
        Handles c (opcode_byte OpCode.open_session_step2 ∷ payload) true s r t
  unfolding finish_step2
  finish_step2-Handles payload b s st held long =
      let a = take 16 payload in
      let answer = take 16 (drop 16 payload) in
      let rest = drop 16 (drop 16 payload) in
      let a_16 : length a ≡ 16 = omega (arith, length-take 16 payload) in
      elim (Bool-cases (bytes_eq answer (rotate_right b))) [
        | inr e ↦
            let answer_16 : length answer ≡ 16 =
              omega (arith, length-take 16 (drop 16 payload), length-drop 16 payload) in
            rw e (
              rejects a answer b rest st refl held a_16 answer_16
                (ap (◌∷◌ (opcode_byte OpCode.open_session_step2)) (split32 payload))
                (bytes_eq→ne answer (rotate_right b) e) refl refl)
        | inl e ↦
            let s' : Ssp = record s { random_a = some a } in
            let (ct, ee, big, _) =
              encrypt_payload_lem c lawful (opcode_byte OpCode.open_session_step2 ∷ rotate_right a)
                s' in
            let same : answer ≡ rotate_right b = bytes_eq→eq answer (rotate_right b) e in
            let split : payload ≡ a ++ (rotate_right b ++ rest) =
              split32 payload ∙ ap (λ (x : Bytes). a ++ (x ++ rest)) same in
            rw (e, ee)
              (opens a b rest ct st refl held a_16
                (ap (◌∷◌ (opcode_byte OpCode.open_session_step2)) split) (ap first_of ee) refl refl)
      ]

  step2-Handles :
      (payload : Bytes) (enc : Bool) (s : Ssp)
      → let (r, t) = handle_open_session_step2 c payload enc s in
        Handles c (opcode_byte OpCode.open_session_step2 ∷ payload) enc s r t
  unfolding handle_open_session_step2
  step2-Handles payload false s = refuses _ (no_answer_now payload refl (inl refl)) refl refl
  step2-Handles payload true s = elim (Bool-cases (is_auth_step1 s.state)) [
    | inr e ↦
        rw e
          (refuses _ (no_answer_now payload refl (inr (inl (not_auth_step1 s.state e)))) refl refl)
    | inl e ↦ elim (Bool-cases (leb 32 (length payload))) [
      | inr short ↦
          rw (e, short)
            (refuses _ (no_answer_now payload refl (inr (inr (inl (ground arith))))) refl refl)
      | inl long ↦ elim (Option-cases s.random_b) [
        | inl p ↦
            rw (e, long, ap (λ o. ok_or o no_random_b) p)
              (refuses _ (no_answer_now payload refl (inr (inr (inr p)))) refl refl)
        | inr (b, p) ↦
            rw (e, long, ap (λ o. ok_or o no_random_b) p)
              (finish_step2-Handles payload b s (is_auth_step1→eq s.state e) p (ground arith))
      ]
    ]
  ]

  set_key-Handles :
      (payload : Bytes) (enc : Bool) (s : Ssp)
      → let (r, t) = handle_set_key_value c payload s in
        Handles c (opcode_byte OpCode.set_key_value ∷ payload) enc s r t
  unfolding handle_set_key_value
  set_key-Handles [] enc s = elim (Bool-cases (is_in_session s.state)) [
    | inr e ↦ rw e (refuses _ (no_key_now [] refl (inl (not_in_session s.state e))) refl refl)
    | inl e ↦ rw e (refuses _ (no_key_now [] refl (inr (omega arith))) refl refl)
  ]
  set_key-Handles (skipped ∷ bytes) enc s = elim (Bool-cases (is_in_session s.state)) [
    | inr e ↦
        rw e
          (refuses _ (no_key_now (skipped ∷ bytes) refl (inl (not_in_session s.state e))) refl refl)
    | inl e ↦ elim (Bool-cases (leb 17 (length (skipped ∷ bytes)))) [
      | inr short ↦
          rw (e, short)
            (refuses _ (no_key_now (skipped ∷ bytes) refl (inr (ground arith))) refl refl)
      | inl long ↦
          let key = take 16 bytes in
          let s' : Ssp = record s { session_key = some key } in
          let (ct, ee, big, _) =
            encrypt_payload_lem c lawful (opcode_byte OpCode.set_key_value ∷ []) s' in
          let parts : bytes ≡ key ++ drop 16 bytes = sym (take-append-drop 16 bytes) in
          let key_16 : length key ≡ 16 = ground (arith, length-take 16 bytes) in
          rw (e, long, ee)
            (rekeys skipped key (drop 16 bytes) ct (is_in_session→eq s.state e)
              (ap (λ (x : Bytes). opcode_byte OpCode.set_key_value ∷ skipped ∷ x) parts) key_16
              (ap first_of ee) refl refl)
    ]
  ]

  dispatch-Handles :
      (op : OpCode) (payload : Bytes) (enc : Bool) (s : Ssp)
      → let (r, t) = dispatch_opcode c op payload enc s in
        Handles c (opcode_byte op ∷ payload) enc s r t
  unfolding dispatch_opcode handle_get_version
  dispatch-Handles OpCode.error payload enc s = refuses _ (error_opcode payload refl) refl refl
  dispatch-Handles OpCode.open_session_step1 payload enc s = step1-Handles payload enc s
  dispatch-Handles OpCode.open_session_step2 payload enc s = step2-Handles payload enc s
  dispatch-Handles OpCode.set_key_value payload enc s = set_key-Handles payload enc s
  dispatch-Handles OpCode.get_version payload enc s = tells_version payload refl refl refl

  -- Every control payload does one of seven things. It is refused with an error and changes nothing, and
  -- then it has no known opcode or the handler's conditions fail; it is told the version; the draw of a
  -- challenge panics, or is sent encrypted, from the ready state and to a plaintext request; an encrypted
  -- answer that is not the challenge rotated is rejected, back to the ready state; the right one opens the
  -- session with the derived key; or, in a session, the 16 bytes behind one more byte become the key.
  pub control-Handles :
      (payload : Bytes) (enc : Bool) (s : Ssp)
      → let (r, t) = process_control_packet c payload enc s in Handles c payload enc s r t
  unfolding process_control_packet
  control-Handles [] enc s = refuses _ (no_opcode refl) refl refl
  control-Handles (b ∷ payload) enc s = elim (opcode_try_from-cases b) [
    | inl (op, e, p) ↦ rw (e, p) (dispatch-Handles op payload enc s)
    | inr (big, (x, e)) ↦ rw e (refuses x (unknown_opcode b payload refl big) refl refl)
  ]
