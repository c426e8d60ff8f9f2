-- ===== src/Security/Ssp/Preservation.antt =====
-- crates/mkey-core/src/security/ssp.rs: every method of the manager keeps the invariant, on errors too.
use mkey_rs.Prelude.{
  Bool, Bool-cases, Bytes, [], arith, bytes_eq, drop, false, inl, inr, leb, length, length-drop,
  length-take, none, refl, some, take, true, ℕ, ◌∷◌, ◌≡◌, ◌≤◌, ◌⊎◌,
}
use mkey_rs.Result.{IsPanic, Result, Result-cases, err, ok, panic}
use mkey_rs.Crypto.Aes.{Cbc, IsCbc}
use mkey_rs.Security.Random.{RandomSource, random16}
use mkey_rs.Security.SspTypes.{
  OpCode, Ssp, is_auth_step1, is_control, is_encrypted, is_in_session, is_ready, last16,
  opcode_byte, opcode_try_from,
}
use mkey_rs.Security.Ssp.{
  draw, finish_step2, handle_get_version, handle_open_session_step1, handle_open_session_step2,
  handle_set_key_value, process_control_packet, process_data_packet, process_packet,
  process_payload, route_payload, wrap_data,
}
use mkey_rs.Crypto.Rotation.{rotate_right}
use mkey_rs.Security.Ssp.Channel.{encrypt_payload_lem, process_encrypted, process_plain}
use mkey_rs.Crypto.SessionKey.{length-derive_session_key}
use mkey_rs.Security.Ssp.Invariant.{
  Draws16, Drew, Holds-auth, Holds-rekey, Holds-step1, Inv, Keeps, decrypt_payload-iv,
  length-last16, random16-Drew, set_iv-Inv,
}

module _ (k : Bool) (c : Cbc) (lawful : IsCbc c) where
  draw-cases :
      (s : Ssp)
      → Inv k s
      → ((random16 s.random).0 ≡ panic)
        ⊎ ((b : Bytes) × (r : RandomSource) × (random16 s.random ≡ (ok b, r))
            × (length b ≡ 16)
            × Draws16 k r)
  draw-cases s v = go (random16 s.random) (random16-Drew k s.random v.draws)
    where
      go :
          (d : Result Bytes × RandomSource)
          → Drew k d
          → (d.0 ≡ panic)
            ⊎ ((b : Bytes) × (r : RandomSource) × (d ≡ (ok b, r)) × (length b ≡ 16) × Draws16 k r)
      go (ok b, r) h = inr (b, r, refl, h.0, h.1)
      go (err e, r) h = absurd h
      go (panic, r) h = inl refl

  step1-Keeps :
      (payload : Bytes) (enc : Bool) (s : Ssp)
      → Inv k s
      → Keeps k s (handle_open_session_step1 c payload enc s)
  unfolding handle_open_session_step1 draw
  step1-Keeps payload true s v = v
  step1-Keeps payload false s v = elim (Bool-cases (is_ready s.state)) [
    | inr e ↦ rw e v
    | inl e ↦ elim (draw-cases s v) [
      | inl p ↦ rw (e, p) p
      | inr (b, r, p, l, d) ↦
          let s' : Ssp = record s { random_b = some b; random = r } in
          let (ct, ee, long, _) =
            encrypt_payload_lem c lawful (opcode_byte OpCode.open_session_step1 ∷ b) s' in
          rw (e, p, ee)
            (record {
              iv_16 = length-last16 ct long;
              kn_16 = v.kn_16;
              key_16 = v.key_16;
              b_16 = l;
              a_16 = v.a_16;
              holds = Holds-step1 s.state s.session_key s.random_b s.random_a b e v.holds;
              draws = d;
            })
    ]
  ]

  finish_step2-Keeps :
      (s : Ssp) (payload b : Bytes)
      → Inv k s
      → length b ≡ 16
      → s.session_key ≡ none
      → 32 ≤ length payload
      → Keeps k s (
          finish_step2 c b
            (take 16 payload)
            (take 16 (drop 16 payload))
            (record s { random_b = some b }))
  unfolding finish_step2
  finish_step2-Keeps s payload b v l no_key long =
      elim (Bool-cases (bytes_eq (take 16 (drop 16 payload)) (rotate_right b))) [
        | inr e ↦ rw e (record {
          iv_16 = v.iv_16;
          kn_16 = v.kn_16;
          key_16 = v.key_16;
          b_16 = l;
          a_16 = v.a_16;
          holds = rw no_key tt;
          draws = v.draws;
        })
        | inl e ↦
            let a = take 16 payload in
            let s' : Ssp = record s { random_b = some b; random_a = some a } in
            let (ct, ee, big, _) =
              encrypt_payload_lem c lawful (opcode_byte OpCode.open_session_step2 ∷ rotate_right a)
                s' in
            let a_16 : length a ≡ 16 = omega (arith, length-take 16 payload) in
            rw (e, ee)
              (record {
                iv_16 = length-last16 ct big;
                kn_16 = v.kn_16;
                key_16 = length-derive_session_key a b a_16 l;
                b_16 = l;
                a_16 = a_16;
                holds = tt;
                draws = v.draws;
              })
      ]

  step2-Keeps :
      (payload : Bytes) (enc : Bool) (s : Ssp)
      → Inv k s
      → Keeps k s (handle_open_session_step2 c payload enc s)
  unfolding handle_open_session_step2
  step2-Keeps payload false s v = v
  step2-Keeps payload true s v = elim (Bool-cases (is_auth_step1 s.state)) [
    | inr e ↦ rw e v
    | inl e ↦ elim (Bool-cases (leb 32 (length payload))) [
      | inr short ↦ rw (e, short) v
      | inl long ↦
          let (b, held, l, no_key) = Holds-auth k s v e in
          rw (e, long, held) (finish_step2-Keeps s payload b v l no_key (ground arith))
    ]
  ]

  set_key-Keeps :
      (payload : Bytes) (s : Ssp) → Inv k s → Keeps k s (handle_set_key_value c payload s)
  unfolding handle_set_key_value
  set_key-Keeps payload s v = elim (Bool-cases (is_in_session s.state)) [
    | inr e ↦ rw e v
    | inl e ↦ elim (Bool-cases (leb 17 (length payload))) [
      | inr short ↦ rw (e, short) v
      | inl long ↦
          let key = take 16 (drop 1 payload) in
          let enough : 17 ≤ length payload = ground arith in
          let s' : Ssp = record s { session_key = some key } in
          let (ct, ee, big, _) =
            encrypt_payload_lem c lawful (opcode_byte OpCode.set_key_value ∷ []) s' in
          rw (e, long, ee)
            (record {
              iv_16 = length-last16 ct big;
              kn_16 = v.kn_16;
              key_16 = omega (arith, length-take 16 (drop 1 payload), length-drop 1 payload);
              b_16 = v.b_16;
              a_16 = v.a_16;
              holds = Holds-rekey s.state s.session_key s.random_b s.random_a key e v.holds;
              draws = v.draws;
            })
    ]
  ]

  control-Keeps :
      (payload : Bytes) (enc : Bool) (s : Ssp)
      → Inv k s
      → Keeps k s (process_control_packet c payload enc s)
  unfolding process_control_packet opcode_try_from handle_get_version
  control-Keeps [] enc s v = v
  control-Keeps (b ∷ payload) enc s v =
      ground
        (arith, step1-Keeps payload enc s v, step2-Keeps payload enc s v, set_key-Keeps payload s v)

  data-Keeps : (payload : Bytes) (s : Ssp) → Inv k s → Keeps k s (process_data_packet payload s)
  unfolding process_data_packet
  data-Keeps payload s v = ground arith

  route_payload-Keeps :
      (cb : ℕ) (payload : Bytes) (s : Ssp) → Inv k s → Keeps k s (route_payload c cb payload s)
  unfolding route_payload
  route_payload-Keeps cb payload s v = elim (Bool-cases (is_control cb)) [
    | inl e ↦ rw e (control-Keeps payload (is_encrypted cb) s v)
    | inr e ↦ rw e (data-Keeps payload s v)
  ]

  process_payload-Keeps :
      (cb : ℕ) (rest : Bytes) (s : Ssp) → Inv k s → Keeps k s (process_payload c cb rest s)
  process_payload-Keeps cb rest s v = elim (Bool-cases (is_encrypted cb)) [
    | inr e ↦ rw (process_plain c cb rest s e) (route_payload-Keeps cb rest s v)
    | inl e ↦
        let (r, iv, p, l, safe) = decrypt_payload-iv c lawful rest s v.iv_16 in
        elim (Result-cases r safe) [
          | inr (x, q) ↦ rw (process_encrypted c cb rest s e, p, q) (set_iv-Inv k s iv v l)
          | inl (payload, q) ↦
              rw (process_encrypted c cb rest s e, p, q)
                (route_payload-Keeps cb payload (record s { iv = iv }) (set_iv-Inv k s iv v l))
        ]
  ]

  -- Whatever a packet holds, the manager that has read it satisfies the invariant again, also where
  -- the packet is refused; it panics only where the random source does.
  pub process_packet-Keeps :
      (packet : Bytes) (s : Ssp) → Inv k s → Keeps k s (process_packet c packet s)
  unfolding process_packet
  process_packet-Keeps [] s v = v
  process_packet-Keeps (cb ∷ []) s v = v
  process_packet-Keeps (cb ∷ (b ∷ bs)) s v = process_payload-Keeps cb (b ∷ bs) s v

  -- So do the two methods for data, which never panic.
  pub wrap_data-Keeps :
      (bytes : Bytes) (s : Ssp)
      → Inv k s
      → ¬ (IsPanic (wrap_data c bytes s).0) × Inv k (wrap_data c bytes s).1
  unfolding wrap_data
  wrap_data-Keeps bytes s v = elim (Bool-cases (is_in_session s.state)) [
    | inr e ↦ rw e (λ h. h, v)
    | inl e ↦
        let (ct, ee, big, _) = encrypt_payload_lem c lawful bytes s in
        rw (e, ee) (λ h. h, set_iv-Inv k s (last16 ct) v (length-last16 ct big))
  ]
