-- ===== src/Security/Ssp/Authentication.antt =====
-- crates/mkey-core/src/security/ssp.rs: who can open a session, and what an error leaves behind.
use mkey_rs.Prelude.{
  Bool, Bool-cases, Bytes, [], ap, arith, inl, inr, length, refl, some, sym, true, ℕ, ◌++◌, ◌∙◌,
  ◌∷◌, ◌≡◌, ◌≢◌,
}
use mkey_rs.Result.{Result, continue, err, ok, panic}
use mkey_rs.Crypto.Rotation.{rotate_right}
use mkey_rs.Crypto.SessionKey.{derive_session_key}
use mkey_rs.Crypto.Aes.{Cbc, IsCbc}
use mkey_rs.Security.SspTypes.{
  OpCode, Ssp, auth_step1, in_session, is_control, is_encrypted, opcode_byte, ready,
}
use mkey_rs.Security.Ssp.{
  decrypt_payload, process_data_packet, process_packet, process_payload, route_payload,
}
use mkey_rs.Security.Ssp.Relation.{
  Handles, challenges, exhausts, opens, refuses, rejects, rekeys, tells_version,
}
use mkey_rs.Security.Ssp.Steps.{control-Handles}
use mkey_rs.Security.Ssp.Channel.{process_encrypted, process_plain}
use mkey_rs.Security.Ssp.Invariant.{decrypt_payload-iv}

-- What a payload holds that opens a session with a manager, and the key that results.
abbrev pub Proves : Bytes → Ssp → Ssp → Type 0
Proves payload s t =
    (a : Bytes) × (b : Bytes) × (rest : Bytes) × (s.state ≡ auth_step1)
    × (s.random_b ≡ some b)
    × (length a ≡ 16)
    × (payload ≡ opcode_byte OpCode.open_session_step2 ∷ (a ++ (rotate_right b ++ rest)))
    × (t.session_key ≡ some (derive_session_key a b))

Handles-Proves :
    (c : Cbc) (payload : Bytes) (enc : Bool) (s : Ssp) (r : Result Bytes) (t : Ssp)
    → Handles c payload enc s r t
    → s.state ≢ in_session
    → t.state ≡ in_session
    → (enc ≡ true) × Proves payload s t
Handles-Proves c payload enc s r t (refuses x u p e) out i =
    absurd (out (ap (λ (x : Ssp). x.state) (sym e) ∙ i))
Handles-Proves c payload enc s r t (tells_version rest p q e) out i =
    absurd (out (ap (λ (x : Ssp). x.state) (sym e) ∙ i))
Handles-Proves c payload enc s r t (exhausts rest p st f q o e) out i =
    absurd (out (ap (λ (x : Ssp). x.state) (sym e) ∙ i))
Handles-Proves c payload enc s r t (challenges b rest ct p st f q z o e) out i =
    let k : auth_step1 ≡ in_session = ap (λ (x : Ssp). x.state) (sym e) ∙ i in cc
Handles-Proves c payload enc s r t (rejects a w b rest st f held l m p n o e) out i =
    let k : ready ≡ in_session = ap (λ (x : Ssp). x.state) (sym e) ∙ i in cc
Handles-Proves c payload enc s r t (opens a b rest ct st f held l p z o e) out i =
    (f, (a, b, rest, st, held, l, p, ap (λ (x : Ssp). x.session_key) e))
Handles-Proves c payload enc s r t (rekeys v key rest ct st p l z o e) out i = absurd (out st)

pub process_data_packet-same : (payload : Bytes) (s : Ssp) → (process_data_packet payload s).1 ≡ s
unfolding process_data_packet
process_data_packet-same payload s = ground arith

module _ (c : Cbc) (lawful : IsCbc c) where
  route_payload-Proves :
      (cb : ℕ) (payload : Bytes) (s : Ssp)
      → s.state ≢ in_session
      → (route_payload c cb payload s).1.state ≡ in_session
      → (is_encrypted cb ≡ true) × Proves payload s (route_payload c cb payload s).1
  unfolding route_payload
  route_payload-Proves cb payload s out i = elim (Bool-cases (is_control cb)) [
    | inl e ↦ rw e (
        Handles-Proves c payload (is_encrypted cb) s _ _
          (control-Handles c lawful payload (is_encrypted cb) s) out (rw e at i))
    | inr e ↦
        absurd
          (out (ap (λ (x : Ssp). x.state) (sym (process_data_packet-same payload s)) ∙ (rw e at i)))
  ]

  continue-Proves :
      (cb : ℕ) (s : Ssp) (iv : Bytes) (r : Result Bytes)
      → is_encrypted cb ≡ true
      → s.state ≢ in_session
      → (continue (r, record s { iv = iv }) (route_payload c cb)).1.state ≡ in_session
      → (payload : Bytes) × (r ≡ ok payload)
        × Proves payload s (continue (r, record s { iv = iv }) (route_payload c cb)).1
  continue-Proves cb s iv (ok payload) e out i =
      (payload, refl, (route_payload-Proves cb payload (record s { iv = iv }) out i).1)
  continue-Proves cb s iv (err x) e out i = absurd (out i)
  continue-Proves cb s iv panic e out i = absurd (out i)

  process_payload-Proves :
      (cb : ℕ) (ct : Bytes) (s : Ssp)
      → length s.iv ≡ 16
      → s.state ≢ in_session
      → (process_payload c cb ct s).1.state ≡ in_session
      → (is_encrypted cb ≡ true)
        × ((payload : Bytes) × ((decrypt_payload c ct s).0 ≡ ok payload)
            × Proves payload s (process_payload c cb ct s).1)
  process_payload-Proves cb ct s iv_16 out i = elim (Bool-cases (is_encrypted cb)) [
    | inr e ↦
        let f = (route_payload-Proves cb ct s out (rw (process_plain c cb ct s e) at i)).0 in cc
    | inl e ↦
        let (r, iv, p, _, _) = decrypt_payload-iv c lawful ct s iv_16 in
        let q = process_encrypted c cb ct s e in
        (e, rw (q, p) (continue-Proves cb s iv r e out (rw (q, p) at i)))
  ]

  -- A session opens on one kind of packet only: an encrypted one, in answer to the challenge that
  -- this manager drew, which decrypts under its key to that challenge rotated by one byte, behind the
  -- 16 bytes of `RandomA`. The session key is then the one derived from the two.
  pub session_needs_challenge :
      (packet : Bytes) (s : Ssp)
      → length s.iv ≡ 16
      → s.state ≢ in_session
      → (process_packet c packet s).1.state ≡ in_session
      → (cb : ℕ) × (ct : Bytes) × (packet ≡ cb ∷ ct)
        × (is_encrypted cb ≡ true)
        × ((payload : Bytes) × ((decrypt_payload c ct s).0 ≡ ok payload)
            × Proves payload s (process_packet c packet s).1)
  unfolding process_packet
  session_needs_challenge [] s iv_16 out i = absurd (out i)
  session_needs_challenge (cb ∷ []) s iv_16 out i = absurd (out i)
  session_needs_challenge (cb ∷ (b ∷ bs)) s iv_16 out i =
      let (e, d) = process_payload-Proves cb (b ∷ bs) s iv_16 out i in (cb, b ∷ bs, refl, e, d)
