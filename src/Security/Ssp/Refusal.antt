-- ===== src/Security/Ssp/Refusal.antt =====
-- crates/mkey-core/src/security/ssp.rs: what an error leaves behind.
use mkey_rs.Prelude.{
  Bool, Bool-cases, Bytes, [], ap, inl, inr, length, subst, sym, ℕ, ◌∙◌, ◌∷◌, ◌≡◌, ◌⊎◌,
}
use mkey_rs.Error.{Error}
use mkey_rs.Result.{Result, Result-cases, err, err-injective}
use mkey_rs.Crypto.Aes.{Cbc, IsCbc}
use mkey_rs.Security.SspTypes.{Ssp, auth_step1, is_control, is_encrypted, ready}
use mkey_rs.Security.Ssp.{process_packet, process_payload, route_payload}
use mkey_rs.Security.Ssp.Channel.{process_encrypted, process_plain}
use mkey_rs.Security.Ssp.Relation.{
  Handles, challenges, exhausts, opens, refuses, rejects, rekeys, tells_version,
}
use mkey_rs.Security.Ssp.Steps.{control-Handles}
use mkey_rs.Security.Ssp.Invariant.{decrypt_payload-iv}
use mkey_rs.Security.Ssp.Authentication.{process_data_packet-same}

-- The manager behind an error: as it was but for the IV, or back to `ready` if the lock failed.
abbrev pub Refused : Error → Ssp → Ssp → Type 0
Refused e s t =
    (iv : Bytes) × ((t ≡ record s { iv = iv })
      ⊎ ((e ≡ Error.authentication_failed)
          × (s.state ≡ auth_step1)
          × (t ≡ record s { iv = iv; state = ready })))

Handles-Refused :
    (c : Cbc) (payload : Bytes) (enc : Bool) (s : Ssp) (iv : Bytes) (r : Result Bytes) (t : Ssp)
    (e : Error)
    → Handles c payload enc (record s { iv = iv }) r t
    → r ≡ err e
    → Refused e s t
Handles-Refused c payload enc s iv r t e (refuses x u p q) h = (iv, inl q)
Handles-Refused c payload enc s iv r t e (tells_version rest p q x) h = cc
Handles-Refused c payload enc s iv r t e (exhausts rest p st f q o x) h = cc
Handles-Refused c payload enc s iv r t e (challenges b rest ct p st f q z o x) h = cc
Handles-Refused c payload enc s iv r t e (rejects a w b rest st f held l m p n o x) h =
    (iv, inr (err-injective r h o, st, x))
Handles-Refused c payload enc s iv r t e (opens a b rest ct st f held l p z o x) h = cc
Handles-Refused c payload enc s iv r t e (rekeys v key rest ct st p l z o x) h = cc

module _ (c : Cbc) (lawful : IsCbc c) where
  route_payload-Refused :
      (cb : ℕ) (payload : Bytes) (s : Ssp) (iv : Bytes) (e : Error) (t : Ssp)
      → route_payload c cb payload (record s { iv = iv }) ≡ (err e, t)
      → Refused e s t
  unfolding route_payload
  route_payload-Refused cb payload s iv e t h = elim (Bool-cases (is_control cb)) [
    | inl q ↦
        let h' = rw q at h in
        let steps = control-Handles c lawful payload (is_encrypted cb) (record s { iv = iv }) in
        subst (Refused e s) (ap (λ x. x.1) h')
          (Handles-Refused c payload (is_encrypted cb) s iv _ _ e steps (ap (λ x. x.0) h'))
    | inr q ↦ (
      iv,
      inl (
          sym (ap (λ x. x.1) (rw q at h))
          ∙ process_data_packet-same payload (record s { iv = iv })),
    )
  ]

  process_payload-Refused :
      (cb : ℕ) (ct : Bytes) (s : Ssp) (e : Error) (t : Ssp)
      → length s.iv ≡ 16
      → process_payload c cb ct s ≡ (err e, t)
      → Refused e s t
  process_payload-Refused cb ct s e t iv_16 h = elim (Bool-cases (is_encrypted cb)) [
    | inr q ↦ route_payload-Refused cb ct s s.iv e t (rw (process_plain c cb ct s q) at h)
    | inl q ↦
        let (r, iv, p, _, safe) = decrypt_payload-iv c lawful ct s iv_16 in
        let h' = rw (process_encrypted c cb ct s q, p) at h in
        elim (Result-cases r safe) [
          | inr (x, z) ↦ (iv, inl (sym (ap (λ y. y.1) (rw z at h'))))
          | inl (payload, z) ↦ route_payload-Refused cb payload s iv e t (rw z at h')
        ]
  ]

  -- A packet that is answered by an error changes nothing but the IV, unless it fails the
  -- authentication: then the state goes back to `ready`, and the rest is kept.
  pub process_packet-Refused :
      (packet : Bytes) (s : Ssp) (e : Error) (t : Ssp)
      → length s.iv ≡ 16
      → process_packet c packet s ≡ (err e, t)
      → Refused e s t
  unfolding process_packet
  process_packet-Refused [] s e t iv_16 h = (s.iv, inl (sym (ap (λ y. y.1) h)))
  process_packet-Refused (cb ∷ []) s e t iv_16 h = (s.iv, inl (sym (ap (λ y. y.1) h)))
  process_packet-Refused (cb ∷ (b ∷ bs)) s e t iv_16 h =
      process_payload-Refused cb (b ∷ bs) s e t iv_16 h
