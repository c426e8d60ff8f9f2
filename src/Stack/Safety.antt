-- ===== src/Stack/Safety.antt =====
-- crates/mkey-core/src/stack.rs: the invariant of the security layer under the packets of the stack.
use mkey_rs.Prelude.{Bool-cases, Bytes, [], false, inl, inr, true, ℕ, ◌∷◌, ◌≡◌}
use mkey_rs.Result.{IsPanic, Result, Result-cases, err, ok, panic}
use mkey_rs.Crypto.Aes.{Cbc, IsCbc}
use mkey_rs.Security.Random.{RandomSource, fixed_random, os_random, random16}
use mkey_rs.Security.SspTypes.{Ssp, is_control, is_encrypted}
use mkey_rs.Security.Ssp.{process_packet}
use mkey_rs.Security.Ssp.Invariant.{Draws16, Inv, Keeps}
use mkey_rs.Security.Ssp.Preservation.{process_packet-Keeps, wrap_data-Keeps}
use mkey_rs.Command.Justin.{Justin, process_command, set_secure_session}
use mkey_rs.Command.Justin.Effects.{IsAnswer, process_command_total}
use mkey_rs.Stack.{
  Stack, handle_control, handle_packet, handle_plain, handle_secure, process_justin, route,
}

-- A source that does not run out gives a value.
endless : (r : RandomSource) → Draws16 true r → ¬ ((random16 r).0 ≡ panic)
unfolding random16
endless (os_random stream drawn) d e = cc
endless (fixed_random f) d e = cc (d.0)

abbrev pub IsSafe : Result Bytes × Ssp → Type 0
IsSafe (r, t) = ¬ (IsPanic r) × Inv true t

Keeps-IsSafe : (s : Ssp) (d : Result Bytes × Ssp) → Inv true s → Keeps true s d → IsSafe d
Keeps-IsSafe s (ok a, t) v k = (λ h. h, k)
Keeps-IsSafe s (err e, t) v k = (λ h. h, k)
Keeps-IsSafe s (panic, t) v k = absurd (endless s.random v.draws k)

IsAnswer-safe : (r : Result Bytes) → IsAnswer r → ¬ (IsPanic r)
IsAnswer-safe (ok a) h p = p
IsAnswer-safe (err e) h p = p
IsAnswer-safe panic h p = h

process_command-safe : (command : Bytes) (j : Justin) → ¬ (IsPanic (process_command command j).0)
process_command-safe command j = elim (process_command_total command j) [
  | inl (known, a) ↦ IsAnswer-safe (process_command command j).0 a
  | inr (unknown, (e, p)) ↦ rw p (λ h. h)
]

abbrev pub IsSound : Result Bytes × Stack → Type 0
IsSound (r, t) = ¬ (IsPanic r) × Inv true t.ssp

module _ (c : Cbc) (lawful : IsCbc c) where
  control-IsSound :
      (cb : ℕ) (rest : Bytes) (s : Stack) → Inv true s.ssp → IsSound (handle_control c cb rest s)
  unfolding handle_control
  control-IsSound cb rest s v =
      Keeps-IsSafe s.ssp (process_packet c (cb ∷ rest) s.ssp) v
        (process_packet-Keeps true c lawful (cb ∷ rest) s.ssp v)

  plain-IsSound :
      (cb : ℕ) (rest : Bytes) (s : Stack) → Inv true s.ssp → IsSound (handle_plain c cb rest s)
  unfolding handle_plain process_justin
  plain-IsSound cb rest s v =
      elim (Result-cases (process_command rest (set_secure_session false s.justin)).0
        (process_command-safe rest (set_secure_session false s.justin))) [
          | inl (a, e) ↦ rw e (λ h. h, v)
          | inr (x, e) ↦ rw e (λ h. h, v)
        ]

  secure-IsSound :
      (cb : ℕ) (rest : Bytes) (s : Stack) → Inv true s.ssp → IsSound (handle_secure c cb rest s)
  unfolding handle_secure process_justin
  secure-IsSound cb rest s v =
      let d = process_packet c (cb ∷ rest) s.ssp in
      let (safe, w) =
        Keeps-IsSafe s.ssp d v (process_packet-Keeps true c lawful (cb ∷ rest) s.ssp v) in
      elim (Result-cases d.0 safe) [
        | inr (x, e) ↦ rw e (λ h. h, w)
        | inl (plain, e) ↦
            elim (Result-cases (process_command plain (set_secure_session true s.justin)).0
              (process_command-safe plain (set_secure_session true s.justin))) [
                | inr (x, p) ↦ rw (e, p) (λ h. h, w)
                | inl (a, p) ↦ rw (e, p) (wrap_data-Keeps true c lawful a d.1 w)
              ]
      ]

  -- With a random source that does not run out, no packet makes the stack panic, and the invariant of
  -- its security layer holds behind every packet.
  pub handle_packet_safe :
      (packet : Bytes) (s : Stack) → Inv true s.ssp → IsSound (handle_packet c packet s)
  unfolding handle_packet route
  handle_packet_safe [] s v = (λ h. h, v)
  handle_packet_safe (cb ∷ []) s v = (λ h. h, v)
  handle_packet_safe (cb ∷ (b ∷ bs)) s v = elim (Bool-cases (is_control cb)) [
    | inl e ↦ rw e (control-IsSound cb (b ∷ bs) s v)
    | inr e ↦ elim (Bool-cases (is_encrypted cb)) [
      | inl p ↦ rw (e, p) (secure-IsSound cb (b ∷ bs) s v)
      | inr p ↦ rw (e, p) (plain-IsSound cb (b ∷ bs) s v)
    ]
  ]
