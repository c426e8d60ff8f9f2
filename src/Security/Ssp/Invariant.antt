-- ===== src/Security/Ssp/Invariant.antt =====
-- crates/mkey-core/src/security/ssp.rs: what holds of the manager between two packets.
use mkey_rs.Prelude.{
  All, Bool, Bool-cases, Bytes, List, Option, Option-cases, [], arith, bytes_eq, drop, false,
  get_elem?, if◌then◌else◌, inl, inr, leb, length, length-drop, ltb, none, not, refl, some, suc,
  take, true, zero, ℕ, ◌%◌, ◌-◌, ◌==◌, ◌||◌, ◌∷◌, ◌≡◌, ◌≤◌,
}
use mkey_rs.Result.{IsPanic, Result, Result-cases, err, ok, panic}
use mkey_rs.Crypto.Padding.{remove_padding, remove_padding-safe}
use mkey_rs.Security.Random.{RandomSource, fixed_random, os_random, random16}
use mkey_rs.Security.SspTypes.{
  Ssp, SspState, auth_step1, current_encryption_key, in_session, is_auth_step1, is_in_session,
  is_ready, last16, ready, reset, update_iv_from_ciphertext, with_random,
}
use mkey_rs.Security.Ssp.{bad_length, check_payload, decrypt_payload}
use mkey_rs.Crypto.Crc.{crc16_ssp}
use mkey_rs.Error.{Error}
use mkey_rs.Crypto.Aes.{Cbc, IsCbc, decrypt_aes_cbc}

abbrev pub Is16 : Option Bytes → Type 0
Is16 none = Unit
Is16 (some k) = length k ≡ 16

-- Which of the session key, `RandomB` and `RandomA` a state holds.
abbrev pub Holds : SspState → Option Bytes → Option Bytes → Option Bytes → Type 0
Holds ready none b a = Unit
Holds ready (some k) b a = ⊥
Holds auth_step1 none (some b) a = Unit
Holds auth_step1 none none a = ⊥
Holds auth_step1 (some k) b a = ⊥
Holds in_session (some k) (some b) (some a) = Unit
Holds in_session (some k) (some b) none = ⊥
Holds in_session (some k) none a = ⊥
Holds in_session none b a = ⊥

-- A source of `[u8; 16]` values, and where `k` holds one that does not run out.
abbrev pub Draws16 : Bool → RandomSource → Type 0
Draws16 k (os_random stream drawn) = (i : ℕ) → length (stream i) ≡ 16
Draws16 k (fixed_random f) = (k ≡ false) × All (λ v. length v ≡ 16) f.values

pub record Inv (k : Bool) (s : Ssp) : Type 0 where
  pub iv_16 : length s.iv ≡ 16
  pub kn_16 : length s.kn_key ≡ 16
  pub key_16 : Is16 s.session_key
  pub b_16 : Is16 s.random_b
  pub a_16 : Is16 s.random_a
  pub holds : Holds s.state s.session_key s.random_b s.random_a
  pub draws : Draws16 k s.random

-- After a packet the invariant holds, and only a random source without values left panics.
abbrev pub Keeps : Bool → Ssp → Result Bytes × Ssp → Type 0
Keeps k s (ok a, t) = Inv k t
Keeps k s (err e, t) = Inv k t
Keeps k s (panic, t) = (random16 s.random).0 ≡ panic

pub with_random-Inv :
    (k : Bool) (kn : Bytes) (random : RandomSource)
    → length kn ≡ 16
    → Draws16 k random
    → Inv k (with_random kn random)
unfolding with_random
with_random-Inv k kn random h d = record {
  iv_16 = refl;
  kn_16 = h;
  key_16 = tt;
  b_16 = tt;
  a_16 = tt;
  holds = tt;
  draws = d;
}

pub reset-Inv : (k : Bool) (s : Ssp) → Inv k s → Inv k (reset s)
unfolding reset
reset-Inv k s v = record {
  iv_16 = refl;
  kn_16 = v.kn_16;
  key_16 = tt;
  b_16 = tt;
  a_16 = tt;
  holds = tt;
  draws = v.draws;
}

All-get_elem? : (xs : List Bytes) (i : ℕ) → All (λ v. length v ≡ 16) xs → Is16 (get_elem? xs i)
All-get_elem? [] i h = tt
All-get_elem? (x ∷ xs) zero h = h.0
All-get_elem? (x ∷ xs) (suc i) h = All-get_elem? xs i h.1

abbrev pub Drew : Bool → Result Bytes × RandomSource → Type 0
Drew k (ok v, r) = (length v ≡ 16) × Draws16 k r
Drew k (err e, r) = ⊥
Drew k (panic, r) = Unit

pub random16-Drew : (k : Bool) (r : RandomSource) → Draws16 k r → Drew k (random16 r)
unfolding random16
random16-Drew k (os_random stream drawn) h = (h drawn, h)
random16-Drew k (fixed_random f) h = elim (Option-cases (get_elem? f.values f.next)) [
  | inl e ↦ rw e tt
  | inr (x, e) ↦ rw e ((rw e at (All-get_elem? f.values f.next h.1)), h)
]

pub set_iv-Inv :
    (k : Bool) (s : Ssp) (iv : Bytes) → Inv k s → length iv ≡ 16 → Inv k (record s { iv = iv })
set_iv-Inv k s iv v h = record {
  iv_16 = h;
  kn_16 = v.kn_16;
  key_16 = v.key_16;
  b_16 = v.b_16;
  a_16 = v.a_16;
  holds = v.holds;
  draws = v.draws;
}

pub length-last16 : (xs : Bytes) → 16 ≤ length xs → length (last16 xs) ≡ 16
length-last16 xs h = omega (arith, length-drop (length xs - 16) xs)

pub check_payload-safe : (xs : Bytes) → ¬ (IsPanic (check_payload xs))
unfolding check_payload
check_payload-safe xs = elim (Result-cases (remove_padding xs) (remove_padding-safe xs)) [
  | inr (e, p) ↦ rw p (λ h. h)
  | inl (u, p) ↦ rw p (elim (Bool-cases (ltb (length u) 2)) [
    | inl short ↦ rw short (λ h. h)
    | inr long ↦ rw long (checked u)
  ])
]
  where
    checked :
        (u : Bytes)
        → ¬ (
            IsPanic (
              if bytes_eq (drop (length u - 2) u) (crc16_ssp (take (length u - 2) u))
              then ok (take (length u - 2) u)
              else err Error.invalid_crc))
    checked u =
        elim (Bool-cases (bytes_eq (drop (length u - 2) u) (crc16_ssp (take (length u - 2) u)))) [
          | inl e ↦ rw e (λ h. h)
          | inr e ↦ rw e (λ h. h)
        ]

pub Holds-step1 :
    (st : SspState) (k rb ra : Option Bytes) (b : Bytes)
    → is_ready st ≡ true
    → Holds st k rb ra
    → Holds auth_step1 k (some b) ra
Holds-step1 ready none rb ra b e h = tt
Holds-step1 ready (some k) rb ra b e h = h
Holds-step1 auth_step1 k rb ra b e h = cc
Holds-step1 in_session k rb ra b e h = cc

pub Holds-rekey :
    (st : SspState) (k rb ra : Option Bytes) (key : Bytes)
    → is_in_session st ≡ true
    → Holds st k rb ra
    → Holds st (some key) rb ra
Holds-rekey ready k rb ra key e h = cc
Holds-rekey auth_step1 k rb ra key e h = cc
Holds-rekey in_session none rb ra key e h = absurd h
Holds-rekey in_session (some k) none ra key e h = absurd h
Holds-rekey in_session (some k) (some b) none key e h = absurd h
Holds-rekey in_session (some k) (some b) (some a) key e h = tt

pub Holds-auth :
    (k : Bool) (s : Ssp)
    → Inv k s
    → is_auth_step1 s.state ≡ true
    → (b : Bytes) × (s.random_b ≡ some b) × (length b ≡ 16) × (s.session_key ≡ none)
Holds-auth k s v e = go s.state s.session_key s.random_b e v.holds v.b_16
  where
    go :
        (st : SspState) (k rb : Option Bytes)
        → is_auth_step1 st ≡ true
        → Holds st k rb s.random_a
        → Is16 rb
        → (b : Bytes) × (rb ≡ some b) × (length b ≡ 16) × (k ≡ none)
    go ready k rb e h l = cc
    go auth_step1 none none e h l = absurd h
    go auth_step1 none (some b) e h l = (b, refl, l, refl)
    go auth_step1 (some k) rb e h l = absurd h
    go in_session k rb e h l = cc

module _ (c : Cbc) (lawful : IsCbc c) where
  -- Decrypting moves nothing but the IV.
  pub decrypt_payload-iv :
      (ct : Bytes) (s : Ssp)
      → length s.iv ≡ 16
      → (r : Result Bytes) × (iv : Bytes) × (decrypt_payload c ct s ≡ (r, record s { iv = iv }))
        × (length iv ≡ 16)
        × (¬ (IsPanic r))
  unfolding decrypt_payload update_iv_from_ciphertext decrypt_aes_cbc
  decrypt_payload-iv ct s h = elim (Bool-cases (ltb (length ct) 16 || not (length ct % 16 == 0))) [
    | inl bad ↦ (err (bad_length ct), s.iv, rw bad refl, h, λ p. p)
    | inr good ↦
        let long : leb 16 (length ct) ≡ true = ground arith in
        let blocks : length ct % 16 ≡ 0 = ground arith in
        let (plain, e, l) = lawful.decrypts (current_encryption_key s) s.iv ct blocks in
        (
          check_payload plain,
          last16 ct,
          rw (good, e, long) refl,
          length-last16 ct (ground arith),
          check_payload-safe plain,
        )
  ]
