-- ===== src/Security/Ssp/Handshake.antt =====
-- crates/mkey-core/src/security/ssp.rs against an honest lock: the OpenSession handshake, and the
-- encrypted data packets behind it.
pub mod Opening
use mkey_rs.Prelude.{
  Bool, Bytes, List, [], bytes_eq, drop, false, map, refl, some, sym, true, ◌++◌, ◌∷◌, ◌≡◌,
}
use mkey_rs.Error.{Error, authentication_failed}
use mkey_rs.Result.{Exec, Result, and_then, ensure, modify, ok, pure, ◌>>=◌, ◌>>◌}
use mkey_rs.Crypto.Rotation.{rotate_right}
use mkey_rs.Crypto.SessionKey.{derive_session_key}
use mkey_rs.Crypto.Aes.{Cbc, IsCbc}
use mkey_rs.Security.SspTypes.{
  OpCode, Ssp, build_open_session_step1_request, current_encryption_key, encrypted_control,
  in_session, is_encrypted, is_in_session, last16, opcode_byte, open_session_step2, unwrap_or,
}
use mkey_rs.Security.Ssp.{encrypt_payload, process_packet, unwrap_data, wrap_data}
use mkey_rs.Security.Ssp.Channel.{encrypt_payload_lem}

-- The lock is firmware, so it stands here as a specification: it uses the same payload cipher, reads
-- `RandomB`, and challenges the phone with its own `RandomA`.
module _ (c : Cbc) where
  abbrev pub lock_challenge : Bytes → Bytes → Exec Ssp Bytes
  lock_challenge a packet = do
    reply ← unwrap_data c packet
    let b = drop 1 reply
    modify (λ l. record l { random_a = some a; random_b = some b })
    ct ← encrypt_payload c (opcode_byte OpCode.open_session_step2 ∷ (a ++ rotate_right b))
    pure (encrypted_control ∷ ct)

  -- The lock accepts the phone that returns `RandomA` rotated, and takes the session key over.
  abbrev pub lock_confirm : Bytes → Bytes → Bytes → Exec Ssp (Unit {0})
  lock_confirm a b packet = do
    reply ← unwrap_data c packet
    ensure (bytes_eq reply (opcode_byte OpCode.open_session_step2 ∷ rotate_right a))
        Error.authentication_failed
    modify (λ l. record l { session_key = some (derive_session_key a b); state = in_session })

  -- The four packets of the handshake, between a phone and a lock. The lock computes the key from
  -- the `RandomB` that it read.
  abbrev pub handshake : Bytes → Ssp → Ssp → Result (Ssp × Ssp)
  handshake a phone lock =
      let (r1, phone1) = process_packet c build_open_session_step1_request phone in
      and_then r1 λ reply1.
        let (r2, lock1) = lock_challenge a reply1 lock in
        and_then r2 λ challenge.
          let (r3, phone2) = process_packet c challenge phone1 in
          and_then r3 λ reply2.
            let (r4, lock2) = lock_confirm a (unwrap_or lock1.random_b []) reply2 lock1 in
            and_then r4 λ _. ok (phone2, lock2)

  -- One side wraps each message and the other unwraps it; the flag says whether the first side
  -- speaks. The list is what was delivered.
  abbrev pub send : Ssp → Ssp → Bytes → Result (Bytes × Ssp × Ssp)
  send from to message =
      let (r1, from') = wrap_data c message from in
      and_then r1
        λ packet. let (r2, to') = unwrap_data c packet to in and_then r2 λ got. ok (got, from', to')

  abbrev pub converse : Ssp → Ssp → List (Bool × Bytes) → Result (List Bytes)
  converse p q [] = ok []
  converse p q ((true, m) ∷ ms) =
      and_then (send p q m) λ (got, p', q'). and_then (converse p' q' ms) λ rest. ok (got ∷ rest)
  converse p q ((false, m) ∷ ms) =
      and_then (send q p m) λ (got, q', p'). and_then (converse p' q' ms) λ rest. ok (got ∷ rest)

-- Two sides of an established session that agree on the key and on the IV.
pub record Synced (p q : Ssp) : Type 0 where
  pub first_open : p.state ≡ in_session
  pub second_open : q.state ≡ in_session
  pub same_key : current_encryption_key p ≡ current_encryption_key q
  pub same_iv : p.iv ≡ q.iv

module _ (c : Cbc) (lawful : IsCbc c) where
  send_lem :
      (p q : Ssp) (m : Bytes)
      → Synced p q
      → (p' : Ssp) × (q' : Ssp) × (send c p q m ≡ ok (m, p', q')) × Synced p' q'
  unfolding wrap_data unwrap_data is_encrypted current_encryption_key
  send_lem p q m sync =
      let (ct, e, long, d) = encrypt_payload_lem c lawful m p in
      let open_p : is_in_session p.state ≡ true = rw (sync.first_open) refl in
      (
        record p { iv = last16 ct },
        record q { iv = last16 ct },
        rw (open_p, e, d q (sym sync.same_key) (sym sync.same_iv)) refl,
        record {
          first_open = sync.first_open;
          second_open = sync.second_open;
          same_key = sync.same_key;
          same_iv = refl;
        },
      )

  Synced-sym : (p q : Ssp) → Synced p q → Synced q p
  Synced-sym p q s = record {
    first_open = s.second_open;
    second_open = s.first_open;
    same_key = sym s.same_key;
    same_iv = sym s.same_iv;
  }

  -- In an established session every message arrives, as it was sent and in order, whichever side
  -- speaks: neither side loses the other's IV.
  pub converse_lem :
      (p q : Ssp) (ms : List (Bool × Bytes))
      → Synced p q
      → converse c p q ms ≡ ok (map (λ m. m.1) ms)
  converse_lem p q [] sync = refl
  converse_lem p q ((true, m) ∷ ms) sync =
      let (p', q', e, sync') = send_lem p q m sync in rw (e, converse_lem p' q' ms sync') refl
  converse_lem p q ((false, m) ∷ ms) sync =
      let (q', p', e, sync') = send_lem q p m (Synced-sym p q sync) in
      rw (e, converse_lem p' q' ms (Synced-sym q' p' sync')) refl
