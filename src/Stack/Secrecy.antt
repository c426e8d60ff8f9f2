-- ===== src/Stack/Secrecy.antt =====
-- crates/mkey-core/src/stack.rs: what plaintext packets reveal, and what a secure session delivers.
use mkey_rs.Prelude.{Bytes, List, [], arith, false, length, refl, sym, true, ℕ, ◌<◌, ◌∷◌, ◌≡◌}
use mkey_rs.Command.Justin.{Justin, process_command, set_secure_session}
use mkey_rs.Result.{Result, err, ok, panic}
use mkey_rs.Crypto.Aes.{Cbc, IsCbc}
use mkey_rs.Security.SspTypes.{
  Ssp, current_encryption_key, encrypted_data, in_session, is_control, is_encrypted, is_in_session,
  last16,
}
use mkey_rs.Stack.{Stack, handle_packet, handle_secure, process_justin, route}
use mkey_rs.Security.Ssp.Handshake.{Synced}
use mkey_rs.Security.Ssp.{
  decrypt_payload, process_data_packet, process_packet, unwrap_data, wrap_data,
}
use mkey_rs.Security.Ssp.Channel.{encrypt_payload_lem}

-- Data packets in the clear, with a byte at least behind the control byte.
abbrev pub IsPlain : Bytes → Type 0
IsPlain [] = ⊥
IsPlain (cb ∷ []) = ⊥
IsPlain (cb ∷ (b ∷ bs)) = (is_control cb ≡ false) × (is_encrypted cb ≡ false)

module _ (c : Cbc) where
  -- The answers of a stack to a sequence of packets.
  abbrev pub answers : List Bytes → Stack → List (Result Bytes)
  answers [] s = []
  answers (p ∷ ps) s = (handle_packet c p s).0 ∷ answers ps (handle_packet c p s).1

  abbrev prefixed : ℕ → Result Bytes → Result Bytes
  prefixed cb (ok response) = ok (cb ∷ response)
  prefixed cb (err e) = err e
  prefixed cb panic = panic

secure_packet :
    (c : Cbc) (ct : Bytes) (s : Stack)
    → 0 < length ct
    → handle_packet c (encrypted_data ∷ ct) s ≡ handle_secure c encrypted_data ct s
unfolding handle_packet route is_control is_encrypted
secure_packet c [] s h = absurd (omega arith)
secure_packet c (b ∷ bs) s h = refl

data_packet :
    (c : Cbc) (plain ct : Bytes) (s t : Ssp)
    → 0 < length ct
    → t.state ≡ in_session
    → decrypt_payload c ct s ≡ (ok plain, t)
    → process_packet c (encrypted_data ∷ ct) s ≡ (ok plain, t)
unfolding process_packet is_control is_encrypted process_data_packet
data_packet c plain [] s t pos st e = absurd (omega arith)
data_packet c plain (b ∷ bs) s t pos st e =
    let opened : is_in_session t.state ≡ true = rw st refl in rw (e, opened) refl

module _ (c : Cbc) (lawful : IsCbc c) where
  -- Inside a session: the lock wraps a command, the stack answers it, and the lock unwraps the answer
  -- that the command layer gave in its secure mode. Both sides stay in step, and the secure mode ends
  -- with the packet.
  pub secure_command :
      (lock : Ssp) (s : Stack) (command response : Bytes)
      → Synced lock s.ssp
      → (process_command command (set_secure_session true s.justin)).0 ≡ ok response
      → (packet : Bytes) × (lock1 : Ssp) × (reply : Bytes) × (t : Stack) × (lock2 : Ssp)
        × (wrap_data c command lock ≡ (ok packet, lock1))
        × (handle_packet c packet s ≡ (ok reply, t))
        × (unwrap_data c reply lock1 ≡ (ok response, lock2))
        × Synced lock2 t.ssp
        × (t.justin
            ≡ set_secure_session s.justin.secure_session
                (process_command command (set_secure_session true s.justin)).1)
  unfolding wrap_data unwrap_data handle_secure process_justin is_encrypted current_encryption_key
  secure_command lock s command response sync e =
      let (ct, e1, long1, d1) = encrypt_payload_lem c lawful command lock in
      let ssp1 : Ssp = record s.ssp { iv = last16 ct } in
      let lock1 : Ssp = record lock { iv = last16 ct } in
      let (ct', e2, long2, d2) = encrypt_payload_lem c lawful response ssp1 in
      let opened : is_in_session s.ssp.state ≡ true = rw sync.second_open refl in
      let opened' : is_in_session lock.state ≡ true = rw sync.first_open refl in
      let got =
        data_packet c command ct s.ssp ssp1 (omega arith) sync.second_open
          (d1 s.ssp (sym sync.same_key) (sym sync.same_iv)) in
      (
        encrypted_data ∷ ct,
        lock1,
        encrypted_data ∷ ct',
        record s {
          ssp = record s.ssp { iv = last16 ct' };
          justin =
              set_secure_session s.justin.secure_session
                (process_command command (set_secure_session true s.justin)).1;
        },
        record lock { iv = last16 ct' },
        rw (opened', e1) refl,
        rw (secure_packet c ct s (omega arith), got, e, opened, e2) refl,
        rw (d2 lock1 sync.same_key refl) refl,
        record {
          first_open = sync.first_open;
          second_open = sync.second_open;
          same_key = sync.same_key;
          same_iv = refl;
        },
        refl,
      )
