-- ===== src/Examples/Security.antt =====
-- The security layer and the stack at a concrete cipher, keys and packets.
use mkey_rs.Prelude.{Bytes, [], false, length-replicate, refl, some, true, ℕ, ◌∷◌, ◌≡◌, ◌≢◌}
use mkey_rs.Error.{Error}
use mkey_rs.Result.{err, ok}
use mkey_rs.Crypto.SessionKey.{derive_session_key}
use mkey_rs.Security.Random.{fixed_random, fixed_random16, random16}
use mkey_rs.Security.SspTypes.{
  Ssp, in_session, is_control, is_encrypted, opcode_try_from, update_iv_from_ciphertext,
  with_random,
}
use mkey_rs.Security.Ssp.{
  decrypt_payload, encrypt_payload, handle_open_session_step2, process_control_packet,
  process_packet, unwrap_data, wrap_data,
}
use mkey_rs.Security.Ssp.Handshake.Opening.{handshake_lem}
use mkey_rs.Security.Ssp.Handshake.{Synced, converse, converse_lem, handshake}
use mkey_rs.Security.Ssp.Invariant.{Draws16, Inv, Keeps, with_random-Inv}
use mkey_rs.Security.Ssp.Preservation.{process_packet-Keeps}
use mkey_rs.Security.Ssp.Relation.{Handles}
use mkey_rs.Security.Ssp.Steps.{control-Handles}
use mkey_rs.Security.Ssp.Authentication.{Proves, session_needs_challenge}
use mkey_rs.Security.Ssp.Refusal.{Refused, process_packet-Refused}
use mkey_rs.Command.Justin.{handle_read_tag, process_command, set_secure_session}
use mkey_rs.Stack.{Stack, handle_packet}
use mkey_rs.Stack.Secrecy.{secure_command}
use mkey_rs.Stack.Safety.{IsSound, handle_packet_safe}
use mkey_rs.Crypto.Padding.{apply_padding, remove_padding}
use mkey_rs.Crypto.Crc.{crc16_ssp, ssp_round}
use mkey_rs.Crypto.Rotation.{rotate_right}
use mkey_rs.Data.MobileKey.{get_tag}
use mkey_rs.Examples.Fixtures.{
  challenger, cipher, cipher-IsCbc, commands_of, endless_source, kn, mobile_key, open_manager,
  random_a, random_b, ready_manager, right_answer, source, stack_of, wrong_answer,
}
use mkey_rs.Crypto.Aes.{decrypt_aes_cbc, encrypt_aes_cbc}

handshake_lem_example :
    (p : Ssp) × (q : Ssp) × (handshake cipher random_a
        (with_random kn source)
        (with_random kn source)
      ≡ ok (p, q))
    × Synced p q
    × (p.session_key ≡ some (derive_session_key random_a random_b))
handshake_lem_example =
    handshake_lem cipher cipher-IsCbc kn random_a random_b source
      (fixed_random (record { values = random_b ∷ []; next = 1 })) source refl refl
      (unfold random16 fixed_random16 in refl)

open_managers-Synced : Synced open_manager open_manager
open_managers-Synced = record {
  first_open = refl;
  second_open = refl;
  same_key = refl;
  same_iv = refl;
}

converse_lem_example :
    converse cipher open_manager open_manager
      ((true, 1 ∷ []) ∷ (false, 2 ∷ 3 ∷ []) ∷ (true, []) ∷ [])
    ≡ ok ((1 ∷ []) ∷ (2 ∷ 3 ∷ []) ∷ [] ∷ [])
converse_lem_example =
    converse_lem cipher cipher-IsCbc open_manager open_manager
      ((true, 1 ∷ []) ∷ (false, 2 ∷ 3 ∷ []) ∷ (true, []) ∷ []) open_managers-Synced

not_open : challenger.state ≢ in_session
not_open e = cc

right_answer-opens : (process_packet cipher right_answer challenger).1.state ≡ in_session
unfolding process_packet apply_padding rotate_right crc16_ssp is_encrypted decrypt_payload
    decrypt_aes_cbc remove_padding ssp_round is_control process_control_packet opcode_try_from
    handle_open_session_step2 update_iv_from_ciphertext encrypt_payload encrypt_aes_cbc
right_answer-opens = refl

session_needs_challenge_example :
    (cb : ℕ) × (ct : Bytes) × (right_answer ≡ cb ∷ ct)
    × (is_encrypted cb ≡ true)
    × ((payload : Bytes) × ((decrypt_payload cipher ct challenger).0 ≡ ok payload)
        × Proves payload challenger (process_packet cipher right_answer challenger).1)
session_needs_challenge_example =
    session_needs_challenge cipher cipher-IsCbc right_answer challenger refl not_open
      right_answer-opens

wrong_answer-refused :
    process_packet cipher wrong_answer challenger
    ≡ (err Error.authentication_failed, (process_packet cipher wrong_answer challenger).1)
unfolding process_packet apply_padding rotate_right crc16_ssp is_encrypted decrypt_payload
    decrypt_aes_cbc remove_padding ssp_round is_control process_control_packet opcode_try_from
    handle_open_session_step2 update_iv_from_ciphertext
wrong_answer-refused = refl

process_packet-Refused_example :
    Refused Error.authentication_failed challenger (process_packet cipher wrong_answer challenger).1
process_packet-Refused_example =
    process_packet-Refused cipher cipher-IsCbc wrong_answer challenger Error.authentication_failed
      (process_packet cipher wrong_answer challenger).1 refl wrong_answer-refused

control-Handles_example :
    let (r, t) = process_control_packet cipher (0x01 ∷ []) false ready_manager in
    Handles cipher (0x01 ∷ []) false ready_manager r t
control-Handles_example = control-Handles cipher cipher-IsCbc (0x01 ∷ []) false ready_manager

endless_16 : Draws16 true endless_source
endless_16 i = length-replicate 16 i

fresh-Inv : Inv true (with_random kn endless_source)
fresh-Inv = with_random-Inv true kn endless_source refl endless_16

process_packet-Keeps_example :
    Keeps true
      (with_random kn endless_source)
      (process_packet cipher (1 ∷ 1 ∷ []) (with_random kn endless_source))
process_packet-Keeps_example =
    process_packet-Keeps true cipher cipher-IsCbc (1 ∷ 1 ∷ []) (with_random kn endless_source)
      fresh-Inv

handle_packet_safe_example :
    IsSound (handle_packet cipher (0 ∷ 2 ∷ 1 ∷ []) (stack_of (with_random kn endless_source) kn))
handle_packet_safe_example =
    handle_packet_safe cipher cipher-IsCbc (0 ∷ 2 ∷ 1 ∷ [])
      (stack_of (with_random kn endless_source) kn) fresh-Inv

kn_read :
    (process_command (2 ∷ 2 ∷ []) (set_secure_session true (commands_of (mobile_key kn)))).0
    ≡ ok (0 ∷ kn)
unfolding process_command set_secure_session handle_read_tag get_tag
kn_read = refl

secure_command_example :
    (packet : Bytes) × (lock1 : Ssp) × (reply : Bytes) × (t : Stack) × (lock2 : Ssp) × (wrap_data
        cipher
        (2 ∷ 2 ∷ [])
        open_manager
      ≡ (ok packet, lock1))
    × (handle_packet cipher packet (stack_of open_manager kn) ≡ (ok reply, t))
    × (unwrap_data cipher reply lock1 ≡ (ok (0 ∷ kn), lock2))
    × Synced lock2 t.ssp
    × (t.justin
        ≡ set_secure_session false
            (process_command
              (2 ∷ 2 ∷ [])
              (set_secure_session true (commands_of (mobile_key kn)))).1)
secure_command_example =
    secure_command cipher cipher-IsCbc open_manager (stack_of open_manager kn) (2 ∷ 2 ∷ []) (0 ∷ kn)
      open_managers-Synced kn_read
