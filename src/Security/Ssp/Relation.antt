-- ===== src/Security/Ssp/Relation.antt =====
-- crates/mkey-core/src/security/ssp.rs: what a control payload may do to the manager, as a step relation.
use mkey_rs.Prelude.{
  Bool, Bytes, [], false, length, none, some, true, ℕ, ◌++◌, ◌<◌, ◌∷◌, ◌≡◌, ◌≢◌, ◌≤◌, ◌⊎◌,
}
use mkey_rs.Error.{Error}
use mkey_rs.Result.{Result, err, ok, panic}
use mkey_rs.Crypto.Rotation.{rotate_right}
use mkey_rs.Crypto.SessionKey.{derive_session_key}
use mkey_rs.Crypto.Aes.{Cbc}
use mkey_rs.Security.Random.{random16}
use mkey_rs.Security.SspTypes.{
  OpCode, Ssp, auth_step1, encrypted_control, in_session, last16, opcode_byte, ready,
  unencrypted_control,
}
use mkey_rs.Security.Ssp.{encrypt_payload}

-- Why a payload is refused, the flag saying whether it came encrypted.
pub data Unfit (payload : Bytes) (enc : Bool) (s : Ssp) : Type 0 where
  no_opcode : payload ≡ [] → Unfit payload enc s
  unknown_opcode : (b : ℕ) (rest : Bytes) → payload ≡ b ∷ rest → 5 ≤ b → Unfit payload enc s
  error_opcode : (rest : Bytes) → payload ≡ opcode_byte OpCode.error ∷ rest → Unfit payload enc s
  no_challenge_now :
      (rest : Bytes)
      → payload ≡ opcode_byte OpCode.open_session_step1 ∷ rest
      → (enc ≡ true) ⊎ (s.state ≢ ready)
      → Unfit payload enc s
  no_answer_now :
      (rest : Bytes)
      → payload ≡ opcode_byte OpCode.open_session_step2 ∷ rest
      → (enc ≡ false) ⊎ (s.state ≢ auth_step1) ⊎ (length rest < 32) ⊎ (s.random_b ≡ none)
      → Unfit payload enc s
  no_key_now :
      (rest : Bytes)
      → payload ≡ opcode_byte OpCode.set_key_value ∷ rest
      → (s.state ≢ in_session) ⊎ (length rest < 17)
      → Unfit payload enc s

-- The effect of a payload, once decrypted. An answer `ct` is the encryption of what the code answers.
pub data Handles (c : Cbc) (payload : Bytes) (enc : Bool) (s : Ssp) (r : Result Bytes) (t : Ssp)
    : Type 0 where
  refuses : (e : Error) → Unfit payload enc s → r ≡ err e → t ≡ s → Handles c payload enc s r t
  tells_version :
      (rest : Bytes)
      → payload ≡ opcode_byte OpCode.get_version ∷ rest
      → r
        ≡ ok (
            unencrypted_control
            ∷ opcode_byte OpCode.get_version
            ∷ s.version.major
            ∷ s.version.minor
            ∷ [])
      → t ≡ s
      → Handles c payload enc s r t
  exhausts :
      (rest : Bytes)
      → payload ≡ opcode_byte OpCode.open_session_step1 ∷ rest
      → s.state ≡ ready
      → enc ≡ false
      → (random16 s.random).0 ≡ panic
      → r ≡ panic
      → t ≡ record s { random = (random16 s.random).1 }
      → Handles c payload enc s r t
  challenges :
      (b rest ct : Bytes)
      → payload ≡ opcode_byte OpCode.open_session_step1 ∷ rest
      → s.state ≡ ready
      → enc ≡ false
      → (random16 s.random).0 ≡ ok b
      → (encrypt_payload c
          (opcode_byte OpCode.open_session_step1 ∷ b)
          (record s { random_b = some b; random = (random16 s.random).1 })).0
        ≡ ok ct
      → r ≡ ok (encrypted_control ∷ ct)
      → t ≡ record s {
        iv = last16 ct;
        random_b = some b;
        random = (random16 s.random).1;
        state = auth_step1;
      }
      → Handles c payload enc s r t
  rejects :
      (a wrong b rest : Bytes)
      → s.state ≡ auth_step1
      → enc ≡ true
      → s.random_b ≡ some b
      → length a ≡ 16
      → length wrong ≡ 16
      → payload ≡ opcode_byte OpCode.open_session_step2 ∷ (a ++ (wrong ++ rest))
      → wrong ≢ rotate_right b
      → r ≡ err Error.authentication_failed
      → t ≡ record s { state = ready }
      → Handles c payload enc s r t
  opens :
      (a b rest ct : Bytes)
      → s.state ≡ auth_step1
      → enc ≡ true
      → s.random_b ≡ some b
      → length a ≡ 16
      → payload ≡ opcode_byte OpCode.open_session_step2 ∷ (a ++ (rotate_right b ++ rest))
      → (encrypt_payload c
          (opcode_byte OpCode.open_session_step2 ∷ rotate_right a)
          (record s { random_a = some a })).0
        ≡ ok ct
      → r ≡ ok (encrypted_control ∷ ct)
      → t ≡ record s {
        iv = last16 ct;
        random_a = some a;
        session_key = some (derive_session_key a b);
        state = in_session;
      }
      → Handles c payload enc s r t
  rekeys :
      (skipped : ℕ) (key rest ct : Bytes)
      → s.state ≡ in_session
      → payload ≡ opcode_byte OpCode.set_key_value ∷ skipped ∷ (key ++ rest)
      → length key ≡ 16
      → (encrypt_payload c
          (opcode_byte OpCode.set_key_value ∷ [])
          (record s { session_key = some key })).0
        ≡ ok ct
      → r ≡ ok (encrypted_control ∷ ct)
      → t ≡ record s { iv = last16 ct; session_key = some key }
      → Handles c payload enc s r t
