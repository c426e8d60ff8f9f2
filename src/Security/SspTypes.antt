-- ===== src/Security/SspTypes.antt =====
-- crates/mkey-core/src/security/ssp.rs: the opcodes, the control byte, the state of the
-- `SecureProtocolManager` and the methods on it that need no cipher. The arrays `[u8; 16]` are byte
-- strings, their lengths kept by an invariant.
use mkey_rs.Prelude.{
  Bool, Bytes, Option, String, [], arith, bit_and, bit_or, drop, false, if◌then◌else◌, inl, inr,
  leb, length, none, not, refl, replicate, some, suc, true, zero, ℕ, ◌-◌, ◌==◌, ◌∷◌, ◌≡◌, ◌≤◌, ◌⊎◌,
}
use mkey_rs.Error.{Error, Message, hex, msg, text}
use mkey_rs.Result.{Result, err, ok}
use mkey_rs.Security.Random.{RandomSource, os_random}

pub data OpCode : Type 0 where
  error open_session_step1 open_session_step2 set_key_value get_version : OpCode

-- `OpCode as u8`.
unfoldable pub opcode_byte : OpCode → ℕ
opcode_byte OpCode.error = 0x00
opcode_byte OpCode.open_session_step1 = 0x01
opcode_byte OpCode.open_session_step2 = 0x02
opcode_byte OpCode.set_key_value = 0x03
opcode_byte OpCode.get_version = 0x04

-- `OpCode::try_from`.
unfoldable pub opcode_try_from : ℕ → Result OpCode
opcode_try_from value =
    if value == 0x00
    then ok OpCode.error
    else if value == 0x01
    then ok OpCode.open_session_step1
    else if value == 0x02
    then ok OpCode.open_session_step2
    else if value == 0x03
    then ok OpCode.set_key_value
    else if value == 0x04
    then ok OpCode.get_version
    else err (Error.invalid_data (text "Unknown OpCode: 0x" ∷ hex value ∷ []))

abbrev pub request_flag : ℕ
request_flag = 0x01

abbrev pub encrypted_flag : ℕ
encrypted_flag = 0x02

abbrev pub unencrypted_control : ℕ
unencrypted_control = request_flag

abbrev pub encrypted_control : ℕ
encrypted_control = bit_or request_flag encrypted_flag

abbrev pub encrypted_data : ℕ
encrypted_data = encrypted_flag

-- `(control_byte & control::REQUEST_FLAG) != 0`, and the same for the other flag.
unfoldable pub is_control : ℕ → Bool
is_control control_byte = not (bit_and control_byte request_flag == 0)

unfoldable pub is_encrypted : ℕ → Bool
is_encrypted control_byte = not (bit_and control_byte encrypted_flag == 0)

pub data SspState : Type 0 where
  ready auth_step1 in_session : SspState

-- `Display for SspState`.
unfoldable pub display : SspState → Message
display ready = msg "READY"
display auth_step1 = msg "AUTH_STEP_1"
display in_session = msg "IN_SESSION"

abbrev pub is_ready : SspState → Bool
is_ready ready = true
is_ready auth_step1 = false
is_ready in_session = false

abbrev pub is_auth_step1 : SspState → Bool
is_auth_step1 ready = false
is_auth_step1 auth_step1 = true
is_auth_step1 in_session = false

abbrev pub is_in_session : SspState → Bool
is_in_session ready = false
is_in_session auth_step1 = false
is_in_session in_session = true

pub record SspVersion : Type 0 where
  pub major : ℕ
  pub minor : ℕ

abbrev pub default_version : SspVersion
default_version = record { major = 1; minor = 0 }

pub record Ssp : Type 0 where
  pub state : SspState
  pub iv : Bytes
  pub kn_key : Bytes
  pub session_key : Option Bytes
  pub random_b : Option Bytes
  pub random_a : Option Bytes
  pub version : SspVersion
  pub random : RandomSource

abbrev pub zero_iv : Bytes
zero_iv = replicate 16 0

unfoldable pub with_random : Bytes → RandomSource → Ssp
with_random kn_key random = record {
  state = ready;
  iv = zero_iv;
  kn_key = kn_key;
  session_key = none;
  random_b = none;
  random_a = none;
  version = default_version;
  random = random;
}

-- `SecureProtocolManager::new`, where the operating system's random bytes are a stream.
unfoldable pub new : (ℕ → Bytes) → Bytes → Ssp
unfolding with_random
new os kn_key = with_random kn_key (os_random os 0)

unfoldable pub reset : Ssp → Ssp
reset s = record s {
  state = ready;
  iv = zero_iv;
  session_key = none;
  random_b = none;
  random_a = none;
}

abbrev pub unwrap_or : Option Bytes → Bytes → Bytes
unwrap_or none d = d
unwrap_or (some k) d = k

unfoldable pub current_encryption_key : Ssp → Bytes
current_encryption_key s = unwrap_or s.session_key s.kn_key

-- `data[data.len() - 16..]`.
abbrev pub last16 : Bytes → Bytes
last16 bytes = drop (length bytes - 16) bytes

unfoldable pub update_iv_from_ciphertext : Bytes → Ssp → Ssp
update_iv_from_ciphertext ciphertext s =
    if leb 16 (length ciphertext) then record s { iv = last16 ciphertext } else s

abbrev pub wrong_state : String → Ssp → Error
wrong_state expected s = Error.invalid_state (msg expected) (display s.state)

abbrev pub build_open_session_step1_request : Bytes
build_open_session_step1_request = unencrypted_control ∷ 0x01 ∷ []

abbrev pub build_get_version_request : Bytes
build_get_version_request = unencrypted_control ∷ 0x04 ∷ []

pub is_ready→eq : (st : SspState) → is_ready st ≡ true → st ≡ ready
is_ready→eq ready e = refl
is_ready→eq auth_step1 e = cc
is_ready→eq in_session e = cc

pub is_auth_step1→eq : (st : SspState) → is_auth_step1 st ≡ true → st ≡ auth_step1
is_auth_step1→eq ready e = cc
is_auth_step1→eq auth_step1 e = refl
is_auth_step1→eq in_session e = cc

pub is_in_session→eq : (st : SspState) → is_in_session st ≡ true → st ≡ in_session
is_in_session→eq ready e = cc
is_in_session→eq auth_step1 e = cc
is_in_session→eq in_session e = refl

-- A byte is the code of the opcode that it is read as, and any other byte is an error.
pub opcode_try_from-cases :
    (b : ℕ)
    → ((op : OpCode) × (opcode_try_from b ≡ ok op) × (b ≡ opcode_byte op))
      ⊎ ((5 ≤ b) × ((e : Error) × (opcode_try_from b ≡ err e)))
unfolding opcode_try_from opcode_byte
opcode_try_from-cases zero = inl (OpCode.error, refl, refl)
opcode_try_from-cases (suc zero) = inl (OpCode.open_session_step1, refl, refl)
opcode_try_from-cases (suc (suc zero)) = inl (OpCode.open_session_step2, refl, refl)
opcode_try_from-cases (suc (suc (suc zero))) = inl (OpCode.set_key_value, refl, refl)
opcode_try_from-cases (suc (suc (suc (suc zero)))) = inl (OpCode.get_version, refl, refl)
opcode_try_from-cases (suc (suc (suc (suc (suc n))))) = inr (
  omega arith,
  (
    Error.invalid_data (text "Unknown OpCode: 0x" ∷ hex (suc (suc (suc (suc (suc n))))) ∷ []),
    ground arith,
  ),
)
