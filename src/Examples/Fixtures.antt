-- ===== src/Examples/Fixtures.antt =====
-- A cipher that reverses whole blocks, and managers, keys and sessions over it.
use mkey_rs.Prelude.{
  Bool, Bytes, Option, [], ap, arith, false, if◌then◌else◌, length, length-reverse, none, refl,
  replicate, reverse, reverse-reverse, some, sym, true, ◌%◌, ◌++◌, ◌==◌, ◌∷◌, ◌≡◌,
}
use mkey_rs.Error.{Error, Message}
use mkey_rs.Crypto.Aes.{Cbc, IsBlocks, IsCbc}
use mkey_rs.Crypto.Padding.{apply_padding}
use mkey_rs.Crypto.Crc.{crc16_ssp}
use mkey_rs.Crypto.Rotation.{rotate_right}
use mkey_rs.Security.Random.{RandomSource, fixed_random, os_random}
use mkey_rs.Security.SspTypes.{
  Ssp, auth_step1, default_version, encrypted_control, in_session, ready, zero_iv,
}
use mkey_rs.Data.Permissions.{with_flags}
use mkey_rs.Data.MobileKey.{MobileKey}
use mkey_rs.Command.Justin.{Justin, connected, noop_key_store}
use mkey_rs.Stack.{Stack}

abbrev pub reverse_blocks : Bytes → Bytes → Bytes → Option Bytes
reverse_blocks key iv bytes = if length bytes % 16 == 0 then some (reverse bytes) else none

abbrev pub cipher : Cbc
cipher = record { encrypt_padded = reverse_blocks; decrypt_padded = reverse_blocks }

reverse_blocks-total :
    (key iv bytes : Bytes)
    → IsBlocks bytes
    → (out : Bytes) × (reverse_blocks key iv bytes ≡ some out) × (length out ≡ length bytes)
reverse_blocks-total key iv bytes h = (reverse bytes, rw h refl, length-reverse bytes)

reverse_blocks-involutive :
    (key iv bytes out : Bytes)
    → reverse_blocks key iv bytes ≡ some out
    → reverse_blocks key iv out ≡ some bytes
reverse_blocks-involutive key iv bytes out e =
    let (good, same) = reversed (length bytes % 16 == 0) bytes out e in
    let n : length out % 16 ≡ 0 = ground (arith, ap length same, length-reverse bytes) in
    rw (n, sym same, reverse-reverse bytes) refl
  where
    reversed :
        (b : Bool) (bs out : Bytes)
        → (if b then some (reverse bs) else none) ≡ some out
        → (b ≡ true) × (reverse bs ≡ out)
    reversed true bs out h = (refl, cc)
    reversed false bs out h = cc

pub cipher-IsCbc : IsCbc cipher
cipher-IsCbc = record {
  encrypts = reverse_blocks-total;
  decrypts = reverse_blocks-total;
  decrypt-encrypt = reverse_blocks-involutive;
}

abbrev pub kn : Bytes
kn = replicate 16 0x4B

abbrev pub random_b : Bytes
random_b = 1 ∷ replicate 15 0xBB

abbrev pub random_a : Bytes
random_a = 2 ∷ replicate 15 0xAA

abbrev pub source : RandomSource
source = fixed_random (record { values = random_b ∷ []; next = 0 })

abbrev pub endless_source : RandomSource
endless_source = os_random (λ i. replicate 16 i) 0

-- A manager that has sent its challenge.
abbrev pub challenger : Ssp
challenger = record {
  state = auth_step1;
  iv = zero_iv;
  kn_key = kn;
  session_key = none;
  random_b = some random_b;
  random_a = none;
  version = default_version;
  random = source;
}

abbrev pub ready_manager : Ssp
ready_manager = record challenger { state = ready; random_b = none }

abbrev pub open_manager : Ssp
open_manager = record challenger {
  state = in_session;
  session_key = some kn;
  random_a = some random_a;
}

abbrev pub seal : Bytes → Bytes
seal payload = reverse (apply_padding (payload ++ crc16_ssp payload))

-- The lock's answer to the challenge.
abbrev pub right_answer : Bytes
right_answer = encrypted_control ∷ seal (0x02 ∷ (random_a ++ rotate_right random_b))

abbrev pub wrong_answer : Bytes
wrong_answer = encrypted_control ∷ seal (0x02 ∷ (random_a ++ random_b))

abbrev pub mobile_key : Bytes → MobileKey
mobile_key kn_key = record {
  tag_0 = 0x10 ∷ [];
  tag_1 = 0x11 ∷ 0x12 ∷ [];
  kn_key = kn_key;
  tags =
      (0x0B, record { tag_id = 0x0B; permissions = with_flags 0x28; value = [] })
      ∷ (0x10, record { tag_id = 0x10; permissions = with_flags 0x14; value = 0 ∷ [] })
      ∷ [];
}

abbrev pub commands_of : MobileKey → Justin
commands_of key = record {
  state = connected;
  key_store = noop_key_store;
  current_key = some key;
  secure_session = false;
  last_audit_op_result = none;
  kn_read_refusals = 0;
}

abbrev pub stack_of : Ssp → Bytes → Stack
stack_of ssp kn_key = record { ssp = ssp; justin = commands_of (mobile_key kn_key) }

abbrev pub no_text : Error → Message
no_text e = []
