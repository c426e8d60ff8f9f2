-- ===== src/Command/Justin.antt =====
-- crates/mkey-core/src/command/justin.rs: the commands of the lock, served from a mobile key. What the
-- handlers print is left out.
pub mod Secrecy
pub mod Effects
pub mod Access
use mkey_rs.Prelude.{
  Bool, Bytes, Option, [], arith, false, get_or, if◌then◌else◌, inl, inr, leb, length, ltb, none,
  not, refl, some, suc, take, true, zero, ℕ, ◌%◌, ◌&&◌, ◌++◌, ◌+◌, ◌-◌, ◌==◌, ◌^◌, ◌∷◌, ◌≡◌, ◌≤◌,
  ◌⊎◌,
}
use mkey_rs.Error.{Error, hex, invalid_data, msg, text}
use mkey_rs.Result.{Exec, Result, err, fail, lift, ok, ◌>>=◌, ◌>>◌}
use mkey_rs.Crypto.Crc.{crc16_hasher}
use mkey_rs.Data.Base62.{encode_base62}
use mkey_rs.Data.Permissions.{
  Permissions, contains, read_without_security_flag, readable_flag, writable_flag,
  write_without_security_flag,
}
use mkey_rs.Data.MobileKey.{MobileKey, TagData, get_tag, set_tag_data}

pub data CommandOpCode : Type 0 where
  open_session close_session read_tag write_tag : CommandOpCode

unfoldable pub command_try_from : ℕ → Result CommandOpCode
command_try_from value =
    if value == 0x00
    then ok open_session
    else if value == 0x01
    then ok close_session
    else if value == 0x02
    then ok read_tag
    else if value == 0x03
    then ok write_tag
    else err (Error.invalid_data (text "Unknown command OpCode: 0x" ∷ hex value ∷ []))

pub data CommandStatus : Type 0 where
  success generic_error not_found : CommandStatus

-- `u8::from`.
abbrev pub status_byte : CommandStatus → ℕ
status_byte success = 0x00
status_byte generic_error = 0x01
status_byte not_found = 0x02

pub data JustinState : Type 0 where
  ready connected : JustinState

abbrev pub is_connected : JustinState → Bool
is_connected ready = false
is_connected connected = true

-- The trait `MobileKeyStore`: its one method.
abbrev pub MobileKeyStore : Type 0
MobileKeyStore = Bytes → Option MobileKey

abbrev pub noop_key_store : MobileKeyStore
noop_key_store identifier = none

pub record Justin : Type 0 where
  pub state : JustinState
  pub key_store : MobileKeyStore
  pub current_key : Option MobileKey
  pub secure_session : Bool
  pub last_audit_op_result : Option ℕ
  pub kn_read_refusals : ℕ

-- `JustinProtocolManager::new`.
unfoldable pub new : MobileKeyStore → Justin
new key_store = record {
  state = ready;
  key_store = key_store;
  current_key = none;
  secure_session = false;
  last_audit_op_result = none;
  kn_read_refusals = 0;
}

unfoldable pub new_with_key : MobileKey → Justin
new_with_key key = record {
  state = connected;
  key_store = noop_key_store;
  current_key = some key;
  secure_session = false;
  last_audit_op_result = none;
  kn_read_refusals = 0;
}

unfoldable pub set_secure_session : Bool → Justin → Justin
set_secure_session secure j = record j { secure_session = secure }

unfoldable pub reset : Justin → Justin
reset j = record j {
  state = ready;
  current_key = none;
  secure_session = false;
  last_audit_op_result = none;
  kn_read_refusals = 0;
}

abbrev pub tag_audit : ℕ
tag_audit = 0x0B

abbrev pub tag_kn_key : ℕ
tag_kn_key = 0x02

-- The `hash` has two bytes, so that `hash[hash.len() - 1]` is its second.
unfoldable pub compute_key_identifier : Bytes → Bytes
compute_key_identifier key_id =
    let hash = crc16_hasher key_id in
    encode_base62 (take 8 key_id ++ (get_or hash 0 0 ∷ get_or hash (length hash - 1) 0 ∷ []))

unfoldable pub is_legacy_tag : ℕ → Bool
is_legacy_tag tag_id = leb tag_id 0x02

unfoldable pub refuses_kn_key : Justin → ℕ → Bool
refuses_kn_key j tag_id = tag_id == tag_kn_key && not j.secure_session

unfoldable pub can_read_tag : Justin → ℕ → Permissions → Bool
unfolding refuses_kn_key is_legacy_tag
can_read_tag j tag_id p =
    if refuses_kn_key j tag_id
    then false
    else if is_legacy_tag tag_id
    then true
    else if not (contains p readable_flag)
    then false
    else if j.secure_session
    then true
    else contains p read_without_security_flag

unfoldable pub can_write_tag : Justin → ℕ → Permissions → Bool
unfolding is_legacy_tag
can_write_tag j tag_id p =
    if is_legacy_tag tag_id
    then false
    else if tag_id == tag_audit
    then true
    else if not (contains p writable_flag)
    then false
    else if j.secure_session
    then true
    else contains p write_without_security_flag

-- `Ok(vec![status.into()])`.
abbrev pub status : CommandStatus → Exec Justin Bytes
status st j = (ok (status_byte st ∷ []), j)

abbrev pub opened : Option MobileKey → Exec Justin Bytes
opened none j = status not_found j
opened (some key) j =
    (ok (status_byte success ∷ []), record j { current_key = some key; state = connected })

unfoldable pub handle_open : Bytes → Exec Justin Bytes
unfolding compute_key_identifier
handle_open payload j =
    if is_connected j.state
    then status generic_error j
    else if ltb (length payload) 8
    then status generic_error j
    else opened (j.key_store (compute_key_identifier (take 8 payload))) j

unfoldable pub handle_close : Bytes → Exec Justin Bytes
handle_close payload j =
    if not (is_connected j.state)
    then status generic_error j
    else (ok (status_byte success ∷ []), record j { state = ready })

-- The permission checks and the answer of `handle_read_tag`. The counter is a `u32`.
unfoldable pub serve_tag : ℕ → TagData → Exec Justin Bytes
unfolding can_read_tag
serve_tag tag_id tag j =
    if refuses_kn_key j tag_id
    then status generic_error (record j { kn_read_refusals = (j.kn_read_refusals + 1) % 2 ^ 32 })
    else if not (can_read_tag j tag_id tag.permissions)
    then (if not (contains tag.permissions readable_flag)
        then status not_found j
        else status generic_error j)
    else (ok (status_byte success ∷ tag.bytes), j)

abbrev pub read_from : Option TagData → ℕ → Exec Justin Bytes
read_from none tag_id = status not_found
read_from (some tag) tag_id = serve_tag tag_id tag

abbrev pub read_key : Option MobileKey → ℕ → Exec Justin Bytes
read_key none tag_id = status generic_error
read_key (some key) tag_id = read_from (get_tag key tag_id) tag_id

abbrev pub read_payload : Bytes → Exec Justin Bytes
read_payload [] j = status generic_error j
read_payload (tag_id ∷ rest) j = read_key j.current_key tag_id j

unfoldable pub handle_read_tag : Bytes → Exec Justin Bytes
unfolding serve_tag
handle_read_tag payload j =
    if not (is_connected j.state) then status generic_error j else read_payload payload j

-- The latch at the end of `handle_write_tag`.
abbrev pub latch : ℕ → Bytes → Option ℕ → Option ℕ
latch tag_id [] old = old
latch tag_id (op_result ∷ rest) old = if tag_id == tag_audit then some op_result else old

-- The permission check and the write of `handle_write_tag`.
unfoldable pub store_tag : ℕ → Bytes → MobileKey → Permissions → Exec Justin Bytes
unfolding can_write_tag
store_tag tag_id bytes key p j =
    if not (can_write_tag j tag_id p)
    then (if not (contains p writable_flag) then status not_found j else status generic_error j)
    else (
      ok (status_byte success ∷ []),
      record j {
        current_key = some (set_tag_data key tag_id bytes);
        last_audit_op_result = latch tag_id bytes j.last_audit_op_result;
      },
    )

abbrev pub write_to : Option TagData → ℕ → Bytes → MobileKey → Exec Justin Bytes
write_to none tag_id bytes key = status not_found
write_to (some tag) tag_id bytes key = store_tag tag_id bytes key tag.permissions

abbrev pub write_key : Option MobileKey → ℕ → Bytes → Exec Justin Bytes
write_key none tag_id bytes = status generic_error
write_key (some key) tag_id bytes = write_to (get_tag key tag_id) tag_id bytes key

abbrev pub write_payload : Bytes → Exec Justin Bytes
write_payload [] j = status generic_error j
write_payload (tag_id ∷ []) j = status generic_error j
write_payload (tag_id ∷ (b ∷ bs)) j =
    if is_legacy_tag tag_id
    then status generic_error j
    else write_key j.current_key tag_id (b ∷ bs) j

unfoldable pub handle_write_tag : Bytes → Exec Justin Bytes
unfolding store_tag
handle_write_tag payload j =
    if not (is_connected j.state) then status generic_error j else write_payload payload j

unfoldable pub dispatch_command : CommandOpCode → Bytes → Exec Justin Bytes
dispatch_command open_session payload = handle_open payload
dispatch_command close_session payload = handle_close payload
dispatch_command read_tag payload = handle_read_tag payload
dispatch_command write_tag payload = handle_write_tag payload

unfoldable pub process_command : Bytes → Exec Justin Bytes
unfolding dispatch_command command_try_from
process_command [] = fail (Error.invalid_data (msg "Empty command"))
process_command (b ∷ payload) = do
  opcode ← lift (command_try_from b)
  dispatch_command opcode payload

-- `u8` value of an opcode.
abbrev pub command_byte : CommandOpCode → ℕ
command_byte open_session = 0x00
command_byte close_session = 0x01
command_byte read_tag = 0x02
command_byte write_tag = 0x03

pub command_try_from-cases :
    (b : ℕ)
    → ((op : CommandOpCode) × (command_try_from b ≡ ok op) × (b ≡ command_byte op))
      ⊎ ((4 ≤ b) × ((e : Error) × (command_try_from b ≡ err e)))
unfolding command_try_from
command_try_from-cases zero = inl (open_session, refl, refl)
command_try_from-cases (suc zero) = inl (close_session, refl, refl)
command_try_from-cases (suc (suc zero)) = inl (read_tag, refl, refl)
command_try_from-cases (suc (suc (suc zero))) = inl (write_tag, refl, refl)
command_try_from-cases (suc (suc (suc (suc n)))) = inr (
  omega arith,
  (
    Error.invalid_data (text "Unknown command OpCode: 0x" ∷ hex (suc (suc (suc (suc n)))) ∷ []),
    ground arith,
  ),
)
