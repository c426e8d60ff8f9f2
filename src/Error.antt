-- ===== src/Error.antt =====
-- crates/mkey-core/src/error.rs: the failures, and the codes that the application matches on.
use mkey_rs.Prelude.{Bytes, List, String, [], ℕ, ◌∷◌}

-- A piece of a formatted message: `format!` itself is the standard library's.
pub data Piece : Type 0 where
  text : String → Piece
  num : ℕ → Piece
  hex : ℕ → Piece
  hex_bytes : Bytes → Piece

abbrev pub Message : Type 0
Message = List Piece

abbrev pub msg : String → Message
msg s = text s ∷ []

pub data ErrorCode : Type 0 where
  aborted authentication_failed bluetooth_unavailable characteristic_not_found : ErrorCode
  connection_failed device_not_found disconnected gatt_operation_failed invalid_crc : ErrorCode
  invalid_data invalid_padding invalid_state security service_not_found timeout : ErrorCode
  unsupported_protocol user_cancelled : ErrorCode

abbrev pub all_codes : List ErrorCode
all_codes =
    ErrorCode.aborted ∷ ErrorCode.authentication_failed ∷ ErrorCode.bluetooth_unavailable
    ∷ ErrorCode.characteristic_not_found ∷ ErrorCode.connection_failed ∷ ErrorCode.device_not_found
    ∷ ErrorCode.disconnected ∷ ErrorCode.gatt_operation_failed ∷ ErrorCode.invalid_crc
    ∷ ErrorCode.invalid_data ∷ ErrorCode.invalid_padding ∷ ErrorCode.invalid_state
    ∷ ErrorCode.security ∷ ErrorCode.service_not_found ∷ ErrorCode.timeout
    ∷ ErrorCode.unsupported_protocol ∷ ErrorCode.user_cancelled ∷ []

-- `ErrorCode::as_str`.
unfoldable pub as_str : ErrorCode → String
as_str ErrorCode.aborted = "aborted"
as_str ErrorCode.authentication_failed = "authentication-failed"
as_str ErrorCode.bluetooth_unavailable = "bluetooth-unavailable"
as_str ErrorCode.characteristic_not_found = "characteristic-not-found"
as_str ErrorCode.connection_failed = "connection-failed"
as_str ErrorCode.device_not_found = "device-not-found"
as_str ErrorCode.disconnected = "disconnected"
as_str ErrorCode.gatt_operation_failed = "gatt-operation-failed"
as_str ErrorCode.invalid_crc = "invalid-crc"
as_str ErrorCode.invalid_data = "invalid-data"
as_str ErrorCode.invalid_padding = "invalid-padding"
as_str ErrorCode.invalid_state = "invalid-state"
as_str ErrorCode.security = "security"
as_str ErrorCode.service_not_found = "service-not-found"
as_str ErrorCode.timeout = "timeout"
as_str ErrorCode.unsupported_protocol = "unsupported-protocol"
as_str ErrorCode.user_cancelled = "user-cancelled"

-- The `CommandStatus` of error.rs, which `CommandFailed` carries.
pub data CommandStatus : Type 0 where
  success generic_error not_found : CommandStatus

-- `HexError` carries the message of the hex crate's own error.
pub data Error : Type 0 where
  connection_failed : Message → Error
  bluetooth_unavailable disconnected : Error
  service_not_found characteristic_not_found gatt_operation_failed : Message → Error
  authentication_failed decryption_failed invalid_crc invalid_padding : Error
  invalid_protocol_version : Message → Error
  command_failed : CommandStatus → Error
  invalid_state : Message → Message → Error
  invalid_mobile_key : Error
  key_not_found : Message → Error
  invalid_key_length : ℕ → Error
  timeout : ℕ → Error
  no_locks_found cancelled : Error
  invalid_data : Message → Error
  hex_error tlv_error : Message → Error

-- `Error::code`.
unfoldable pub code : Error → ErrorCode
code (Error.connection_failed _) = ErrorCode.connection_failed
code Error.bluetooth_unavailable = ErrorCode.bluetooth_unavailable
code Error.disconnected = ErrorCode.disconnected
code (Error.service_not_found _) = ErrorCode.service_not_found
code (Error.characteristic_not_found _) = ErrorCode.characteristic_not_found
code (Error.gatt_operation_failed _) = ErrorCode.gatt_operation_failed
code Error.authentication_failed = ErrorCode.authentication_failed
code Error.invalid_crc = ErrorCode.invalid_crc
code Error.invalid_padding = ErrorCode.invalid_padding
code (Error.invalid_protocol_version _) = ErrorCode.unsupported_protocol
code (Error.invalid_state _ _) = ErrorCode.invalid_state
code (Error.timeout _) = ErrorCode.timeout
code Error.no_locks_found = ErrorCode.device_not_found
code Error.cancelled = ErrorCode.aborted
code Error.decryption_failed = ErrorCode.invalid_data
code (Error.command_failed _) = ErrorCode.invalid_data
code Error.invalid_mobile_key = ErrorCode.invalid_data
code (Error.key_not_found _) = ErrorCode.invalid_data
code (Error.invalid_key_length _) = ErrorCode.invalid_data
code (Error.invalid_data _) = ErrorCode.invalid_data
code (Error.hex_error _) = ErrorCode.invalid_data
code (Error.tlv_error _) = ErrorCode.invalid_data
