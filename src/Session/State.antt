-- ===== src/Session/State.antt =====
-- crates/mkey-session/src/session.rs: the constants and the state of a session.
use mkey_rs.Prelude.{Bool, Bytes, Option, [], false, replicate, ℕ, ◌∷◌}
use mkey_rs.Security.Random.{RandomSource}
use mkey_rs.Data.MobileKey.{MobileKey}
use mkey_rs.Stack.{Stack}
use mkey_rs.Session.Types.{Options}

abbrev pub app_protocol_request : Bytes
app_protocol_request = 0xC0 ∷ 0x01 ∷ 0x01 ∷ []

abbrev pub protocol_info_prefix : ℕ
protocol_info_prefix = 0x01

abbrev pub protocol_info_length : ℕ
protocol_info_length = 3

abbrev pub protocol_info_major_index : ℕ
protocol_info_major_index = 2

abbrev pub tag_opening_mode : ℕ
tag_opening_mode = 0x10

abbrev pub v0100_settle_ms : ℕ
v0100_settle_ms = 50

abbrev pub v0100_nonce_length : ℕ
v0100_nonce_length = 16

abbrev pub v0100_sign_iv : Bytes
v0100_sign_iv = replicate 16 0xFF

pub record V0200 : Type 0 where
  pub stack : Stack
  pub first_packet : Bool
  pub final_op_result : Option ℕ
  pub exchanging : Bool
  pub traced_kn_refusals : ℕ

pub data V0100Step : Type 0 where
  awaiting_nonce awaiting_result : V0100Step

-- The constants of `v0100_prefix`: identify 0x02, nonce 0x03, signed nonce 0x04, result 0x05.
unfoldable pub expected_prefix : V0100Step → ℕ
expected_prefix awaiting_nonce = 0x03
expected_prefix awaiting_result = 0x05

pub record V0100 : Type 0 where
  pub kn_key : Bytes
  pub step : V0100Step

pub data State : Type 0 where
  idle detecting : State
  v0200 : V0200 → State
  v0100 : V0100 → State

pub record Session : Type 0 where
  pub key : MobileKey
  pub options : Options
  pub random : Option RandomSource
  pub state : State
  pub is_done : Bool

unfoldable pub with_random_source : MobileKey → Options → Option RandomSource → Session
with_random_source key options random = record {
  key = key;
  options = options;
  random = random;
  state = idle;
  is_done = false;
}
