-- ===== src/Session/Types.antt =====
-- crates/mkey-session/src/types.rs: what crosses the line between the session and its shell.
use mkey_rs.Prelude.{Bool, Bytes, Option, String, none, some, true, ℕ}
use mkey_rs.Error.{Message}
use mkey_rs.Result.{Result}
use mkey_rs.OpResult.{OpResultGroup, decode_op_result, group_of, is_accepted, unknown}

-- `no_detection` is `Detection::None`.
pub data Detection : Type 0 where
  app_protocol read_only no_detection : Detection

pub data Mode : Type 0 where
  standard office : Mode

-- `Mode as u8`.
abbrev pub mode_byte : Mode → ℕ
mode_byte standard = 0
mode_byte office = 1

pub data Phase : Type 0 where
  detecting_version authenticating exchanging finished : Phase

unfoldable pub phase_str : Phase → String
phase_str detecting_version = "detecting-version"
phase_str authenticating = "authenticating"
phase_str exchanging = "exchanging"
phase_str finished = "finished"

pub data TimerId : Type 0 where
  first_packet packet after_final_result : TimerId

pub data Trace : Type 0 where
  rx tx read : Bytes → Trace
  info : Message → Trace

pub record Timeouts : Type 0 where
  pub protocol_info_read_ms : ℕ
  pub first_packet_ms : ℕ
  pub packet_ms : ℕ
  pub after_final_result_ms : ℕ

abbrev pub default_timeouts : Timeouts
default_timeouts = record {
  protocol_info_read_ms = 1_000;
  first_packet_ms = 30_000;
  packet_ms = 10_000;
  after_final_result_ms = 3_000;
}

pub record Options : Type 0 where
  pub mode : Mode
  pub detection : Detection
  pub timeouts : Timeouts
  pub notify_readable : Bool

abbrev pub default_options : Options
default_options = record {
  mode = standard;
  detection = app_protocol;
  timeouts = default_timeouts;
  notify_readable = true;
}

pub record Outcome : Type 0 where
  pub protocol_version : ℕ
  pub op_result : Option ℕ
  pub group : OpResultGroup
  pub accepted : Bool

-- `op_result.map(OpResultGroup::of).unwrap_or_default()`.
abbrev pub group_or_default : Option ℕ → OpResultGroup
group_or_default none = unknown
group_or_default (some r) = group_of r

-- `Outcome::new`.
unfoldable pub new_outcome : ℕ → Option ℕ → Outcome
new_outcome version op_result = record {
  protocol_version = version;
  op_result = op_result;
  group = group_or_default op_result;
  accepted = is_accepted (group_or_default op_result);
}

unfoldable pub op_result_name : Outcome → String
op_result_name o = elim o.op_result [ none ↦ "UNKNOWN" | some r ↦ decode_op_result r ]

pub data Event : Type 0 where
  started : Event
  protocol_info : Option Bytes → Event
  notification : Bytes → Event
  timer : TimerId → Event
  link_closed aborted : Event

-- `finishes` is `Action::Done`.
pub data Action : Type 0 where
  announce_app_protocol : Action
  read_protocol_info : ℕ → Action
  subscribe : Action
  write : Bytes → Action
  pause : ℕ → Action
  set_timer : TimerId → ℕ → Action
  report_phase : Phase → Action
  report_trace : Trace → Action
  finishes : Result Outcome → Action
