-- ===== src/Wasm/Wire.antt =====
-- crates/mkey-wasm/src/wire.rs: the shapes of the actions for JavaScript. The text of an error is that of
-- its `Display`, which the crate thiserror derives.
use mkey_rs.Session.Types.{
  Action, Outcome, TimerId, Trace, after_final_result, announce_app_protocol, finishes,
  first_packet, info, packet, pause, phase_str, read, read_protocol_info, report_phase,
  report_trace, rx, set_timer, subscribe, tx, write,
}
use mkey_rs.OpResult.{group_str}
use mkey_rs.Prelude.{
  Bool, Bool-cases, Bytes, Option, String, [], ap, if◌then◌else◌, inl, inr, is_text, is_text→eq,
  none, refl, some, ℕ, ◌↔◌, ◌∙◌, ◌∷◌, ◌≡◌,
}
use mkey_rs.Error.{Error, Message, as_str, invalid_data, text}
use mkey_rs.Result.{Result, err, ok, panic}

pub data WireTrace : Type 0 where
  wire_rx wire_tx wire_read : Bytes → WireTrace
  wire_info : Message → WireTrace

pub record WireOutcome : Type 0 where
  pub protocol_version : ℕ
  pub op_result : Option ℕ
  pub op_result_name : String
  pub group : String
  pub accepted : Bool

pub record WireError : Type 0 where
  pub code : String
  pub message : Message

pub data WireResult : Type 0 where
  wire_ok : WireOutcome → WireResult
  wire_err : WireError → WireResult

pub data WireAction : Type 0 where
  wire_announce : WireAction
  wire_read_info : ℕ → WireAction
  wire_subscribe : WireAction
  wire_write : Bytes → WireAction
  wire_pause : ℕ → WireAction
  wire_timer : String → ℕ → WireAction
  wire_phase : String → WireAction
  wire_trace : WireTrace → WireAction
  wire_done : WireResult → WireAction

unfoldable pub timer_id : TimerId → String
timer_id first_packet = "first-packet"
timer_id packet = "packet"
timer_id after_final_result = "after-final-result"

unfoldable pub outcome_of : Outcome → WireOutcome
outcome_of o = record {
  protocol_version = o.protocol_version;
  op_result = o.op_result;
  op_result_name = mkey_rs.Session.Types.op_result_name o;
  group = group_str o.group;
  accepted = o.accepted;
}

module _ (display : Error → Message) where
  abbrev wire_result : Result Outcome → Option WireResult
  wire_result (ok o) = some (wire_ok (outcome_of o))
  wire_result (err e) =
      some (wire_err (record { code = as_str (mkey_rs.Error.code e); message = display e }))
  wire_result panic = none

  abbrev wire_trace_of : Trace → WireTrace
  wire_trace_of (rx bytes) = wire_rx bytes
  wire_trace_of (tx bytes) = wire_tx bytes
  wire_trace_of (read bytes) = wire_read bytes
  wire_trace_of (info m) = wire_info m

  abbrev done_of : Option WireResult → Option WireAction
  done_of none = none
  done_of (some r) = some (wire_done r)

  -- `From<Action> for WireAction`; a result that is a panic does not occur in the source.
  unfoldable pub wire_action : Action → Option WireAction
  unfolding outcome_of timer_id
  wire_action announce_app_protocol = some wire_announce
  wire_action (read_protocol_info ms) = some (wire_read_info ms)
  wire_action subscribe = some wire_subscribe
  wire_action (write bytes) = some (wire_write bytes)
  wire_action (pause ms) = some (wire_pause ms)
  wire_action (set_timer id after_ms) = some (wire_timer (timer_id id) after_ms)
  wire_action (report_phase p) = some (wire_phase (phase_str p))
  wire_action (report_trace m) = some (wire_trace (wire_trace_of m))
  wire_action (finishes r) = done_of (wire_result r)

-- The message keeps the text that it names.
unfoldable pub parse_timer_id : String → Result TimerId
parse_timer_id id =
    if is_text id "first-packet"
    then ok first_packet
    else if is_text id "packet"
    then ok packet
    else if is_text id "after-final-result"
    then ok after_final_result
    else err (Error.invalid_data (text "unknown timer id " ∷ text id ∷ []))

ok-injective : (x y : TimerId) → ok x ≡ ok y → x ≡ y
ok-injective x y h = cc

read_timer : (s : String) (id : TimerId) → parse_timer_id s ≡ ok id → s ≡ timer_id id
unfolding parse_timer_id timer_id
read_timer s id h = elim (Bool-cases (is_text s "first-packet")) [
  | inl e ↦ is_text→eq s "first-packet" e ∙ ap timer_id (ok-injective first_packet id (rw e at h))
  | inr e ↦ elim (Bool-cases (is_text s "packet")) [
    | inl p ↦ is_text→eq s "packet" p ∙ ap timer_id (ok-injective packet id (rw (e, p) at h))
    | inr p ↦ elim (Bool-cases (is_text s "after-final-result")) [
      | inl q ↦
          is_text→eq s "after-final-result" q
          ∙ ap timer_id (ok-injective after_final_result id (rw (e, p, q) at h))
      | inr q ↦ absurd (err-not_ok (rw (e, p, q) at h))
    ]
  ]
]
  where
    err-not_ok : {x : Error} {y : TimerId} → err x ≡ ok y → ⊥
    err-not_ok h = cc

parse_timer_id-timer_id : (id : TimerId) → parse_timer_id (timer_id id) ≡ ok id
unfolding parse_timer_id timer_id
parse_timer_id-timer_id first_packet = refl
parse_timer_id-timer_id packet = refl
parse_timer_id-timer_id after_final_result = refl

-- The spellings of the timers are read back, and nothing else is read as a timer.
pub parse_timer_id_iff : (s : String) (id : TimerId) → parse_timer_id s ≡ ok id ↔ s ≡ timer_id id
parse_timer_id_iff s id = (read_timer s id, λ e. ap parse_timer_id e ∙ parse_timer_id-timer_id id)
