-- ===== src/Session/Detecting.antt =====
-- crates/mkey-session/src/session.rs: the start of a session, the detection of the protocol version, and
-- the choice of the flow.
use mkey_rs.Prelude.{
  Bool, Bytes, List, Option, String, [], bit_or, false, get_or, if◌then◌else◌, leb, length, none,
  not, some, true, ℕ, ◌&&◌, ◌++◌, ◌==◌, ◌∷◌,
}
use mkey_rs.Error.{Error, num, text}
use mkey_rs.Result.{err}
use mkey_rs.Security.Random.{RandomSource}
use mkey_rs.Security.SspTypes
use mkey_rs.Security.SspTypes.{Ssp, with_random}
use mkey_rs.Session.Types.{
  Action, Detection, Event, Mode, announce_app_protocol, app_protocol, authenticating,
  detecting_version, first_packet, link_closed, mode_byte, no_detection, office, pause,
  protocol_info, read, read_only, read_protocol_info, report_phase, report_trace, set_timer,
  standard, started, subscribe, tx, write,
}
use mkey_rs.Data.Permissions.{read_without_security_flag, readable_flag, with_flags}
use mkey_rs.Data.TagMap.{GeneralPurposeTag, insert}
use mkey_rs.Data.MobileKey.{MobileKey}
use mkey_rs.Command.Justin.{new_with_key}
use mkey_rs.Session.State.{
  Session, V0200, awaiting_nonce, detecting, protocol_info_length, protocol_info_major_index,
  protocol_info_prefix, tag_opening_mode, v0100, v0100_settle_ms, v0200,
}
use mkey_rs.Session.Answer.{Answer, finish, note, unexpected, ◌then_do◌}

abbrev opening_mode_tag : GeneralPurposeTag
opening_mode_tag = record {
  tag_id = tag_opening_mode;
  permissions = with_flags (bit_or readable_flag read_without_security_flag);
  value = mode_byte office ∷ [];
}

-- The copy of the key that the session works on.
abbrev pub session_key_of : Mode → MobileKey → MobileKey
session_key_of standard key = key
session_key_of office key = record key { tags = insert tag_opening_mode opening_mode_tag key.tags }

-- The manager with the injected source of random values, or the operating system's.
abbrev pub manager : (ℕ → Bytes) → Bytes → Option RandomSource → Ssp
manager os kn none = SspTypes.new os kn
manager os kn (some random) = with_random kn random

abbrev pub new_v0200 : (ℕ → Bytes) → Session → V0200
new_v0200 os s =
    let key = session_key_of s.options.mode s.key in
    record {
      stack = record { ssp = manager os key.kn_key s.random; justin = new_with_key key };
      first_packet = true;
      final_op_result = none;
      exchanging = false;
      traced_kn_refusals = 0;
    }

abbrev pub detecting_read_failed : String
detecting_read_failed = "Protocol info read failed, protocol version unknown"

abbrev pub major_of : Bytes → Option ℕ
major_of bytes =
    if leb protocol_info_length (length bytes) && get_or bytes 0 0 == protocol_info_prefix
    then some (get_or bytes protocol_info_major_index 0)
    else none

abbrev pub odd_shape : Option ℕ → List Action
odd_shape (some major) = []
odd_shape none = note "Protocol info has an unexpected shape, protocol version unknown" ∷ []

abbrev pub not_readable : String
not_readable = "Notify characteristic is not readable, protocol version unknown"

abbrev pub detection_skipped : String
detection_skipped = "Version detection skipped, subscribing straight away"

abbrev pub unsupported : ℕ → Error
unsupported version =
    Error.invalid_protocol_version
      (text "Unsupported SALTO protocol version, major " ∷ num version ∷ [])

module _ (os : ℕ → Bytes) where
  unfoldable pub begin_v0200 : Session → Answer
  begin_v0200 s = some (
    set_timer first_packet s.options.timeouts.first_packet_ms ∷ [],
    record s { random = none; state = v0200 (new_v0200 os s) },
  )

  unfoldable pub begin_v0100 : Session → Answer
  begin_v0100 s =
      let identify = 0x02 ∷ s.key.tag_1 in
      some (
        report_trace (tx identify)
            ∷ write identify
            ∷ pause v0100_settle_ms
            ∷ set_timer first_packet s.options.timeouts.first_packet_ms
            ∷ [],
        record s { state = v0100 (record { kn_key = s.key.kn_key; step = awaiting_nonce }) },
      )

  abbrev pub begin_flow : Bool → Session → Answer
  begin_flow is_v0100 s =
      (subscribe ∷ report_phase authenticating ∷ [])
      then_do (if is_v0100 then begin_v0100 s else begin_v0200 s)

  -- Enable notifications and start the flow that the detected version calls for.
  unfoldable pub begin : Option ℕ → Session → Answer
  unfolding finish begin_v0200 begin_v0100
  begin none s = begin_flow false s
  begin (some version) s =
      if not (version == 1) && not (version == 2)
      then finish (err (unsupported version)) s
      else begin_flow (version == 1) s

  -- The second half of the start, with the announcement if there is one.
  unfoldable pub ask : List Action → Session → Answer
  unfolding begin
  ask announce s =
      if not s.options.notify_readable
      then (note not_readable ∷ []) then_do begin none s
      else some (
        announce ++ (read_protocol_info s.options.timeouts.protocol_info_read_ms ∷ []),
        record s { state = detecting },
      )

  -- The first `match` of the start, on the detection.
  abbrev pub start_as : Detection → Session → Answer
  start_as no_detection s = (note detection_skipped ∷ []) then_do begin none s
  start_as app_protocol s = ask (announce_app_protocol ∷ []) s
  start_as read_only s = ask [] s

  -- `Event::Started` before anything else.
  unfoldable pub start : Session → Answer
  unfolding ask
  start s = (report_phase detecting_version ∷ []) then_do start_as s.options.detection s

  unfoldable pub poll_idle : Event → Session → Answer
  unfolding start finish unexpected
  poll_idle started s = start s
  poll_idle link_closed s = finish (err Error.disconnected) s
  poll_idle event s = unexpected event "before the session started" s

  unfoldable pub poll_detecting : Event → Session → Answer
  unfolding begin finish unexpected
  poll_detecting (protocol_info (some bytes)) s =
      let major = major_of bytes in
      (report_trace (read bytes) ∷ odd_shape major) then_do begin major s
  poll_detecting (protocol_info none) s = (note detecting_read_failed ∷ []) then_do begin none s
  poll_detecting link_closed s = finish (err Error.disconnected) s
  poll_detecting event s = unexpected event "while detecting the protocol version" s
