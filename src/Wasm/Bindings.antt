-- ===== src/Wasm/Bindings.antt =====
-- crates/mkey-wasm/src/lib.rs: a session behind the calls of JavaScript. The crate serde is a parameter:
-- how options are read from a value, and how actions are written to one.
pub mod Sends
pub mod Safe
use mkey_rs.Session.Types.{
  Action, Detection, Event, Mode, Options, app_protocol, default_timeouts, no_detection, office,
  read_only, standard,
}
use mkey_rs.Session.State.{Session, with_random_source}
use mkey_rs.Session.Answer.{Answer}
use mkey_rs.Session.Poll.{poll}
use mkey_rs.Wasm.Wire.{WireAction, parse_timer_id, wire_action}
use mkey_rs.Security.Random.{RandomSource, fixed_random}
use mkey_rs.Data.MobileKey.{Tlv, from_bytes}
use mkey_rs.Crypto.Aes.{Cbc}
use mkey_rs.Result.{Result, err, ok, panic, ◌>>◌}
use mkey_rs.Error.{Error, Message, msg, text}
use mkey_rs.Prelude.{
  Bool, Bytes, List, Option, String, [], if◌then◌else◌, is_text, length, none, some, true, ℕ, ◌==◌,
  ◌∷◌,
}

-- `Result<_, JsValue>`: an exception is a text, or what serde throws.
pub data JsResult (A : Type 0) : Type 0 where
  given : A → JsResult A
  throws : Message → JsResult A
  panics : JsResult A

infixl 10 ◌>>=◌
abbrev pub ◌>>=◌ : {A B : Type 0} → JsResult A → (A → JsResult B) → JsResult B
given a >>= f = f a
throws e >>= f = throws e
panics >>= f = panics

pub record JsOptions : Type 0 where
  pub mode : Option String
  pub detection : Option String
  pub protocol_info_read_ms : Option ℕ
  pub first_packet_ms : Option ℕ
  pub packet_ms : Option ℕ
  pub after_final_result_ms : Option ℕ
  pub notify_readable : Option Bool
  pub random : Option (List Bytes)

-- The options of a constructor call: `undefined` or `null`, or a value.
pub data JsValue (V : Type 0) : Type 0 where
  missing : JsValue V
  value_of : V → JsValue V

abbrev pub no_options : JsOptions
no_options = record {
  mode = none;
  detection = none;
  protocol_info_read_ms = none;
  first_packet_ms = none;
  packet_ms = none;
  after_final_result_ms = none;
  notify_readable = none;
  random = none;
}

unfoldable pub mode_named : Option String → JsResult Mode
mode_named none = given Mode.standard
mode_named (some name) =
    if is_text name "standard"
    then given Mode.standard
    else if is_text name "office"
    then given Mode.office
    else throws (text "unknown opening mode " ∷ text name ∷ [])

unfoldable pub detection_named : Option String → JsResult Detection
detection_named none = given Detection.app_protocol
detection_named (some name) =
    if is_text name "app-protocol"
    then given Detection.app_protocol
    else if is_text name "read-only"
    then given Detection.read_only
    else if is_text name "none"
    then given Detection.no_detection
    else throws (text "unknown detection mode " ∷ text name ∷ [])

abbrev unwrap_or : {A : Type 0} → Option A → A → A
unwrap_or none d = d
unwrap_or (some a) d = a

-- `JsOptions::into_options`.
unfoldable pub into_options : JsOptions → JsResult Options
unfolding mode_named detection_named
into_options o = do
  mode ← mode_named o.mode
  detection ← detection_named o.detection
  given (record {
    mode = mode;
    detection = detection;
    timeouts = record {
      protocol_info_read_ms =
          unwrap_or o.protocol_info_read_ms default_timeouts.protocol_info_read_ms;
      first_packet_ms = unwrap_or o.first_packet_ms default_timeouts.first_packet_ms;
      packet_ms = unwrap_or o.packet_ms default_timeouts.packet_ms;
      after_final_result_ms =
          unwrap_or o.after_final_result_ms default_timeouts.after_final_result_ms;
    };
    notify_readable = unwrap_or o.notify_readable true;
  })

-- The values of `random`, each of 16 bytes.
unfoldable pub random_values : List Bytes → JsResult (List Bytes)
random_values [] = given []
random_values (v ∷ vs) =
    let rest = random_values vs in
    if length v == 16
    then rest >>= (λ ws. given (v ∷ ws))
    else throws (msg "every random value must be 16 bytes")

unfoldable pub random_of : Option (List Bytes) → JsResult (Option RandomSource)
unfolding random_values
random_of none = given none
random_of (some vs) =
    random_values vs >>= λ ws. given (some (fixed_random (record { values = ws; next = 0 })))

-- A method of the session: one event.
pub data JsCall : Type 0 where
  started link_closed aborted : JsCall
  protocol_info : Option Bytes → JsCall
  notification : Bytes → JsCall
  timer : String → JsCall

module _ (display : Error → Message) where
  -- `map_err(|e| js_error(&e.to_string()))`
  abbrev pub or_throw : {A : Type 0} → Result A → JsResult A
  or_throw (ok a) = given a
  or_throw (err e) = throws (display e)
  or_throw panic = panics

  module _ {V : Type 0} (from_value : V → JsResult JsOptions) (parse_all : Bytes → List Tlv) where
    abbrev pub options_of : JsValue V → JsResult JsOptions
    options_of missing = given no_options
    options_of (value_of v) = from_value v

    -- The constructor.
    unfoldable pub new_session : Bytes → JsValue V → JsResult Session
    unfolding into_options random_of
    new_session mobile_key_tlv options = do
      key ← or_throw (from_bytes parse_all mobile_key_tlv)
      o ← options_of options
      opts ← into_options o
      random ← random_of o.random
      given (with_random_source key opts random)

  unfoldable pub event_of : JsCall → JsResult Event
  event_of started = given Event.started
  event_of link_closed = given Event.link_closed
  event_of aborted = given Event.aborted
  event_of (protocol_info bytes) = given (Event.protocol_info bytes)
  event_of (notification bytes) = given (Event.notification bytes)
  event_of (timer id) = or_throw (parse_timer_id id) >>= λ t. given (Event.timer t)

  -- `into_iter().map(Into::into).collect()`
  unfoldable pub wire_actions : List Action → JsResult (List WireAction)
  wire_actions [] = given []
  wire_actions (a ∷ as') = elim (wire_action display a) [
    | none ↦ panics
    | some w ↦ wire_actions as' >>= (λ ws. given (w ∷ ws))
  ]

  module _ {V : Type 0} (to_value : List WireAction → JsResult V) (c : Cbc) (os : ℕ → Bytes) where
    abbrev pub answered : Answer → Session → JsResult V × Session
    answered none s = (panics, s)
    answered (some (actions, t)) s = (wire_actions actions >>= to_value, t)

    abbrev pub polled : JsResult Event → Session → JsResult V × Session
    polled (given event) s = answered (poll c os event s) s
    polled (throws e) s = (throws e, s)
    polled panics s = (panics, s)

    -- A call of a method, with the session after it.
    unfoldable pub call : JsCall → Session → JsResult V × Session
    unfolding event_of wire_actions
    call m s = polled (event_of m) s
