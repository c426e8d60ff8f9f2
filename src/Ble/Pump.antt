-- ===== src/Ble/Pump.antt =====
-- crates/mkey-ble/src/pump.rs: a session driven over a transport. The transport and the clock are an
-- interface on a state of the world; a future that is awaited is a call that returns.
pub mod Actions
pub mod Progress
pub mod Draining
pub mod Termination
use mkey_rs.Session.Types.{
  Action, Event, Outcome, Phase, TimerId, Trace, announce_app_protocol, finished, finishes, info,
  link_closed, notification, pause, protocol_info, read_protocol_info, report_phase, report_trace,
  set_timer, started, subscribe, timer, write,
}
use mkey_rs.Session.State.{Session, app_protocol_request}
use mkey_rs.Session.Answer.{Answer}
use mkey_rs.Session.Poll.{poll}
use mkey_rs.Prelude.{
  Bytes, List, Option, [], if◌then◌else◌, none, not, some, suc, zero, ℕ, ◌+◌, ◌∷◌,
}
use mkey_rs.Error.{Error, Message, hex_bytes, invalid_state, msg, num, text}
use mkey_rs.Result.{Result, err}
use mkey_rs.Crypto.Aes.{Cbc}

-- `read_notify_value` under its timeout.
pub data ReadOutcome : Type 0 where
  value : Bytes → ReadOutcome
  read_failed : Error → ReadOutcome
  no_answer : ReadOutcome

-- `receive` under the deadline.
pub data Received : Type 0 where
  packet_of : Bytes → Received
  closed : Received
  link_failed : Error → Received
  expired_wait : Received

-- What the code calls of the trait `BleTransport` and of the timer. `none` is success.
pub record Transport (W : Type 0) : Type 0 where
  pub now : W → ℕ
  pub send : Bytes → W → Option Error × W
  pub enable : W → Option Error × W
  pub read_within : ℕ → W → ReadOutcome × W
  pub sleep : ℕ → W → W
  pub receive_until : ℕ → W → Received × W
  pub disconnect : W → Option Error × W

-- What the observer has seen.
pub data Report : Type 0 where
  saw_phase : Phase → Report
  saw_trace : Trace → Report

-- The world, and the reports with the last one first.
pub record Link (W : Type 0) : Type 0 where
  pub world : W
  pub reports : List Report

-- The local variables of one round of the loop.
pub record Round : Type 0 where
  pub info_read : Option (Option Bytes)
  pub deadline : Option (TimerId × ℕ)

pub data Performed (W : Type 0) : Type 0 where
  returns : Result Outcome → Link W → Performed W
  goes_on : Round → Link W → Performed W

-- One round of the loop: `pump` returns, or goes round again.
pub data Iteration (W : Type 0) : Type 0 where
  returned : Result Outcome → Session → Link W → Iteration W
  again : Event → Option (TimerId × ℕ) → Session → Link W → Iteration W
  panicked : Iteration W

abbrev pub nothing_pending : Error
nothing_pending =
    Error.invalid_state (msg "a pending wait or a finished session")
      (msg "the session asked for nothing and did not finish")

module _ {W : Type 0} where
  abbrev pub report : Report → Link W → Link W
  report r k = record k { reports = r ∷ k.reports }

  abbrev pub moved_to : W → Link W → Link W
  moved_to w k = record k { world = w }

  abbrev pub next : Performed W → (Round → Link W → Performed W) → Performed W
  next (returns r k) f = returns r k
  next (goes_on l k) f = f l k

-- The text of an error is that of its `Display`, which the crate thiserror derives.
module _ {W : Type 0} (display : Error → Message) (t : Transport W) where
  abbrev announced : Option Error → Message
  announced none = text "Wrote the app protocol request " ∷ hex_bytes app_protocol_request ∷ []
  announced (some e) = text "App protocol request failed: " ∷ display e

  abbrev read_of : ReadOutcome → Option Bytes
  read_of (value bytes) = some bytes
  read_of (read_failed e) = none
  read_of no_answer = none

  abbrev pub read_note : ReadOutcome → ℕ → Link W → Link W
  read_note (value bytes) ms k = k
  read_note (read_failed e) ms k =
      report (saw_trace (info (text "Protocol info read failed: " ∷ display e))) k
  read_note no_answer ms k =
      report (saw_trace (info (text "No protocol info within " ∷ num ms ∷ text " ms" ∷ []))) k

  -- `…await?`
  abbrev pub or_return : Option Error × W → Round → Link W → Performed W
  or_return (none, w) l k = goes_on l (moved_to w k)
  or_return (some e, w) l k = returns (err e) (moved_to w k)

  -- The `match` on an action.
  unfoldable pub perform : Action → Round → Link W → Performed W
  perform announce_app_protocol l k =
      let (r, w) = t.send app_protocol_request k.world in
      goes_on l (report (saw_trace (info (announced r))) (moved_to w k))
  perform (read_protocol_info ms) l k =
      let (r, w) = t.read_within ms k.world in
      goes_on (record l { info_read = some (read_of r) }) (read_note r ms (moved_to w k))
  perform subscribe l k = or_return (t.enable k.world) l k
  perform (write bytes) l k = or_return (t.send bytes k.world) l k
  perform (pause ms) l k = goes_on l (moved_to (t.sleep ms k.world) k)
  perform (set_timer id after_ms) l k =
      goes_on (record l { deadline = some (id, t.now k.world + after_ms) }) k
  perform (report_phase p) l k = goes_on l (report (saw_phase p) k)
  perform (report_trace m) l k = goes_on l (report (saw_trace m) k)
  perform (finishes r) l k = returns r k

  -- The `for` loop over the actions.
  unfoldable pub run_actions : List Action → Round → Link W → Performed W
  unfolding perform
  run_actions [] l k = goes_on l k
  run_actions (a ∷ rest) l k = next (perform a l k) (run_actions rest)

  abbrev pub event_of : Received → TimerId → Event
  event_of (packet_of bytes) id = notification bytes
  event_of closed id = link_closed
  event_of (link_failed e) id = link_closed
  event_of expired_wait id = timer id

  abbrev pub link_note : Received → Link W → Link W
  link_note (link_failed e) k = report (saw_trace (info (text "The link failed: " ∷ display e))) k
  link_note _ k = k

  abbrev pub await_with :
      Option (Option Bytes) → Option (TimerId × ℕ) → Session → Link W → Iteration W
  await_with (some bytes) d s k = again (protocol_info bytes) d s k
  await_with none none s k = returned (err nothing_pending) s k
  await_with none (some (id, at)) s k =
      let (r, w) = t.receive_until at k.world in
      again (event_of r id) (some (id, at)) s (link_note r (moved_to w k))

  -- The part of a round behind the actions.
  unfoldable pub await_event : Round → Session → Link W → Iteration W
  await_event l s k = await_with l.info_read l.deadline s k

  abbrev pub after_actions : Session → Performed W → Iteration W
  after_actions s (returns r k) = returned r s k
  after_actions s (goes_on l k) = await_event l s k

  abbrev pub act_on : Answer → Option (TimerId × ℕ) → Link W → Iteration W
  act_on none d k = panicked
  act_on (some (actions, s)) d k =
      after_actions s (run_actions actions (record { info_read = none; deadline = d }) k)

  module _ (c : Cbc) (os : ℕ → Bytes) where
    -- The body of the `loop` of `pump`.
    unfoldable pub iterate : Event → Option (TimerId × ℕ) → Session → Link W → Iteration W
    unfolding run_actions await_event
    iterate event d s k = act_on (poll c os event s) d k

    abbrev pub proceed :
        Iteration W → (Event → Option (TimerId × ℕ) → Session → Link W → Iteration W) → Iteration W
    proceed (returned r s k) f = returned r s k
    proceed (again event d s k) f = f event d s k
    proceed panicked f = panicked

    -- `pump`, for so many rounds: `again` is where it stands after them.
    unfoldable pub pump_rounds : ℕ → Event → Option (TimerId × ℕ) → Session → Link W → Iteration W
    unfolding iterate
    pump_rounds zero event d s k = again event d s k
    pump_rounds (suc rounds) event d s k = proceed (iterate event d s k) (pump_rounds rounds)

    abbrev close_link : Session → Link W → Link W
    close_link s k =
        let last = if not s.is_done then report (saw_phase finished) k else k in
        moved_to (t.disconnect last.world).1 last

    abbrev pub tear_down : Iteration W → Iteration W
    tear_down (returned r s k) = returned r s (close_link s k)
    tear_down (again event d s k) = again event d s k
    tear_down panicked = panicked

    -- `run_session`, for so many rounds of its loop.
    unfoldable pub run_session : ℕ → Session → Link W → Iteration W
    unfolding pump_rounds
    run_session rounds s k = tear_down (pump_rounds rounds started none s k)
