-- ===== src/Session/Poll.antt =====
-- crates/mkey-session/src/session.rs: the entry points of a session.
use mkey_rs.Prelude.{Bytes, [], if◌then◌else◌, some, ℕ}
use mkey_rs.Error.{Error}
use mkey_rs.Result.{err}
use mkey_rs.Session.Types.{Event}
use mkey_rs.Session.State.{Session, State, detecting, idle, v0100, v0200}
use mkey_rs.Session.Answer.{Answer, finish}
use mkey_rs.Session.Detecting.{poll_detecting, poll_idle}
use mkey_rs.Session.FlowV0200.{poll_v0200}
use mkey_rs.Session.FlowV0100.{poll_v0100}
use mkey_rs.Crypto.Aes.{Cbc}

module _ (c : Cbc) (os : ℕ → Bytes) where
  unfoldable pub poll_state : State → Event → Session → Answer
  unfolding poll_idle poll_detecting poll_v0200 poll_v0100
  poll_state idle event s = poll_idle os event s
  poll_state detecting event s = poll_detecting os event s
  poll_state (v0200 v) event s = poll_v0200 c event v s
  poll_state (v0100 v) event s = poll_v0100 c event v s

  -- The match on the event that comes before the one on the state.
  unfoldable pub poll_open : Event → Session → Answer
  unfolding poll_state finish
  poll_open Event.aborted s = finish (err Error.cancelled) s
  poll_open event s = poll_state s.state event s

  unfoldable pub poll : Event → Session → Answer
  unfolding poll_open
  poll event s = if s.is_done then some ([], s) else poll_open event s
