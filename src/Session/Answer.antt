-- ===== src/Session/Answer.antt =====
-- crates/mkey-session/src/session.rs: what `poll` returns, the end of a session, and the waits. The
-- messages keep their text and their arguments.
use mkey_rs.Prelude.{List, Option, String, [], if◌then◌else◌, none, some, true, ℕ, ◌++◌, ◌∷◌}
use mkey_rs.Error.{Error, msg, text}
use mkey_rs.Result.{Result, err}
use mkey_rs.Session.Types.{
  Action, Event, Outcome, Timeouts, TimerId, after_final_result, finished, finishes, first_packet,
  info, link_closed, notification, packet, protocol_info, report_phase, report_trace, started,
  timer,
}
use mkey_rs.Session.State.{Session, V0200}

-- What `poll` returns: the actions, in order, and the session after them. `none` is a panic.
abbrev pub Answer : Type 0
Answer = Option (List Action × Session)

-- Actions pushed before those of the rest.
infixr 6 ◌then_do◌
abbrev pub ◌then_do◌ : List Action → Answer → Answer
actions then_do none = none
actions then_do (some (rest, s)) = some (actions ++ rest, s)

unfoldable pub finish : Result Outcome → Session → Answer
finish result s = some (report_phase finished ∷ finishes result ∷ [], record s { is_done = true })

abbrev pub note : String → Action
note m = report_trace (info (msg m))

unfoldable pub describe : Event → String
describe started = "a start"
describe (protocol_info bytes) = "protocol info"
describe (notification bytes) = "a notification"
describe (timer id) = "a timer"
describe link_closed = "a disconnect"
describe Event.aborted = "an abort"

unfoldable pub unexpected : Event → String → Session → Answer
unfolding finish
unexpected event when = finish (
    err (
      Error.invalid_state (text "no " ∷ text (describe event) ∷ text " " ∷ text when ∷ [])
        (text (describe event) ∷ text " " ∷ text when ∷ [])))

-- Which wait comes next, and how long it is.
unfoldable pub next_wait : Timeouts → V0200 → TimerId × ℕ
next_wait t v = elim v.final_op_result [
  | some r ↦ (after_final_result, t.after_final_result_ms)
  | none ↦ if v.first_packet then (first_packet, t.first_packet_ms) else (packet, t.packet_ms)
]
