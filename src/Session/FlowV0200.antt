-- ===== src/Session/FlowV0200.antt =====
-- crates/mkey-session/src/session.rs: the v0200 exchange, over the protocol stack.
use mkey_rs.Prelude.{
  Bool, Bytes, List, Option, String, [], false, if◌then◌else◌, ltb, none, not, some, ℕ, ◌&&◌, ◌++◌,
  ◌||◌, ◌∷◌,
}
use mkey_rs.Error.{Error, num, text}
use mkey_rs.Result.{Result, err, ok, panic}
use mkey_rs.Security.SspTypes.{is_in_session}
use mkey_rs.Command.Justin.{is_connected}
use mkey_rs.Session.Types.{
  Action, Event, exchanging, info, link_closed, new_outcome, notification, report_phase,
  report_trace, rx, set_timer, timer, tx, write,
}
use mkey_rs.Session.State.{Session, V0200, v0200}
use mkey_rs.Session.Answer.{Answer, finish, next_wait, note, unexpected, ◌then_do◌}
use mkey_rs.OpResult.{group_of, is_final}
use mkey_rs.Crypto.Aes.{Cbc}
use mkey_rs.Stack.{handle_packet}

abbrev pub kn_refused : String
kn_refused = "Refused to hand out the kN key: the lock asked for tag 0x02 outside a secure session"

-- Refusals that were not traced yet.
abbrev pub new_refusals : V0200 → Bool
new_refusals v = ltb v.traced_kn_refusals v.stack.justin.kn_read_refusals

-- The session is established, and that was not reported yet.
abbrev pub now_exchanging : V0200 → Bool
now_exchanging v = not v.exchanging && is_in_session v.stack.ssp.state

-- The first accepted or rejected result is the final one.
unfoldable pub latch_verdict : Option ℕ → Option ℕ → Option ℕ
latch_verdict (some r) last = some r
latch_verdict none none = none
latch_verdict none (some r) = if is_final (group_of r) then some r else none

-- The fields that a packet moves, once the stack has answered it.
unfoldable pub observe : V0200 → V0200
unfolding latch_verdict
observe v = record v {
  traced_kn_refusals =
      if new_refusals v then v.stack.justin.kn_read_refusals else v.traced_kn_refusals;
  exchanging = v.exchanging || is_in_session v.stack.ssp.state;
  final_op_result = latch_verdict v.final_op_result v.stack.justin.last_audit_op_result;
}

-- What is reported between the packet and the next wait.
abbrev pub reports : Bytes → V0200 → List Action
reports response v =
    report_trace (tx response)
    ∷ ((if new_refusals v then note kn_refused ∷ [] else [])
        ++ (write response ∷ (if now_exchanging v then report_phase exchanging ∷ [] else [])))

-- The next wait.
abbrev pub wait_on : V0200 → Session → Answer
wait_on v s =
    let w : V0200 = record v { first_packet = false } in
    let (id, after_ms) = next_wait s.options.timeouts w in
    some (set_timer id after_ms ∷ [], record s { state = v0200 w })

-- The end of the session, if the lock has closed; the next wait, if not.
unfoldable pub settle : V0200 → Session → Answer
unfolding finish next_wait
settle v s =
    if not (is_connected v.stack.justin.state)
    then finish (ok (new_outcome 2 v.final_op_result)) (record s { state = v0200 v })
    else wait_on v s

abbrev pub responded : Result Bytes → V0200 → Session → Answer
responded panic v s = none
responded (err e) v s = finish (err e) (record s { state = v0200 v })
responded (ok response) v s = reports response v then_do settle (observe v) s

abbrev pub expired : Option ℕ → ℕ → Session → Answer
expired (some r) waited s =
    (note "The lock went silent after reporting its result" ∷ [])
    then_do finish (ok (new_outcome 2 (some r))) s
expired none waited s =
    (report_trace (info (text "No packet from the lock within " ∷ num waited ∷ text " ms" ∷ []))
      ∷ [])
    then_do finish (err (Error.timeout waited)) s

abbrev pub lock_disconnected_message : String
lock_disconnected_message = "The lock closed the connection"

module _ (c : Cbc) where
  unfoldable pub poll_v0200 : Event → V0200 → Session → Answer
  unfolding observe settle finish next_wait unexpected
  poll_v0200 (notification bytes) v s =
      let (r, stack) = handle_packet c bytes v.stack in
      (report_trace (rx bytes) ∷ []) then_do responded r (record v { stack = stack }) s
  poll_v0200 (timer id) v s = expired v.final_op_result (next_wait s.options.timeouts v).1 s
  poll_v0200 link_closed v s =
      (note lock_disconnected_message ∷ []) then_do finish (ok (new_outcome 2 v.final_op_result)) s
  poll_v0200 event v s = unexpected event "during the v0200 exchange" s
