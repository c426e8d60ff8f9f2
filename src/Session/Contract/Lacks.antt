-- ===== src/Session/Contract/Lacks.antt =====
-- crates/mkey-session/src/session.rs: actions that no event but the start leads to, of a kind that the
-- flows have no place for.
use mkey_rs.Session.Answer.{Answer, finish, next_wait, note, unexpected, ◌then_do◌}
use mkey_rs.Session.Detecting.{
  begin, begin_flow, begin_v0100, begin_v0200, major_of, odd_shape, poll_detecting, poll_idle,
  unsupported,
}
use mkey_rs.Session.FlowV0100.{answer_nonce, ignore, poll_v0100, starts_with, take_packet, waited}
use mkey_rs.Session.FlowV0200.{
  expired, kn_refused, new_refusals, now_exchanging, observe, poll_v0200, reports, responded,
  settle, wait_on,
}
use mkey_rs.Session.Poll.{poll, poll_open, poll_state}
use mkey_rs.Session.State.{
  Session, State, V0100, V0100Step, V0200, awaiting_nonce, awaiting_result, detecting,
  expected_prefix, idle, v0100, v0100_nonce_length, v0100_sign_iv, v0200,
}
use mkey_rs.Session.Types.{
  Action, Event, Outcome, Phase, TimerId, Trace, exchanging, finishes, link_closed, new_outcome,
  notification, pause, protocol_info, read, report_phase, report_trace, rx, set_timer, started,
  subscribe, timer, tx, write,
}
use mkey_rs.Crypto.Aes.{Cbc, encrypt_aes_cbc}
use mkey_rs.Prelude.{
  Bool, Bytes, List, Option, String, [], arith, drop, false, if◌then◌else◌, length, ltb, none, not,
  refl, some, take, true, ℕ, ◌&&◌, ◌++◌, ◌+◌, ◌==◌, ◌||◌, ◌∷◌, ◌≡◌,
}
use mkey_rs.Result.{Result, err, ok, panic}
use mkey_rs.Stack.{handle_packet}
use mkey_rs.Error.{Error}
use mkey_rs.Command.Justin.{is_connected}

abbrev pub is_start : Event → Bool
is_start started = true
is_start _ = false

abbrev pub has_any : (Action → Bool) → List Action → Bool
has_any p [] = false
has_any p (a ∷ as') = p a || has_any p as'

-- No action is of a kind.
abbrev pub Lacks : (Action → Bool) → Answer → Type 0
Lacks p none = Unit
Lacks p (some (actions, t)) = has_any p actions ≡ false

-- A kind that is none of the actions of an exchange.
pub record Elsewhere (p : Action → Bool) : Type 0 where
  pub traces : (m : Trace) → p (report_trace m) ≡ false
  pub phases : (x : Phase) → p (report_phase x) ≡ false
  pub writes : (bytes : Bytes) → p (write bytes) ≡ false
  pub pauses : (ms : ℕ) → p (pause ms) ≡ false
  pub timers : (id : TimerId) (ms : ℕ) → p (set_timer id ms) ≡ false
  pub subscribes : p subscribe ≡ false
  pub results : (o : Outcome) → p (finishes (ok o)) ≡ false
  pub errors : (e : Error) → p (finishes (err e)) ≡ false

module _ (p : Action → Bool) (elsewhere : Elsewhere p) where
  open elsewhere use {traces, phases, writes, pauses, timers, subscribes, results, errors}

  has_any-append :
      (xs ys : List Action)
      → has_any p xs ≡ false
      → has_any p ys ≡ false
      → has_any p (xs ++ ys) ≡ false
  has_any-append [] ys h q = q
  has_any-append (x ∷ xs) ys h q = ground (arith, has_any-append xs ys)

  pub then_do-Lacks :
      (pre : List Action) (a : Answer) → has_any p pre ≡ false → Lacks p a → Lacks p (pre then_do a)
  then_do-Lacks pre none h q = tt
  then_do-Lacks pre (some (actions, t)) h q = has_any-append pre actions h q

  pub traced :
      (m : Trace) (xs : List Action)
      → has_any p xs ≡ false
      → has_any p (report_trace m ∷ xs) ≡ false
  traced m xs h = simp (traces, h)

  told : (m : Trace) (a : Answer) → Lacks p a → Lacks p ((report_trace m ∷ []) then_do a)
  told m a h = then_do-Lacks (report_trace m ∷ []) a (traced m [] refl) h

  failed-Lacks : (e : Error) (s : Session) → Lacks p (finish (err e) s)
  unfolding finish
  failed-Lacks e s = simp (phases, errors)

  ended-Lacks : (o : Outcome) (s : Session) → Lacks p (finish (ok o) s)
  unfolding finish
  ended-Lacks o s = simp (phases, results)

  pub unexpected-Lacks :
      (event : Event) (when : String) (s : Session) → Lacks p (unexpected event when s)
  unfolding unexpected
  unexpected-Lacks event when s = failed-Lacks _ s

  begin_flow-Lacks :
      (os : ℕ → Bytes) (is_v0100 : Bool) (s : Session) → Lacks p (begin_flow os is_v0100 s)
  unfolding begin_v0200 begin_v0100
  begin_flow-Lacks os true s = simp (subscribes, phases, traces, writes, pauses, timers)
  begin_flow-Lacks os false s = simp (subscribes, phases, timers)

  if-Lacks : (b : Bool) (x y : Answer) → Lacks p x → Lacks p y → Lacks p (if b then x else y)
  if-Lacks true x y h q = h
  if-Lacks false x y h q = q

  pub begin-Lacks :
      (os : ℕ → Bytes) (version : Option ℕ) (s : Session) → Lacks p (begin os version s)
  unfolding begin
  begin-Lacks os none s = begin_flow-Lacks os false s
  begin-Lacks os (some version) s =
      if-Lacks (not (version == 1) && not (version == 2)) (finish (err (unsupported version)) s)
        (begin_flow os (version == 1) s) (failed-Lacks (unsupported version) s)
        (begin_flow-Lacks os (version == 1) s)

  odd_shape-Lacks : (major : Option ℕ) → has_any p (odd_shape major) ≡ false
  odd_shape-Lacks none = simp traces
  odd_shape-Lacks (some major) = refl

  pub poll_detecting-Lacks :
      (os : ℕ → Bytes) (event : Event) (s : Session) → Lacks p (poll_detecting os event s)
  unfolding poll_detecting
  poll_detecting-Lacks os (protocol_info (some bytes)) s =
      then_do-Lacks (report_trace (read bytes) ∷ odd_shape (major_of bytes))
        (begin os (major_of bytes) s)
        (traced (read bytes) (odd_shape (major_of bytes)) (odd_shape-Lacks (major_of bytes)))
        (begin-Lacks os (major_of bytes) s)
  poll_detecting-Lacks os (protocol_info none) s = told _ (begin os none s) (begin-Lacks os none s)
  poll_detecting-Lacks os link_closed s = failed-Lacks Error.disconnected s
  poll_detecting-Lacks os event s = unexpected-Lacks _ _ s

  reports-Lacks : (response : Bytes) (v : V0200) → has_any p (reports response v) ≡ false
  reports-Lacks response v = traced (tx response) _ (
      has_any-append (if new_refusals v then note kn_refused ∷ [] else []) _
        (refused (new_refusals v)) (sent (now_exchanging v)))
    where
      refused : (b : Bool) → has_any p (if b then note kn_refused ∷ [] else []) ≡ false
      refused true = simp traces
      refused false = refl

      sent :
          (b : Bool)
          → has_any p (write response ∷ (if b then report_phase exchanging ∷ [] else [])) ≡ false
      sent true = simp (writes, phases)
      sent false = simp writes

  settle-Lacks : (v : V0200) (s : Session) → Lacks p (settle v s)
  unfolding settle
  settle-Lacks v s =
      if-Lacks (not (is_connected v.stack.justin.state))
        (finish (ok (new_outcome 2 v.final_op_result)) (record s { state = v0200 v })) (wait_on v s)
        (ended-Lacks (new_outcome 2 v.final_op_result) (record s { state = v0200 v })) (simp timers)

  responded-Lacks : (r : Result Bytes) (v : V0200) (s : Session) → Lacks p (responded r v s)
  responded-Lacks panic v s = tt
  responded-Lacks (err e) v s = failed-Lacks e (record s { state = v0200 v })
  responded-Lacks (ok response) v s =
      then_do-Lacks (reports response v) (settle (observe v) s) (reports-Lacks response v)
        (settle-Lacks (observe v) s)

  expired-Lacks : (final : Option ℕ) (ms : ℕ) (s : Session) → Lacks p (expired final ms s)
  expired-Lacks (some r) ms s =
      told _ (finish (ok (new_outcome 2 (some r))) s) (ended-Lacks (new_outcome 2 (some r)) s)
  expired-Lacks none ms s =
      told _ (finish (err (Error.timeout ms)) s) (failed-Lacks (Error.timeout ms) s)

  pub poll_v0200-Lacks :
      (c : Cbc) (event : Event) (v : V0200) (s : Session) → Lacks p (poll_v0200 c event v s)
  unfolding poll_v0200
  poll_v0200-Lacks c (notification bytes) v s =
      then_do-Lacks (report_trace (rx bytes) ∷ [])
        (responded (handle_packet c bytes v.stack).0
          (record v { stack = (handle_packet c bytes v.stack).1 }) s)
        (traced (rx bytes) [] refl)
        (responded-Lacks (handle_packet c bytes v.stack).0
          (record v { stack = (handle_packet c bytes v.stack).1 }) s)
  poll_v0200-Lacks c (timer id) v s =
      expired-Lacks v.final_op_result (next_wait s.options.timeouts v).1 s
  poll_v0200-Lacks c link_closed v s =
      told _ (finish (ok (new_outcome 2 v.final_op_result)) s)
        (ended-Lacks (new_outcome 2 v.final_op_result) s)
  poll_v0200-Lacks c event v s = unexpected-Lacks _ _ s

  take_packet-Lacks :
      (c : Cbc) (step : V0100Step) (bytes : Bytes) (v : V0100) (s : Session)
      → Lacks p (take_packet c step bytes v s)
  unfolding take_packet
  take_packet-Lacks c awaiting_nonce bytes v s =
      if-Lacks (ltb (length bytes) (1 + v0100_nonce_length)) _ _ (failed-Lacks _ s)
        (signed (encrypt_aes_cbc c v.kn_key v0100_sign_iv (take v0100_nonce_length (drop 1 bytes))))
    where
      signed : (r : Result Bytes) → Lacks p (answer_nonce c r v s)
      signed panic = tt
      signed (err e) = tt
      signed (ok bytes) = simp (phases, traces, writes, timers)
  take_packet-Lacks c awaiting_result bytes v s =
      if-Lacks (ltb (length bytes) 2) _ _ (failed-Lacks _ s) (ended-Lacks _ s)

  pub poll_v0100-Lacks :
      (c : Cbc) (event : Event) (v : V0100) (s : Session) → Lacks p (poll_v0100 c event v s)
  unfolding poll_v0100
  poll_v0100-Lacks c (notification bytes) v s = told (rx bytes) _ (
      if-Lacks (not (starts_with (expected_prefix v.step) bytes)) (ignore bytes v s)
        (take_packet c v.step bytes v s) (traced _ [] refl) (take_packet-Lacks c v.step bytes v s))
  poll_v0100-Lacks c (timer id) v s =
      told _ (finish (err (Error.timeout (waited v.step s.options.timeouts))) s)
        (failed-Lacks (Error.timeout (waited v.step s.options.timeouts)) s)
  poll_v0100-Lacks c link_closed v s = failed-Lacks Error.disconnected s
  poll_v0100-Lacks c event v s = unexpected-Lacks _ _ s

  module _ (c : Cbc) (os : ℕ → Bytes) where
    poll_idle-Lacks :
        (event : Event) (s : Session) → is_start event ≡ false → Lacks p (poll_idle os event s)
    unfolding poll_idle
    poll_idle-Lacks started s h = cc
    poll_idle-Lacks link_closed s h = failed-Lacks Error.disconnected s
    poll_idle-Lacks _ s h = unexpected-Lacks _ _ s

    poll_state-Lacks :
        (st : State) (event : Event) (s : Session)
        → is_start event ≡ false
        → Lacks p (poll_state c os st event s)
    unfolding poll_state
    poll_state-Lacks idle event s h = poll_idle-Lacks event s h
    poll_state-Lacks detecting event s h = poll_detecting-Lacks os event s
    poll_state-Lacks (v0200 v) event s h = poll_v0200-Lacks c event v s
    poll_state-Lacks (v0100 v) event s h = poll_v0100-Lacks c event v s

    poll_open-Lacks :
        (event : Event) (s : Session) → is_start event ≡ false → Lacks p (poll_open c os event s)
    unfolding poll_open
    poll_open-Lacks Event.aborted s h = failed-Lacks Error.cancelled s
    poll_open-Lacks event s h = poll_state-Lacks s.state event s h

    pub poll-Lacks :
        (event : Event) (s : Session) → is_start event ≡ false → Lacks p (poll c os event s)
    unfolding poll
    poll-Lacks event s h =
        if-Lacks s.is_done (some ([], s)) (poll_open c os event s) refl (poll_open-Lacks event s h)
