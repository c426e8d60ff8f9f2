-- ===== src/Session/Verdict.antt =====
-- crates/mkey-session/src/session.rs: the result that the lock reports, from the audit tag to the outcome.
use mkey_rs.Session.Types.{
  Action, Event, Outcome, exchanging, finishes, link_closed, new_outcome, notification,
  report_phase, report_trace, rx, timer, tx, write,
}
use mkey_rs.Session.State.{Session, State, V0200, detecting, idle, v0100, v0200}
use mkey_rs.Session.Answer.{Answer, finish, next_wait, note, unexpected, ◌then_do◌}
use mkey_rs.Session.FlowV0200.{
  expired, kn_refused, latch_verdict, new_refusals, now_exchanging, observe, poll_v0200, reports,
  responded, settle, wait_on,
}
use mkey_rs.Prelude.{
  All, Bool, Bytes, List, Option, [], ap, arith, bit_and, false, if◌then◌else◌, none, not, refl,
  some, true, ℕ, ◌%◌, ◌++◌, ◌<◌, ◌↔◌, ◌∙◌, ◌∷◌, ◌≡◌, ◌≤◌,
}
use mkey_rs.Result.{Result, err, ok, panic}
use mkey_rs.OpResult.{group_of, is_accepted, is_final}
use mkey_rs.Crypto.Aes.{Cbc}
use mkey_rs.Stack.{Stack, handle_packet}
use mkey_rs.Command.Justin.{is_connected}
use mkey_rs.Prelude.Bits.{agree_below, same_below}

-- The result that a v0200 exchange goes by.
abbrev pub verdict : State → Option ℕ
verdict idle = none
verdict detecting = none
verdict (v0200 v) = v.final_op_result
verdict (v0100 v) = none

-- An action that reports an outcome reports this one.
abbrev pub Tells : ℕ → Action → Type 0
Tells r (finishes (ok o)) = o ≡ new_outcome 2 (some r)
Tells r _ = Unit

abbrev pub KeepsVerdict : ℕ → Answer → Type 0
KeepsVerdict r none = Unit
KeepsVerdict r (some (actions, t)) = (verdict t.state ≡ some r) × All (Tells r) actions

All-append :
    (r : ℕ) (xs ys : List Action) → All (Tells r) xs → All (Tells r) ys → All (Tells r) (xs ++ ys)
All-append r [] ys p q = q
All-append r (x ∷ xs) ys p q = (p.0, All-append r xs ys p.1 q)

then_do-KeepsVerdict :
    (r : ℕ) (pre : List Action) (a : Answer)
    → All (Tells r) pre
    → KeepsVerdict r a
    → KeepsVerdict r (pre then_do a)
then_do-KeepsVerdict r pre none p h = tt
then_do-KeepsVerdict r pre (some (xs, t)) p h = (h.0, All-append r pre xs p h.1)

if-KeepsVerdict :
    (r : ℕ) (b : Bool) (x y : Answer)
    → KeepsVerdict r x
    → KeepsVerdict r y
    → KeepsVerdict r (if b then x else y)
if-KeepsVerdict r true x y p q = p
if-KeepsVerdict r false x y p q = q

maybe-Tells : (r : ℕ) (b : Bool) (a : Action) → Tells r a → All (Tells r) (if b then a ∷ [] else [])
maybe-Tells r true a h = (h, tt)
maybe-Tells r false a h = tt

reports-Tells : (r : ℕ) (response : Bytes) (v : V0200) → All (Tells r) (reports response v)
reports-Tells r response v = (
  tt,
  All-append r (if new_refusals v then note kn_refused ∷ [] else [])
      (write response ∷ (if now_exchanging v then report_phase exchanging ∷ [] else []))
      (maybe-Tells r (new_refusals v) (note kn_refused) tt)
      (tt, maybe-Tells r (now_exchanging v) (report_phase exchanging) tt),
)

settle-KeepsVerdict :
    (r : ℕ) (v : V0200) (s : Session) → v.final_op_result ≡ some r → KeepsVerdict r (settle v s)
unfolding settle finish
settle-KeepsVerdict r v s e =
    if-KeepsVerdict r (not (is_connected v.stack.justin.state))
      (finish (ok (new_outcome 2 v.final_op_result)) (record s { state = v0200 v })) (wait_on v s)
      (e, (tt, (ap (new_outcome 2) e, tt))) (e, (tt, tt))

observe-verdict :
    (r : ℕ) (v : V0200) → v.final_op_result ≡ some r → (observe v).final_op_result ≡ some r
unfolding observe latch_verdict
observe-verdict r v e = rw e refl

responded-KeepsVerdict :
    (r : ℕ) (d : Result Bytes) (v : V0200) (s : Session)
    → v.final_op_result ≡ some r
    → KeepsVerdict r (responded d v s)
unfolding finish
responded-KeepsVerdict r panic v s e = tt
responded-KeepsVerdict r (err x) v s e = (e, (tt, (tt, tt)))
responded-KeepsVerdict r (ok response) v s e =
    then_do-KeepsVerdict r (reports response v) (settle (observe v) s) (reports-Tells r response v)
      (settle-KeepsVerdict r (observe v) s (observe-verdict r v e))

expired-KeepsVerdict :
    (r : ℕ) (final : Option ℕ) (waited : ℕ) (s : Session)
    → verdict s.state ≡ some r
    → final ≡ some r
    → KeepsVerdict r (expired final waited s)
unfolding finish
expired-KeepsVerdict r (some x) waited s st e = (st, (tt, (tt, (ap (new_outcome 2) e, tt))))
expired-KeepsVerdict r none waited s st e = (st, (tt, (tt, (tt, tt))))

poll_v0200-kept :
    (c : Cbc) (event : Event) (v : V0200) (s : Session) (r : ℕ)
    → s.state ≡ v0200 v
    → v.final_op_result ≡ some r
    → KeepsVerdict r (poll_v0200 c event v s)
unfolding poll_v0200 unexpected finish
poll_v0200-kept c (notification bytes) v s r st e =
    let d = handle_packet c bytes v.stack in
    let w : V0200 = record v { stack = d.1 } in
    then_do-KeepsVerdict r (report_trace (rx bytes) ∷ []) (responded d.0 w s) (tt, tt)
      (responded-KeepsVerdict r d.0 w s e)
poll_v0200-kept c (timer id) v s r st e =
    expired-KeepsVerdict r v.final_op_result (next_wait s.options.timeouts v).1 s
      (ap verdict st ∙ e) e
poll_v0200-kept c link_closed v s r st e =
    (ap verdict st ∙ e, (tt, (tt, (ap (new_outcome 2) e, tt))))
poll_v0200-kept c event v s r st e = (ap verdict st ∙ e, (tt, (tt, tt)))

-- The result among the actions, if there is one.
abbrev pub result_in : List Action → Option (Result Outcome)
result_in [] = none
result_in (finishes x ∷ rest) = some x
result_in (_ ∷ rest) = result_in rest

abbrev pub result_of : Answer → Option (Result Outcome)
result_of none = none
result_of (some (actions, t)) = result_in actions

abbrev pub outcome_of : ℕ → Result Outcome
outcome_of r = ok (new_outcome 2 (some r))

-- The result that a packet leads to: none while the lock keeps the exchange open, the verdict's outcome
-- once it has closed, and an error only where the stack has refused the packet.
abbrev pub result_after : ℕ → Result Bytes × Stack → Option (Result Outcome)
result_after r (ok response, stack) =
    if not (is_connected stack.justin.state) then some (outcome_of r) else none
result_after r (err e, stack) = some (err e)
result_after r (panic, stack) = none

-- What becomes of a verdict at an event: a lock that goes silent or drops the link ends the session with
-- its outcome, and so does one that closes.
abbrev pub Delivers : Cbc → V0200 → ℕ → Event → Answer → Type 0
Delivers c v r (timer id) a = result_of a ≡ some (outcome_of r)
Delivers c v r link_closed a = result_of a ≡ some (outcome_of r)
Delivers c v r (notification bytes) a = result_of a ≡ result_after r (handle_packet c bytes v.stack)
Delivers c v r _ a = Unit

reports-result :
    (response : Bytes) (v : V0200) (a : Answer)
    → result_of (reports response v then_do a) ≡ result_of a
reports-result response v none = refl
reports-result response v (some (actions, t)) = skip (new_refusals v) (now_exchanging v)
  where
    skip :
        (b d : Bool)
        → result_in (
            report_trace (tx response)
              ∷ ((if b then note kn_refused ∷ [] else [])
                  ++ (write response ∷ (if d then report_phase exchanging ∷ [] else [])))
            ++ actions)
          ≡ result_in actions
    skip true true = refl
    skip true false = refl
    skip false true = refl
    skip false false = refl

settled-result :
    (r : ℕ) (v : V0200) (s : Session)
    → v.final_op_result ≡ some r
    → result_of (settle v s)
      ≡ (if not (is_connected v.stack.justin.state) then some (outcome_of r) else none)
unfolding settle finish
settled-result r v s e = branch (not (is_connected v.stack.justin.state))
  where
    branch :
        (b : Bool)
        → result_of (
            if b
            then finish (ok (new_outcome 2 v.final_op_result)) (record s { state = v0200 v })
            else wait_on v s)
          ≡ (if b then some (outcome_of r) else none)
    branch true = ap (λ (o : Option ℕ). some (ok (new_outcome 2 o))) e
    branch false = refl

responded-result :
    (r : ℕ) (d : Result Bytes) (v : V0200) (s : Session)
    → v.final_op_result ≡ some r
    → result_of (responded d v s) ≡ result_after r (d, v.stack)
unfolding finish observe
responded-result r panic v s e = refl
responded-result r (err x) v s e = refl
responded-result r (ok response) v s e =
    reports-result response v (settle (observe v) s)
    ∙ settled-result r (observe v) s (observe-verdict r v e)

expired-result :
    (r : ℕ) (final : Option ℕ) (waited : ℕ) (s : Session)
    → final ≡ some r
    → result_of (expired final waited s) ≡ some (outcome_of r)
unfolding finish
expired-result r none waited s e = cc
expired-result r (some x) waited s e = ap (λ (o : Option ℕ). some (ok (new_outcome 2 o))) e

poll_v0200-Delivers :
    (c : Cbc) (event : Event) (v : V0200) (s : Session) (r : ℕ)
    → v.final_op_result ≡ some r
    → Delivers c v r event (poll_v0200 c event v s)
unfolding poll_v0200 finish
poll_v0200-Delivers c (notification bytes) v s r e =
    let d = handle_packet c bytes v.stack in
    traced (responded d.0 (record v { stack = d.1 }) s)
    ∙ responded-result r d.0 (record v { stack = d.1 }) s e
  where
    traced : (a : Answer) → result_of ((report_trace (rx bytes) ∷ []) then_do a) ≡ result_of a
    traced none = refl
    traced (some (actions, t)) = refl
poll_v0200-Delivers c (timer id) v s r e =
    expired-result r v.final_op_result (next_wait s.options.timeouts v).1 s e
poll_v0200-Delivers c link_closed v s r e = ap (λ (o : Option ℕ). some (ok (new_outcome 2 o))) e
poll_v0200-Delivers c event v s r e = tt

-- Once a v0200 exchange has a verdict, no event changes it, and no other outcome is reported. Where the
-- lock goes silent, drops the link or closes the exchange, the session's result is that verdict's outcome;
-- a packet that the stack refuses makes it that error, and any other packet gives no result.
pub poll_v0200-KeepsVerdict :
    (c : Cbc) (event : Event) (v : V0200) (s : Session) (r : ℕ)
    → s.state ≡ v0200 v
    → v.final_op_result ≡ some r
    → KeepsVerdict r (poll_v0200 c event v s) × Delivers c v r event (poll_v0200 c event v s)
poll_v0200-KeepsVerdict c event v s r st e =
    (poll_v0200-kept c event v s r st e, poll_v0200-Delivers c event v s r e)

low_bits : (r : ℕ) → r < 256 → bit_and r 3 ≡ r % 4
low_bits r h = agree_below 256 (λ x. bit_and x 3) (λ x. x % 4) (unfold same_below in refl) r h

-- Without a verdict so far, the audit tag's byte becomes the verdict exactly when it leaves 2 or 3 modulo
-- 4, the groups accepted and rejected.
pub latch_verdict_iff :
    (last : Option ℕ) (r : ℕ)
    → r < 256
    → latch_verdict none last ≡ some r ↔ (last ≡ some r) × (2 ≤ r % 4)
unfolding latch_verdict is_final group_of
latch_verdict_iff last r h = ground (arith, low_bits r h)

-- An outcome is accepted exactly when its operation result is there and leaves 2 modulo 4.
pub new_outcome-accepted :
    (version r : ℕ)
    → r < 256
    → ((new_outcome version none).accepted ≡ false)
      × ((new_outcome version (some r)).accepted ≡ true ↔ r % 4 ≡ 2)
unfolding new_outcome is_accepted group_of
new_outcome-accepted version r h = ground (arith, low_bits r h)
