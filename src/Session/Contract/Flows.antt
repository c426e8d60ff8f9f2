-- ===== src/Session/Contract/Flows.antt =====
-- crates/mkey-session/src/session.rs: the contract in the two exchanges.
use mkey_rs.Session.Answer.{finish, next_wait, unexpected}
use mkey_rs.Session.FlowV0100.{poll_v0100, waited}
use mkey_rs.Session.FlowV0200.{expired, observe, poll_v0200, reports, responded, settle}
use mkey_rs.Session.State.{Session, V0100, V0200, v0100, v0200}
use mkey_rs.Session.Types.{Event, notification, report_trace, rx, timer}
use mkey_rs.Session.Contract.{Polled, all_quiet, finish-Polled, quiet-Polled}
use mkey_rs.Crypto.Aes.{Cbc}
use mkey_rs.Prelude.{Bytes, Option, [], arith, false, inl, none, refl, some, true, ℕ, ◌∷◌, ◌≡◌}
use mkey_rs.Result.{Result, err, ok, panic}
use mkey_rs.Stack.{handle_packet}

-- The actions up to the first end, the packet's reports among them.
reports-quiet : (response : Bytes) (v : V0200) → all_quiet (reports response v) ≡ true
reports-quiet response v = ground arith

settle-Polled : (v : V0200) (s t : Session) → t.is_done ≡ false → Polled s (settle v t)
unfolding settle finish next_wait
settle-Polled v s t open_still = ground arith

responded-Polled :
    (r : Result Bytes) (v : V0200) (s : Session) → s.is_done ≡ false → Polled s (responded r v s)
unfolding observe
responded-Polled panic v s open_still = tt
responded-Polled (err e) v s open_still = finish-Polled (err e) s (record s { state = v0200 v })
responded-Polled (ok response) v s open_still =
    quiet-Polled (reports response v) s (settle (observe v) s) (reports-quiet response v)
      (settle-Polled (observe v) s s open_still)

expired-Polled : (final : Option ℕ) (waited : ℕ) (s : Session) → Polled s (expired final waited s)
unfolding finish
expired-Polled (some r) waited s = inl (refl, refl)
expired-Polled none waited s = inl (refl, refl)

pub poll_v0200-Polled :
    (c : Cbc) (event : Event) (v : V0200) (s : Session)
    → s.is_done ≡ false
    → Polled s (poll_v0200 c event v s)
unfolding poll_v0200 unexpected finish
poll_v0200-Polled c (notification bytes) v s open_still =
    quiet-Polled (report_trace (rx bytes) ∷ []) s
      (responded (handle_packet c bytes v.stack).0
        (record v { stack = (handle_packet c bytes v.stack).1 }) s)
      refl
      (responded-Polled (handle_packet c bytes v.stack).0
        (record v { stack = (handle_packet c bytes v.stack).1 }) s open_still)
poll_v0200-Polled c (timer id) v s open_still =
    expired-Polled v.final_op_result (next_wait s.options.timeouts v).1 s
poll_v0200-Polled c event v s open_still = inl (refl, refl)

pub poll_v0100-Polled :
    (c : Cbc) (event : Event) (v : V0100) (s : Session)
    → s.is_done ≡ false
    → s.state ≡ v0100 v
    → Polled s (poll_v0100 c event v s)
unfolding poll_v0100
poll_v0100-Polled c event v s open_still st = ground arith
