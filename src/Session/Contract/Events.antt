-- ===== src/Session/Contract/Events.antt =====
-- crates/mkey-session/src/session.rs: the contract at every event.
use mkey_rs.Session.Answer.{finish}
use mkey_rs.Session.Poll.{poll, poll_open, poll_state}
use mkey_rs.Session.State.{Session, State, detecting, idle, v0100, v0200}
use mkey_rs.Session.Types.{Event}
use mkey_rs.Session.Contract.{Polled, wait_of}
use mkey_rs.Crypto.Aes.{Cbc}
use mkey_rs.Prelude.{Bytes, [], ap, false, if◌then◌else◌, inl, refl, some, subst, sym, ℕ, ◌≡◌}
use mkey_rs.Session.Contract.Flows.{poll_v0100-Polled, poll_v0200-Polled}
use mkey_rs.Session.Contract.Start.{poll_detecting-Polled, poll_idle-Polled}

poll_state-Polled :
    (c : Cbc) (os : ℕ → Bytes) (st : State) (event : Event) (s : Session)
    → s.is_done ≡ false
    → s.state ≡ st
    → Polled s (poll_state c os st event s)
unfolding poll_state
poll_state-Polled c os idle event s open_still st =
    poll_idle-Polled os event s open_still (ap (λ x. wait_of x s.options.timeouts) st)
poll_state-Polled c os detecting event s open_still st = poll_detecting-Polled os event s open_still
poll_state-Polled c os (v0200 v) event s open_still st = poll_v0200-Polled c event v s open_still
poll_state-Polled c os (v0100 v) event s open_still st = poll_v0100-Polled c event v s open_still st

poll_open-Polled :
    (c : Cbc) (os : ℕ → Bytes) (event : Event) (s : Session)
    → s.is_done ≡ false
    → Polled s (poll_open c os event s)
unfolding poll_open finish
poll_open-Polled c os Event.aborted s open_still = inl (refl, refl)
poll_open-Polled c os event s open_still = poll_state-Polled c os s.state event s open_still refl

-- From an open session `poll`, where it does not panic, ends it, its last two actions the finished phase and the result, or
-- leaves it open, with no result among the actions, the timer that the shell has armed being the one the
-- new state waits for, and a read asked for where it waits for one.
pub poll-Polled :
    (c : Cbc) (os : ℕ → Bytes) (event : Event) (s : Session)
    → s.is_done ≡ false
    → Polled s (poll c os event s)
unfolding poll
poll-Polled c os event s open_still =
    subst (λ b. Polled s (if b then some ([], s) else poll_open c os event s)) (sym open_still)
      (poll_open-Polled c os event s open_still)
