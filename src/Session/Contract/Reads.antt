-- ===== src/Session/Contract/Reads.antt =====
-- crates/mkey-session/src/session.rs: which events lead to a read of the protocol info, and which end a
-- session.
use mkey_rs.Session.Answer.{Answer, finish, next_wait, unexpected}
use mkey_rs.Session.Detecting.{poll_detecting, poll_idle}
use mkey_rs.Session.FlowV0100.{poll_v0100}
use mkey_rs.Session.FlowV0200.{expired, poll_v0200}
use mkey_rs.Session.Poll.{poll, poll_open, poll_state}
use mkey_rs.Session.State.{Session, State, detecting, idle, v0100, v0200}
use mkey_rs.Session.Types.{Action, Event, link_closed, timer}
use mkey_rs.Session.Contract.{ends, has_read, is_read}
use mkey_rs.Crypto.Aes.{Cbc}
use mkey_rs.Prelude.{
  Bool, Bytes, List, Option, [], false, if◌then◌else◌, none, refl, some, subst, sym, true, ℕ, ◌∙◌,
  ◌∷◌, ◌≡◌,
}
use mkey_rs.Session.Contract.Lacks.{Elsewhere, Lacks, has_any, is_start, poll-Lacks}

-- Nothing asks for a read.
abbrev pub ReadsNothing : Answer → Type 0
ReadsNothing none = Unit
ReadsNothing (some (actions, t)) = has_read actions ≡ false

is_read-Elsewhere : Elsewhere is_read
is_read-Elsewhere = record {
  traces = λ m. refl;
  phases = λ x. refl;
  writes = λ bytes. refl;
  pauses = λ ms. refl;
  timers = λ id ms. refl;
  subscribes = refl;
  results = λ o. refl;
  errors = λ e. refl;
}

has_any-is_read : (as' : List Action) → has_any is_read as' ≡ has_read as'
has_any-is_read [] = refl
has_any-is_read (a ∷ as') = rw (has_any-is_read as')

reads_of : (a : Answer) → Lacks is_read a → ReadsNothing a
reads_of none h = tt
reads_of (some (actions, t)) h = sym (has_any-is_read actions) ∙ h

-- Only the start of a session asks for a read.
pub poll-ReadsNothing :
    (c : Cbc) (os : ℕ → Bytes) (event : Event) (s : Session)
    → is_start event ≡ false
    → ReadsNothing (poll c os event s)
poll-ReadsNothing c os event s h =
    reads_of (poll c os event s) (poll-Lacks is_read is_read-Elsewhere c os event s h)

-- The events after which nothing more comes.
abbrev pub is_over : Event → Bool
is_over (timer id) = true
is_over link_closed = true
is_over Event.aborted = true
is_over _ = false

abbrev pub Ended : Answer → Type 0
Ended none = Unit
Ended (some (actions, t)) = (t.is_done ≡ true) × (ends actions ≡ true)

expired-Ended : (final : Option ℕ) (ms : ℕ) (s : Session) → Ended (expired final ms s)
unfolding finish
expired-Ended (some r) ms s = (refl, refl)
expired-Ended none ms s = (refl, refl)

module _ (c : Cbc) (os : ℕ → Bytes) where
  poll_state-Ended :
      (st : State) (event : Event) (s : Session)
      → is_over event ≡ true
      → Ended (poll_state c os st event s)
  unfolding poll_state poll_idle poll_detecting poll_v0200 poll_v0100 unexpected finish
  poll_state-Ended idle (timer id) s h = (refl, refl)
  poll_state-Ended idle link_closed s h = (refl, refl)
  poll_state-Ended idle Event.aborted s h = (refl, refl)
  poll_state-Ended detecting (timer id) s h = (refl, refl)
  poll_state-Ended detecting link_closed s h = (refl, refl)
  poll_state-Ended detecting Event.aborted s h = (refl, refl)
  poll_state-Ended (v0200 v) (timer id) s h =
      expired-Ended v.final_op_result (next_wait s.options.timeouts v).1 s
  poll_state-Ended (v0200 v) link_closed s h = (refl, refl)
  poll_state-Ended (v0200 v) Event.aborted s h = (refl, refl)
  poll_state-Ended (v0100 v) (timer id) s h = (refl, refl)
  poll_state-Ended (v0100 v) link_closed s h = (refl, refl)
  poll_state-Ended (v0100 v) Event.aborted s h = (refl, refl)
  poll_state-Ended st event s h = cc

  poll_open-Ended :
      (event : Event) (s : Session) → is_over event ≡ true → Ended (poll_open c os event s)
  unfolding poll_open finish
  poll_open-Ended Event.aborted s h = (refl, refl)
  poll_open-Ended event s h = poll_state-Ended s.state event s h

  -- A timer, a lock that closed the link and a wish to stop end an open session.
  pub poll-Ended :
      (event : Event) (s : Session)
      → s.is_done ≡ false
      → is_over event ≡ true
      → Ended (poll c os event s)
  unfolding poll
  poll-Ended event s open_still h =
      subst (λ b. Ended (if b then some ([], s) else poll_open c os event s)) (sym open_still)
        (poll_open-Ended event s h)
