-- ===== src/Session/Contract.antt =====
-- crates/mkey-session/src/session.rs: the session's side of the contract with its shell. How a session
-- ends, and which wait it is in.
pub mod Flows
pub mod Start
pub mod Events
pub mod Lacks
pub mod Reads
pub mod Answers
use mkey_rs.Prelude.{
  Bool, List, Option, [], arith, false, if◌then◌else◌, inl, inr, none, not, refl, some, true, ℕ,
  ◌&&◌, ◌++◌, ◌||◌, ◌∙◌, ◌∷◌, ◌≡◌, ◌⊎◌,
}
use mkey_rs.Session.Types.{
  Action, Outcome, Timeouts, TimerId, finished, finishes, first_packet, packet, read_protocol_info,
  report_phase, set_timer,
}
use mkey_rs.Session.State.{
  Session, State, V0100Step, awaiting_nonce, awaiting_result, detecting, idle, v0100, v0200,
}
use mkey_rs.Session.Answer.{Answer, finish, next_wait, ◌then_do◌}
use mkey_rs.Result.{Result}

abbrev pub is_done_action : Action → Bool
is_done_action (finishes r) = true
is_done_action _ = false

abbrev pub is_finished_phase : Action → Bool
is_finished_phase (report_phase finished) = true
is_finished_phase _ = false

abbrev pub is_read : Action → Bool
is_read (read_protocol_info ms) = true
is_read _ = false

-- The last two actions are the finished phase and the result, and no result stands before them.
abbrev pub ends : List Action → Bool
ends [] = false
ends (a ∷ []) = false
ends (a ∷ (b ∷ [])) = is_finished_phase a && is_done_action b
ends (a ∷ (b ∷ (d ∷ ds))) = not (is_done_action a) && ends (b ∷ (d ∷ ds))

abbrev pub has_done : List Action → Bool
has_done [] = false
has_done (a ∷ as') = is_done_action a || has_done as'

abbrev pub has_read : List Action → Bool
has_read [] = false
has_read (a ∷ as') = is_read a || has_read as'

-- The timer that a shell has armed once it has applied the actions.
abbrev pub arms : Option (TimerId × ℕ) → Action → Option (TimerId × ℕ)
arms pending (set_timer id ms) = some (id, ms)
arms pending _ = pending

abbrev pub armed : Option (TimerId × ℕ) → List Action → Option (TimerId × ℕ)
armed pending [] = pending
armed pending (a ∷ as') = armed (arms pending a) as'

abbrev pub wait_of_step : V0100Step → Timeouts → TimerId × ℕ
wait_of_step awaiting_nonce t = (first_packet, t.first_packet_ms)
wait_of_step awaiting_result t = (packet, t.packet_ms)

-- The wait that a state is in.
abbrev pub wait_of : State → Timeouts → Option (TimerId × ℕ)
wait_of idle t = none
wait_of detecting t = none
wait_of (v0200 v) t = some (next_wait t v)
wait_of (v0100 v) t = some (wait_of_step v.step t)

abbrev pub waits_for : Session → Option (TimerId × ℕ)
waits_for s = wait_of s.state s.options.timeouts

-- Something will happen next: a read was asked for, or a timer runs.
abbrev pub Pending : List Action → State → Type 0
Pending actions idle = ⊥
Pending actions detecting = has_read actions ≡ true
Pending actions (v0200 v) = Unit
Pending actions (v0100 v) = Unit

-- An answer that ends the session, or one that leaves it in the wait that the shell has armed.
abbrev pub Goes : Session → List Action → Session → Type 0
Goes s actions t =
    (t.is_done ≡ false)
    × (has_done actions ≡ false)
    × (armed (waits_for s) actions ≡ waits_for t)
    × Pending actions t.state

abbrev pub Polled : Session → Answer → Type 0
Polled s none = Unit
Polled s (some (actions, t)) = ((t.is_done ≡ true) × (ends actions ≡ true)) ⊎ Goes s actions t

-- Neither an end nor a timer.
abbrev pub is_quiet : Action → Bool
is_quiet (finishes r) = false
is_quiet (set_timer id ms) = false
is_quiet _ = true

abbrev pub all_quiet : List Action → Bool
all_quiet [] = true
all_quiet (a ∷ as') = is_quiet a && all_quiet as'

quiet-not_done : (a : Action) → is_quiet a ≡ true → is_done_action a ≡ false
quiet-not_done a q = ground arith

pub ends-cons :
    (a : Action) (as' : List Action)
    → is_done_action a ≡ false
    → ends as' ≡ true
    → ends (a ∷ as') ≡ true
ends-cons a [] q e = ground arith
ends-cons a (b ∷ []) q e = ground arith
ends-cons a (b ∷ (d ∷ ds)) q e = ground arith

all_quiet-first : (x : Action) (xs : List Action) → all_quiet (x ∷ xs) ≡ true → is_quiet x ≡ true
all_quiet-first x xs q = ground arith

all_quiet-rest : (x : Action) (xs : List Action) → all_quiet (x ∷ xs) ≡ true → all_quiet xs ≡ true
all_quiet-rest x xs q = ground arith

quiet-Pending :
    (a : Action) (as' : List Action) (st : State) → Pending as' st → Pending (a ∷ as') st
quiet-Pending a as' idle p = p
quiet-Pending a as' detecting p = ground arith
quiet-Pending a as' (v0200 v) p = tt
quiet-Pending a as' (v0100 v) p = tt

quiet-armed :
    (a : Action) (as' : List Action) (w : Option (TimerId × ℕ))
    → is_quiet a ≡ true
    → armed w (a ∷ as') ≡ armed w as'
quiet-armed a as' w q = ground arith

quiet-Goes :
    (a : Action) (as' : List Action) (s t : Session)
    → is_quiet a ≡ true
    → Goes s as' t
    → Goes s (a ∷ as') t
quiet-Goes a as' s t q (open_still, undone, timed, pending) = (
  open_still,
  ground arith,
  quiet-armed a as' (waits_for s) q ∙ timed,
  quiet-Pending a as' t.state pending,
)

pub quiet-Polled :
    (pre : List Action) (s : Session) (a : Answer)
    → all_quiet pre ≡ true
    → Polled s a
    → Polled s (pre then_do a)
quiet-Polled pre s none q p = tt
quiet-Polled [] s (some (actions, t)) q p = p
quiet-Polled (x ∷ xs) s (some (actions, t)) q p =
    elim (quiet-Polled xs s (some (actions, t)) (all_quiet-rest x xs q) p) [
      | inl (done, e) ↦
          inl (done, ends-cons x (xs ++ actions) (quiet-not_done x (all_quiet-first x xs q)) e)
      | inr g ↦ inr (quiet-Goes x (xs ++ actions) s t (all_quiet-first x xs q) g)
    ]

pub finish-Polled : (r : Result Outcome) (s t : Session) → Polled s (finish r t)
unfolding finish
finish-Polled r s t = inl (refl, refl)

pub if-Polled :
    (b : Bool) (s : Session) (x y : Answer)
    → Polled s x
    → Polled s y
    → Polled s (if b then x else y)
if-Polled true s x y p q = p
if-Polled false s x y p q = q
