-- ===== src/Ble/Pump/Termination.antt =====
-- crates/mkey-ble/src/pump.rs: that the loop ends, over a transport whose packets run dry.
use mkey_rs.Session.Types.{
  Event, Options, Outcome, TimerId, link_closed, notification, protocol_info, started, timer,
}
use mkey_rs.Session.Contract.{Polled, armed, ends, has_read}
use mkey_rs.Session.Contract.Events.{poll-Polled}
use mkey_rs.Session.Contract.Lacks.{is_start}
use mkey_rs.Session.Contract.Reads.{Ended, ReadsNothing, is_over, poll-Ended, poll-ReadsNothing}
use mkey_rs.Session.State.{Session, with_random_source}
use mkey_rs.Session.Answer.{Answer}
use mkey_rs.Session.Poll.{poll}
use mkey_rs.Session.Totality.{Supplies}
use mkey_rs.Ble.Pump.{
  Iteration, Link, Performed, Received, Round, Transport, act_on, after_actions, again, await_event,
  await_with, closed, event_of, expired_wait, goes_on, iterate, link_failed, link_note, moved_to,
  packet_of, panicked, proceed, pump_rounds, returned, returns, run_actions, run_session, tear_down,
}
use mkey_rs.Ble.Pump.Actions.{Closes, Moved, is_some, run-Closes, run-Moved}
use mkey_rs.Ble.Pump.Progress.{Concludes, run_session-Concludes}
use mkey_rs.Crypto.Aes.{Cbc, IsCbc}
use mkey_rs.Prelude.{
  Bool, Bytes, Option, arith, false, inl, inr, length, none, refl, some, suc, true, zero, ℕ, ◌+◌,
  ◌<◌, ◌||◌, ◌∙◌, ◌≡◌, ◌≤◌, ◌⊎◌,
}
use mkey_rs.Error.{Error, Message}
use mkey_rs.Result.{Result}
use mkey_rs.Data.MobileKey.{MobileKey}
use mkey_rs.Security.Random.{RandomSource}
use mkey_rs.Ble.Pump.Draining.{Keeps, RunsDry, Spends, run-Keeps}

-- The rounds that an event takes, with so much left.
abbrev pub needed : Event → ℕ → ℕ
needed started n = n + 3
needed (protocol_info bytes) n = n + 2
needed (notification bytes) n = n + 2
needed _ n = 1

module _ {W : Type 0} (display : Error → Message) (t : Transport W) (left : W → ℕ)
    (dry : RunsDry t left) where
  open dry use {send-le, enable-le, read-le, sleep-le, receive-Spends}

  -- What a round leaves, with so many rounds to come: enough of them, if it goes round again.
  abbrev Within : ℕ → Iteration W → Type 0
  Within n (returned r s k) = Unit
  Within n panicked = Unit
  Within n (again event d s k) = (s.is_done ≡ false) × (needed event (left k.world) ≤ n)

  received-Within :
      (n : ℕ) (w : W) (x : Received × W) (id : TimerId) (at : ℕ) (s : Session) (k : Link W)
      → s.is_done ≡ false
      → left w + 1 ≤ n
      → Spends left w x
      → Within n (
          again
            (event_of display t x.0 id)
            (some (id, at))
            s
            (link_note display t x.0 (moved_to x.1 k)))
  received-Within n w (packet_of bytes, v) id at s k o h q = (o, omega arith)
  received-Within n w (closed, v) id at s k o h q = (o, omega arith)
  received-Within n w (link_failed e, v) id at s k o h q = (o, omega arith)
  received-Within n w (expired_wait, v) id at s k o h q = (o, omega arith)

  await-Within :
      (n : ℕ) (read : Option (Option Bytes)) (d : Option (TimerId × ℕ)) (s : Session) (k : Link W)
      → s.is_done ≡ false
      → left k.world + 1 ≤ n
      → (is_some read ≡ false) ⊎ (left k.world + 2 ≤ n)
      → Within n (await_with display t read d s k)
  await-Within n (some bytes) d s k o h (inl e) = cc
  await-Within n (some bytes) d s k o h (inr q) = (o, q)
  await-Within n none none s k o h q = tt
  await-Within n none (some (id, at)) s k o h q =
      received-Within n k.world (t.receive_until at k.world) id at s k o h
        (receive-Spends at k.world)

  over-Within :
      (n : ℕ) (s : Session) (p : Performed W)
      → Closes display t p
      → Within n (after_actions display t s p)
  over-Within n s (returns r k) h = tt
  over-Within n s (goes_on l k) h = absurd h

  open-Within :
      (n m : ℕ) (s : Session) (p : Performed W) (wait : Option (TimerId × ℕ)) (reads : Bool)
      → s.is_done ≡ false
      → Moved display t wait reads p
      → Keeps display t left dry m p
      → m + 1 ≤ n
      → (reads ≡ false) ⊎ (m + 2 ≤ n)
      → Within n (after_actions display t s p)
  unfolding await_event
  open-Within n m s (returns r k) wait reads o x y h q = tt
  open-Within n m s (goes_on l k) wait reads o (_, x) y h (inl e) =
      await-Within n l.info_read l.deadline s k o (omega arith) (inl (x ∙ e))
  open-Within n m s (goes_on l k) wait reads o (_, x) y h (inr q) =
      await-Within n l.info_read l.deadline s k o (omega arith) (inr (omega arith))

  act_on-Within :
      (n : ℕ) (event : Event) (a : Answer) (d : Option (TimerId × ℕ)) (s : Session) (k : Link W)
      → Polled s a
      → (is_start event ≡ false → ReadsNothing a)
      → (is_over event ≡ true → Ended a)
      → needed event (left k.world) ≤ suc n
      → Within n (act_on display t a d k)
  act_on-Within n event none d s k p r o h = tt
  act_on-Within n event (some (actions, u)) d s k (inl (done, e)) r o h =
      let l : Round = record { info_read = none; deadline = d } in
      over-Within n u (run_actions display t actions l k) (run-Closes display t actions l k e)
  act_on-Within n event (some (actions, u)) d s k (inr (open_still, undone, _, _)) r o h =
      let l : Round = record { info_read = none; deadline = d } in
      let (enough, reads) = fits event (left k.world) r o h in
      open-Within n (left k.world) u (run_actions display t actions l k) (armed d actions)
        (has_read actions || false) open_still (run-Moved display t actions l k undone)
        (run-Keeps display t left dry actions l k) enough reads
    where
      fits :
          (event : Event) (m : ℕ)
          → (is_start event ≡ false → has_read actions ≡ false)
          → (is_over event ≡ true → (u.is_done ≡ true) × (ends actions ≡ true))
          → needed event m ≤ suc n
          → (m + 1 ≤ n) × ((has_read actions || false ≡ false) ⊎ (m + 2 ≤ n))
      fits started m r o h = (omega arith, inr (omega arith))
      fits (protocol_info bytes) m r o h = (omega arith, inl (ground (arith, r refl)))
      fits (notification bytes) m r o h = (omega arith, inl (ground (arith, r refl)))
      fits (timer id) m r o h = absurd (ground (arith, o refl))
      fits link_closed m r o h = absurd (ground (arith, o refl))
      fits Event.aborted m r o h = absurd (ground (arith, o refl))

  -- The pump has come to its end.
  abbrev Stops : Iteration W → Type 0
  Stops (returned r s k) = Unit
  Stops panicked = Unit
  Stops (again event d s k) = ⊥

  module _ (c : Cbc) (os : ℕ → Bytes) where
    iterate-Within :
        (n : ℕ) (event : Event) (d : Option (TimerId × ℕ)) (s : Session) (k : Link W)
        → s.is_done ≡ false
        → needed event (left k.world) ≤ suc n
        → Within n (iterate display t c os event d s k)
    unfolding iterate
    iterate-Within n event d s k o h =
        act_on-Within n event (poll c os event s) d s k (poll-Polled c os event s o)
          (poll-ReadsNothing c os event s) (poll-Ended c os event s o) h

    proceed-Stops :
        (n : ℕ) (i : Iteration W)
        (f : Event → Option (TimerId × ℕ) → Session → Link W → Iteration W)
        → Within n i
        → ((event : Event) (d : Option (TimerId × ℕ)) (s : Session) (k : Link W)
            → s.is_done ≡ false
            → needed event (left k.world) ≤ n
            → Stops (f event d s k))
        → Stops (proceed display t c os i f)
    proceed-Stops n (returned r s k) f h rest = tt
    proceed-Stops n panicked f h rest = tt
    proceed-Stops n (again event d s k) f (o, h) rest = rest event d s k o h

    needed-pos : (event : Event) (m : ℕ) → 0 < needed event m
    needed-pos started m = omega arith
    needed-pos (protocol_info bytes) m = omega arith
    needed-pos (notification bytes) m = omega arith
    needed-pos _ m = omega arith

    pump_rounds-Stops :
        (rounds : ℕ) (event : Event) (d : Option (TimerId × ℕ)) (s : Session) (k : Link W)
        → s.is_done ≡ false
        → needed event (left k.world) ≤ rounds
        → Stops (pump_rounds display t c os rounds event d s k)
    unfolding pump_rounds
    pump_rounds-Stops zero event d s k o h = omega (arith, needed-pos event (left k.world))
    pump_rounds-Stops (suc rounds) event d s k o h =
        proceed-Stops rounds (iterate display t c os event d s k)
          (pump_rounds display t c os rounds) (iterate-Within rounds event d s k o h)
          (pump_rounds-Stops rounds)

    tear_down-Stops : (i : Iteration W) → Stops i → Stops (tear_down display t c os i)
    tear_down-Stops (returned r s k) h = tt
    tear_down-Stops panicked h = tt
    tear_down-Stops (again event d s k) h = absurd h

    returned_of :
        (lawful : IsCbc c) (drawn_16 : (i : ℕ) → length (os i) ≡ 16) (i : Iteration W)
        → Stops i
        → Concludes display t c lawful os drawn_16 i
        → (r : Result Outcome) × (s : Session) × (k : Link W) × (i ≡ returned r s k)
    returned_of lawful drawn_16 (returned r s k) h q = (r, s, k, refl)
    returned_of lawful drawn_16 (again event d s k) h q = absurd h
    returned_of lawful drawn_16 panicked h q = absurd q

    -- Over a transport whose packets run dry, `run_session` returns, and does so within three rounds
    -- more than the packets that are left: it neither panics nor waits on.
    pub run_session-Returns :
        (lawful : IsCbc c) (drawn_16 : (i : ℕ) → length (os i) ≡ 16) (rounds : ℕ) (key : MobileKey)
        (options : Options) (random : Option RandomSource) (k : Link W)
        → length key.kn_key ≡ 16
        → Supplies random
        → left k.world + 3 ≤ rounds
        → (r : Result Outcome) × (s : Session) × (k' : Link W) × (run_session display t c os rounds
              (with_random_source key options random)
              k
            ≡ returned r s k')
    run_session-Returns lawful drawn_16 rounds key options random k kn_16 source h =
        returned_of lawful drawn_16
          (run_session display t c os rounds (with_random_source key options random) k)
          (unfold run_session with_random_source in
            tear_down-Stops
              (pump_rounds display t c os rounds started none
                (with_random_source key options random) k)
              (pump_rounds-Stops rounds started none (with_random_source key options random) k refl
                h))
          (run_session-Concludes display t c lawful os drawn_16 rounds key options random k kn_16
            source)
