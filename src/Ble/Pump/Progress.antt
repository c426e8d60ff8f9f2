-- ===== src/Ble/Pump/Progress.antt =====
-- crates/mkey-ble/src/pump.rs: that the pump always has something to wait for, and how it ends.
use mkey_rs.Session.Types.{Action, Event, Options, Timeouts, TimerId, finished, started}
use mkey_rs.Session.Contract.Events.{poll-Polled}
use mkey_rs.Session.Contract.{Pending, Polled, armed, has_read, wait_of, waits_for}
use mkey_rs.Ble.Pump.{
  Iteration, Link, Performed, Round, Transport, act_on, after_actions, again, await_event,
  await_with, goes_on, iterate, panicked, proceed, pump_rounds, returned, returns, run_actions,
  run_session, tear_down,
}
use mkey_rs.Prelude.{
  Bool-cases, Bytes, List, Option, ap, arith, false, inl, inr, length, none, refl, some, suc, sym,
  true, zero, ℕ, ◌||◌, ◌∙◌, ◌≡◌, ◌⊎◌,
}
use mkey_rs.Error.{Error, Message}
use mkey_rs.Crypto.Aes.{Cbc, IsCbc}
use mkey_rs.Session.State.{Session, State, detecting, idle, v0100, v0200, with_random_source}
use mkey_rs.Session.Answer.{Answer}
use mkey_rs.Session.Totality.Events.{poll-Returns}
use mkey_rs.Session.Totality.{Returns, Sound, Supplies}
use mkey_rs.Session.Poll.{poll}
use mkey_rs.Ble.Pump.Actions.{
  Broke, Closes, Moved, Moved-same, arms-id_of, id_of, is_some, last_phase, run-Closes, run-Moved,
}
use mkey_rs.Data.MobileKey.{MobileKey}
use mkey_rs.Security.Random.{RandomSource}

module _ {W : Type 0} (display : Error → Message) (t : Transport W) where
  -- Where the pump stands before a round: the session is open and sound, and it waits for a timer
  -- exactly where the pump remembers a deadline, that timer's.
  pub record IsRunning (d : Option (TimerId × ℕ)) (s : Session) : Type 0 where
    pub open_still : s.is_done ≡ false
    pub sound : Sound s
    pub in_step : id_of d ≡ id_of (waits_for s)

  -- What a round may lead to.
  abbrev pub Continues : Iteration W → Type 0
  Continues (returned r s k) =
      ((s.is_done ≡ true) × (last_phase k.reports ≡ some finished)) ⊎ Broke display t r
  Continues (again event d s k) = IsRunning d s
  Continues panicked = ⊥

  closed-Continues :
      (s : Session) (p : Performed W)
      → s.is_done ≡ true
      → Closes display t p
      → Continues (after_actions display t s p)
  closed-Continues s (returns r k) d (inl h) = inl (d, h)
  closed-Continues s (returns r k) d (inr h) = inr h
  closed-Continues s (goes_on l k) d h = absurd h

  never_idle :
      (st : State) (ms : Timeouts) (actions : List Action)
      → Pending actions st
      → id_of (wait_of st ms) ≡ none
      → has_read actions ≡ false
      → ⊥
  never_idle idle ms actions p w r = p
  never_idle detecting ms actions p w r = cc
  never_idle (v0200 v) ms actions p w r = cc
  never_idle (v0100 v) ms actions p w r = cc

  await-Continues :
      (read : Option (Option Bytes)) (d : Option (TimerId × ℕ)) (s : Session) (k : Link W)
      (wait : Option (TimerId × ℕ)) (actions : List Action)
      → s.is_done ≡ false
      → Sound s
      → Pending actions s.state
      → wait ≡ waits_for s
      → id_of d ≡ id_of wait
      → is_some read ≡ has_read actions || false
      → Continues (await_with display t read d s k)
  await-Continues (some bytes) d s k wait actions o h q w x y = record {
    open_still = o;
    sound = h;
    in_step = x ∙ ap id_of w;
  }
  await-Continues none (some (id, at)) s k wait actions o h q w x y = record {
    open_still = o;
    sound = h;
    in_step = x ∙ ap id_of w;
  }
  await-Continues none none s k wait actions o h q w x y =
      absurd (never_idle s.state s.options.timeouts actions q (sym (x ∙ ap id_of w)) (ground arith))

  goes_on-Continues :
      (s : Session) (p : Performed W) (wait : Option (TimerId × ℕ)) (actions : List Action)
      → s.is_done ≡ false
      → Sound s
      → Pending actions s.state
      → wait ≡ waits_for s
      → Moved display t wait (has_read actions || false) p
      → Continues (after_actions display t s p)
  unfolding await_event
  goes_on-Continues s (returns r k) wait actions o h q w m = inr m
  goes_on-Continues s (goes_on l k) wait actions o h q w (x, y) =
      await-Continues l.info_read l.deadline s k wait actions o h q w x y

  act_on-Continues :
      (a : Answer) (d : Option (TimerId × ℕ)) (s : Session) (k : Link W)
      → IsRunning d s
      → Polled s a
      → Returns a
      → Continues (act_on display t a d k)
  act_on-Continues none d s k v p h = absurd h
  act_on-Continues (some (actions, u)) d s k v (inl (done, e)) h =
      closed-Continues u
        (run_actions display t actions (record { info_read = none; deadline = d }) k) done
        (run-Closes display t actions (record { info_read = none; deadline = d }) k e)
  act_on-Continues (some (actions, u)) d s k v (inr (o, n, w, q)) h =
      let l : Round = record { info_read = none; deadline = d } in
      goes_on-Continues u (run_actions display t actions l k) (armed (waits_for s) actions) actions
        o h q w
        (Moved-same display t (armed d actions) (armed (waits_for s) actions)
          (has_read actions || false) (has_read actions || false)
          (run_actions display t actions l k)
          (arms-id_of display t d (waits_for s) actions v.in_step) refl
          (run-Moved display t actions l k n))

  module _ (c : Cbc) (lawful : IsCbc c) (os : ℕ → Bytes)
      (drawn_16 : (i : ℕ) → length (os i) ≡ 16) where
    iterate-Continues :
        (event : Event) (d : Option (TimerId × ℕ)) (s : Session) (k : Link W)
        → IsRunning d s
        → Continues (iterate display t c os event d s k)
    unfolding iterate
    iterate-Continues event d s k v =
        act_on-Continues (poll c os event s) d s k v (poll-Polled c os event s v.open_still)
          (poll-Returns os drawn_16 c lawful event s v.sound)

    proceed-Continues :
        (i : Iteration W) (f : Event → Option (TimerId × ℕ) → Session → Link W → Iteration W)
        → Continues i
        → ((event : Event) (d : Option (TimerId × ℕ)) (s : Session) (k : Link W)
            → IsRunning d s
            → Continues (f event d s k))
        → Continues (proceed display t c os i f)
    proceed-Continues (returned r s k) f h rest = h
    proceed-Continues (again event d s k) f h rest = rest event d s k h
    proceed-Continues panicked f h rest = h

    -- From where it runs, whatever the transport does and however many rounds it makes, the pump never
    -- panics. It returns where the session is over, the finished phase reported last, or where the
    -- transport failed a write or the subscription, with that error; otherwise it is at another wait,
    -- with a deadline for the very timer that the session waits for: it is never left with nothing to
    -- wait for.
    pub pump_rounds-Continues :
        (rounds : ℕ) (event : Event) (d : Option (TimerId × ℕ)) (s : Session) (k : Link W)
        → IsRunning d s
        → Continues (pump_rounds display t c os rounds event d s k)
    unfolding pump_rounds
    pump_rounds-Continues zero event d s k v = v
    pump_rounds-Continues (suc rounds) event d s k v =
        proceed-Continues (iterate display t c os event d s k) (pump_rounds display t c os rounds)
          (iterate-Continues event d s k v) (pump_rounds-Continues rounds)

    -- How a whole session stands: the finished phase is the last that was reported, on every path
    -- but one, where the session was over already and its last write failed.
    abbrev pub Concludes : Iteration W → Type 0
    Concludes (returned r s k) =
        (last_phase k.reports ≡ some finished) ⊎ ((s.is_done ≡ true) × Broke display t r)
    Concludes (again event d s k) = IsRunning d s
    Concludes panicked = ⊥

    tear_down-Concludes : (i : Iteration W) → Continues i → Concludes (tear_down display t c os i)
    tear_down-Concludes (returned r s k) h = elim (Bool-cases s.is_done) [
      | inr e ↦ rw e (inl refl)
      | inl e ↦ elim h [ inl (d, p) ↦ rw e (inl p) | inr b ↦ rw e (inr (refl, b)) ]
    ]
    tear_down-Concludes (again event d s k) h = h
    tear_down-Concludes panicked h = h

    -- A new session over a transport: no round panics, and when the session returns, the finished phase
    -- is the last that the observer saw, unless the session itself was over and the transport then
    -- failed a write or the subscription, whose error it returns.
    pub run_session-Concludes :
        (rounds : ℕ) (key : MobileKey) (options : Options) (random : Option RandomSource)
        (k : Link W)
        → length key.kn_key ≡ 16
        → Supplies random
        → Concludes (run_session display t c os rounds (with_random_source key options random) k)
    unfolding run_session with_random_source
    run_session-Concludes rounds key options random k kn_16 source =
        let s = with_random_source key options random in
        tear_down-Concludes (pump_rounds display t c os rounds started none s k) (
          pump_rounds-Continues rounds started none s k (record {
            open_still = refl;
            sound = record { kn_16 = kn_16; source = source; stack = tt };
            in_step = refl;
          }))
