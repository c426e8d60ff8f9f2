-- ===== src/Ble/Lock/Down.antt =====
-- crates/mkey-ble/src/lock.rs: the state of the facade and that of the transport under it.
use mkey_rs.Ble.Lock.Opening.{concluded, open_checked, open_observed, options_for}
use mkey_rs.Ble.Lock.{
  BleTransport, LockState, OpeningMode, SaltoLock, after_connect, authenticate, authenticated,
  connect_by_id, connected, default_scan_duration, default_timeout, disconnect, disconnected,
  expect_state, is_connected, read_tag, same_state, scan, scan_and_connect_filtered, set_handshake,
  succeeds, unwrap_or, with_random, with_timeouts, with_transport, write_tag, wrong_state,
}
use mkey_rs.Ble.Lock.Attempt.{HangsUp, run-HangsUp}
use mkey_rs.Ble.Lock.Calls.{
  LockCall, after_opening, authenticates, connects_first, connects_to, disconnects, opens,
  reads_tag, run_calls, scans, sets_handshake, sets_random, sets_timeouts, step, then_step,
  writes_tag,
}
use mkey_rs.Ble.Discovery.{ConnectedLock, LockFilter}
use mkey_rs.Ble.Pump.{Iteration, again, panicked, returned, run_session}
use mkey_rs.Data.MobileKey.{MobileKey}
use mkey_rs.Crypto.Aes.{Cbc}
use mkey_rs.Result.{Result, continue, err, modify, ok, panic}
use mkey_rs.Error.{Error, Message}
use mkey_rs.Prelude.{
  Bool, Bytes, List, Option, String, [], ap, false, if◌then◌else◌, none, refl, some, subst, sym,
  true, ℕ, ◌∙◌, ◌∷◌, ◌≡◌,
}
use mkey_rs.Session.State.{with_random_source}

-- `is_up`, the transport's `is_connected`, is changed by a successful connection only.
abbrev pub UnlessOk : {W A : Type 0} → (W → Bool) → W → Result A × W → Type 0
UnlessOk up w (ok a, v) = Unit
UnlessOk up w (err e, v) = up v ≡ up w
UnlessOk up w (panic, v) = up v ≡ up w

-- What the facade relies on, of the transport's `is_connected`: a scan leaves its answer as it was, a
-- connection that fails does too, and behind `disconnect` it is false, also where it fails.
pub record MindsLink {W : Type 0} (t : BleTransport W) : Type 0 where
  pub scan-up : (ms : ℕ) (w : W) → t.is_up (t.scan_for ms w).1 ≡ t.is_up w
  pub first-up :
      (ms : ℕ) (filter : Option LockFilter) (w : W)
      → UnlessOk t.is_up w (t.connect_first ms filter w)
  pub to-up : (id : String) (ms : ℕ) (w : W) → UnlessOk t.is_up w (t.connect_to id ms w)
  pub disconnect-up : (w : W) → t.is_up (t.link.disconnect w).1 ≡ false

module _ {W : Type 0} (t : BleTransport W) (minds : MindsLink t) (display : Error → Message)
    (c : Cbc) (os : ℕ → Bytes) where
  -- Where the facade is disconnected, `is_connected` is false.
  abbrev IsDown : SaltoLock W → Type 0
  IsDown lk = lk.state ≡ disconnected → t.is_up lk.transport ≡ false

  abbrev Downs : Option (SaltoLock W) → Type 0
  Downs none = Unit
  Downs (some lk) = IsDown lk

  disconnected-ne : connected ≡ disconnected → ⊥
  disconnected-ne e = cc

  authenticated-ne : authenticated ≡ disconnected → ⊥
  authenticated-ne e = cc

  connecting-IsDown :
      (lk : SaltoLock W) (x : Result ConnectedLock × W)
      → IsDown lk
      → UnlessOk t.is_up lk.transport x
      → IsDown (continue (x.0, record lk { transport = x.1 }) after_connect).1
  unfolding after_connect
  connecting-IsDown lk (ok found, w) d h e = absurd (disconnected-ne e)
  connecting-IsDown lk (err x, w) d h e = h ∙ d e
  connecting-IsDown lk (panic, w) d h e = h ∙ d e

  expecting-IsDown :
      {A : Type 0} (expected : LockState) (lk : SaltoLock W)
      (f : Unit {0} → SaltoLock W → Result A × SaltoLock W)
      → IsDown lk
      → IsDown (f tt lk).1
      → IsDown (continue (expect_state expected lk) f).1
  unfolding expect_state
  expecting-IsDown expected lk f h g = branch (same_state lk.state expected)
    where
      branch :
          (b : Bool)
          → IsDown
              (continue (if b then (ok tt, lk) else (err (wrong_state expected lk.state), lk)) f).1
      branch true = g
      branch false = h

  concluded-Downs :
      (lk : SaltoLock W) (i : Iteration W)
      → HangsUp t display c os i
      → Downs (after_opening (concluded t lk i))
  concluded-Downs lk (returned r s k) (v, e) = λ _. ap t.is_up e ∙ minds.disconnect-up v
  concluded-Downs lk (again event d s k) h = tt
  concluded-Downs lk panicked h = tt

  open-Downs :
      (rounds : ℕ) (mode : OpeningMode) (lk : SaltoLock W)
      → IsDown lk
      → Downs (after_opening (open_observed t display c os rounds mode [] lk))
  unfolding open_observed expect_state
  open-Downs rounds mode lk h = branch (same_state lk.state authenticated) lk.mobile_key
    where
      branch :
          (b : Bool) (key : Option MobileKey)
          → Downs (
              after_opening (
                open_checked t display c os rounds mode [] (
                  if b
                  then (ok tt, record lk { mobile_key = key })
                  else (err (wrong_state authenticated lk.state), record lk { mobile_key = key }))))
      branch false key = h
      branch true none = h
      branch true (some key) =
          let u : SaltoLock W = record lk { mobile_key = some key } in
          concluded-Downs u
            (run_session display t.link c os rounds
              (with_random_source key (options_for t mode u) u.random)
              (record { world = u.transport; reports = [] }))
            (run-HangsUp t display c os rounds mode [] u key)

  hung_up-IsDown :
      (w : W) (x : Option Error × W) (lk : SaltoLock W)
      → t.link.disconnect w ≡ x
      → IsDown
          (continue
            ((succeeds x).0, record lk { transport = (succeeds x).1 })
            (λ _. modify (λ (lk : SaltoLock W). record lk {
              connected_lock = none;
              mobile_key = none;
              state = disconnected;
            }))).1
  hung_up-IsDown w (none, v) lk e _ =
      ap (λ (y : Option Error × W). t.is_up y.1) (sym e) ∙ minds.disconnect-up w
  hung_up-IsDown w (some x, v) lk e _ =
      ap (λ (y : Option Error × W). t.is_up y.1) (sym e) ∙ minds.disconnect-up w

  tags-IsDown :
      (id : ℕ) (bytes : Bytes) (lk : SaltoLock W) (key : Option MobileKey)
      → IsDown lk
      → IsDown (read_tag id (record lk { mobile_key = key })).1
        × IsDown (write_tag id bytes (record lk { mobile_key = key })).1
  unfolding read_tag write_tag
  tags-IsDown id bytes lk none h = (h, h)
  tags-IsDown id bytes lk (some key) h = (h, h)

  step-Downs : (x : LockCall) (lk : SaltoLock W) → IsDown lk → Downs (step t display c os x lk)
  unfolding step scan scan_and_connect_filtered connect_by_id authenticate disconnect set_handshake
      with_timeouts with_random
  step-Downs (scans duration) lk h =
      λ e. minds.scan-up (unwrap_or duration default_scan_duration) lk.transport ∙ h e
  step-Downs (connects_first within filter) lk h = expecting-IsDown disconnected lk _ h (
      connecting-IsDown lk _ h
        (minds.first-up (unwrap_or within default_scan_duration) filter lk.transport))
  step-Downs (connects_to id within) lk h =
      expecting-IsDown disconnected lk _ h
        (connecting-IsDown lk _ h (minds.to-up id (unwrap_or within default_timeout) lk.transport))
  step-Downs (authenticates key) lk h =
      expecting-IsDown connected lk _ h (λ e. absurd (authenticated-ne e))
  step-Downs (reads_tag id) lk h = (tags-IsDown id [] lk lk.mobile_key h).0
  step-Downs (writes_tag id bytes) lk h = (tags-IsDown id bytes lk lk.mobile_key h).1
  step-Downs (opens rounds mode) lk h = open-Downs rounds mode lk h
  step-Downs disconnects lk h = hung_up-IsDown lk.transport (t.link.disconnect lk.transport) lk refl
  step-Downs (sets_handshake plan) lk h = h
  step-Downs (sets_timeouts timeouts) lk h = h
  step-Downs (sets_random random) lk h = h

  then-Downs :
      (o : Option (SaltoLock W)) (f : SaltoLock W → Option (SaltoLock W))
      → Downs o
      → ((lk : SaltoLock W) → IsDown lk → Downs (f lk))
      → Downs (then_step t display c os o f)
  then-Downs none f d g = tt
  then-Downs (some lk) f d g = g lk d

  run-Downs :
      (xs : List LockCall) (lk : SaltoLock W) → IsDown lk → Downs (run_calls t display c os xs lk)
  unfolding run_calls
  run-Downs [] lk h = h
  run-Downs (x ∷ xs) lk h =
      then-Downs (step t display c os x lk) (run_calls t display c os xs) (step-Downs x lk h)
        (run-Downs xs)

  Downs-some : (o : Option (SaltoLock W)) (lk : SaltoLock W) → Downs o → o ≡ some lk → IsDown lk
  Downs-some o lk h e = subst Downs e h

  -- After any history of calls on a new facade, over a transport on which a facade may rely in the way of
  -- `MindsLink`, where the facade is disconnected, `is_connected` of its transport is false.
  pub run_calls-IsDown :
      (xs : List LockCall) (w : W) (lk : SaltoLock W)
      → t.is_up w ≡ false
      → run_calls t display c os xs (with_transport w) ≡ some lk
      → lk.state ≡ disconnected
      → is_connected t lk ≡ false
  unfolding is_connected
  run_calls-IsDown xs w lk down e =
      Downs-some (run_calls t display c os xs (with_transport w)) lk
        (run-Downs xs (with_transport w) (unfold with_transport in λ _. down)) e
