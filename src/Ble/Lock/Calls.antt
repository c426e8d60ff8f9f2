-- ===== src/Ble/Lock/Calls.antt =====
-- crates/mkey-ble/src/lock.rs: what holds of the facade after any history of calls.
use mkey_rs.Ble.Lock.Opening.{
  Opening, concluded, open_observed, open_with_key, opened, opening_panics, options_for,
  still_opening,
}
use mkey_rs.Ble.Lock.{
  BleTransport, HandshakePlan, LockState, OpeningMode, SaltoLock, after_connect, authenticate,
  authenticated, connect_by_id, connected, disconnect, disconnected, expect_state, read_tag,
  same_state, scan, scan_and_connect_filtered, set_handshake, succeeds, with_random, with_timeouts,
  with_transport, write_tag,
}
use mkey_rs.Ble.Discovery.{ConnectedLock, LockFilter}
use mkey_rs.Ble.Pump.{Iteration, again, panicked, returned, run_session}
use mkey_rs.Data.MobileKey.{MobileKey, set_tag_data}
use mkey_rs.Session.Types.{Timeouts}
use mkey_rs.Security.Random.{RandomSource}
use mkey_rs.Crypto.Aes.{Cbc}
use mkey_rs.Result.{Result, continue, err, modify, ok, panic}
use mkey_rs.Error.{Error, Message}
use mkey_rs.Prelude.{
  Bool-cases, Bytes, List, Option, String, [], inl, inr, none, refl, some, subst, true, ℕ, ◌∷◌, ◌≡◌,
}
use mkey_rs.Session.State.{with_random_source}

abbrev pub Present {ℓ} : {A : Type ℓ} → Option A → Type 0
Present none = ⊥
Present (some a) = Unit

-- What each state holds of the lock and of the key.
abbrev pub Holds : LockState → Option ConnectedLock → Option MobileKey → Type 0
Holds disconnected c key = c ≡ none
Holds connected c key = Present c × (key ≡ none)
Holds authenticated c key = Present c × Present key

abbrev pub IsCoherent : {W : Type 0} → SaltoLock W → Type 0
IsCoherent lk = Holds lk.state lk.connected_lock lk.mobile_key

-- A call of the facade.
pub data LockCall : Type 0 where
  scans : Option ℕ → LockCall
  connects_first : Option ℕ → Option LockFilter → LockCall
  connects_to : String → Option ℕ → LockCall
  authenticates : MobileKey → LockCall
  reads_tag : ℕ → LockCall
  writes_tag : ℕ → Bytes → LockCall
  opens : ℕ → OpeningMode → LockCall
  disconnects : LockCall
  sets_handshake : HandshakePlan → LockCall
  sets_timeouts : Timeouts → LockCall
  sets_random : RandomSource → LockCall

same_state→eq : (a b : LockState) → same_state a b ≡ true → a ≡ b
same_state→eq disconnected disconnected h = refl
same_state→eq connected connected h = refl
same_state→eq authenticated authenticated h = refl
same_state→eq a b h = cc

module _ {W : Type 0} where
  abbrev pub after_opening : Opening W → Option (SaltoLock W)
  after_opening (opened r lk reports) = some lk
  after_opening (still_opening s k) = none
  after_opening opening_panics = none

  abbrev Kept : Option (SaltoLock W) → Type 0
  Kept none = Unit
  Kept (some lk) = IsCoherent lk

  expecting-IsCoherent :
      {A : Type 0} (expected : LockState) (lk : SaltoLock W)
      (f : Unit {0} → SaltoLock W → Result A × SaltoLock W)
      → IsCoherent lk
      → (lk.state ≡ expected → IsCoherent (f tt lk).1)
      → IsCoherent (continue (expect_state expected lk) f).1
  unfolding expect_state
  expecting-IsCoherent expected lk f h g = elim (Bool-cases (same_state lk.state expected)) [
    | inl e ↦ rw e (g (same_state→eq lk.state expected e))
    | inr e ↦ rw e h
  ]

module _ {W : Type 0} (t : BleTransport W) (display : Error → Message) (c : Cbc)
    (os : ℕ → Bytes) where
  -- The facade after a call; `none` where the opening panics, or has not come back.
  unfoldable pub step : LockCall → SaltoLock W → Option (SaltoLock W)
  step (scans duration) lk = some (scan t duration lk).1
  step (connects_first within filter) lk = some (scan_and_connect_filtered t within filter lk).1
  step (connects_to id within) lk = some (connect_by_id t id within lk).1
  step (authenticates key) lk = some (authenticate key lk).1
  step (reads_tag id) lk = some (read_tag id lk).1
  step (writes_tag id bytes) lk = some (write_tag id bytes lk).1
  step (opens rounds mode) lk = after_opening (open_observed t display c os rounds mode [] lk)
  step disconnects lk = some (disconnect t lk).1
  step (sets_handshake plan) lk = some (set_handshake plan lk)
  step (sets_timeouts timeouts) lk = some (with_timeouts timeouts lk)
  step (sets_random random) lk = some (with_random random lk)

  abbrev pub then_step :
      Option (SaltoLock W) → (SaltoLock W → Option (SaltoLock W)) → Option (SaltoLock W)
  then_step none f = none
  then_step (some lk) f = f lk

  unfoldable pub run_calls : List LockCall → SaltoLock W → Option (SaltoLock W)
  unfolding step
  run_calls [] lk = some lk
  run_calls (x ∷ xs) lk = then_step (step x lk) (run_calls xs)

  connected-IsCoherent :
      (x : Result ConnectedLock × W) (lk : SaltoLock W)
      → IsCoherent lk
      → IsCoherent (continue (x.0, record lk { transport = x.1 }) after_connect).1
  unfolding after_connect
  connected-IsCoherent (ok found, w) lk h = (tt, refl)
  connected-IsCoherent (err e, w) lk h = h
  connected-IsCoherent (panic, w) lk h = h

  concluded-Kept : (lk : SaltoLock W) (i : Iteration W) → Kept (after_opening (concluded t lk i))
  concluded-Kept lk (returned r s k) = refl
  concluded-Kept lk (again event d s k) = tt
  concluded-Kept lk panicked = tt

  open-Kept :
      (rounds : ℕ) (mode : OpeningMode) (lk : SaltoLock W)
      → IsCoherent lk
      → Kept (after_opening (open_observed t display c os rounds mode [] lk))
  unfolding open_observed expect_state
  open-Kept rounds mode lk h = elim (Bool-cases (same_state lk.state authenticated)) [
    | inr e ↦ rw e h
    | inl e ↦ rw e (keyed lk.mobile_key h)
  ]
    where
      keyed :
          (key : Option MobileKey)
          → IsCoherent lk
          → Kept (
              after_opening (elim key [
                | none ↦ opened (err Error.invalid_mobile_key) lk []
                | some key ↦ open_with_key t display c os rounds mode [] key lk
              ]))
      keyed none h = h
      keyed (some key) h = concluded-Kept lk (
          run_session display t.link c os rounds
            (with_random_source key (options_for t mode lk) lk.random)
            (record { world = lk.transport; reports = [] }))

  hung_up-IsCoherent :
      (x : Option Error × W) (lk : SaltoLock W)
      → IsCoherent lk
      → IsCoherent
          (continue
            ((succeeds x).0, record lk { transport = (succeeds x).1 })
            (λ _. modify (λ (lk : SaltoLock W). record lk {
              connected_lock = none;
              mobile_key = none;
              state = disconnected;
            }))).1
  hung_up-IsCoherent (none, w) lk h = refl
  hung_up-IsCoherent (some e, w) lk h = h

  keyed-IsCoherent :
      (st : LockState) (found : Option ConnectedLock) (old : Option MobileKey) (key : MobileKey)
      → Present old
      → Holds st found old
      → Holds st found (some key)
  keyed-IsCoherent disconnected found old key p h = h
  keyed-IsCoherent connected found none key p h = absurd p
  keyed-IsCoherent connected found (some k) key p (a, b) = cc
  keyed-IsCoherent authenticated found old key p (a, b) = (a, tt)

  read_tag-IsCoherent :
      (id : ℕ) (lk : SaltoLock W) (key : Option MobileKey)
      → Holds lk.state lk.connected_lock key
      → IsCoherent (read_tag id (record lk { mobile_key = key })).1
  unfolding read_tag
  read_tag-IsCoherent id lk none h = h
  read_tag-IsCoherent id lk (some key) h = h

  write_tag-IsCoherent :
      (id : ℕ) (bytes : Bytes) (lk : SaltoLock W) (key : Option MobileKey)
      → Holds lk.state lk.connected_lock key
      → IsCoherent (write_tag id bytes (record lk { mobile_key = key })).1
  unfolding write_tag
  write_tag-IsCoherent id bytes lk none h = h
  write_tag-IsCoherent id bytes lk (some key) h =
      keyed-IsCoherent lk.state lk.connected_lock (some key) (set_tag_data key id bytes) tt h

  step-Kept : (x : LockCall) (lk : SaltoLock W) → IsCoherent lk → Kept (step x lk)
  unfolding step scan scan_and_connect_filtered connect_by_id authenticate read_tag write_tag
      disconnect set_handshake with_timeouts with_random
  step-Kept (scans duration) lk h = h
  step-Kept (connects_first within filter) lk h =
      expecting-IsCoherent disconnected lk _ h (λ e. connected-IsCoherent _ lk h)
  step-Kept (connects_to id within) lk h =
      expecting-IsCoherent disconnected lk _ h (λ e. connected-IsCoherent _ lk h)
  step-Kept (authenticates key) lk h =
      expecting-IsCoherent connected lk _ h (λ e. ((rw e at h).0, tt))
  step-Kept (reads_tag id) lk h = read_tag-IsCoherent id lk lk.mobile_key h
  step-Kept (writes_tag id bytes) lk h = write_tag-IsCoherent id bytes lk lk.mobile_key h
  step-Kept (opens rounds mode) lk h = open-Kept rounds mode lk h
  step-Kept disconnects lk h = hung_up-IsCoherent (t.link.disconnect lk.transport) lk h
  step-Kept (sets_handshake plan) lk h = h
  step-Kept (sets_timeouts timeouts) lk h = h
  step-Kept (sets_random random) lk h = h

  then-Kept :
      (x : Option (SaltoLock W)) (f : SaltoLock W → Option (SaltoLock W))
      → Kept x
      → ((lk : SaltoLock W) → IsCoherent lk → Kept (f lk))
      → Kept (then_step x f)
  then-Kept none f h g = tt
  then-Kept (some lk) f h g = g lk h

  run_calls-Kept : (xs : List LockCall) (lk : SaltoLock W) → IsCoherent lk → Kept (run_calls xs lk)
  unfolding run_calls
  run_calls-Kept [] lk h = h
  run_calls-Kept (x ∷ xs) lk h =
      then-Kept (step x lk) (run_calls xs) (step-Kept x lk h) (run_calls-Kept xs)

  Kept-some : (o : Option (SaltoLock W)) (lk : SaltoLock W) → Kept o → o ≡ some lk → IsCoherent lk
  Kept-some none lk h e = cc
  Kept-some (some u) lk h e = subst (λ o. Kept o) e h

  -- After any history of calls on a new facade, failures included: a facade that is disconnected holds
  -- no lock, one that is connected holds a lock and no key, and one that is authenticated holds both.
  pub run_calls-IsCoherent :
      (xs : List LockCall) (w : W) (lk : SaltoLock W)
      → run_calls xs (with_transport w) ≡ some lk
      → IsCoherent lk
  run_calls-IsCoherent xs w lk =
      Kept-some (run_calls xs (with_transport w)) lk
        (run_calls-Kept xs (with_transport w) (unfold with_transport in refl))
