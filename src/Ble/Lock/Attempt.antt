-- ===== src/Ble/Lock/Attempt.antt =====
-- crates/mkey-ble/src/lock.rs: one opening attempt.
use mkey_rs.Ble.Lock.Opening.{
  Opening, concluded, open_observed, open_with_key, opened, opening_panics, options_for,
  still_opening,
}
use mkey_rs.Ble.Lock.{
  BleTransport, LockState, OpeningMode, SaltoLock, authenticated, connected, disconnected,
  expect_state, same_state, wrong_state,
}
use mkey_rs.Ble.Pump.{
  Iteration, Link, Report, again, panicked, pump_rounds, returned, run_session, tear_down,
}
use mkey_rs.Session.Types.{Outcome, started}
use mkey_rs.Session.State.{Session, with_random_source}
use mkey_rs.Data.MobileKey.{MobileKey}
use mkey_rs.Crypto.Aes.{Cbc, IsCbc}
use mkey_rs.Result.{Result, err}
use mkey_rs.Error.{Error, Message}
use mkey_rs.Prelude.{
  Bytes, List, ap, false, length, none, refl, some, subst, ℕ, ◌+◌, ◌∙◌, ◌≡◌, ◌≢◌, ◌≤◌,
}
use mkey_rs.Ble.Pump.Termination.{run_session-Returns}
use mkey_rs.Ble.Pump.Draining.{RunsDry}
use mkey_rs.Session.Totality.{Supplies}

module _ {W : Type 0} (t : BleTransport W) (display : Error → Message) (c : Cbc)
    (os : ℕ → Bytes) where
  -- The link was taken down as the last thing that was done to the transport.
  abbrev pub HungUp : W → Type 0
  HungUp w = (v : W) × (w ≡ (t.link.disconnect v).1)

  abbrev pub HangsUp : Iteration W → Type 0
  HangsUp (returned r s k) = HungUp k.world
  HangsUp (again event d s k) = Unit
  HangsUp panicked = Unit

  tear_down-HangsUp : (i : Iteration W) → HangsUp (tear_down display t.link c os i)
  tear_down-HangsUp (returned r s k) = (_, refl)
  tear_down-HangsUp (again event d s k) = tt
  tear_down-HangsUp panicked = tt

  -- What an attempt leaves: no link, no lock, and the key.
  pub record Spent (before after : SaltoLock W) : Type 0 where
    pub state_of : after.state ≡ disconnected
    pub no_lock : after.connected_lock ≡ none
    pub key_kept : after.mobile_key ≡ before.mobile_key
    pub random_taken : after.random ≡ none
    pub hung_up : HungUp after.transport

  abbrev Spends : SaltoLock W → Opening W → Type 0
  Spends lk (opened r u reports) = Spent lk u
  Spends lk (still_opening s k) = Unit
  Spends lk opening_panics = Unit

  concluded-Spends : (lk : SaltoLock W) (i : Iteration W) → HangsUp i → Spends lk (concluded t lk i)
  concluded-Spends lk (returned r s k) h = record {
    state_of = refl;
    no_lock = refl;
    key_kept = refl;
    random_taken = refl;
    hung_up = h;
  }
  concluded-Spends lk (again event d s k) h = tt
  concluded-Spends lk panicked h = tt

  keyed_opening :
      (rounds : ℕ) (mode : OpeningMode) (reports : List Report) (lk : SaltoLock W) (key : MobileKey)
      → lk.state ≡ authenticated
      → lk.mobile_key ≡ some key
      → open_observed t display c os rounds mode reports lk
        ≡ open_with_key t display c os rounds mode reports key lk
  unfolding open_observed expect_state
  keyed_opening rounds mode reports lk key st k = simp (st, k)

  pub run-HangsUp :
      (rounds : ℕ) (mode : OpeningMode) (reports : List Report) (lk : SaltoLock W) (key : MobileKey)
      → HangsUp (
          run_session display t.link c os rounds
            (with_random_source key (options_for t mode lk) lk.random)
            (record { world = lk.transport; reports = reports }))
  unfolding run_session
  run-HangsUp rounds mode reports lk key = tear_down-HangsUp (
      pump_rounds display t.link c os rounds started none
        (with_random_source key (options_for t mode lk) lk.random)
        (record { world = lk.transport; reports = reports }))

  run-Spends :
      (rounds : ℕ) (mode : OpeningMode) (reports : List Report) (lk : SaltoLock W) (key : MobileKey)
      → Spends lk (open_with_key t display c os rounds mode reports key lk)
  run-Spends rounds mode reports lk key =
      concluded-Spends lk
        (run_session display t.link c os rounds
          (with_random_source key (options_for t mode lk) lk.random)
          (record { world = lk.transport; reports = reports }))
        (run-HangsUp rounds mode reports lk key)

  same_state-ne : (a : LockState) → a ≢ authenticated → same_state a authenticated ≡ false
  same_state-ne disconnected h = refl
  same_state-ne connected h = refl
  same_state-ne authenticated h = absurd (h refl)

  -- Before the key is loaded an opening is refused, and neither the transport nor the facade is touched:
  -- a link that is up stays up.
  pub open_observed-refused :
      (rounds : ℕ) (mode : OpeningMode) (reports : List Report) (lk : SaltoLock W)
      → lk.state ≢ authenticated
      → open_observed t display c os rounds mode reports lk
        ≡ opened (err (wrong_state authenticated lk.state)) lk reports
  unfolding open_observed expect_state
  open_observed-refused rounds mode reports lk h = simp (same_state-ne lk.state h)

  returns-Spent :
      (lk : SaltoLock W) (i : Iteration W) (r : Result Outcome) (s : Session) (k : Link W)
      (o : Opening W)
      → o ≡ concluded t lk i
      → Spends lk o
      → i ≡ returned r s k
      → (u : SaltoLock W) × (o ≡ opened r u k.reports) × Spent lk u
  returns-Spent lk i r s k o e h q =
      let f : o ≡ concluded t lk (returned r s k) = e ∙ ap (concluded t lk) q in
      (_, f, subst (Spends lk) f h)

  -- An attempt of a facade that is authenticated comes back, over a transport whose packets run dry,
  -- within three rounds more than the packets that are left. Whatever its result is, the facade is
  -- disconnected after it, without a lock and without the injected source of random values, and taking
  -- down the link is the last thing that was done to the transport.
  pub open_observed-Returns :
      (lawful : IsCbc c) (drawn_16 : (i : ℕ) → length (os i) ≡ 16) (left : W → ℕ)
      (dry : RunsDry t.link left) (rounds : ℕ) (mode : OpeningMode) (reports : List Report)
      (lk : SaltoLock W) (key : MobileKey)
      → lk.state ≡ authenticated
      → lk.mobile_key ≡ some key
      → length key.kn_key ≡ 16
      → Supplies lk.random
      → left lk.transport + 3 ≤ rounds
      → (r : Result Outcome) × (u : SaltoLock W) × (seen : List Report) × (open_observed t display c
            os rounds mode reports lk
          ≡ opened r u seen)
        × Spent lk u
  open_observed-Returns lawful drawn_16 left dry rounds mode reports lk key st k kn_16 source h =
      let (r, s, link, e) =
        run_session-Returns display t.link left dry c os lawful drawn_16 rounds key
          (options_for t mode lk) lk.random (record { world = lk.transport; reports = reports })
          kn_16 source h in
      let (u, f, spent) =
        returns-Spent lk
          (run_session display t.link c os rounds
            (with_random_source key (options_for t mode lk) lk.random)
            (record { world = lk.transport; reports = reports }))
          r s link (open_with_key t display c os rounds mode reports key lk) refl
          (run-Spends rounds mode reports lk key) e in
      (r, u, link.reports, keyed_opening rounds mode reports lk key st k ∙ f, spent)
