-- ===== src/Ble/Lock/Opening.antt =====
-- crates/mkey-ble/src/lock.rs: one opening attempt of the facade.
use mkey_rs.Ble.Pump.{Iteration, Link, Report, again, panicked, returned, run_session}
use mkey_rs.Session.Types.{Options, Outcome}
use mkey_rs.Session.State.{Session, with_random_source}
use mkey_rs.Data.MobileKey.{MobileKey}
use mkey_rs.Crypto.Aes.{Cbc}
use mkey_rs.Result.{Result, err, ok, panic}
use mkey_rs.Error.{Error, Message}
use mkey_rs.Prelude.{Bytes, List, [], none, some, ℕ}
use mkey_rs.Ble.Lock.{
  BleTransport, LockState, OpeningMode, SaltoLock, advertised_version, authenticated, expect_state,
  mode_of, resolve,
}

-- What an opening comes to in so many rounds of the pump.
pub data Opening (W : Type 0) : Type 0 where
  opened : Result Outcome → SaltoLock W → List Report → Opening W
  still_opening : Session → Link W → Opening W
  opening_panics : Opening W

module _ {W : Type 0} (t : BleTransport W) where
  unfoldable pub options_for : OpeningMode → SaltoLock W → Options
  unfolding resolve mode_of
  options_for mode lk = record {
    mode = mode_of mode;
    detection = resolve lk.handshake (advertised_version lk.connected_lock);
    timeouts = lk.timeouts;
    notify_readable = t.notify_readable lk.transport;
  }

  -- The facade behind `run_session`, which has closed the link.
  abbrev pub concluded : SaltoLock W → Iteration W → Opening W
  concluded lk (returned r s k) =
      opened r
        (record lk {
          transport = k.world;
          connected_lock = none;
          state = LockState.disconnected;
          random = none;
        })
        k.reports
  concluded lk (again event d s k) = still_opening s k
  concluded lk panicked = opening_panics

  module _ (display : Error → Message) (c : Cbc) (os : ℕ → Bytes) where
    abbrev pub open_with_key : ℕ → OpeningMode → List Report → MobileKey → SaltoLock W → Opening W
    open_with_key rounds mode reports key lk = concluded lk (
        run_session display t.link c os rounds
          (with_random_source key (options_for mode lk) lk.random)
          (record { world = lk.transport; reports = reports }))

    abbrev pub open_checked :
        ℕ → OpeningMode → List Report → Result (Unit {0}) × SaltoLock W → Opening W
    open_checked rounds mode reports (err e, lk) = opened (err e) lk reports
    open_checked rounds mode reports (panic, lk) = opening_panics
    open_checked rounds mode reports (ok _, lk) = elim lk.mobile_key [
      | none ↦ opened (err Error.invalid_mobile_key) lk reports
      | some key ↦ open_with_key rounds mode reports key lk
    ]

    -- `open_observed`, for so many rounds of the pump.
    unfoldable pub open_observed : ℕ → OpeningMode → List Report → SaltoLock W → Opening W
    unfolding expect_state options_for
    open_observed rounds mode reports lk =
        open_checked rounds mode reports (expect_state authenticated lk)

    -- `open_with_mode`, whose observer writes to stderr; `open` and `open_office`.
    unfoldable pub open_with_mode : ℕ → OpeningMode → SaltoLock W → Opening W
    unfolding open_observed
    open_with_mode rounds mode lk = open_observed rounds mode [] lk

    unfoldable pub open_standard : ℕ → SaltoLock W → Opening W
    unfolding open_with_mode
    open_standard rounds lk = open_with_mode rounds OpeningMode.standard lk

    unfoldable pub open_office : ℕ → SaltoLock W → Opening W
    unfolding open_with_mode
    open_office rounds lk = open_with_mode rounds OpeningMode.office lk
