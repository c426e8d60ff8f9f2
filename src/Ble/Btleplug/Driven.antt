-- ===== src/Ble/Btleplug/Driven.antt =====
-- crates/mkey-ble/src/lock.rs over btleplug_impl.rs: what the facade's state says of the transport it drives.
use mkey_rs.Ble.Lock.{LockState, SaltoLock, is_connected, with_transport}
use mkey_rs.Ble.Btleplug.{BtleplugTransport, Central, Gatt, new}
use mkey_rs.Ble.Btleplug.Linked.{transport}
use mkey_rs.Ble.Btleplug.Minding.{transport-MindsLink}
use mkey_rs.Ble.Lock.Calls.{LockCall, run_calls}
use mkey_rs.Ble.Lock.Down.{run_calls-IsDown}
use mkey_rs.Crypto.Aes.{Cbc}
use mkey_rs.Result.{ok}
use mkey_rs.Error.{Error, Message}
use mkey_rs.Prelude.{Bytes, List, Option, ap, arith, false, none, refl, some, true, ℕ, ◌≡◌}

module _ {W P N : Type 0} (c : Central W P N) (now : W → ℕ) where
  new-peripheral :
      (manager : Gatt (Unit {0})) (adapters : Gatt (List W)) (s : BtleplugTransport W P N)
      → new manager adapters ≡ ok s
      → s.peripheral ≡ none
  unfolding new
  new-peripheral manager adapters s e = ground arith

  absent : (p : Option P) → elim p [ none ↦ false | some x ↦ true ] ≡ false → p ≡ none
  absent none e = refl
  absent (some x) e = cc

  -- A facade over btleplug, from the opening of the adapter on: after any history of calls, also of calls
  -- that fail or time out, a facade that says it is disconnected holds no peripheral.
  pub run_calls-peripheral :
      (display : Error → Message) (cbc : Cbc) (os : ℕ → Bytes) (manager : Gatt (Unit {0}))
      (adapters : Gatt (List W)) (s : BtleplugTransport W P N) (xs : List LockCall)
      (lk : SaltoLock (BtleplugTransport W P N))
      → new manager adapters ≡ ok s
      → run_calls (transport c now) display cbc os xs (with_transport s) ≡ some lk
      → lk.state ≡ LockState.disconnected
      → lk.transport.peripheral ≡ none
  unfolding is_connected transport
  run_calls-peripheral display cbc os manager adapters s xs lk made ran st =
      absent lk.transport.peripheral (
        run_calls-IsDown (transport c now) (transport-MindsLink c now).0 display cbc os xs s lk
          (ap (λ (p : Option P). elim p [ none ↦ false | some x ↦ true ])
            (new-peripheral manager adapters s made))
          ran st)
