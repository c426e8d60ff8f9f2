-- ===== src/Ble/Btleplug/Linked.antt =====
-- crates/mkey-ble/src/btleplug_impl.rs: the methods of the transport.
use mkey_rs.Ble.Btleplug.{
  BtleplugTransport, Central, Gatt, Properties, fails, gatt, gives, try_parse_salto_lock,
  with_response, without_response,
}
use mkey_rs.Ble.Btleplug.Connecting.{look, moved}
use mkey_rs.Ble.Discovery.{ConnectedLock, DiscoveredLock, LockFilter}
use mkey_rs.Ble.Lock.{BleTransport}
use mkey_rs.Ble.Pump.{
  ReadOutcome, Received, closed, expired_wait, link_failed, no_answer, packet_of, read_failed,
  value,
}
use mkey_rs.Result.{Exec, Result, err, gets, modify, ok, ok_or, panic, pure, ◌>>=◌, ◌>>◌}
use mkey_rs.Ble.Task.{Awaited, within}
use mkey_rs.Error.{Error}
use mkey_rs.Prelude.{
  Bool, Bytes, List, Option, String, [], false, if◌then◌else◌, none, some, true, ℕ, ◌++◌, ◌∷◌,
}

module _ {W P N : Type 0} (c : Central W P N) where
  -- `….await.gatt(…)?` with no timeout.
  abbrev pub request : {A : Type 0} → String → (W → Gatt A × W) → Exec (BtleplugTransport W P N) A
  request what f s = let (r, w) = f s.world in (gatt what r, moved s w)

  -- `let _ = self.adapter.stop_scan().await` and the match on the timeout's result.
  abbrev pub finish_scan :
      ℕ
      → Awaited ConnectedLock × BtleplugTransport W P N
      → Result ConnectedLock × BtleplugTransport W P N
  finish_scan ms (r, s) = (within ms r, moved s (c.stop_scan s.world).1)

  abbrev pub search :
      Option String → Option LockFilter → ℕ → Exec (BtleplugTransport W P N) ConnectedLock
  search wanted filter ms = do
    arrivals ← request "Watching for devices" c.events
    request "Starting a scan" c.start_scan
    λ s. finish_scan ms (look c wanted filter arrivals s)

  unfoldable pub scan_and_connect :
      ℕ → Option LockFilter → Exec (BtleplugTransport W P N) ConnectedLock
  unfolding look
  scan_and_connect ms filter = search none filter ms

  unfoldable pub connect_by_id : String → ℕ → Exec (BtleplugTransport W P N) ConnectedLock
  unfolding look
  connect_by_id id ms = search (some id) none ms

  -- One round of the `for` loop of `scan`.
  abbrev parsed : P → Gatt (Option Properties) → List DiscoveredLock
  parsed p (fails e) = []
  parsed p (gives none) = []
  parsed p (gives (some props)) = elim (try_parse_salto_lock (c.ident p) props) [
    | none ↦ []
    | some info ↦ info ∷ []
  ]

  unfoldable pub collect : List P → W → List DiscoveredLock × W
  unfolding try_parse_salto_lock
  collect [] w = ([], w)
  collect (p ∷ rest) w =
      let (r, v) = c.properties p w in let (locks, u) = collect rest v in (parsed p r ++ locks, u)

  abbrev collected : List P → Exec (BtleplugTransport W P N) (List DiscoveredLock)
  collected ps s = let (locks, w) = collect ps s.world in (ok locks, moved s w)

  abbrev pub wait_for : ℕ → Exec (BtleplugTransport W P N) (Unit {0})
  wait_for ms s = (ok tt, moved s (c.sleep ms s.world))

  unfoldable pub scan : ℕ → Exec (BtleplugTransport W P N) (List DiscoveredLock)
  unfolding collect
  scan ms = do
    request "Starting a scan" c.start_scan
    wait_for ms
    request "Stopping the scan" c.stop_scan
    ps ← request "Listing peripherals" c.peripherals
    collected ps

  abbrev pub held :
      {A : Type 0} → (BtleplugTransport W P N → Option A) → Exec (BtleplugTransport W P N) A
  held f s = (ok_or (f s) Error.disconnected, s)

  abbrev pub drop_if : Bool → P → Exec (BtleplugTransport W P N) (Unit {0})
  drop_if up p = if up then request "Disconnecting" (c.hang_up p) else pure tt

  -- The `if let` of `disconnect`, behind `self.peripheral.take()`.
  abbrev pub drop_peripheral : Option P → Exec (BtleplugTransport W P N) (Unit {0})
  drop_peripheral none = pure tt
  drop_peripheral (some p) = do up ← request "Checking the link" (c.link_is_up p); drop_if up p

  unfoldable pub disconnect : Exec (BtleplugTransport W P N) (Unit {0})
  disconnect = do
    p ← gets (λ (s : BtleplugTransport W P N). s.peripheral)
    modify (λ (s : BtleplugTransport W P N). record s { peripheral = none })
    drop_peripheral p
    modify (λ (s : BtleplugTransport W P N). record s {
      write_characteristic = none;
      notify_characteristic = none;
      notification_stream = none;
    })

  abbrev pub is_connected : BtleplugTransport W P N → Bool
  is_connected s = elim s.peripheral [ none ↦ false | some p ↦ true ]

  unfoldable pub write : Bytes → Exec (BtleplugTransport W P N) (Unit {0})
  write bytes = do
    p ← held (λ (s : BtleplugTransport W P N). s.peripheral)
    ch ← held (λ (s : BtleplugTransport W P N). s.write_characteristic)
    request "Writing"
        (c.write_value p ch bytes (if ch.writable then with_response else without_response))

  -- A notification, or none where the stream has ended.
  unfoldable pub receive : Exec (BtleplugTransport W P N) (Option Bytes)
  receive = do
    stream ← held (λ (s : BtleplugTransport W P N). s.notification_stream)
    λ s. let (r, w) = c.next stream s.world in (ok r, moved s w)

  abbrev pub subscribe_anew : Exec (BtleplugTransport W P N) (Unit {0})
  subscribe_anew = do
    p ← held (λ (s : BtleplugTransport W P N). s.peripheral)
    ch ← held (λ (s : BtleplugTransport W P N). s.notify_characteristic)
    stream ← request "Opening the notification stream" (c.notifications p)
    request "Enabling notifications" (c.enable p ch)
    modify (λ (s : BtleplugTransport W P N). record s { notification_stream = some stream })
    wait_for 50

  unfoldable pub subscribe : Exec (BtleplugTransport W P N) (Unit {0})
  subscribe s = elim s.notification_stream [ some stream ↦ (ok tt, s) | none ↦ subscribe_anew s ]

  unfoldable pub read_notify_value : Exec (BtleplugTransport W P N) Bytes
  read_notify_value = do
    p ← held (λ (s : BtleplugTransport W P N). s.peripheral)
    ch ← held (λ (s : BtleplugTransport W P N). s.notify_characteristic)
    request "Reading" (c.read_value p ch)

  unfoldable pub notify_readable : BtleplugTransport W P N → Bool
  notify_readable s = elim s.notify_characteristic [ none ↦ false | some ch ↦ ch.readable ]

  -- The results as the pump and the facade see them. No method above panics.
  abbrev pub error_of : {S : Type 0} → Result (Unit {0}) × S → Option Error × S
  error_of (ok x, s) = (none, s)
  error_of (err e, s) = (some e, s)
  error_of (panic, s) = (none, s)

  abbrev read_outcome : {S : Type 0} → Result Bytes × S → ReadOutcome × S
  read_outcome (ok bytes, s) = (value bytes, s)
  read_outcome (err e, s) = (read_failed e, s)
  read_outcome (panic, s) = (no_answer, s)

  abbrev received : {S : Type 0} → Result (Option Bytes) × S → Received × S
  received (ok (some bytes), s) = (packet_of bytes, s)
  received (ok none, s) = (closed, s)
  received (err e, s) = (link_failed e, s)
  received (panic, s) = (closed, s)

  abbrev in_time :
      {R : Type 0}
      → (BtleplugTransport W P N → R × BtleplugTransport W P N)
      → R
      → BtleplugTransport W P N
      → R × BtleplugTransport W P N
  in_time f late s = elim (c.interrupted s.world) [ some w ↦ (late, moved s w) | none ↦ f s ]

  -- `impl BleTransport for BtleplugTransport`, with the clock of the world and the timeouts that the pump
  -- sets.
  unfoldable pub transport : (W → ℕ) → BleTransport (BtleplugTransport W P N)
  unfolding scan scan_and_connect connect_by_id disconnect write receive subscribe read_notify_value
      notify_readable
  transport now = record {
    link = record {
      now = λ s. now s.world;
      send = λ bytes s. error_of (write bytes s);
      enable = λ s. error_of (subscribe s);
      read_within = λ ms s. in_time (λ u. read_outcome (read_notify_value u)) no_answer s;
      sleep = λ ms s. moved s (c.sleep ms s.world);
      receive_until = λ at s. in_time (λ u. received (receive u)) expired_wait s;
      disconnect = λ s. error_of (disconnect s);
    };
    scan_for = λ ms s. scan ms s;
    connect_first = λ ms filter s. scan_and_connect ms filter s;
    connect_to = λ id ms s. connect_by_id id ms s;
    is_up = λ s. is_connected s;
    notify_readable = λ s. notify_readable s;
  }
