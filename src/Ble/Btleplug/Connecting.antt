-- ===== src/Ble/Btleplug/Connecting.antt =====
-- crates/mkey-ble/src/btleplug_impl.rs: scanning, and connecting under a timeout.
use mkey_rs.Ble.Btleplug.{
  Arrival, BtleplugTransport, Central, Characteristic, Gatt, Properties, Service, awaited,
  chosen_by, deadline, device, fails, find_characteristic, gives, has_service, other,
  try_parse_salto_lock, uuid_text,
}
use mkey_rs.Ble.Discovery.{
  ConnectedLock, DiscoveredLock, LockFilter, salto_notify_uuid, salto_service_uuid,
  salto_write_uuid,
}
use mkey_rs.Ble.Task.{Task, done, elapsed, fail, pure, ◌>>=◌, ◌>>◌}
use mkey_rs.Error.{Error}
use mkey_rs.Prelude.{List, Option, String, [], if◌then◌else◌, is_text, none, not, some, ℕ, ◌∷◌}

abbrev pub moved : {W P N : Type 0} → BtleplugTransport W P N → W → BtleplugTransport W P N
moved s w = record s { world = w }

module _ {W P N A : Type 0} where
  -- The deadline comes first, or the task goes on.
  abbrev pub unless : Option W → Task (BtleplugTransport W P N) A → Task (BtleplugTransport W P N) A
  unless (some w) f s = (elapsed, moved s w)
  unless none f s = f s

  abbrev pub given : Gatt A × W → Task (BtleplugTransport W P N) (Gatt A)
  given (r, w) s = (done r, moved s w)

module _ {W P N : Type 0} (c : Central W P N) where
  -- `…await` under the timeout, with the library's `Result` as it is.
  abbrev pub attempt : {A : Type 0} → (W → Gatt A × W) → Task (BtleplugTransport W P N) (Gatt A)
  attempt f s = unless (c.interrupted s.world) (given (f s.world)) s

  -- `….await.gatt(…)?` under the timeout.
  abbrev pub ask : {A : Type 0} → String → (W → Gatt A × W) → Task (BtleplugTransport W P N) A
  ask what f = attempt f >>= λ r s. (awaited what r, s)

  -- `?` on a search.
  abbrev found_or : Error → Option Characteristic → Task (BtleplugTransport W P N) Characteristic
  found_or e none = fail e
  found_or e (some ch) = pure ch

  abbrev services_of : P → Task (BtleplugTransport W P N) (List Service)
  services_of p s = (done (c.services p s.world), s)

  -- The end of `connect_to_peripheral`: the connection state is stored.
  abbrev pub store :
      P
      → Characteristic
      → Characteristic
      → DiscoveredLock
      → Task (BtleplugTransport W P N) ConnectedLock
  store p write_char notify_char info s = (
    done (record { info = info }),
    record s {
      peripheral = some p;
      write_characteristic = some write_char;
      notify_characteristic = some notify_char;
      notification_stream = none;
    },
  )

  abbrev no_characteristic : ℕ → Error
  no_characteristic uuid = Error.characteristic_not_found (uuid_text uuid)

  abbrev pub find_and_store : P → DiscoveredLock → Task (BtleplugTransport W P N) ConnectedLock
  find_and_store p info = do
    ss ← services_of p
    write_char ←
        found_or (no_characteristic salto_write_uuid) (find_characteristic salto_write_uuid ss)
    notify_char ←
        found_or (no_characteristic salto_notify_uuid) (find_characteristic salto_notify_uuid ss)
    store p write_char notify_char info

  abbrev refuse_service : P → Task (BtleplugTransport W P N) ConnectedLock
  refuse_service p = do
    ask "Disconnecting" (c.hang_up p)
    fail (Error.service_not_found (uuid_text salto_service_uuid))

  unfoldable pub connect_to_peripheral :
      P → DiscoveredLock → Task (BtleplugTransport W P N) ConnectedLock
  unfolding find_characteristic has_service
  connect_to_peripheral p info = do
    ask "Connecting" (c.connect p)
    ask "Discovering services" (c.discover_services p)
    ss ← services_of p
    if not (has_service salto_service_uuid ss) then refuse_service p else find_and_store p info

  -- The search of one device among what was seen: its properties, if the library gives them, parsed.
  abbrev pub parse_device : P → Gatt (Option Properties) → Option (P × DiscoveredLock)
  parse_device p (fails e) = none
  parse_device p (gives none) = none
  parse_device p (gives (some props)) = elim (try_parse_salto_lock (c.ident p) props) [
    | none ↦ none
    | some info ↦ some (p, info)
  ]

  abbrev pub examine : P → Task (BtleplugTransport W P N) (Option (P × DiscoveredLock))
  examine p = do props ← attempt (c.properties p); pure (parse_device p props)

  -- The peripheral of a device: whichever, or only the one with the id that is asked for.
  abbrev pub of_device :
      Option String → Gatt P → Task (BtleplugTransport W P N) (Option (P × DiscoveredLock))
  of_device wanted (fails e) = pure none
  of_device none (gives p) = examine p
  of_device (some id) (gives p) = if is_text (c.ident p) id then examine p else pure none

  unfoldable pub candidate :
      Option String → String → Task (BtleplugTransport W P N) (Option (P × DiscoveredLock))
  unfolding try_parse_salto_lock
  candidate wanted id = do p ← attempt (c.peripheral_of id); of_device wanted p

  abbrev pub take_or :
      Option LockFilter
      → Option (P × DiscoveredLock)
      → Task (BtleplugTransport W P N) ConnectedLock
      → Task (BtleplugTransport W P N) ConnectedLock
  take_or filter none rest = rest
  take_or filter (some (p, info)) rest =
      if chosen_by filter info then (do attempt c.stop_scan; connect_to_peripheral p info) else rest

  abbrev expire : Task (BtleplugTransport W P N) ConnectedLock
  expire s = (elapsed, s)

  -- The `while let` over the events, of `scan_and_connect` (whichever device) and of `connect_by_id`.
  unfoldable pub look :
      Option String
      → Option LockFilter
      → List Arrival
      → Task (BtleplugTransport W P N) ConnectedLock
  unfolding candidate connect_to_peripheral
  look wanted filter [] = fail Error.no_locks_found
  look wanted filter (deadline ∷ rest) = expire
  look wanted filter (other ∷ rest) = look wanted filter rest
  look wanted filter (device id ∷ rest) = do
    found ← candidate wanted id
    take_or filter found (look wanted filter rest)
