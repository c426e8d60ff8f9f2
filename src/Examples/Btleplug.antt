-- ===== src/Examples/Btleplug.antt =====
-- A Bluetooth library that has seen one lock, and a transport over it.
use mkey_rs.Ble.Btleplug.{
  BtleplugTransport, Central, Characteristic, Gatt, Properties, Service, device, gives, new, other,
}
use mkey_rs.Ble.Btleplug.Linked.{connect_by_id, disconnect, scan_and_connect, subscribe, transport}
use mkey_rs.Ble.Btleplug.Connected.{Found, connect_lem}
use mkey_rs.Ble.Btleplug.Minding.{Parted, subscribe-subscribe, transport-MindsLink}
use mkey_rs.Ble.Btleplug.Driven.{run_calls-peripheral}
use mkey_rs.Ble.Lock.Calls.{LockCall, connects_first, disconnects, opens, run_calls}
use mkey_rs.Ble.Lock.Opening.{open_observed}
use mkey_rs.Ble.Lock.{
  LockState, OpeningMode, SaltoLock, auto, disconnected, scan_and_connect_filtered, standard,
  with_transport,
}
use mkey_rs.Session.Types.{default_timeouts}
use mkey_rs.Examples.Session.{os}
use mkey_rs.Examples.Fixtures.{cipher, no_text}
use mkey_rs.Ble.Lock.Down.{MindsLink}
use mkey_rs.Ble.Discovery.{
  LockFilter, salto_manufacturer_id, salto_notify_uuid, salto_service_uuid, salto_write_uuid,
}
use mkey_rs.Result.{ok}
use mkey_rs.Advertisement.{parse_salto_advertisement}
use mkey_rs.Prelude.{List, Option, String, [], false, none, refl, some, true, ℕ, ◌+◌, ◌∷◌, ◌≡◌}

-- The world counts the milliseconds slept. A device is its id, and a stream its number.
abbrev answering : {A : Type 0} → A → ℕ → Gatt A × ℕ
answering a w = (gives a, w)

abbrev to_write : Characteristic
to_write = record { uuid = salto_write_uuid; readable = false; writable = true }

abbrev to_notify : Characteristic
to_notify = record { uuid = salto_notify_uuid; readable = true; writable = false }

abbrev served : List Service
served = record { uuid = salto_service_uuid; characteristics = to_write ∷ to_notify ∷ [] } ∷ []

abbrev advertised : Properties
advertised = record {
  local_name = none;
  rssi = none;
  manufacturer_data = (salto_manufacturer_id, 1 ∷ 0 ∷ 0 ∷ []) ∷ [];
  services = [];
}

abbrev central : Central ℕ String ℕ
central = record {
  ident = λ p. p;
  start_scan = answering tt;
  stop_scan = answering tt;
  events = answering (other ∷ device "lock" ∷ []);
  peripherals = answering ("lock" ∷ []);
  peripheral_of = λ id. answering id;
  properties = λ p. answering (some advertised);
  connect = λ p. answering tt;
  discover_services = λ p. answering tt;
  services = λ p w. served;
  hang_up = λ p. answering tt;
  link_is_up = λ p. answering true;
  notifications = λ p. answering 1;
  enable = λ p ch. answering tt;
  read_value = λ p ch. answering [];
  write_value = λ p ch bytes kind. answering tt;
  next = λ stream w. (none, w);
  sleep = λ ms w. w + ms;
  interrupted = λ w. none;
}

abbrev unlinked : BtleplugTransport ℕ String ℕ
unlinked = record {
  world = 0;
  peripheral = none;
  write_characteristic = none;
  notify_characteristic = none;
  notification_stream = none;
}

abbrev linked : BtleplugTransport ℕ String ℕ
linked = record unlinked {
  peripheral = some "lock";
  write_characteristic = some to_write;
  notify_characteristic = some to_notify;
}

connects : (scan_and_connect central 5000 none unlinked).1 ≡ linked
unfolding scan_and_connect parse_salto_advertisement
connects = refl

connect_lem_example :
    ((filter : Option LockFilter)
      → Found central unlinked none filter (scan_and_connect central 5000 filter unlinked))
    × ((id : String)
        → Found central unlinked (some id) none (connect_by_id central id 5000 unlinked))
connect_lem_example = connect_lem central unlinked 5000

transport-MindsLink_example :
    MindsLink (transport central (λ w. w))
    × ((s : BtleplugTransport ℕ String ℕ)
        → let (r, u) = disconnect central s in Parted central s r u)
transport-MindsLink_example = transport-MindsLink central (λ w. w)

abbrev subscribed : BtleplugTransport ℕ String ℕ
subscribed = record linked { world = 50; notification_stream = some 1 }

subscribes : subscribe central linked ≡ (ok tt, subscribed)
unfolding subscribe
subscribes = refl

subscribe-subscribe_example :
    ((stream : ℕ) × (some 1 ≡ some stream)) × (subscribe central subscribed ≡ (ok tt, subscribed))
subscribe-subscribe_example = subscribe-subscribe central linked subscribed subscribes

-- A search, an opening before there is a key, and the end of the connection.
abbrev history : List LockCall
history =
    connects_first none none
    ∷ opens 1 OpeningMode.standard
    ∷ connects_first none none
    ∷ disconnects
    ∷ []

abbrev dropped : SaltoLock (BtleplugTransport ℕ String ℕ)
dropped = record {
  transport = unlinked;
  connected_lock = none;
  mobile_key = none;
  state = LockState.disconnected;
  handshake = auto;
  timeouts = default_timeouts;
  random = none;
}

makes : new (gives tt) (gives (0 ∷ [])) ≡ ok unlinked
unfolding new
makes = refl

history_runs :
    run_calls (transport central (λ w. w)) no_text cipher os history (with_transport unlinked)
    ≡ some dropped
unfolding run_calls with_transport transport open_observed
    mkey_rs.Ble.Lock.scan_and_connect_filtered mkey_rs.Ble.Lock.disconnect parse_salto_advertisement
history_runs = refl

run_calls-peripheral_example : dropped.transport.peripheral ≡ none
run_calls-peripheral_example =
    run_calls-peripheral central (λ w. w) no_text cipher os (gives tt) (gives (0 ∷ [])) unlinked
      history dropped makes history_runs refl
