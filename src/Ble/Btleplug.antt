-- ===== src/Ble/Btleplug.antt =====
-- crates/mkey-ble/src/btleplug_impl.rs and gatt.rs: the transport over a Bluetooth library. The library
-- is an interface on a state of the world. The debug lines are left out.
pub mod Connecting
pub mod Linked
pub mod Ends
pub mod Connected
pub mod Minding
pub mod Driven
use mkey_rs.Prelude.{
  Bool, Bytes, List, Option, String, [], false, if◌then◌else◌, none, some, true, ℕ, ◌==◌, ◌||◌, ◌∷◌,
}
use mkey_rs.Error.{Error, Message, bluetooth_unavailable, gatt_operation_failed, num, text}
use mkey_rs.Result.{Result, and_then, err, ok}
use mkey_rs.Ble.Task.{Awaited, done, failed}
use mkey_rs.Ble.Discovery.{
  DiscoveredLock, LockFilter, ManufacturerData, discover_by_manufacturer_data,
  discover_by_service_uuid,
}

-- The library's `Result`, with the text of its error.
pub data Gatt (A : Type 0) : Type 0 where
  gives : A → Gatt A
  fails : Message → Gatt A

pub record Characteristic : Type 0 where
  pub uuid : ℕ
  pub readable : Bool
  pub writable : Bool

pub record Service : Type 0 where
  pub uuid : ℕ
  pub characteristics : List Characteristic

pub record Properties : Type 0 where
  pub local_name : Option String
  pub rssi : Option ℕ
  pub manufacturer_data : ManufacturerData
  pub services : List ℕ

-- What is awaited of the stream of events: a device seen or updated, another event, the deadline. The
-- list ends where the stream does.
pub data Arrival : Type 0 where
  device : String → Arrival
  other : Arrival
  deadline : Arrival

pub data WriteType : Type 0 where
  with_response without_response : WriteType

-- The calls of the library, on the adapter and on a peripheral `P`, with streams `N` of notifications.
-- `interrupted` tells that the deadline comes while the next call is awaited.
pub record Central (W P N : Type 0) : Type 0 where
  pub ident : P → String
  pub start_scan : W → Gatt (Unit {0}) × W
  pub stop_scan : W → Gatt (Unit {0}) × W
  pub events : W → Gatt (List Arrival) × W
  pub peripherals : W → Gatt (List P) × W
  pub peripheral_of : String → W → Gatt P × W
  pub properties : P → W → Gatt (Option Properties) × W
  pub connect : P → W → Gatt (Unit {0}) × W
  pub discover_services : P → W → Gatt (Unit {0}) × W
  pub services : P → W → List Service
  pub hang_up : P → W → Gatt (Unit {0}) × W
  pub link_is_up : P → W → Gatt Bool × W
  pub notifications : P → W → Gatt N × W
  pub enable : P → Characteristic → W → Gatt (Unit {0}) × W
  pub read_value : P → Characteristic → W → Gatt Bytes × W
  pub write_value : P → Characteristic → Bytes → WriteType → W → Gatt (Unit {0}) × W
  pub next : N → W → Option Bytes × W
  pub sleep : ℕ → W → W
  pub interrupted : W → Option W

-- The fields of `BtleplugTransport`, with the world for its adapter.
pub record BtleplugTransport (W P N : Type 0) : Type 0 where
  pub world : W
  pub peripheral : Option P
  pub write_characteristic : Option Characteristic
  pub notify_characteristic : Option Characteristic
  pub notification_stream : Option N

abbrev pub uuid_text : ℕ → Message
uuid_text uuid = num uuid ∷ []

-- `GattContext::gatt`.
abbrev pub gatt_error : String → Message → Error
gatt_error what e = Error.gatt_operation_failed (text what ∷ text " failed: " ∷ e)

abbrev pub gatt : {A : Type 0} → String → Gatt A → Result A
gatt what (gives a) = ok a
gatt what (fails e) = err (gatt_error what e)

abbrev pub awaited : {A : Type 0} → String → Gatt A → Awaited A
awaited what (gives a) = done a
awaited what (fails e) = failed (gatt_error what e)

abbrev pub ok_part : {A : Type 0} → Gatt A → Option A
ok_part (gives a) = some a
ok_part (fails e) = none

abbrev first : {W : Type 0} → List W → Result W
first [] = err Error.bluetooth_unavailable
first (w ∷ ws) = ok w

-- `BtleplugTransport::new`, on what the library answers: a manager, and its adapters, of which one is
-- the world that the transport is in.
unfoldable pub new :
    {W P N : Type 0} → Gatt (Unit {0}) → Gatt (List W) → Result (BtleplugTransport W P N)
new manager adapters = and_then (gatt "Opening the Bluetooth manager" manager) λ _.
    and_then (gatt "Listing Bluetooth adapters" adapters) λ ws. and_then (first ws) λ w.
      ok (record {
        world = w;
        peripheral = none;
        write_characteristic = none;
        notify_characteristic = none;
        notification_stream = none;
      })

-- The loops of `find_characteristic`.
unfoldable pub find_in : ℕ → List Characteristic → Option Characteristic
find_in uuid [] = none
find_in uuid (ch ∷ rest) = if ch.uuid == uuid then some ch else find_in uuid rest

abbrev or_else : {A : Type 0} → Option A → Option A → Option A
or_else (some a) rest = some a
or_else none rest = rest

unfoldable pub find_characteristic : ℕ → List Service → Option Characteristic
unfolding find_in
find_characteristic uuid [] = none
find_characteristic uuid (s ∷ rest) =
    or_else (find_in uuid s.characteristics) (find_characteristic uuid rest)

unfoldable pub has_service : ℕ → List Service → Bool
has_service uuid [] = false
has_service uuid (s ∷ rest) = s.uuid == uuid || has_service uuid rest

-- `try_parse_salto_lock`, on the peripheral's id.
unfoldable pub try_parse_salto_lock : String → Properties → Option DiscoveredLock
unfolding discover_by_manufacturer_data discover_by_service_uuid
try_parse_salto_lock id p =
    or_else (discover_by_manufacturer_data id p.local_name p.rssi p.manufacturer_data)
      (discover_by_service_uuid id p.local_name p.rssi p.services)

abbrev pub chosen_by : Option LockFilter → DiscoveredLock → Bool
chosen_by none info = true
chosen_by (some f) info = f info
