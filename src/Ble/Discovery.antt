-- ===== src/Ble/Discovery.antt =====
-- crates/mkey-ble/src/traits.rs and advertisement.rs: a lock that a scan has found. A UUID is its number,
-- and a signal strength the sixteen bits of its integer.
use mkey_rs.Prelude.{
  Bool, Bytes, List, Option, String, [], false, if◌then◌else◌, none, not, some, ℕ, ◌==◌, ◌||◌, ◌∷◌,
}
use mkey_rs.Advertisement.{
  ProtocolFlags, SaltoAdvertisement, default_flags, parse_salto_advertisement,
}

abbrev pub salto_manufacturer_id : ℕ
salto_manufacturer_id = 0x0199

abbrev pub salto_service_uuid : ℕ
salto_service_uuid = 0xB6E60001_E2E3_BC82_4C72_929D0D29CA17

abbrev pub salto_notify_uuid : ℕ
salto_notify_uuid = 0xB6E60002_E2E3_BC82_4C72_929D0D29CA17

abbrev pub salto_write_uuid : ℕ
salto_write_uuid = 0xB6E60003_E2E3_BC82_4C72_929D0D29CA17

pub record DiscoveredLock : Type 0 where
  pub id : String
  pub name : Option String
  pub rssi : Option ℕ
  pub protocol_version : ℕ
  pub flags : ProtocolFlags

pub record ConnectedLock : Type 0 where
  pub info : DiscoveredLock

abbrev pub LockFilter : Type 0
LockFilter = DiscoveredLock → Bool

-- `HashMap<u16, Vec<u8>>`, with one entry for each manufacturer.
abbrev pub ManufacturerData : Type 0
ManufacturerData = List (ℕ × Bytes)

unfoldable pub record_of : ℕ → ManufacturerData → Option Bytes
record_of k [] = none
record_of k ((j, bytes) ∷ rest) = if j == k then some bytes else record_of k rest

-- `<[Uuid]>::contains`.
unfoldable pub contains : ℕ → List ℕ → Bool
contains uuid [] = false
contains uuid (u ∷ us) = u == uuid || contains uuid us

infixl 10 ◌>>=◌
abbrev ◌>>=◌ {ℓ κ} : {A : Type ℓ} {B : Type κ} → Option A → (A → Option B) → Option B
none >>= f = none
some a >>= f = f a

abbrev lock_with : String → Option String → Option ℕ → SaltoAdvertisement → DiscoveredLock
lock_with id name rssi a = record {
  id = id;
  name = name;
  rssi = rssi;
  protocol_version = a.protocol_version;
  flags = a.flags;
}

unfoldable pub discover_by_manufacturer_data :
    String → Option String → Option ℕ → ManufacturerData → Option DiscoveredLock
unfolding record_of
discover_by_manufacturer_data id name rssi manufacturer_data = do
  bytes ← record_of salto_manufacturer_id manufacturer_data
  advertisement ← parse_salto_advertisement bytes
  some (lock_with id name rssi advertisement)

unfoldable pub discover_by_service_uuid :
    String → Option String → Option ℕ → List ℕ → Option DiscoveredLock
unfolding contains
discover_by_service_uuid id name rssi service_uuids =
    if not (contains salto_service_uuid service_uuids)
    then none
    else some
        (record { id = id; name = name; rssi = rssi; protocol_version = 0; flags = default_flags })
