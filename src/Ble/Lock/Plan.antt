-- ===== src/Ble/Lock/Plan.antt =====
-- crates/mkey-ble/src/lock.rs and advertisement.rs: what the plan makes of what a scan has seen.
use mkey_rs.Ble.Lock.{auto, resolve}
use mkey_rs.Ble.Btleplug.{Properties, try_parse_salto_lock}
use mkey_rs.Ble.Discovery.{
  DiscoveredLock, ManufacturerData, discover_by_manufacturer_data, discover_by_service_uuid,
  record_of, salto_manufacturer_id,
}
use mkey_rs.Session.Types.{Detection}
use mkey_rs.Advertisement.{from_byte, parse_salto_advertisement}
use mkey_rs.Prelude.{
  Bool-cases, Bytes, Option, Option-cases, String, arith, get_or, inl, inr, length, ltb, none, some,
  subst, sym, ℕ, ◌<◌, ◌↔◌, ◌∙◌, ◌≡◌, ◌≤◌, ◌⊎◌,
}

-- The peripheral carries the manufacturer's record, of three bytes or more, and it names a version.
abbrev pub NamesVersion : ManufacturerData → Type 0
NamesVersion m =
    (bytes : Bytes) × (record_of salto_manufacturer_id m ≡ some bytes)
    × (3 ≤ length bytes)
    × (0 < get_or bytes 0 0)

plain_version : (version : ℕ) → (resolve auto version ≡ Detection.app_protocol) ↔ (0 < version)
unfolding resolve
plain_version version = (λ h. ground arith, λ h. ground arith)

by_service-version :
    (id : String) (p : Properties) (lock : DiscoveredLock)
    → discover_by_service_uuid id p.local_name p.rssi p.services ≡ some lock
    → lock.protocol_version ≡ 0
unfolding discover_by_service_uuid
by_service-version id p lock e = ground arith

-- The version of a lock that was recognised: its record's, or zero.
version_of :
    (id : String) (p : Properties) (lock : DiscoveredLock)
    → try_parse_salto_lock id p ≡ some lock
    → ((bytes : Bytes) × (record_of salto_manufacturer_id p.manufacturer_data ≡ some bytes)
        × (3 ≤ length bytes)
        × (lock.protocol_version ≡ get_or bytes 0 0))
      ⊎ ((lock.protocol_version ≡ 0)
          × ((bytes : Bytes)
              → record_of salto_manufacturer_id p.manufacturer_data ≡ some bytes
              → length bytes < 3))
unfolding try_parse_salto_lock discover_by_manufacturer_data parse_salto_advertisement
version_of id p lock e = elim (Option-cases (record_of salto_manufacturer_id p.manufacturer_data)) [
  | inl h ↦ inr (by_service-version id p lock (rw h at e), λ bytes q. absurd (no_record h q))
  | inr (bytes, h) ↦ elim (Bool-cases (ltb (length bytes) 3)) [
    | inl short ↦ inr (
      by_service-version id p lock (rw (h, short) at e),
      λ b q.
          subst (λ (x : Bytes). length x < 3) (some-injective bytes b (sym h ∙ q)) (ground arith),
    )
    | inr long ↦ inl (bytes, h, ground arith, sym (recorded bytes (rw (h, long) at e)))
  ]
]
  where
    no_record : {o : Option Bytes} {bytes : Bytes} → o ≡ none → o ≡ some bytes → ⊥
    no_record p q = cc

    some-injective : (x y : Bytes) → some x ≡ some y → x ≡ y
    some-injective x y q = cc

    recorded :
        (bytes : Bytes)
        → some (record {
          id = id;
          name = p.local_name;
          rssi = p.rssi;
          protocol_version = get_or bytes 0 0;
          flags = from_byte (get_or bytes 2 0);
        })
          ≡ some lock
        → get_or bytes 0 0 ≡ lock.protocol_version
    recorded bytes q = ground arith

-- Left to choose, the facade announces the app protocol to a lock that it has recognised exactly when
-- the lock's manufacturer record, of three bytes or more, names a version that is not zero.
pub auto_plan_iff :
    (id : String) (p : Properties) (lock : DiscoveredLock)
    → try_parse_salto_lock id p ≡ some lock
    → (resolve auto lock.protocol_version ≡ Detection.app_protocol)
      ↔ NamesVersion p.manufacturer_data
auto_plan_iff id p lock e = elim (version_of id p lock e) [
  | inl (bytes, h, long, v) ↦ (
    λ r. (bytes, h, long, subst (λ (n : ℕ). 0 < n) v ((plain_version lock.protocol_version).0 r)),
    λ (b, q, _, pos). (plain_version lock.protocol_version).1 (
        subst (λ (n : ℕ). 0 < n) (sym v)
          (subst (λ (x : Bytes). 0 < get_or x 0 0) (same b bytes (sym q ∙ h)) pos)),
  )
  | inr (v, short) ↦ (
    λ r. absurd (ground (arith, (plain_version lock.protocol_version).0 r)),
    λ (b, q, long, _). absurd (ground (arith, short b q)),
  )
]
  where
    same : (x y : Bytes) → some x ≡ some y → x ≡ y
    same x y r = cc
