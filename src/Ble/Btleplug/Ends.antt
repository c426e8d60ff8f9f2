-- ===== src/Ble/Btleplug/Ends.antt =====
-- crates/mkey-ble/src/btleplug_impl.rs: what connecting leaves of the link, on every path.
use mkey_rs.Ble.Btleplug.{
  BtleplugTransport, Central, Characteristic, Gatt, Properties, Service, awaited, chosen_by, fails,
  find_characteristic, find_in, gives, has_service, try_parse_salto_lock,
}
use mkey_rs.Ble.Discovery.{
  ConnectedLock, DiscoveredLock, LockFilter, discover_by_manufacturer_data,
  discover_by_service_uuid, salto_notify_uuid, salto_service_uuid, salto_write_uuid,
}
use mkey_rs.Prelude.{
  ==_iff, Bool, Bool-cases, List, Option, Option-cases, String, [], ap, arith, false, if◌then◌else◌,
  inl, inr, none, not, refl, some, sym, true, ℕ, ◌==◌, ◌∙◌, ◌∷◌, ◌≡◌,
}
use mkey_rs.Ble.Btleplug.Connecting.{
  ask, attempt, connect_to_peripheral, find_and_store, given, moved, unless,
}
use mkey_rs.Ble.Task.{Awaited, Task, done, elapsed, failed, proceed}

find_in-uuid :
    (uuid : ℕ) (cs : List Characteristic) (ch : Characteristic)
    → find_in uuid cs ≡ some ch
    → ch.uuid ≡ uuid
unfolding find_in
find_in-uuid uuid [] ch e = cc
find_in-uuid uuid (x ∷ rest) ch e = elim (Bool-cases (x.uuid == uuid)) [
  | inl h ↦
      let same : x ≡ ch = some-injective x ch (rw h at e) in
      ap (λ (y : Characteristic). y.uuid) (sym same) ∙ (==_iff x.uuid uuid).0 h
  | inr h ↦ find_in-uuid uuid rest ch (rw h at e)
]
  where
    some-injective : (x y : Characteristic) → some x ≡ some y → x ≡ y
    some-injective x y e = cc

pub find_characteristic-uuid :
    (uuid : ℕ) (ss : List Service) (ch : Characteristic)
    → find_characteristic uuid ss ≡ some ch
    → ch.uuid ≡ uuid
unfolding find_characteristic
find_characteristic-uuid uuid [] ch e = cc
find_characteristic-uuid uuid (s ∷ rest) ch e =
    elim (Option-cases (find_in uuid s.characteristics)) [
      | inl h ↦ find_characteristic-uuid uuid rest ch (rw h at e)
      | inr (x, h) ↦ find_in-uuid uuid s.characteristics ch (h ∙ (rw h at e))
    ]

pub try_parse-id :
    (id : String) (p : Properties) (info : DiscoveredLock)
    → try_parse_salto_lock id p ≡ some info
    → info.id ≡ id
unfolding try_parse_salto_lock discover_by_manufacturer_data discover_by_service_uuid
try_parse-id id p info e = ground arith

module _ {W P N : Type 0} where
  -- The world aside, nothing has changed.
  pub record SameLink (s u : BtleplugTransport W P N) : Type 0 where
    pub same_peripheral : u.peripheral ≡ s.peripheral
    pub same_write : u.write_characteristic ≡ s.write_characteristic
    pub same_notify : u.notify_characteristic ≡ s.notify_characteristic
    pub same_stream : u.notification_stream ≡ s.notification_stream

  pub SameLink-trans :
      {s u v : BtleplugTransport W P N} → SameLink s u → SameLink u v → SameLink s v
  SameLink-trans a b = record {
    same_peripheral = b.same_peripheral ∙ a.same_peripheral;
    same_write = b.same_write ∙ a.same_write;
    same_notify = b.same_notify ∙ a.same_notify;
    same_stream = b.same_stream ∙ a.same_stream;
  }

  pub moved-SameLink : (s : BtleplugTransport W P N) (w : W) → SameLink s (moved s w)
  moved-SameLink s w = record {
    same_peripheral = refl;
    same_write = refl;
    same_notify = refl;
    same_stream = refl;
  }

  -- A task that, unless it is done, leaves the link as it was.
  abbrev pub Ends :
      {A : Type 0}
      → BtleplugTransport W P N
      → (A → BtleplugTransport W P N → Type 0)
      → Awaited A × BtleplugTransport W P N
      → Type 0
  Ends s Q (done a, u) = Q a u
  Ends s Q (failed e, u) = SameLink s u
  Ends s Q (elapsed, u) = SameLink s u

  pub Ends-bind :
      {A B : Type 0} (s : BtleplugTransport W P N) (Q : A → BtleplugTransport W P N → Type 0)
      (R : B → BtleplugTransport W P N → Type 0) (m : Awaited A × BtleplugTransport W P N)
      (f : A → Task (BtleplugTransport W P N) B)
      → Ends s Q m
      → ((a : A) (u : BtleplugTransport W P N) → Q a u → Ends s R (f a u))
      → Ends s R (proceed m f)
  Ends-bind s Q R (done a, u) f h g = g a u h
  Ends-bind s Q R (failed e, u) f h g = h
  Ends-bind s Q R (elapsed, u) f h g = h

  pub Ends-if :
      {A : Type 0} (s u : BtleplugTransport W P N) (Q : A → BtleplugTransport W P N → Type 0)
      (b : Bool) (x y : Task (BtleplugTransport W P N) A)
      → (b ≡ true → Ends s Q (x u))
      → (b ≡ false → Ends s Q (y u))
      → Ends s Q ((if b then x else y) u)
  Ends-if s u Q true x y p q = p refl
  Ends-if s u Q false x y p q = q refl

module _ {W P N : Type 0} (c : Central W P N) where
  pub attempt-Ends :
      {A : Type 0} (s u : BtleplugTransport W P N) (f : W → Gatt A × W)
      → SameLink s u
      → Ends s (λ _ v. SameLink s v) (attempt c f u)
  attempt-Ends {A} s u f h = cut (c.interrupted u.world)
    where
      cut :
          (o : Option W) → Ends s (λ (_ : Gatt A) v. SameLink s v) (unless o (given (f u.world)) u)
      cut none = SameLink-trans h (moved-SameLink u (f u.world).1)
      cut (some w) = SameLink-trans h (moved-SameLink u w)

  pub ask-Ends :
      {A : Type 0} (s u : BtleplugTransport W P N) (what : String) (f : W → Gatt A × W)
      → SameLink s u
      → Ends s (λ _ v. SameLink s v) (ask c what f u)
  ask-Ends {A} s u what f h =
      Ends-bind s (λ _ v. SameLink s v) (λ _ v. SameLink s v) (attempt c f u)
        (λ r v. (awaited what r, v)) (attempt-Ends s u f h) outcome
    where
      outcome :
          (r : Gatt A) (v : BtleplugTransport W P N)
          → SameLink s v
          → Ends s (λ (_ : A) v. SameLink s v) (awaited what r, v)
      outcome (gives a) v h = h
      outcome (fails e) v h = h

  -- What a connection stores, for the lock that it returns.
  pub record Stored (lock : ConnectedLock) (u : BtleplugTransport W P N) : Type 0 where
    pub peripheral : P
    pub held : u.peripheral ≡ some peripheral
    pub write_char : Characteristic
    pub writes : u.write_characteristic ≡ some write_char
    pub write_uuid : write_char.uuid ≡ salto_write_uuid
    pub notify_char : Characteristic
    pub notifies : u.notify_characteristic ≡ some notify_char
    pub notify_uuid : notify_char.uuid ≡ salto_notify_uuid
    pub unsubscribed : u.notification_stream ≡ none
    pub named : lock.info.id ≡ c.ident peripheral

  abbrev pub Connects :
      Option String → Option LockFilter → ConnectedLock → BtleplugTransport W P N → Type 0
  Connects wanted filter lock u =
      Stored lock u
      × (chosen_by filter lock.info ≡ true)
      × ((id : String) → wanted ≡ some id → lock.info.id ≡ id)

  find_and_store-Ends :
      (s u : BtleplugTransport W P N) (p : P) (info : DiscoveredLock)
      → SameLink s u
      → info.id ≡ c.ident p
      → Ends s (λ lock v. Stored lock v × (lock.info ≡ info)) (find_and_store c p info u)
  find_and_store-Ends s u p info h e =
      both (find_characteristic salto_write_uuid (c.services p u.world))
        (find_characteristic salto_notify_uuid (c.services p u.world)) refl refl
    where
      both :
          (x y : Option Characteristic)
          → find_characteristic salto_write_uuid (c.services p u.world) ≡ x
          → find_characteristic salto_notify_uuid (c.services p u.world) ≡ y
          → Ends s (λ lock v. Stored lock v × (lock.info ≡ info)) (find_and_store c p info u)
      both none y q r = rw q h
      both (some x) none q r = rw (q, r) h
      both (some x) (some y) q r =
          rw (q, r)
            (
              record {
                peripheral = p;
                held = refl;
                write_char = x;
                writes = refl;
                write_uuid = find_characteristic-uuid salto_write_uuid (c.services p u.world) x q;
                notify_char = y;
                notifies = refl;
                notify_uuid = find_characteristic-uuid salto_notify_uuid (c.services p u.world) y r;
                unsubscribed = refl;
                named = e;
              },
              refl,
            )

  pub connect_to_peripheral-Ends :
      (s u : BtleplugTransport W P N) (p : P) (info : DiscoveredLock)
      → SameLink s u
      → info.id ≡ c.ident p
      → Ends s (λ lock v. Stored lock v × (lock.info ≡ info)) (connect_to_peripheral c p info u)
  unfolding connect_to_peripheral
  connect_to_peripheral-Ends s u p info h e =
      Ends-bind s (λ _ v. SameLink s v) (λ lock v. Stored lock v × (lock.info ≡ info)) _ _
        (ask-Ends s u "Connecting" (c.connect p) h)
        λ _ u1 h1.
          Ends-bind s (λ _ v. SameLink s v) (λ lock v. Stored lock v × (lock.info ≡ info)) _ _
            (ask-Ends s u1 "Discovering services" (c.discover_services p) h1)
            λ _ u2 h2.
              Ends-if s u2 (λ lock v. Stored lock v × (lock.info ≡ info))
                (not (has_service salto_service_uuid (c.services p u2.world))) _ _
                (λ _.
                  Ends-bind s (λ _ v. SameLink s v) (λ lock v. Stored lock v × (lock.info ≡ info)) _
                    _ (ask-Ends s u2 "Disconnecting" (c.hang_up p) h2) (λ _ u3 h3. h3))
                (λ _. find_and_store-Ends s u2 p info h2 e)
