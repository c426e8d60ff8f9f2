-- ===== src/Ble/Btleplug/Minding.antt =====
-- crates/mkey-ble/src/btleplug_impl.rs: what the facade relies on, of the transport over btleplug: its
-- `is_connected`, which tells whether a peripheral is held, and its `disconnect`; and its subscriptions.
use mkey_rs.Ble.Btleplug.{BtleplugTransport, Central, Gatt, fails, gatt, gatt_error, gives}
use mkey_rs.Ble.Btleplug.Connecting.{moved}
use mkey_rs.Ble.Btleplug.Linked.{
  collect, connect_by_id, disconnect, drop_if, drop_peripheral, error_of, is_connected, scan,
  scan_and_connect, subscribe, subscribe_anew, transport,
}
use mkey_rs.Ble.Btleplug.Ends.{SameLink, SameLink-trans, moved-SameLink}
use mkey_rs.Ble.Btleplug.Connected.{Found, connect_lem}
use mkey_rs.Ble.Discovery.{ConnectedLock, LockFilter}
use mkey_rs.Ble.Lock.Down.{MindsLink, UnlessOk}
use mkey_rs.Result.{Result, continue, err, modify, ok, ok_or, panic}
use mkey_rs.Prelude.{Bool, Option, String, ap, false, none, refl, some, sym, true, ℕ, ◌∙◌, ◌≡◌}
use mkey_rs.Error.{Error, Message}

module _ {W P N : Type 0} (c : Central W P N) where
  request-SameLink :
      {A B : Type 0} (s u : BtleplugTransport W P N) (what : String) (x : Gatt A × W)
      (f : A → BtleplugTransport W P N → Result B × BtleplugTransport W P N)
      → SameLink s u
      → ((a : A) (v : BtleplugTransport W P N) → SameLink s v → SameLink s (f a v).1)
      → SameLink s (continue (gatt what x.0, moved u x.1) f).1
  request-SameLink s u what (gives a, w) f h g =
      g a (moved u w) (SameLink-trans h (moved-SameLink u w))
  request-SameLink s u what (fails e, w) f h g = SameLink-trans h (moved-SameLink u w)

  scan-SameLink : (ms : ℕ) (s : BtleplugTransport W P N) → SameLink s (scan c ms s).1
  unfolding scan
  scan-SameLink ms s =
      request-SameLink s s "Starting a scan" (c.start_scan s.world) _ (moved-SameLink s s.world)
        λ _ u h.
          request-SameLink s (moved u (c.sleep ms u.world)) "Stopping the scan"
            (c.stop_scan (c.sleep ms u.world)) _
            (SameLink-trans h (moved-SameLink u (c.sleep ms u.world)))
            λ _ v k.
              request-SameLink s v "Listing peripherals" (c.peripherals v.world) _ k
                λ ps x q. SameLink-trans q (moved-SameLink x (collect c ps x.world).1)

  same_up : (s u : BtleplugTransport W P N) → SameLink s u → is_connected c u ≡ is_connected c s
  same_up s u h = ap (λ (p : Option P). elim p [ none ↦ false | some x ↦ true ]) h.same_peripheral

  Found-UnlessOk :
      (s : BtleplugTransport W P N) (wanted : Option String) (filter : Option LockFilter)
      (x : Result ConnectedLock × BtleplugTransport W P N)
      → Found c s wanted filter x
      → UnlessOk (is_connected c) s x
  Found-UnlessOk s wanted filter (ok lock, u) h = tt
  Found-UnlessOk s wanted filter (err e, u) h = same_up s u h
  Found-UnlessOk s wanted filter (panic, u) h = absurd h

  -- A request keeps the fields of the transport, whatever it answers.
  asked-down :
      {A B : Type 0} (what : String) (x : Gatt A × W) (u : BtleplugTransport W P N)
      (f : A → BtleplugTransport W P N → Result B × BtleplugTransport W P N)
      → u.peripheral ≡ none
      → ((a : A) (v : BtleplugTransport W P N) → v.peripheral ≡ none → (f a v).1.peripheral ≡ none)
      → (continue (gatt what x.0, moved u x.1) f).1.peripheral ≡ none
  asked-down what (gives a, w) u f h g = g a (moved u w) h
  asked-down what (fails e, w) u f h g = h

  dropped-down :
      (p : Option P) (u : BtleplugTransport W P N)
      → u.peripheral ≡ none
      → (drop_peripheral c p u).1.peripheral ≡ none
  dropped-down none u h = h
  dropped-down (some p) u h =
      asked-down "Checking the link" (c.link_is_up p u.world) u (λ up. drop_if c up p) h hung_up
    where
      hung_up :
          (up : Bool) (v : BtleplugTransport W P N)
          → v.peripheral ≡ none
          → (drop_if c up p v).1.peripheral ≡ none
      hung_up true v k = k
      hung_up false v k = k

  cleared-down :
      (m : Result (Unit {0}) × BtleplugTransport W P N)
      → m.1.peripheral ≡ none
      → (continue m (λ _. modify (λ (s : BtleplugTransport W P N). record s {
        write_characteristic = none;
        notify_characteristic = none;
        notification_stream = none;
      }))).1.peripheral
        ≡ none
  cleared-down (ok a, u) h = h
  cleared-down (err e, u) h = h
  cleared-down (panic, u) h = h

  error_of-state : (x : Result (Unit {0}) × BtleplugTransport W P N) → (error_of c x).1 ≡ x.1
  error_of-state (ok a, u) = refl
  error_of-state (err e, u) = refl
  error_of-state (panic, u) = refl

  disconnect-down : (s : BtleplugTransport W P N) → (disconnect c s).1.peripheral ≡ none
  unfolding disconnect
  disconnect-down s =
      let u : BtleplugTransport W P N = record s { peripheral = none } in
      cleared-down (drop_peripheral c s.peripheral u) (dropped-down s.peripheral u refl)

  down_of : (s : BtleplugTransport W P N) → s.peripheral ≡ none → is_connected c s ≡ false
  down_of s h = ap (λ (p : Option P). elim p [ none ↦ false | some x ↦ true ]) h

  -- Nothing is held any more: no peripheral, no characteristic and no stream.
  abbrev emptied : BtleplugTransport W P N → W → BtleplugTransport W P N
  emptied s w = record s {
    world = w;
    peripheral = none;
    write_characteristic = none;
    notify_characteristic = none;
    notification_stream = none;
  }

  -- A disconnection: there is no peripheral to disconnect, its link is reported down, it is hung up, or a
  -- request fails. Then the peripheral is forgotten, but the characteristics and the stream are kept.
  pub data Parted (s : BtleplugTransport W P N)
      : Result (Unit {0}) → BtleplugTransport W P N → Type 0 where
    was_alone : s.peripheral ≡ none → Parted s (ok tt) (emptied s s.world)
    was_down :
        (p : P) (w : W)
        → s.peripheral ≡ some p
        → c.link_is_up p s.world ≡ (gives false, w)
        → Parted s (ok tt) (emptied s w)
    hung_up :
        (p : P) (v w : W)
        → s.peripheral ≡ some p
        → c.link_is_up p s.world ≡ (gives true, v)
        → c.hang_up p v ≡ (gives tt, w)
        → Parted s (ok tt) (emptied s w)
    check_failed :
        (p : P) (e : Message) (w : W)
        → s.peripheral ≡ some p
        → c.link_is_up p s.world ≡ (fails e, w)
        → Parted s
            (err (gatt_error "Checking the link" e))
            (record s { world = w; peripheral = none })
    hang_up_failed :
        (p : P) (e : Message) (v w : W)
        → s.peripheral ≡ some p
        → c.link_is_up p s.world ≡ (gives true, v)
        → c.hang_up p v ≡ (fails e, w)
        → Parted s (err (gatt_error "Disconnecting" e)) (record s { world = w; peripheral = none })

  -- What `disconnect` does behind the request that it ends with.
  abbrev Leaves : BtleplugTransport W P N → Result (Unit {0}) × BtleplugTransport W P N → Type 0
  Leaves s m =
      let (r, u) = continue m (λ _. modify (λ (s : BtleplugTransport W P N). record s {
        write_characteristic = none;
        notify_characteristic = none;
        notification_stream = none;
      })) in
      Parted s r u

  hung_up-Leaves :
      (s : BtleplugTransport W P N) (p : P) (v : W) (x : Gatt (Unit {0}) × W)
      → s.peripheral ≡ some p
      → c.link_is_up p s.world ≡ (gives true, v)
      → c.hang_up p v ≡ x
      → Leaves s (gatt "Disconnecting" x.0, record s { world = x.1; peripheral = none })
  hung_up-Leaves s p v (gives a, w) h up e = hung_up p v w h up e
  hung_up-Leaves s p v (fails e, w) h up q = hang_up_failed p e v w h up q

  checked-Leaves :
      (s : BtleplugTransport W P N) (p : P) (x : Gatt Bool × W)
      → s.peripheral ≡ some p
      → c.link_is_up p s.world ≡ x
      → Leaves s (
          continue
            (gatt "Checking the link" x.0, record s { world = x.1; peripheral = none })
            (λ up. drop_if c up p))
  checked-Leaves s p (gives true, v) h e = hung_up-Leaves s p v (c.hang_up p v) h e refl
  checked-Leaves s p (gives false, w) h e = was_down p w h e
  checked-Leaves s p (fails e, w) h q = check_failed p e w h q

  dropped-Leaves :
      (s : BtleplugTransport W P N) (o : Option P)
      → s.peripheral ≡ o
      → Leaves s (drop_peripheral c o (record s { peripheral = none }))
  dropped-Leaves s none h = was_alone h
  dropped-Leaves s (some p) h = checked-Leaves s p (c.link_is_up p s.world) h refl

  disconnect-Parted : (s : BtleplugTransport W P N) → let (r, u) = disconnect c s in Parted s r u
  unfolding disconnect
  disconnect-Parted s = dropped-Leaves s s.peripheral refl

  -- The transport over btleplug is one that the facade may rely on. A scan, and a connection that fails, leave
  -- the answer of `is_connected` as it was, and behind `disconnect`, also one that fails, it is false. This
  -- answer is about the peripheral that is held. Of its link it is only `disconnect` that tells: one that
  -- succeeds had no peripheral, found its link down or hung it up, and nothing is held any more; one that
  -- fails forgets the peripheral, whose link may be up, and keeps the characteristics and the stream.
  pub transport-MindsLink :
      (now : W → ℕ)
      → MindsLink (transport c now)
        × ((s : BtleplugTransport W P N) → let (r, u) = disconnect c s in Parted s r u)
  unfolding transport
  transport-MindsLink now = (
    record {
      scan-up = λ ms s. same_up s (scan c ms s).1 (scan-SameLink ms s);
      first-up = λ ms filter s.
          Found-UnlessOk s none filter (scan_and_connect c ms filter s)
            ((connect_lem c s ms).0 filter);
      to-up = λ id ms s.
          Found-UnlessOk s (some id) none (connect_by_id c id ms s) ((connect_lem c s ms).1 id);
      disconnect-up = λ s.
          ap (is_connected c) (error_of-state (disconnect c s))
          ∙ down_of (disconnect c s).1 (disconnect-down s);
    },
    disconnect-Parted,
  )

  held-or :
      {A B : Type 0} (o : Option A) (u : BtleplugTransport W P N)
      (f : A → BtleplugTransport W P N → Result B × BtleplugTransport W P N) (b : B)
      (v : BtleplugTransport W P N)
      → continue (ok_or o Error.disconnected, u) f ≡ (ok b, v)
      → (a : A) × (o ≡ some a) × (f a u ≡ (ok b, v))
  held-or none u f b v e = cc
  held-or (some a) u f b v e = (a, refl, e)

  asked-ok :
      {A B : Type 0} (what : String) (x : Gatt A × W) (u : BtleplugTransport W P N)
      (f : A → BtleplugTransport W P N → Result B × BtleplugTransport W P N) (b : B)
      (v : BtleplugTransport W P N)
      → continue (gatt what x.0, moved u x.1) f ≡ (ok b, v)
      → (a : A) × (w : W) × (f a (moved u w) ≡ (ok b, v))
  asked-ok what (gives a, w) u f b v e = (a, w, e)
  asked-ok what (fails x, w) u f b v e = cc

  abbrev Streams : BtleplugTransport W P N → Type 0
  Streams u = (stream : N) × (u.notification_stream ≡ some stream)

  anew-Streams : (s u : BtleplugTransport W P N) → subscribe_anew c s ≡ (ok tt, u) → Streams u
  anew-Streams s u e =
      let (p, _, e1) = held-or s.peripheral s _ tt u e in
      let (ch, _, e2) = held-or s.notify_characteristic s _ tt u e1 in
      let (stream, w, e3) =
        asked-ok "Opening the notification stream" (c.notifications p s.world) s _ tt u e2 in
      let (_, v, e4) = asked-ok "Enabling notifications" (c.enable p ch w) (moved s w) _ tt u e3 in
      (
        stream,
        sym (ap (λ (x : Result (Unit {0}) × BtleplugTransport W P N). x.1.notification_stream) e4),
      )

  subscribed-Streams : (s u : BtleplugTransport W P N) → subscribe c s ≡ (ok tt, u) → Streams u
  unfolding subscribe
  subscribed-Streams s u e = split s.notification_stream refl e
    where
      split :
          (o : Option N)
          → s.notification_stream ≡ o
          → elim o [ some stream ↦ (ok tt, s) | none ↦ subscribe_anew c s ] ≡ (ok tt, u)
          → Streams u
      split none h q = anew-Streams s u q
      split (some stream) h q = (
        stream,
        sym (ap (λ (x : Result (Unit {0}) × BtleplugTransport W P N). x.1.notification_stream) q)
            ∙ h,
      )

  -- `subscribe` may be called again: where it has succeeded, a stream of notifications is held, and a
  -- second call succeeds and changes nothing, not even the world.
  pub subscribe-subscribe :
      (s u : BtleplugTransport W P N)
      → subscribe c s ≡ (ok tt, u)
      → ((stream : N) × (u.notification_stream ≡ some stream)) × (subscribe c u ≡ (ok tt, u))
  unfolding subscribe
  subscribe-subscribe s u e =
      let (stream, h) = subscribed-Streams s u e in ((stream, h), again u.notification_stream h)
    where
      again :
          {stream : N} (o : Option N)
          → o ≡ some stream
          → elim o [ some x ↦ (ok tt, u) | none ↦ subscribe_anew c u ] ≡ (ok tt, u)
      again none h = cc
      again (some x) h = refl
