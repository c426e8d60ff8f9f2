-- ===== src/Ble/Btleplug/Connected.antt =====
-- crates/mkey-ble/src/btleplug_impl.rs: which lock is connected, and what is held of it.
use mkey_rs.Ble.Btleplug.{
  Arrival, BtleplugTransport, Central, Gatt, Properties, chosen_by, deadline, device, fails, gatt,
  gives, other, try_parse_salto_lock,
}
use mkey_rs.Ble.Btleplug.Connecting.{
  candidate, connect_to_peripheral, examine, look, moved, of_device, parse_device, take_or,
}
use mkey_rs.Ble.Btleplug.Linked.{connect_by_id, finish_scan, request, scan_and_connect, search}
use mkey_rs.Ble.Btleplug.Ends.{
  Connects, Ends, Ends-bind, Ends-if, SameLink, SameLink-trans, Stored, attempt-Ends,
  connect_to_peripheral-Ends, moved-SameLink, try_parse-id,
}
use mkey_rs.Ble.Discovery.{ConnectedLock, DiscoveredLock, LockFilter}
use mkey_rs.Result.{Result, continue, err, ok, panic, ◌>>=◌}
use mkey_rs.Ble.Task.{Awaited, done, elapsed, failed}
use mkey_rs.Prelude.{
  List, Option, String, [], ap, is_text, is_text→eq, none, refl, some, true, ℕ, ◌∙◌, ◌∷◌, ◌≡◌,
}

module _ {W P N : Type 0} (c : Central W P N) where
  -- A device that was examined carries the id of its peripheral, which is the id that is asked for.
  abbrev Suits : Option String → Option (P × DiscoveredLock) → Type 0
  Suits wanted none = Unit
  Suits wanted (some (p, info)) =
      (info.id ≡ c.ident p) × ((id : String) → wanted ≡ some id → info.id ≡ id)

  abbrev Examined :
      BtleplugTransport W P N
      → Option String
      → Option (P × DiscoveredLock)
      → BtleplugTransport W P N
      → Type 0
  Examined s wanted found v = Suits wanted found × SameLink s v

  examine-Ends :
      (s u : BtleplugTransport W P N) (p : P) (wanted : Option String)
      → SameLink s u
      → ((id : String) → wanted ≡ some id → c.ident p ≡ id)
      → Ends s (Examined s wanted) (examine c p u)
  examine-Ends s u p wanted h named =
      Ends-bind s (λ _ v. SameLink s v) (Examined s wanted) _ _
        (attempt-Ends c s u (c.properties p) h) λ r v k. (suits r, k)
    where
      parsed :
          (o : Option DiscoveredLock)
          → ((info : DiscoveredLock) → o ≡ some info → info.id ≡ c.ident p)
          → Suits wanted (elim o [ none ↦ none | some info ↦ some (p, info) ])
      parsed none f = tt
      parsed (some info) f = (f info refl, λ id e. f info refl ∙ named id e)

      suits : (r : Gatt (Option Properties)) → Suits wanted (parse_device c p r)
      suits (fails e) = tt
      suits (gives none) = tt
      suits (gives (some props)) =
          parsed (try_parse_salto_lock (c.ident p) props) (try_parse-id (c.ident p) props)

  of_device-Ends :
      (s u : BtleplugTransport W P N) (wanted : Option String) (r : Gatt P)
      → SameLink s u
      → Ends s (Examined s wanted) (of_device c wanted r u)
  of_device-Ends s u wanted (fails e) h = (tt, h)
  of_device-Ends s u none (gives p) h = examine-Ends s u p none h (λ id e. cc)
  of_device-Ends s u (some id) (gives p) h =
      Ends-if s u (Examined s (some id)) (is_text (c.ident p) id) (examine c p)
        (λ v. (done none, v))
        (λ e. examine-Ends s u p (some id) h (λ j q. is_text→eq (c.ident p) id e ∙ same id j q))
        (λ _. (tt, h))
    where
      same : (x y : String) → some x ≡ some y → x ≡ y
      same x y q = cc

  look-Ends :
      (s u : BtleplugTransport W P N) (wanted : Option String) (filter : Option LockFilter)
      (arrivals : List Arrival)
      → SameLink s u
      → Ends s (Connects c wanted filter) (look c wanted filter arrivals u)
  unfolding look candidate
  look-Ends s u wanted filter [] h = h
  look-Ends s u wanted filter (deadline ∷ rest) h = h
  look-Ends s u wanted filter (other ∷ rest) h = look-Ends s u wanted filter rest h
  look-Ends s u wanted filter (device id ∷ rest) h =
      Ends-bind s (Examined s wanted) (Connects c wanted filter) _ _
        (Ends-bind s (λ _ v. SameLink s v) (Examined s wanted) _ _
          (attempt-Ends c s u (c.peripheral_of id) h) (λ r v k. of_device-Ends s v wanted r k))
        λ found v k. taken found v k (λ w q. look-Ends s w wanted filter rest q)
    where
      taken :
          (found : Option (P × DiscoveredLock)) (v : BtleplugTransport W P N)
          → Examined s wanted found v
          → ((w : BtleplugTransport W P N)
              → SameLink s w
              → Ends s (Connects c wanted filter) (look c wanted filter rest w))
          → Ends s (Connects c wanted filter) (take_or c filter found (look c wanted filter rest) v)
      taken none v (_, k) ih = ih v k
      taken (some (p, info)) v ((named, asked), k) ih =
          Ends-if s v (Connects c wanted filter) (chosen_by filter info) _ _
            (λ e.
              Ends-bind s (λ _ w. SameLink s w) (Connects c wanted filter) _ _
                (attempt-Ends c s v c.stop_scan k)
                (λ _ w q.
                  connects (connect_to_peripheral c p info w) e asked
                    (connect_to_peripheral-Ends c s w p info q named)))
            (λ _. ih v k)
        where
          connects :
              (m : Awaited ConnectedLock × BtleplugTransport W P N)
              → chosen_by filter info ≡ true
              → ((id : String) → wanted ≡ some id → info.id ≡ id)
              → Ends s (λ lock w. Stored c lock w × (lock.info ≡ info)) m
              → Ends s (Connects c wanted filter) m
          connects (done lock, w) e asked (st, same) = (
            st,
            ap (chosen_by filter) same ∙ e,
            λ id q. ap (λ (i : DiscoveredLock). i.id) same ∙ asked id q,
          )
          connects (failed x, w) e asked h = h
          connects (elapsed, w) e asked h = h

  Stored-moved :
      (lock : ConnectedLock) (u : BtleplugTransport W P N) (w : W)
      → Stored c lock u
      → Stored c lock (moved u w)
  Stored-moved lock u w st = record {
    peripheral = st.peripheral;
    held = st.held;
    write_char = st.write_char;
    writes = st.writes;
    write_uuid = st.write_uuid;
    notify_char = st.notify_char;
    notifies = st.notifies;
    notify_uuid = st.notify_uuid;
    unsubscribed = st.unsubscribed;
    named = st.named;
  }

  -- A search connects to a lock that the filter takes, or leaves the link as it was.
  abbrev pub Found :
      BtleplugTransport W P N
      → Option String
      → Option LockFilter
      → Result ConnectedLock × BtleplugTransport W P N
      → Type 0
  Found s wanted filter (ok lock, u) = Connects c wanted filter lock u
  Found s wanted filter (err e, u) = SameLink s u
  Found s wanted filter (panic, u) = ⊥

  finish_scan-Found :
      (s : BtleplugTransport W P N) (wanted : Option String) (filter : Option LockFilter) (ms : ℕ)
      (m : Awaited ConnectedLock × BtleplugTransport W P N)
      → Ends s (Connects c wanted filter) m
      → Found s wanted filter (finish_scan c ms m)
  finish_scan-Found s wanted filter ms (done lock, u) (st, taken, asked) =
      (Stored-moved lock u (c.stop_scan u.world).1 st, taken, asked)
  finish_scan-Found s wanted filter ms (failed e, u) h =
      SameLink-trans h (moved-SameLink u (c.stop_scan u.world).1)
  finish_scan-Found s wanted filter ms (elapsed, u) h =
      SameLink-trans h (moved-SameLink u (c.stop_scan u.world).1)

  search-Found :
      (s : BtleplugTransport W P N) (wanted : Option String) (filter : Option LockFilter) (ms : ℕ)
      → Found s wanted filter (search c wanted filter ms s)
  search-Found s wanted filter ms = watched (c.events s.world)
    where
      started :
          (arrivals : List Arrival) (x : Gatt (Unit {0}) × W) (u : BtleplugTransport W P N)
          → SameLink s u
          → Found s wanted filter (
              continue
                (gatt "Starting a scan" x.0, moved u x.1)
                (λ _ s. finish_scan c ms (look c wanted filter arrivals s)))
      started arrivals (gives a, w) u h =
          finish_scan-Found s wanted filter ms (look c wanted filter arrivals (moved u w))
            (look-Ends s (moved u w) wanted filter arrivals (SameLink-trans h (moved-SameLink u w)))
      started arrivals (fails e, w) u h = SameLink-trans h (moved-SameLink u w)

      watched :
          (x : Gatt (List Arrival) × W)
          → Found s wanted filter (
              continue
                (gatt "Watching for devices" x.0, moved s x.1)
                (λ arrivals. request c "Starting a scan" c.start_scan >>= λ _ s.
                  finish_scan c ms (look c wanted filter arrivals s)))
      watched (gives arrivals, w) =
          started arrivals (c.start_scan w) (moved s w) (moved-SameLink s w)
      watched (fails e, w) = moved-SameLink s w

  -- Scanning for a lock, or for the one with an id: where it succeeds, the transport holds the peripheral
  -- with the id of the lock that is returned, its two characteristics under their UUIDs, and no stream of
  -- notifications; the filter has taken that lock, and the id is the one that was asked for. Where it
  -- fails, or the timeout cuts it off at any call, what was held of a link before is held still.
  pub connect_lem :
      (s : BtleplugTransport W P N) (ms : ℕ)
      → ((filter : Option LockFilter) → Found s none filter (scan_and_connect c ms filter s))
        × ((id : String) → Found s (some id) none (connect_by_id c id ms s))
  unfolding scan_and_connect connect_by_id
  connect_lem s ms =
      (λ filter. search-Found s none filter ms, λ id. search-Found s (some id) none ms)
