-- ===== src/Examples/Lock.antt =====
-- The facade over a radio that always finds one lock, which takes no write; and what it makes of it.
use mkey_rs.Ble.Lock.Opening.{open_observed, opened}
use mkey_rs.Ble.Lock.{
  BleTransport, OpeningMode, SaltoLock, ask_nothing, authenticate, authenticated, auto,
  connect_by_id, disconnected, is_connected, read_tag, resolve, scan_and_connect_filtered,
  set_handshake, with_transport, write_tag,
}
use mkey_rs.Examples.Pump.{receive}
use mkey_rs.Examples.Fixtures.{cipher, cipher-IsCbc, kn, mobile_key, no_text}
use mkey_rs.Ble.Pump.Draining.{RunsDry, Spends}
use mkey_rs.Session.Poll.{poll}
use mkey_rs.Session.State.{with_random_source}
use mkey_rs.Ble.Lock.Plan.{NamesVersion, auto_plan_iff}
use mkey_rs.Command.Justin.{handle_close, new_with_key, process_command, set_secure_session}
use mkey_rs.Prelude.{
  Bool, Bytes, List, [], arith, false, if◌then◌else◌, length, ltb, none, refl, some, true, ℕ, ◌&&◌,
  ◌++◌, ◌==◌, ◌↔◌, ◌∷◌, ◌≡◌,
}
use mkey_rs.Ble.Lock.Down.{MindsLink, run_calls-IsDown}
use mkey_rs.Ble.Btleplug.{Properties, try_parse_salto_lock}
use mkey_rs.Result.{Result, err, ok}
use mkey_rs.Ble.Lock.Calls.{
  IsCoherent, LockCall, authenticates, connects_first, connects_to, opens, run_calls,
  run_calls-IsCoherent, sets_handshake,
}
use mkey_rs.Ble.Discovery.{
  DiscoveredLock, discover_by_manufacturer_data, record_of, salto_manufacturer_id,
}
use mkey_rs.Examples.Session.{os, os_16}
use mkey_rs.Error.{Error}
use mkey_rs.Advertisement.{default_flags, from_byte, parse_salto_advertisement}
use mkey_rs.Ble.Pump.{Report, no_answer, run_session}
use mkey_rs.Session.Types.{Detection, Outcome, default_timeouts}
use mkey_rs.Ble.Lock.Attempt.{Spent, open_observed-Returns}
use mkey_rs.Ble.Lock.Tags.{read_tag-write_tag}
use mkey_rs.Stack.{handle_packet, handle_plain, process_justin, route}
use mkey_rs.Security.SspTypes.{is_control, is_encrypted}

-- Whether the link is up, and the packets that the lock sends.
abbrev Radio : Type 0
Radio = Bool × List Bytes

abbrev found : DiscoveredLock
found = record {
  id = "lock";
  name = none;
  rssi = none;
  protocol_version = 1;
  flags = default_flags;
}

abbrev radio : BleTransport Radio
radio = record {
  link = record {
    now = λ w. 0;
    send = λ bytes w. (some Error.disconnected, w);
    enable = λ w. (none, w);
    read_within = λ ms w. (no_answer, w);
    sleep = λ ms w. w;
    receive_until = λ at w. let (r, ps) = receive w.1 in (r, (w.0, ps));
    disconnect = λ w. (none, (false, w.1));
  };
  scan_for = λ ms w. (ok (found ∷ []), w);
  connect_first = λ ms filter w. (ok (record { info = found }), (true, w.1));
  connect_to = λ id ms w. (err Error.no_locks_found, w);
  is_up = λ w. w.0;
  notify_readable = λ w. false;
}

radio-MindsLink : MindsLink radio
radio-MindsLink = record {
  scan-up = λ ms w. refl;
  first-up = λ ms filter w. tt;
  to-up = λ id ms w. refl;
  disconnect-up = λ w. refl;
}

radio-RunsDry : RunsDry radio.link (λ w. length w.1)
radio-RunsDry = record {
  send-le = λ bytes w. omega arith;
  enable-le = λ w. omega arith;
  read-le = λ ms w. omega arith;
  sleep-le = λ ms w. omega arith;
  receive-Spends = λ at w. spends w.0 w.1 at;
}
  where
    spends :
        (up : Bool) (ps : List Bytes) (at : ℕ)
        → Spends (λ (w : Radio). length w.1) (up, ps) (radio.link.receive_until at (up, ps))
    spends up [] at = tt
    spends up (p ∷ ps) at = omega arith

abbrev off : Radio
off = (false, (0 ∷ 1 ∷ []) ∷ [])

-- The facade after it has connected and loaded a key.
abbrev ready_lock : SaltoLock Radio
ready_lock = record {
  transport = (true, (0 ∷ 1 ∷ []) ∷ []);
  connected_lock = some (record { info = found });
  mobile_key = some (mobile_key kn);
  state = authenticated;
  handshake = ask_nothing;
  timeouts = default_timeouts;
  random = none;
}

abbrev history : List LockCall
history =
    opens 5 OpeningMode.office
    ∷ connects_to "elsewhere" none
    ∷ connects_first none none
    ∷ sets_handshake ask_nothing
    ∷ authenticates (mobile_key kn)
    ∷ []

history_runs : run_calls radio no_text cipher os history (with_transport off) ≡ some ready_lock
unfolding run_calls with_transport set_handshake authenticate connect_by_id
    scan_and_connect_filtered open_observed
history_runs = refl

run_calls-IsCoherent_example : IsCoherent ready_lock
run_calls-IsCoherent_example =
    run_calls-IsCoherent radio no_text cipher os history off ready_lock history_runs

abbrev spent_lock : SaltoLock Radio
spent_lock = record ready_lock {
  transport = (false, []);
  connected_lock = none;
  state = disconnected;
}

abbrev whole : List LockCall
whole = history ++ (opens 5 OpeningMode.office ∷ [])

whole_runs : run_calls radio no_text cipher os whole (with_transport off) ≡ some spent_lock
unfolding run_calls with_transport set_handshake authenticate connect_by_id
    scan_and_connect_filtered open_observed run_session poll with_random_source handle_packet route
    is_control is_encrypted handle_plain process_justin process_command handle_close
    set_secure_session new_with_key
whole_runs = refl

run_calls-IsDown_example : is_connected radio spent_lock ≡ false
run_calls-IsDown_example =
    run_calls-IsDown radio radio-MindsLink no_text cipher os whole off spent_lock refl whole_runs
      refl

open_observed-Returns_example :
    (r : Result Outcome) × (u : SaltoLock Radio) × (seen : List Report) × (open_observed radio
        no_text cipher os 4 OpeningMode.standard [] ready_lock
      ≡ opened r u seen)
    × Spent radio no_text cipher os ready_lock u
open_observed-Returns_example =
    open_observed-Returns radio no_text cipher os cipher-IsCbc os_16 (λ w. length w.1) radio-RunsDry
      4 OpeningMode.standard [] ready_lock (mobile_key kn) refl refl refl tt (omega arith)

read_tag-write_tag_example :
    (read_tag 0x10 (write_tag 0x10 (7 ∷ []) ready_lock).1).0
    ≡ (if (0x10 == 0x10) && ltb 2 0x10 then ok (7 ∷ []) else (read_tag 0x10 ready_lock).0)
read_tag-write_tag_example = read_tag-write_tag 0x10 0x10 (7 ∷ []) ready_lock (mobile_key kn) refl

abbrev seen_properties : Properties
seen_properties = record {
  local_name = none;
  rssi = none;
  manufacturer_data = (salto_manufacturer_id, 1 ∷ 0 ∷ 0 ∷ []) ∷ [];
  services = [];
}

abbrev seen_lock : DiscoveredLock
seen_lock = record found { flags = from_byte 0 }

seen : try_parse_salto_lock "lock" seen_properties ≡ some seen_lock
unfolding try_parse_salto_lock discover_by_manufacturer_data parse_salto_advertisement record_of
seen = refl

auto_plan_iff_example :
    (resolve auto 1 ≡ Detection.app_protocol) ↔ NamesVersion seen_properties.manufacturer_data
auto_plan_iff_example = auto_plan_iff "lock" seen_properties seen_lock seen
