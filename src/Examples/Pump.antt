-- ===== src/Examples/Pump.antt =====
-- The pump over a scripted transport: a lock that closes, and takes no write.
use mkey_rs.Session.Types.{Outcome, Phase, authenticating, started}
use mkey_rs.Session.State.{Session, with_random_source}
use mkey_rs.Session.Poll.{poll}
use mkey_rs.Stack.{handle_packet, handle_plain, process_justin, route}
use mkey_rs.Security.SspTypes.{is_control, is_encrypted}
use mkey_rs.Command.Justin.{handle_close, new_with_key, process_command, set_secure_session}
use mkey_rs.Ble.Pump.{
  Iteration, Link, Received, Transport, again, expired_wait, no_answer, packet_of, panicked,
  pump_rounds, returned, run_session,
}
use mkey_rs.Ble.Pump.Actions.{last_phase}
use mkey_rs.Ble.Pump.Progress.{Concludes, Continues, pump_rounds-Continues, run_session-Concludes}
use mkey_rs.Prelude.{Bytes, List, Option, [], arith, length, none, refl, some, ℕ, ◌∷◌, ◌≡◌}
use mkey_rs.Error.{Error}
use mkey_rs.Examples.Fixtures.{cipher, cipher-IsCbc, kn, mobile_key, no_text}
use mkey_rs.Ble.Pump.Termination.{run_session-Returns}
use mkey_rs.Ble.Pump.Draining.{RunsDry, Spends}
use mkey_rs.Result.{Result}
use mkey_rs.Examples.Session.{fresh, office_options, os, os_16}

abbrev pub receive : List Bytes → Received × List Bytes
receive [] = (expired_wait, [])
receive (p ∷ ps) = (packet_of p, ps)

abbrev scripted : Transport (List Bytes)
scripted = record {
  now = λ w. 0;
  send = λ bytes w. (some Error.disconnected, w);
  enable = λ w. (none, w);
  read_within = λ ms w. (no_answer, w);
  sleep = λ ms w. w;
  receive_until = λ at w. receive w;
  disconnect = λ w. (none, w);
}

abbrev script : Link (List Bytes)
script = record { world = (0 ∷ 1 ∷ []) ∷ []; reports = [] }

run_session-Concludes_example : Concludes no_text scripted cipher cipher-IsCbc os os_16 (
    run_session no_text scripted cipher os 5
      (with_random_source (mobile_key kn) office_options none)
      script)
run_session-Concludes_example =
    run_session-Concludes no_text scripted cipher cipher-IsCbc os os_16 5 (mobile_key kn)
      office_options none script refl tt

abbrev last_seen : Iteration (List Bytes) → Option Phase
last_seen (returned r s k) = last_phase k.reports
last_seen (again event d s k) = none
last_seen panicked = none

-- The write of the answer to the lock's last command fails: the finished phase is never reported.
finished_lost :
    last_seen (
      run_session no_text scripted cipher os 5
        (with_random_source (mobile_key kn) office_options none)
        script)
    ≡ some authenticating
unfolding run_session poll with_random_source handle_packet route is_control is_encrypted
    handle_plain process_justin process_command handle_close set_secure_session new_with_key
finished_lost = refl

pump_rounds-Continues_example :
    Continues no_text scripted (pump_rounds no_text scripted cipher os 3 started none fresh script)
pump_rounds-Continues_example =
    pump_rounds-Continues no_text scripted cipher cipher-IsCbc os os_16 3 started none fresh script
      (record {
        open_still = refl;
        sound = record { kn_16 = refl; source = tt; stack = tt };
        in_step = refl;
      })

scripted-RunsDry : RunsDry scripted length
scripted-RunsDry = record {
  send-le = λ bytes w. omega arith;
  enable-le = λ w. omega arith;
  read-le = λ ms w. omega arith;
  sleep-le = λ ms w. omega arith;
  receive-Spends = λ at w. spends at w;
}
  where
    spends : (at : ℕ) (w : List Bytes) → Spends length w (scripted.receive_until at w)
    spends at [] = tt
    spends at (p ∷ ps) = omega arith

run_session-Returns_example :
    (r : Result Outcome) × (s : Session) × (k : Link (List Bytes)) × (run_session no_text scripted
        cipher os 4
        (with_random_source (mobile_key kn) office_options none)
        script
      ≡ returned r s k)
run_session-Returns_example =
    run_session-Returns no_text scripted length scripted-RunsDry cipher os cipher-IsCbc os_16 4
      (mobile_key kn) office_options none script refl tt (omega arith)
