-- ===== src/Examples/Session.antt =====
-- The session at concrete keys, options and events.
use mkey_rs.Session.Types.{
  Action, Event, Options, after_final_result, default_options, link_closed, no_detection,
  notification, office, started, timer,
}
use mkey_rs.Session.State.{Session, V0200, idle, v0200, with_random_source}
use mkey_rs.Session.FlowV0200.{poll_v0200}
use mkey_rs.Session.Poll.{poll}
use mkey_rs.Session.Contract.Answers.{Answers, poll-Answers}
use mkey_rs.Session.Totality.Events.{poll-Returns}
use mkey_rs.Session.Totality.{Returns, Sound}
use mkey_rs.Session.Runs.{Ran, feed, feed-runs}
use mkey_rs.Session.Verdict.{Delivers, KeepsVerdict, poll_v0200-KeepsVerdict}
use mkey_rs.Prelude.{
  Bytes, List, [], false, length, length-replicate, none, refl, replicate, some, ℕ, ◌∷◌, ◌≡◌,
}
use mkey_rs.Security.SspTypes.{with_random}
use mkey_rs.Examples.Fixtures.{cipher, cipher-IsCbc, endless_source, kn, mobile_key, stack_of}

abbrev pub os : ℕ → Bytes
os i = replicate 16 i

pub os_16 : (i : ℕ) → length (os i) ≡ 16
os_16 i = length-replicate 16 i

abbrev pub fresh : Session
fresh = record {
  key = mobile_key kn;
  options = default_options;
  random = none;
  state = idle;
  is_done = false;
}

abbrev pub office_options : Options
office_options = record default_options { mode = office; detection = no_detection }

abbrev pub events : List Event
events =
    started
    ∷ notification (1 ∷ 4 ∷ [])
    ∷ notification (0 ∷ 3 ∷ 11 ∷ 2 ∷ [])
    ∷ timer after_final_result
    ∷ link_closed
    ∷ []

poll-Answers_example : Answers fresh (poll cipher os started fresh)
poll-Answers_example =
    poll-Answers cipher cipher-IsCbc os os_16 started fresh
      (record { kn_16 = refl; source = tt; stack = tt }) refl

poll-Returns_example : Returns (poll cipher os started fresh)
poll-Returns_example =
    poll-Returns os os_16 cipher cipher-IsCbc started fresh
      (record { kn_16 = refl; source = tt; stack = tt })

feed-runs_example :
    let s = with_random_source (mobile_key kn) office_options none in
    (actions : List Action) × (t : Session) × (feed cipher os events s ≡ some (actions, t))
    × Sound t
    × Ran s (some (actions, t))
feed-runs_example =
    feed-runs cipher cipher-IsCbc os os_16 (mobile_key kn) office_options none refl tt events

abbrev granted : V0200
granted = record {
  stack = stack_of (with_random kn endless_source) kn;
  first_packet = false;
  final_op_result = some 2;
  exchanging = false;
  traced_kn_refusals = 0;
}

abbrev exchanging_session : Session
exchanging_session = record fresh { state = v0200 granted }

poll_v0200-KeepsVerdict_example :
    KeepsVerdict 2 (poll_v0200 cipher link_closed granted exchanging_session)
    × Delivers cipher granted 2 link_closed
        (poll_v0200 cipher link_closed granted exchanging_session)
poll_v0200-KeepsVerdict_example =
    poll_v0200-KeepsVerdict cipher link_closed granted exchanging_session 2 refl refl
