-- ===== src/Session/Totality/Events.antt =====
-- crates/mkey-session/src/session.rs: that `poll` returns, at every event.
use mkey_rs.Session.Types.{
  Action, Detection, Event, announce_app_protocol, app_protocol, detecting_version, no_detection,
  protocol_info, read, read_only, read_protocol_info, report_phase, report_trace, started,
}
use mkey_rs.Session.State.{Session, State, detecting, idle, v0100, v0200}
use mkey_rs.Session.Answer.{finish, note, unexpected, ◌then_do◌}
use mkey_rs.Session.Detecting.{
  ask, begin, begin_flow, begin_v0100, begin_v0200, detecting_read_failed, detection_skipped,
  major_of, not_readable, odd_shape, poll_detecting, poll_idle, session_key_of, start, start_as,
  unsupported,
}
use mkey_rs.Prelude.{
  Bool, Bytes, List, Option, [], false, length, none, not, some, true, ℕ, ◌&&◌, ◌++◌, ◌==◌, ◌∷◌,
  ◌≡◌,
}
use mkey_rs.Result.{err}
use mkey_rs.Crypto.Aes.{Cbc, IsCbc}
use mkey_rs.Session.Poll.{poll, poll_open, poll_state}
use mkey_rs.Session.Totality.{
  Returns, Sound, SoundState, ended, finish-Returns, if-Returns, kn_16-session_key_of, manager-Inv,
  moved, poll_v0100-Returns, poll_v0200-Returns, then_do-Returns,
}

module _ (os : ℕ → Bytes) (drawn_16 : (i : ℕ) → length (os i) ≡ 16) where
  begin_flow-Returns :
      (is_v0100 : Bool) (s : Session) → Sound s → Returns (begin_flow os is_v0100 s)
  unfolding begin_v0200 begin_v0100
  begin_flow-Returns true s h = record { kn_16 = h.kn_16; source = h.source; stack = tt }
  begin_flow-Returns false s h =
      let key = session_key_of s.options.mode s.key in
      record {
        kn_16 = h.kn_16;
        source = tt;
        stack =
            manager-Inv os key.kn_key s.random drawn_16
              (kn_16-session_key_of s.options.mode s.key h.kn_16) h.source;
      }

  begin-Returns : (version : Option ℕ) (s : Session) → Sound s → Returns (begin os version s)
  unfolding begin
  begin-Returns none s h = begin_flow-Returns false s h
  begin-Returns (some version) s h =
      if-Returns (not (version == 1) && not (version == 2)) (finish (err (unsupported version)) s)
        (begin_flow os (version == 1) s) (finish-Returns (err (unsupported version)) s h)
        (begin_flow-Returns (version == 1) s h)

  ask-Returns : (announce : List Action) (s : Session) → Sound s → Returns (ask os announce s)
  unfolding ask
  ask-Returns announce s h =
      if-Returns (not s.options.notify_readable) ((note not_readable ∷ []) then_do begin os none s)
        (some (
          announce ++ (read_protocol_info s.options.timeouts.protocol_info_read_ms ∷ []),
          record s { state = detecting },
        ))
        (then_do-Returns (note not_readable ∷ []) (begin os none s) (begin-Returns none s h))
        (moved detecting s tt h)

  start_as-Returns : (d : Detection) (s : Session) → Sound s → Returns (start_as os d s)
  start_as-Returns no_detection s h =
      then_do-Returns (note detection_skipped ∷ []) (begin os none s) (begin-Returns none s h)
  start_as-Returns app_protocol s h = ask-Returns (announce_app_protocol ∷ []) s h
  start_as-Returns read_only s h = ask-Returns [] s h

  poll_idle-Returns : (event : Event) (s : Session) → Sound s → Returns (poll_idle os event s)
  unfolding poll_idle start unexpected finish
  poll_idle-Returns started s h =
      then_do-Returns (report_phase detecting_version ∷ []) (start_as os s.options.detection s)
        (start_as-Returns s.options.detection s h)
  poll_idle-Returns event s h = ended s h

  poll_detecting-Returns :
      (event : Event) (s : Session) → Sound s → Returns (poll_detecting os event s)
  unfolding poll_detecting unexpected finish
  poll_detecting-Returns (protocol_info (some bytes)) s h =
      then_do-Returns (report_trace (read bytes) ∷ odd_shape (major_of bytes))
        (begin os (major_of bytes) s) (begin-Returns (major_of bytes) s h)
  poll_detecting-Returns (protocol_info none) s h =
      then_do-Returns (note detecting_read_failed ∷ []) (begin os none s) (begin-Returns none s h)
  poll_detecting-Returns event s h = ended s h

  module _ (c : Cbc) (lawful : IsCbc c) where
    poll_state-Returns :
        (st : State) (event : Event) (s : Session)
        → SoundState st
        → Sound s
        → Returns (poll_state c os st event s)
    unfolding poll_state
    poll_state-Returns idle event s q h = poll_idle-Returns event s h
    poll_state-Returns detecting event s q h = poll_detecting-Returns event s h
    poll_state-Returns (v0200 v) event s q h = poll_v0200-Returns c lawful event v s q h
    poll_state-Returns (v0100 v) event s q h = poll_v0100-Returns c lawful event v s h

    poll_open-Returns : (event : Event) (s : Session) → Sound s → Returns (poll_open c os event s)
    unfolding poll_open finish
    poll_open-Returns Event.aborted s h = ended s h
    poll_open-Returns event s h = poll_state-Returns s.state event s h.stack h

    -- From a sound session `poll` returns, whatever the event, and leaves a sound session.
    pub poll-Returns : (event : Event) (s : Session) → Sound s → Returns (poll c os event s)
    unfolding poll
    poll-Returns event s h =
        if-Returns s.is_done (some ([], s)) (poll_open c os event s) h (poll_open-Returns event s h)
