-- ===== src/Session/Contract/Start.antt =====
-- crates/mkey-session/src/session.rs: the contract at the start and in the detection.
use mkey_rs.Session.Answer.{finish, next_wait, note, unexpected, ◌then_do◌}
use mkey_rs.Session.Detecting.{
  ask, begin, begin_flow, begin_v0100, begin_v0200, detecting_read_failed, detection_skipped,
  major_of, not_readable, odd_shape, poll_detecting, poll_idle, start, start_as, unsupported,
}
use mkey_rs.Session.State.{Session, detecting}
use mkey_rs.Session.Types.{
  Action, Event, announce_app_protocol, app_protocol, detecting_version, no_detection,
  protocol_info, read, read_only, read_protocol_info, report_phase, report_trace, started,
}
use mkey_rs.Session.Contract.{Polled, all_quiet, finish-Polled, if-Polled, quiet-Polled, waits_for}
use mkey_rs.Prelude.{
  Bool, Bytes, List, Option, [], false, inl, inr, none, not, refl, some, true, ℕ, ◌&&◌, ◌++◌, ◌==◌,
  ◌∷◌, ◌≡◌,
}
use mkey_rs.Result.{err}

begin_flow-Polled :
    (os : ℕ → Bytes) (is_v0100 : Bool) (s : Session)
    → s.is_done ≡ false
    → Polled s (begin_flow os is_v0100 s)
unfolding begin_v0200 begin_v0100 next_wait
begin_flow-Polled os true s open_still = inr (open_still, refl, refl, tt)
begin_flow-Polled os false s open_still = inr (open_still, refl, refl, tt)

begin-Polled :
    (os : ℕ → Bytes) (version : Option ℕ) (s : Session)
    → s.is_done ≡ false
    → Polled s (begin os version s)
unfolding begin
begin-Polled os none s open_still = begin_flow-Polled os false s open_still
begin-Polled os (some version) s open_still =
    if-Polled (not (version == 1) && not (version == 2)) s (finish (err (unsupported version)) s)
      (begin_flow os (version == 1) s) (finish-Polled (err (unsupported version)) s s)
      (begin_flow-Polled os (version == 1) s open_still)

ask-Polled :
    (os : ℕ → Bytes) (announce : List Action) (s : Session)
    → s.is_done ≡ false
    → waits_for s ≡ none
    → all_quiet announce ≡ true
    → Polled s (ask os announce s)
unfolding ask
ask-Polled os announce s open_still w q =
    if-Polled (not s.options.notify_readable) s ((note not_readable ∷ []) then_do begin os none s)
      (some (
        announce ++ (read_protocol_info s.options.timeouts.protocol_info_read_ms ∷ []),
        record s { state = detecting },
      ))
      (quiet-Polled (note not_readable ∷ []) s (begin os none s) refl
        (begin-Polled os none s open_still))
      (quiet-Polled announce s
        (some (
          read_protocol_info s.options.timeouts.protocol_info_read_ms ∷ [],
          record s { state = detecting },
        ))
        q (inr (open_still, refl, w, refl)))

start-Polled :
    (os : ℕ → Bytes) (s : Session) → s.is_done ≡ false → waits_for s ≡ none → Polled s (start os s)
unfolding start
start-Polled os s open_still w =
    quiet-Polled (report_phase detecting_version ∷ []) s (start_as os s.options.detection s) refl
      (elim s.options.detection as (λ d. Polled s (start_as os d s)) [
        | no_detection ↦
            quiet-Polled (note detection_skipped ∷ []) s (begin os none s) refl
              (begin-Polled os none s open_still)
        | app_protocol ↦ ask-Polled os (announce_app_protocol ∷ []) s open_still w refl
        | read_only ↦ ask-Polled os [] s open_still w refl
      ])

pub poll_idle-Polled :
    (os : ℕ → Bytes) (event : Event) (s : Session)
    → s.is_done ≡ false
    → waits_for s ≡ none
    → Polled s (poll_idle os event s)
unfolding poll_idle unexpected finish
poll_idle-Polled os started s open_still w = start-Polled os s open_still w
poll_idle-Polled os event s open_still w = inl (refl, refl)

odd_shape-quiet : (major : Option ℕ) → all_quiet (odd_shape major) ≡ true
odd_shape-quiet none = refl
odd_shape-quiet (some major) = refl

pub poll_detecting-Polled :
    (os : ℕ → Bytes) (event : Event) (s : Session)
    → s.is_done ≡ false
    → Polled s (poll_detecting os event s)
unfolding poll_detecting unexpected finish
poll_detecting-Polled os (protocol_info (some bytes)) s open_still =
    quiet-Polled (report_trace (read bytes) ∷ odd_shape (major_of bytes)) s
      (begin os (major_of bytes) s) (odd_shape-quiet (major_of bytes))
      (begin-Polled os (major_of bytes) s open_still)
poll_detecting-Polled os (protocol_info none) s open_still =
    quiet-Polled (note detecting_read_failed ∷ []) s (begin os none s) refl
      (begin-Polled os none s open_still)
poll_detecting-Polled os event s open_still = inl (refl, refl)
