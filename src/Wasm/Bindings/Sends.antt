-- ===== src/Wasm/Bindings/Sends.antt =====
-- crates/mkey-session/src/session.rs: that no session answers with a result that is a panic.
use mkey_rs.Session.Types.{
  Action, Detection, Event, announce_app_protocol, app_protocol, detecting_version, finishes,
  no_detection, read_only, read_protocol_info, report_phase,
}
use mkey_rs.Result.{panic}
use mkey_rs.Prelude.{
  Bool, Bool-cases, Bytes, List, String, [], false, if◌then◌else◌, inl, inr, none, not, refl, some,
  true, ℕ, ◌++◌, ◌∷◌, ◌≡◌,
}
use mkey_rs.Crypto.Aes.{Cbc}
use mkey_rs.Session.Answer.{Answer, note, ◌then_do◌}
use mkey_rs.Session.Detecting.{
  ask, begin, detection_skipped, not_readable, poll_idle, start, start_as,
}
use mkey_rs.Session.Contract.Lacks.{
  Elsewhere, Lacks, begin-Lacks, has_any, is_start, poll-Lacks, poll_detecting-Lacks,
  poll_v0100-Lacks, poll_v0200-Lacks, then_do-Lacks,
}
use mkey_rs.Session.Poll.{poll, poll_open, poll_state}
use mkey_rs.Session.State.{Session, State, detecting, idle, v0100, v0200}

-- A result that is a panic does not cross into JavaScript.
abbrev pub is_panic_result : Action → Bool
is_panic_result (finishes panic) = true
is_panic_result _ = false

panic-Elsewhere : Elsewhere is_panic_result
panic-Elsewhere = record {
  traces = λ m. refl;
  phases = λ x. refl;
  writes = λ bytes. refl;
  pauses = λ ms. refl;
  timers = λ id ms. refl;
  subscribes = refl;
  results = λ o. refl;
  errors = λ e. refl;
}

abbrev pub Sends : Answer → Type 0
Sends a = Lacks is_panic_result a

after_note-Sends : (m : String) (a : Answer) → Sends a → Sends ((note m ∷ []) then_do a)
after_note-Sends m a h = then_do-Lacks is_panic_result panic-Elsewhere (note m ∷ []) a refl h

ask-Sends :
    (os : ℕ → Bytes) (announce : List Action) (s : Session)
    → ((xs : List Action)
        → has_any is_panic_result xs ≡ false
        → has_any is_panic_result (announce ++ xs) ≡ false)
    → Sends (ask os announce s)
unfolding ask
ask-Sends os announce s clean = branch (not s.options.notify_readable)
  where
    branch :
        (b : Bool)
        → Sends (
            if b
            then (note not_readable ∷ []) then_do begin os none s
            else some (
              announce ++ (read_protocol_info s.options.timeouts.protocol_info_read_ms ∷ []),
              record s { state = detecting },
            ))
    branch true =
        after_note-Sends not_readable (begin os none s)
          (begin-Lacks is_panic_result panic-Elsewhere os none s)
    branch false = clean (read_protocol_info s.options.timeouts.protocol_info_read_ms ∷ []) refl

start-Sends : (os : ℕ → Bytes) (s : Session) → Sends (start os s)
unfolding start
start-Sends os s =
    then_do-Lacks is_panic_result panic-Elsewhere (report_phase detecting_version ∷ []) _ refl
      (choose s.options.detection)
  where
    choose : (d : Detection) → Sends (start_as os d s)
    choose no_detection =
        after_note-Sends detection_skipped (begin os none s)
          (begin-Lacks is_panic_result panic-Elsewhere os none s)
    choose app_protocol = ask-Sends os (announce_app_protocol ∷ []) s (λ xs h. h)
    choose read_only = ask-Sends os [] s (λ xs h. h)

module _ (c : Cbc) (os : ℕ → Bytes) where
  started-Sends : (st : State) (s : Session) → Sends (poll_state c os st Event.started s)
  unfolding poll_state poll_idle
  started-Sends idle s = start-Sends os s
  started-Sends detecting s =
      poll_detecting-Lacks is_panic_result panic-Elsewhere os Event.started s
  started-Sends (v0200 v) s = poll_v0200-Lacks is_panic_result panic-Elsewhere c Event.started v s
  started-Sends (v0100 v) s = poll_v0100-Lacks is_panic_result panic-Elsewhere c Event.started v s

  pub poll-Sends : (event : Event) (s : Session) → Sends (poll c os event s)
  poll-Sends event s = elim (Bool-cases (is_start event)) [
    | inr h ↦ poll-Lacks is_panic_result panic-Elsewhere c os event s h
    | inl h ↦ starting event h
  ]
    where
      begun :
          (b : Bool) → Sends (if b then some ([], s) else poll_state c os s.state Event.started s)
      begun true = refl
      begun false = started-Sends s.state s

      starting : (event : Event) → is_start event ≡ true → Sends (poll c os event s)
      starting Event.started h = unfold poll poll_open in begun s.is_done
      starting Event.link_closed h = cc
      starting Event.aborted h = cc
      starting (Event.protocol_info bytes) h = cc
      starting (Event.notification bytes) h = cc
      starting (Event.timer id) h = cc
