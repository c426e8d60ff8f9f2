-- ===== src/Session/FlowV0100.antt =====
-- crates/mkey-session/src/session.rs: the v0100 exchange, a challenge and a result in the clear.
use mkey_rs.Prelude.{
  Bool, Bytes, List, String, [], drop, false, get_or, if◌then◌else◌, length, ltb, none, not, some,
  take, ℕ, ◌+◌, ◌==◌, ◌∷◌,
}
use mkey_rs.Error.{Error, hex, hex_bytes, num, text}
use mkey_rs.Result.{Result, err, ok, panic}
use mkey_rs.Session.Types.{
  Action, Event, Timeouts, exchanging, info, link_closed, new_outcome, notification, packet,
  report_phase, report_trace, rx, set_timer, timer, tx, write,
}
use mkey_rs.Session.State.{
  Session, V0100, V0100Step, awaiting_nonce, awaiting_result, expected_prefix, v0100,
  v0100_nonce_length, v0100_sign_iv,
}
use mkey_rs.Session.Answer.{Answer, finish, unexpected, ◌then_do◌}
use mkey_rs.Crypto.Aes.{Cbc, encrypt_aes_cbc}

abbrev pub starts_with : ℕ → Bytes → Bool
starts_with prefix [] = false
starts_with prefix (b ∷ bs) = b == prefix

abbrev pub too_short : String → Bytes → Error
too_short what bytes = Error.invalid_data (text what ∷ num (length bytes) ∷ text " bytes" ∷ [])

-- The wait that the step runs under.
abbrev pub waited : V0100Step → Timeouts → ℕ
waited awaiting_nonce t = t.first_packet_ms
waited awaiting_result t = t.packet_ms

abbrev signed_actions : Bytes → Timeouts → List Action
signed_actions signed t =
    report_phase exchanging
    ∷ report_trace (tx (0x04 ∷ signed))
    ∷ write (0x04 ∷ signed)
    ∷ set_timer packet t.packet_ms
    ∷ []

-- A packet that is not the one the step waits for.
abbrev pub ignore : Bytes → V0100 → Session → Answer
ignore bytes v s =
    some
      (report_trace (info (text "Ignoring an unexpected packet " ∷ hex_bytes bytes ∷ [])) ∷ [], s)

module _ (c : Cbc) where
  abbrev pub answer_nonce : Result Bytes → V0100 → Session → Answer
  answer_nonce panic v s = none
  answer_nonce (err e) v s = none
  answer_nonce (ok signed) v s = some (
    signed_actions signed s.options.timeouts,
    record s { state = v0100 (record v { step = awaiting_result }) },
  )

  -- The `match session.step` of a packet with the expected prefix.
  unfoldable pub take_packet : V0100Step → Bytes → V0100 → Session → Answer
  unfolding finish
  take_packet awaiting_nonce bytes v s =
      if ltb (length bytes) (1 + v0100_nonce_length)
      then finish (err (too_short "v0100 nonce packet too short: " bytes)) s
      else answer_nonce
          (encrypt_aes_cbc c v.kn_key v0100_sign_iv (take v0100_nonce_length (drop 1 bytes))) v s
  take_packet awaiting_result bytes v s =
      if ltb (length bytes) 2
      then finish (err (too_short "v0100 result packet too short: " bytes)) s
      else finish (ok (new_outcome 1 (some (get_or bytes 1 0)))) s

  unfoldable pub poll_v0100 : Event → V0100 → Session → Answer
  unfolding take_packet finish unexpected expected_prefix
  poll_v0100 (notification bytes) v s =
      (report_trace (rx bytes) ∷ [])
      then_do (if not (starts_with (expected_prefix v.step) bytes)
          then ignore bytes v s
          else take_packet v.step bytes v s)
  poll_v0100 (timer id) v s =
      (report_trace (
          info (
            text "No 0x"
            ∷ hex (expected_prefix v.step)
            ∷ text " packet from the lock within "
            ∷ num (waited v.step s.options.timeouts)
            ∷ text " ms"
            ∷ []))
        ∷ [])
      then_do finish (err (Error.timeout (waited v.step s.options.timeouts))) s
  poll_v0100 link_closed v s = finish (err Error.disconnected) s
  poll_v0100 event v s = unexpected event "during the v0100 exchange" s
