-- ===== src/Session/Totality.antt =====
-- crates/mkey-session/src/session.rs: when `poll` returns.
pub mod Events
use mkey_rs.Session.Types.{
  Action, Event, Mode, Outcome, first_packet, new_outcome, notification, office, report_trace, rx,
  standard, timer,
}
use mkey_rs.Session.State.{
  Session, State, V0100, V0100Step, V0200, awaiting_nonce, awaiting_result, detecting,
  expected_prefix, idle, v0100, v0100_nonce_length, v0100_sign_iv, v0200,
}
use mkey_rs.Session.Answer.{Answer, finish, next_wait, unexpected, ◌then_do◌}
use mkey_rs.Session.Detecting.{manager, session_key_of}
use mkey_rs.Session.FlowV0200.{expired, observe, poll_v0200, reports, responded, settle, wait_on}
use mkey_rs.Prelude.{
  Bool, Bool-cases, Bytes, List, Option, [], arith, drop, false, get_or, if◌then◌else◌, inl, inr,
  length, length-drop, length-take, ltb, none, not, refl, some, take, true, ℕ, ◌+◌, ◌∷◌, ◌≡◌, ◌≤◌,
}
use mkey_rs.Result.{IsPanic, Result, err, ok, panic}
use mkey_rs.Crypto.Aes.{Cbc, IsCbc, encrypt_aes_cbc}
use mkey_rs.Security.Random.{RandomSource, new, os_random}
use mkey_rs.Security.Ssp.Invariant.{Draws16, Inv, with_random-Inv}
use mkey_rs.Data.MobileKey.{MobileKey}
use mkey_rs.Stack.{handle_packet}
use mkey_rs.Stack.Safety.{handle_packet_safe}
use mkey_rs.Session.FlowV0100.{ignore, poll_v0100, starts_with, take_packet, too_short, waited}
use mkey_rs.Command.Justin.{is_connected}

abbrev pub Supplies : Option RandomSource → Type 0
Supplies none = Unit
Supplies (some r) = Draws16 true r

abbrev pub SoundState : State → Type 0
SoundState idle = Unit
SoundState detecting = Unit
SoundState (v0200 v) = Inv true v.stack.ssp
SoundState (v0100 v) = Unit

-- The key and the source of random values have the sizes that their types promise, and the stack of a
-- v0200 exchange satisfies its invariant.
pub record Sound (s : Session) : Type 0 where
  pub kn_16 : length s.key.kn_key ≡ 16
  pub source : Supplies s.random
  pub stack : SoundState s.state

abbrev pub Returns : Answer → Type 0
Returns none = ⊥
Returns (some (actions, t)) = Sound t

pub then_do-Returns : (pre : List Action) (a : Answer) → Returns a → Returns (pre then_do a)
then_do-Returns pre none h = h
then_do-Returns pre (some (actions, t)) h = h

pub if-Returns : (b : Bool) (x y : Answer) → Returns x → Returns y → Returns (if b then x else y)
if-Returns true x y p q = p
if-Returns false x y p q = q

pub ended : (s : Session) → Sound s → Sound (record s { is_done = true })
ended s h = record { kn_16 = h.kn_16; source = h.source; stack = h.stack }

pub finish-Returns : (r : Result Outcome) (s : Session) → Sound s → Returns (finish r s)
unfolding finish
finish-Returns r s h = ended s h

pub moved : (st : State) (s : Session) → SoundState st → Sound s → Sound (record s { state = st })
moved st s q h = record { kn_16 = h.kn_16; source = h.source; stack = q }

pub kn_16-session_key_of :
    (mode : Mode) (key : MobileKey)
    → length key.kn_key ≡ 16
    → length (session_key_of mode key).kn_key ≡ 16
kn_16-session_key_of standard key h = h
kn_16-session_key_of office key h = h

pub manager-Inv :
    (os : ℕ → Bytes) (kn : Bytes) (random : Option RandomSource)
    → ((i : ℕ) → length (os i) ≡ 16)
    → length kn ≡ 16
    → Supplies random
    → Inv true (manager os kn random)
unfolding mkey_rs.Security.SspTypes.new
manager-Inv os kn none d h q = with_random-Inv true kn (os_random os 0) h d
manager-Inv os kn (some r) d h q = with_random-Inv true kn r h q

expired-Returns :
    (final : Option ℕ) (waited : ℕ) (s : Session) → Sound s → Returns (expired final waited s)
unfolding finish
expired-Returns (some r) waited s h = ended s h
expired-Returns none waited s h = ended s h

module _ (c : Cbc) (lawful : IsCbc c) where
  settle-Returns : (v : V0200) (s : Session) → Inv true v.stack.ssp → Sound s → Returns (settle v s)
  unfolding settle finish
  settle-Returns v s q h =
      if-Returns (not (is_connected v.stack.justin.state))
        (finish (ok (new_outcome 2 v.final_op_result)) (record s { state = v0200 v })) (wait_on v s)
        (ended (record s { state = v0200 v }) (moved (v0200 v) s q h))
        (moved (v0200 (record v { first_packet = false })) s q h)

  responded-Returns :
      (r : Result Bytes) (v : V0200) (s : Session)
      → ¬ (IsPanic r)
      → Inv true v.stack.ssp
      → Sound s
      → Returns (responded r v s)
  unfolding observe
  responded-Returns panic v s safe q h = absurd (safe tt)
  responded-Returns (err e) v s safe q h =
      finish-Returns (err e) (record s { state = v0200 v }) (moved (v0200 v) s q h)
  responded-Returns (ok response) v s safe q h =
      then_do-Returns (reports response v) (settle (observe v) s) (settle-Returns (observe v) s q h)

  pub poll_v0200-Returns :
      (event : Event) (v : V0200) (s : Session)
      → Inv true v.stack.ssp
      → Sound s
      → Returns (poll_v0200 c event v s)
  unfolding poll_v0200 unexpected finish
  poll_v0200-Returns (notification bytes) v s q h =
      let d = handle_packet c bytes v.stack in
      let (safe, w) = handle_packet_safe c lawful bytes v.stack q in
      then_do-Returns (report_trace (rx bytes) ∷ []) (responded d.0 (record v { stack = d.1 }) s)
        (responded-Returns d.0 (record v { stack = d.1 }) s safe w h)
  poll_v0200-Returns (timer id) v s q h =
      expired-Returns v.final_op_result (next_wait s.options.timeouts v).1 s h
  poll_v0200-Returns event v s q h = ended s h

  take_packet-Returns :
      (step : V0100Step) (bytes : Bytes) (v : V0100) (s : Session)
      → Sound s
      → Returns (take_packet c step bytes v s)
  unfolding take_packet encrypt_aes_cbc finish
  take_packet-Returns awaiting_nonce bytes v s h =
      elim (Bool-cases (ltb (length bytes) (1 + v0100_nonce_length))) [
        | inl short ↦ rw short (ended s h)
        | inr long ↦
            let nonce = take v0100_nonce_length (drop 1 bytes) in
            let enough : 17 ≤ length bytes = ground arith in
            let n16 : length nonce ≡ 16 =
              omega (arith, length-take 16 (drop 1 bytes), length-drop 1 bytes) in
            let (signed, e, l) = lawful.encrypts v.kn_key v0100_sign_iv nonce (rw n16 refl) in
            rw (long, e) (moved (v0100 (record v { step = awaiting_result })) s tt h)
      ]
  take_packet-Returns awaiting_result bytes v s h =
      if-Returns (ltb (length bytes) 2)
        (finish (err (too_short "v0100 result packet too short: " bytes)) s)
        (finish (ok (new_outcome 1 (some (get_or bytes 1 0)))) s) (ended s h) (ended s h)

  pub poll_v0100-Returns :
      (event : Event) (v : V0100) (s : Session) → Sound s → Returns (poll_v0100 c event v s)
  unfolding poll_v0100 unexpected finish
  poll_v0100-Returns (notification bytes) v s h =
      then_do-Returns (report_trace (rx bytes) ∷ [])
        (if not (starts_with (expected_prefix v.step) bytes)
          then ignore bytes v s
          else take_packet c v.step bytes v s)
        (if-Returns (not (starts_with (expected_prefix v.step) bytes)) (ignore bytes v s)
          (take_packet c v.step bytes v s) h (take_packet-Returns v.step bytes v s h))
  poll_v0100-Returns event v s h = ended s h
