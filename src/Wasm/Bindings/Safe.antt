-- ===== src/Wasm/Bindings/Safe.antt =====
-- crates/mkey-wasm/src/lib.rs: that no call of JavaScript panics.
use mkey_rs.Wasm.Bindings.{
  JsCall, JsOptions, JsResult, JsValue, aborted, answered, call, event_of, given, into_options,
  link_closed, new_session, notification, options_of, or_throw, panics, polled, protocol_info,
  random_of, started, throws, timer, wire_actions, ◌>>=◌,
}
use mkey_rs.Session.Types.{
  Action, Event, TimerId, announce_app_protocol, finishes, pause, read_protocol_info, report_phase,
  report_trace, set_timer, subscribe, write,
}
use mkey_rs.Result.{Result, err, ok, panic}
use mkey_rs.Prelude.{
  Bool, Bytes, List, Option, String, [], ap, arith, false, if◌then◌else◌, is_text, length, none,
  refl, some, subst, sym, true, ℕ, ◌∙◌, ◌∷◌, ◌≡◌,
}
use mkey_rs.Crypto.Aes.{Cbc, IsCbc}
use mkey_rs.Session.Answer.{Answer}
use mkey_rs.Error.{Error, Message}
use mkey_rs.Session.Contract.Lacks.{has_any}
use mkey_rs.Wasm.Wire.{WireAction, parse_timer_id, wire_action}
use mkey_rs.Session.Poll.{poll}
use mkey_rs.Session.State.{Session, with_random_source}
use mkey_rs.Session.Totality.{Returns, Sound, Supplies}
use mkey_rs.Data.MobileKey.{MobileKey, Tlv, from_bytes}
use mkey_rs.Session.Totality.Events.{poll-Returns}
use mkey_rs.Data.MobileKey.Sizes.{from_bytes-kn_16}
use mkey_rs.Wasm.Bindings.Sends.{Sends, is_panic_result, poll-Sends}

pub >>=-eq-given :
    {A B : Type 0} (m : JsResult A) (f : A → JsResult B) {b : B}
    → (m >>= f) ≡ given b
    → (a : A) × (m ≡ given a) × (f a ≡ given b)
>>=-eq-given (given a) f h = (a, refl, h)
>>=-eq-given (throws e) f h = cc
>>=-eq-given panics f h = cc

given-injective : {A : Type 0} (x y : A) → given x ≡ given y → x ≡ y
given-injective x y e = cc

-- What serde throws is an exception, never a panic.
abbrev pub NeverPanics : {A : Type 0} → JsResult A → Type 0
NeverPanics (given a) = Unit
NeverPanics (throws e) = Unit
NeverPanics panics = ⊥

bind-NeverPanics :
    {A B : Type 0} (m : JsResult A) (f : A → JsResult B)
    → NeverPanics m
    → ((a : A) → NeverPanics (f a))
    → NeverPanics (m >>= f)
bind-NeverPanics (given a) f h g = g a
bind-NeverPanics (throws e) f h g = tt
bind-NeverPanics panics f h g = h

module _ (display : Error → Message) where
  wired :
      (a : Action) → is_panic_result a ≡ false → (w : WireAction) × (wire_action display a ≡ some w)
  unfolding wire_action
  wired announce_app_protocol h = (_, refl)
  wired (read_protocol_info ms) h = (_, refl)
  wired subscribe h = (_, refl)
  wired (write bytes) h = (_, refl)
  wired (pause ms) h = (_, refl)
  wired (set_timer id ms) h = (_, refl)
  wired (report_phase x) h = (_, refl)
  wired (report_trace m) h = (_, refl)
  wired (finishes (ok o)) h = (_, refl)
  wired (finishes (err e)) h = (_, refl)
  wired (finishes panic) h = cc

  wire_actions-NeverPanics :
      (as' : List Action)
      → has_any is_panic_result as' ≡ false
      → NeverPanics (wire_actions display as')
  unfolding wire_actions
  wire_actions-NeverPanics [] h = tt
  wire_actions-NeverPanics (a ∷ as') h =
      let (w, e) = wired a (ground arith) in
      let rest = wire_actions-NeverPanics as' (ground arith) in
      subst
        (λ (o : Option WireAction).
          NeverPanics (elim o [
            | none ↦ panics
            | some w ↦ wire_actions display as' >>= (λ ws. given (w ∷ ws))
          ]))
        (sym e) (bind-NeverPanics (wire_actions display as') (λ ws. given (w ∷ ws)) rest (λ ws. tt))

  if-NeverPanics :
      (b : Bool) (x y : Result TimerId)
      → NeverPanics (or_throw display x)
      → NeverPanics (or_throw display y)
      → NeverPanics (or_throw display (if b then x else y))
  if-NeverPanics true x y p q = p
  if-NeverPanics false x y p q = q

  parsed-NeverPanics : (id : String) → NeverPanics (or_throw display (parse_timer_id id))
  unfolding parse_timer_id
  parsed-NeverPanics id = if-NeverPanics (is_text id "first-packet") _ _ tt (
      if-NeverPanics (is_text id "packet") _ _ tt
        (if-NeverPanics (is_text id "after-final-result") _ _ tt tt))

  event_of-NeverPanics : (m : JsCall) → NeverPanics (event_of display m)
  unfolding event_of
  event_of-NeverPanics started = tt
  event_of-NeverPanics link_closed = tt
  event_of-NeverPanics aborted = tt
  event_of-NeverPanics (protocol_info bytes) = tt
  event_of-NeverPanics (notification bytes) = tt
  event_of-NeverPanics (timer id) =
      bind-NeverPanics (or_throw display (parse_timer_id id)) (λ t. given (Event.timer t))
        (parsed-NeverPanics id) (λ t. tt)

  module _ {V : Type 0} (to_value : List WireAction → JsResult V)
      (written : (ws : List WireAction) → NeverPanics (to_value ws)) (c : Cbc) (lawful : IsCbc c)
      (os : ℕ → Bytes) (drawn_16 : (i : ℕ) → length (os i) ≡ 16) where
    abbrev Answers : JsResult V × Session → Type 0
    Answers (r, t) = NeverPanics r × Sound t

    answered-Answers :
        (a : Answer) (s : Session)
        → Returns a
        → Sends a
        → Answers (answered display to_value c os a s)
    answered-Answers none s h q = absurd h
    answered-Answers (some (actions, t)) s h q = (
      bind-NeverPanics (wire_actions display actions) to_value (wire_actions-NeverPanics actions q)
          written,
      h,
    )

    call-Answers : (m : JsCall) (s : Session) → Sound s → Answers (call display to_value c os m s)
    unfolding call
    call-Answers m s v = answer (event_of display m) (event_of-NeverPanics m)
      where
        answer : (e : JsResult Event) → NeverPanics e → Answers (polled display to_value c os e s)
        answer (given event) h =
            answered-Answers (poll c os event s) s (poll-Returns os drawn_16 c lawful event s v)
              (poll-Sends c os event s)
        answer (throws x) h = (tt, v)
        answer panics h = absurd h

    -- Each of a sequence of calls returns or throws.
    abbrev pub AllAnswer : List JsCall → Session → Type 0
    AllAnswer [] s = Unit
    AllAnswer (m ∷ ms) s =
        NeverPanics (call display to_value c os m s).0
        × AllAnswer ms (call display to_value c os m s).1

    all-Answers : (ms : List JsCall) (s : Session) → Sound s → AllAnswer ms s
    all-Answers [] s v = tt
    all-Answers (m ∷ ms) s v =
        let (safe, sound) = call-Answers m s v in
        (safe, all-Answers ms (call display to_value c os m s).1 sound)

    new-Sound :
        (from_value : V → JsResult JsOptions) (parse_all : Bytes → List Tlv) (tlv : Bytes)
        (options : JsValue V) (s : Session)
        → new_session display from_value parse_all tlv options ≡ given s
        → s.random ≡ none
        → Sound s
    unfolding new_session with_random_source
    new-Sound from_value parse_all tlv options s e r =
        let (key, read_key, e1) = >>=-eq-given (or_throw display (from_bytes parse_all tlv)) _ e in
        let (o, _, e2) = >>=-eq-given (options_of display from_value parse_all options) _ e1 in
        let (opts, _, e3) = >>=-eq-given (into_options o) _ e2 in
        let (random, _, e4) = >>=-eq-given (random_of o.random) _ e3 in
        let same = given-injective (with_random_source key opts random) s e4 in
        let absent : random ≡ none = ap (λ (x : Session). x.random) same ∙ r in
        subst Sound same (record {
          kn_16 =
              from_bytes-kn_16 parse_all tlv key (thrown_of (from_bytes parse_all tlv) read_key);
          source = subst Supplies (sym absent) tt;
          stack = tt;
        })
      where
        thrown_of :
            {key : MobileKey} (x : Result MobileKey) → or_throw display x ≡ given key → x ≡ ok key
        thrown_of (ok a) q = cc
        thrown_of (err a) q = cc
        thrown_of panic q = cc

    -- A session that JavaScript has built from a key, without random values of its own, answers every call
    -- from then on, in any order and with any bytes and any text: it returns actions or throws, and never
    -- panics.
    pub new_session-AllAnswer :
        (from_value : V → JsResult JsOptions) (parse_all : Bytes → List Tlv) (tlv : Bytes)
        (options : JsValue V) (s : Session)
        → new_session display from_value parse_all tlv options ≡ given s
        → s.random ≡ none
        → (ms : List JsCall) → AllAnswer ms s
    new_session-AllAnswer from_value parse_all tlv options s e r ms =
        all-Answers ms s (new-Sound from_value parse_all tlv options s e r)
