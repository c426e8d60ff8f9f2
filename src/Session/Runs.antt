-- ===== src/Session/Runs.antt =====
-- crates/mkey-session/src/session.rs: whole runs of a session, event after event.
use mkey_rs.Session.Types.{Action, Event, Options, TimerId}
use mkey_rs.Session.State.{Session, with_random_source}
use mkey_rs.Session.Answer.{Answer, ◌then_do◌}
use mkey_rs.Session.Poll.{poll}
use mkey_rs.Session.Contract.Events.{poll-Polled}
use mkey_rs.Session.Contract.{Polled, armed, arms, ends, ends-cons, has_done, waits_for}
use mkey_rs.Prelude.{
  Bytes, List, Option, [], ap, append-nil, arith, false, inl, inr, length, none, refl, some, true,
  ℕ, ◌++◌, ◌||◌, ◌∙◌, ◌∷◌, ◌≡◌, ◌⊎◌,
}
use mkey_rs.Crypto.Aes.{Cbc, IsCbc}
use mkey_rs.Session.Totality.Events.{poll-Returns}
use mkey_rs.Session.Totality.{Returns, Sound, Supplies, then_do-Returns}
use mkey_rs.Data.MobileKey.{MobileKey}
use mkey_rs.Security.Random.{RandomSource}

has_done-append : (xs ys : List Action) → has_done (xs ++ ys) ≡ has_done xs || has_done ys
has_done-append [] ys = refl
has_done-append (x ∷ xs) ys = rw (has_done-append xs ys) (ground arith)

armed-append :
    (w : Option (TimerId × ℕ)) (xs ys : List Action) → armed w (xs ++ ys) ≡ armed (armed w xs) ys
armed-append w [] ys = refl
armed-append w (x ∷ xs) ys = armed-append (arms w x) xs ys

ends-append : (xs ys : List Action) → has_done xs ≡ false → ends ys ≡ true → ends (xs ++ ys) ≡ true
ends-append [] ys h e = e
ends-append (x ∷ xs) ys h e =
    ends-cons x (xs ++ ys) (ground arith) (ends-append xs ys (ground arith) e)

abbrev chain : Answer → (Session → Answer) → Answer
chain none f = none
chain (some (actions, t)) f = actions then_do f t

-- How a run from an open session stands: ended, with the result as its last action; or open, with no
-- result yet and the timer armed that the state waits for.
abbrev pub Ran : Session → Answer → Type 0
Ran s none = Unit
Ran s (some (actions, t)) =
    ((t.is_done ≡ true) × (ends actions ≡ true))
    ⊎ ((t.is_done ≡ false)
        × (has_done actions ≡ false)
        × (armed (waits_for s) actions ≡ waits_for t))

then_do-Ran :
    (s t : Session) (xs : List Action) (a : Answer)
    → has_done xs ≡ false
    → armed (waits_for s) xs ≡ waits_for t
    → Ran t a
    → Ran s (xs then_do a)
then_do-Ran s t xs none h w r = tt
then_do-Ran s t xs (some (ys, u)) h w (inl (d, e)) = inl (d, ends-append xs ys h e)
then_do-Ran s t xs (some (ys, u)) h w (inr (o, n, p)) = inr (
  o,
  rw (has_done-append xs ys, h) n,
  armed-append (waits_for s) xs ys ∙ ap (λ x. armed x ys) w ∙ p,
)

module _ (c : Cbc) (os : ℕ → Bytes) where
  -- What a shell gets from a session to which it hands the events, one after the other.
  unfoldable pub feed : List Event → Session → Answer
  feed [] s = some ([], s)
  feed (event ∷ events) s = chain (poll c os event s) (feed events)

  poll-done : (event : Event) (s : Session) → s.is_done ≡ true → poll c os event s ≡ some ([], s)
  unfolding poll
  poll-done event s d = rw d refl

  pub feed-done :
      (events : List Event) (s : Session) → s.is_done ≡ true → feed events s ≡ some ([], s)
  unfolding feed
  feed-done [] s d = refl
  feed-done (event ∷ events) s d = rw (poll-done event s d, feed-done events s d) refl

  chain-Ran :
      (events : List Event) (s : Session) (a : Answer)
      → Polled s a
      → ((t : Session) → t.is_done ≡ false → Ran t (feed events t))
      → Ran s (chain a (feed events))
  chain-Ran events s none p rest = tt
  chain-Ran events s (some (xs, t)) (inl (d, e)) rest =
      rw (feed-done events t d, append-nil xs) (inl (d, e))
  chain-Ran events s (some (xs, t)) (inr (o, n, w, q)) rest =
      then_do-Ran s t xs (feed events t) n w (rest t o)

  pub feed-Ran : (events : List Event) (s : Session) → s.is_done ≡ false → Ran s (feed events s)
  unfolding feed
  feed-Ran [] s o = inr (o, refl, refl)
  feed-Ran (event ∷ events) s o =
      chain-Ran events s (poll c os event s) (poll-Polled c os event s o) (λ t. feed-Ran events t)

chain-Returns :
    (a : Answer) (f : Session → Answer)
    → Returns a
    → ((t : Session) → Sound t → Returns (f t))
    → Returns (chain a f)
chain-Returns none f r rest = r
chain-Returns (some (xs, t)) f r rest = then_do-Returns xs (f t) (rest t r)

module _ (c : Cbc) (lawful : IsCbc c) (os : ℕ → Bytes)
    (drawn_16 : (i : ℕ) → length (os i) ≡ 16) where
  feed-Returns : (events : List Event) (s : Session) → Sound s → Returns (feed c os events s)
  unfolding feed
  feed-Returns [] s h = h
  feed-Returns (event ∷ events) s h =
      chain-Returns (poll c os event s) (feed c os events)
        (poll-Returns os drawn_16 c lawful event s h) (λ t. feed-Returns events t)

Run-of :
    (s : Session) (a : Answer)
    → Returns a
    → Ran s a
    → (actions : List Action) × (t : Session) × (a ≡ some (actions, t))
      × Sound t
      × Ran s (some (actions, t))
Run-of s none h r = absurd h
Run-of s (some (actions, t)) h r = (actions, t, refl, h, r)

-- Whatever events a shell hands to a new session, it returns actions for all of them, and the state it
-- is in stays sound. Either the session is over, its only result being the last of its actions, the
-- finished phase just before it; or it is open, without a result so far, and the timer that the shell
-- has armed is the one that the state waits for.
pub feed-runs :
    (c : Cbc)
    → IsCbc c
    → (os : ℕ → Bytes) → ((i : ℕ) → length (os i) ≡ 16)
    → (key : MobileKey) (options : Options) (random : Option RandomSource) → length key.kn_key ≡ 16
    → Supplies random
    → (events : List Event)
    → let s = with_random_source key options random in
      (actions : List Action) × (t : Session) × (feed c os events s ≡ some (actions, t))
      × Sound t
      × Ran s (some (actions, t))
unfolding with_random_source
feed-runs c lawful os drawn_16 key options random kn_16 source events =
    let s = with_random_source key options random in
    Run-of s (feed c os events s)
      (feed-Returns c lawful os drawn_16 events s
        (record { kn_16 = kn_16; source = source; stack = tt }))
      (feed-Ran c os events s refl)
