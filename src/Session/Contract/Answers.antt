-- ===== src/Session/Contract/Answers.antt =====
-- crates/mkey-session/src/session.rs: the contract of one call of `poll`, which always answers.
use mkey_rs.Session.Contract.{Goes, Polled, ends}
use mkey_rs.Session.Contract.Events.{poll-Polled}
use mkey_rs.Session.Totality.{Returns, Sound}
use mkey_rs.Session.Totality.Events.{poll-Returns}
use mkey_rs.Session.Types.{Action, Event}
use mkey_rs.Session.State.{Session}
use mkey_rs.Session.Answer.{Answer}
use mkey_rs.Session.Poll.{poll}
use mkey_rs.Crypto.Aes.{Cbc, IsCbc}
use mkey_rs.Prelude.{Bytes, List, false, length, none, refl, some, true, ℕ, ◌≡◌, ◌⊎◌}

-- There is an answer, its session is sound, and it has ended or goes on.
abbrev pub Answers : Session → Answer → Type 0
Answers s a =
    (actions : List Action) × (t : Session) × (a ≡ some (actions, t))
    × Sound t
    × (((t.is_done ≡ true) × (ends actions ≡ true)) ⊎ Goes s actions t)

both_hold : (s : Session) (a : Answer) → Returns a → Polled s a → Answers s a
both_hold s none h p = absurd h
both_hold s (some (actions, t)) h p = (actions, t, refl, h, p)

-- From a sound and open session `poll` answers every event, without a panic, and leaves a sound session,
-- where the cipher is lawful and the system has random values of 16 bytes. Either that session is over, the last two of the actions being the finished phase and the result and
-- no result before them; or it is open, with no result among the actions, the timer that the shell has
-- armed being the one that the new state waits for, and a read asked for where it waits for one.
pub poll-Answers :
    (c : Cbc)
    → IsCbc c
    → (os : ℕ → Bytes) → ((i : ℕ) → length (os i) ≡ 16)
    → (event : Event) (s : Session) → Sound s
    → s.is_done ≡ false
    → Answers s (poll c os event s)
poll-Answers c lawful os drawn_16 event s sound open_still =
    both_hold s (poll c os event s) (poll-Returns os drawn_16 c lawful event s sound)
      (poll-Polled c os event s open_still)
