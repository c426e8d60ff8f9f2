-- ===== src/Ble/Pump/Draining.antt =====
-- crates/mkey-ble/src/pump.rs: what the actions of a round leave of what the lock may still send.
use mkey_rs.Session.Types.{
  Action, announce_app_protocol, finishes, pause, read_protocol_info, report_phase, report_trace,
  set_timer, subscribe, write,
}
use mkey_rs.Session.State.{app_protocol_request}
use mkey_rs.Ble.Pump.{
  Link, Performed, ReadOutcome, Received, Round, Transport, closed, expired_wait, goes_on,
  link_failed, moved_to, next, no_answer, or_return, packet_of, perform, read_failed, read_note,
  returns, run_actions, value,
}
use mkey_rs.Prelude.{
  Bytes, List, Option, [], arith, none, refl, some, subst, sym, ℕ, ◌<◌, ◌∷◌, ◌≡◌, ◌≤◌,
}
use mkey_rs.Error.{Error, Message}

module _ {W : Type 0} where
  abbrev pub Spends : (W → ℕ) → W → Received × W → Type 0
  Spends left w (packet_of bytes, v) = left v < left w
  Spends left w (closed, v) = Unit
  Spends left w (link_failed e, v) = Unit
  Spends left w (expired_wait, v) = Unit

  -- A measure of what the lock may still send: a packet takes from it, and nothing adds to it.
  pub record RunsDry (t : Transport W) (left : W → ℕ) : Type 0 where
    pub send-le : (bytes : Bytes) (w : W) → left (t.send bytes w).1 ≤ left w
    pub enable-le : (w : W) → left (t.enable w).1 ≤ left w
    pub read-le : (ms : ℕ) (w : W) → left (t.read_within ms w).1 ≤ left w
    pub sleep-le : (ms : ℕ) (w : W) → left (t.sleep ms w) ≤ left w
    pub receive-Spends : (at : ℕ) (w : W) → Spends left w (t.receive_until at w)

module _ {W : Type 0} (display : Error → Message) (t : Transport W) (left : W → ℕ)
    (dry : RunsDry t left) where
  open dry use {send-le, enable-le, read-le, sleep-le, receive-Spends}

  abbrev pub Keeps : ℕ → Performed W → Type 0
  Keeps n (returns r k) = Unit
  Keeps n (goes_on l k) = left k.world ≤ n

  or_return-Keeps :
      (n : ℕ) (d : Option Error × W) (l : Round) (k : Link W)
      → left d.1 ≤ n
      → Keeps n (or_return display t d l k)
  or_return-Keeps n (none, w) l k h = h
  or_return-Keeps n (some e, w) l k h = tt

  read_note-world :
      (r : ReadOutcome) (ms : ℕ) (k : Link W) → (read_note display t r ms k).world ≡ k.world
  read_note-world (value bytes) ms k = refl
  read_note-world (read_failed e) ms k = refl
  read_note-world no_answer ms k = refl

  perform-Keeps :
      (a : Action) (l : Round) (k : Link W) → Keeps (left k.world) (perform display t a l k)
  unfolding perform
  perform-Keeps announce_app_protocol l k = send-le app_protocol_request k.world
  perform-Keeps (read_protocol_info ms) l k =
      let (r, w) = t.read_within ms k.world in
      subst (λ v. left v ≤ left k.world) (sym (read_note-world r ms (moved_to w k)))
        (read-le ms k.world)
  perform-Keeps subscribe l k =
      or_return-Keeps (left k.world) (t.enable k.world) l k (enable-le k.world)
  perform-Keeps (write bytes) l k =
      or_return-Keeps (left k.world) (t.send bytes k.world) l k (send-le bytes k.world)
  perform-Keeps (pause ms) l k = sleep-le ms k.world
  perform-Keeps (set_timer id ms) l k = omega arith
  perform-Keeps (report_phase p) l k = omega arith
  perform-Keeps (report_trace m) l k = omega arith
  perform-Keeps (finishes r) l k = tt

  Keeps-le : (m n : ℕ) (p : Performed W) → m ≤ n → Keeps m p → Keeps n p
  Keeps-le m n (returns r k) h q = tt
  Keeps-le m n (goes_on l k) h q = omega arith

  next-Keeps :
      (n : ℕ) (p : Performed W) (f : Round → Link W → Performed W)
      → Keeps n p
      → ((l : Round) (k : Link W) → Keeps (left k.world) (f l k))
      → Keeps n (next p f)
  next-Keeps n (returns r k) f q h = tt
  next-Keeps n (goes_on l k) f q h = Keeps-le (left k.world) n (f l k) q (h l k)

  pub run-Keeps :
      (as' : List Action) (l : Round) (k : Link W)
      → Keeps (left k.world) (run_actions display t as' l k)
  unfolding run_actions
  run-Keeps [] l k = omega arith
  run-Keeps (a ∷ as') l k =
      next-Keeps (left k.world) (perform display t a l k) (run_actions display t as')
        (perform-Keeps a l k) (run-Keeps as')
