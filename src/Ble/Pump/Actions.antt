-- ===== src/Ble/Pump/Actions.antt =====
-- crates/mkey-ble/src/pump.rs: what one list of actions does.
use mkey_rs.Session.Types.{
  Action, Outcome, Phase, TimerId, announce_app_protocol, finished, finishes, pause,
  read_protocol_info, report_phase, report_trace, set_timer, subscribe, write,
}
use mkey_rs.Session.Contract.{
  armed, arms, ends, has_done, has_read, is_done_action, is_finished_phase, is_read,
}
use mkey_rs.Ble.Pump.{
  Link, Performed, Report, Round, Transport, goes_on, next, or_return, perform, returns,
  run_actions, saw_phase, saw_trace,
}
use mkey_rs.Prelude.{
  Bool, Bytes, List, Option, [], ap, arith, false, inl, inr, none, refl, some, true, ℕ, ◌&&◌, ◌||◌,
  ◌∙◌, ◌∷◌, ◌≡◌, ◌⊎◌,
}
use mkey_rs.Error.{Error, Message}
use mkey_rs.Result.{Result, err}

abbrev pub id_of : Option (TimerId × ℕ) → Option TimerId
id_of none = none
id_of (some (id, ms)) = some id

abbrev pub is_some : Option (Option Bytes) → Bool
is_some none = false
is_some (some x) = true

abbrev pub last_phase : List Report → Option Phase
last_phase [] = none
last_phase (saw_phase p ∷ rs) = some p
last_phase (saw_trace m ∷ rs) = last_phase rs

module _ {W : Type 0} (display : Error → Message) (t : Transport W) where
  -- An error that the transport gave to a write or to the subscription.
  abbrev pub Broke : Result Outcome → Type 0
  Broke r =
      (e : Error) × (r ≡ err e)
      × (((bytes : Bytes) × (w : W) × ((t.send bytes w).0 ≡ some e))
          ⊎ ((w : W) × ((t.enable w).0 ≡ some e)))

  abbrev pub Moved : Option (TimerId × ℕ) → Bool → Performed W → Type 0
  Moved wait reads (returns r k) = Broke r
  Moved wait reads (goes_on l k) = (id_of l.deadline ≡ id_of wait) × (is_some l.info_read ≡ reads)

  sent-Moved :
      (bytes : Bytes) (w : W) (d : Option Error × W) (l : Round) (k : Link W)
      → t.send bytes w ≡ d
      → Moved l.deadline (is_some l.info_read) (or_return display t d l k)
  sent-Moved bytes w (none, v) l k e = (refl, refl)
  sent-Moved bytes w (some x, v) l k e = (x, refl, inl (bytes, w, ap (λ y. y.0) e))

  enabled-Moved :
      (w : W) (d : Option Error × W) (l : Round) (k : Link W)
      → t.enable w ≡ d
      → Moved l.deadline (is_some l.info_read) (or_return display t d l k)
  enabled-Moved w (none, v) l k e = (refl, refl)
  enabled-Moved w (some x, v) l k e = (x, refl, inr (w, ap (λ y. y.0) e))

  perform-Moved :
      (a : Action) (l : Round) (k : Link W)
      → is_done_action a ≡ false
      → Moved (arms l.deadline a) (is_read a || is_some l.info_read) (perform display t a l k)
  unfolding perform
  perform-Moved announce_app_protocol l k h = (refl, refl)
  perform-Moved (read_protocol_info ms) l k h = (refl, refl)
  perform-Moved subscribe l k h = enabled-Moved k.world (t.enable k.world) l k refl
  perform-Moved (write bytes) l k h = sent-Moved bytes k.world (t.send bytes k.world) l k refl
  perform-Moved (pause ms) l k h = (refl, refl)
  perform-Moved (set_timer id ms) l k h = (refl, refl)
  perform-Moved (report_phase p) l k h = (refl, refl)
  perform-Moved (report_trace m) l k h = (refl, refl)
  perform-Moved (finishes r) l k h = cc

  arms-same :
      (u v : Option (TimerId × ℕ)) (a : Action)
      → id_of u ≡ id_of v
      → id_of (arms u a) ≡ id_of (arms v a)
  arms-same u v (set_timer id ms) e = refl
  arms-same u v _ e = e

  pub arms-id_of :
      (u v : Option (TimerId × ℕ)) (as' : List Action)
      → id_of u ≡ id_of v
      → id_of (armed u as') ≡ id_of (armed v as')
  arms-id_of u v [] e = e
  arms-id_of u v (a ∷ as') e = arms-id_of (arms u a) (arms v a) as' (arms-same u v a e)

  pub Moved-same :
      (u v : Option (TimerId × ℕ)) (b d : Bool) (p : Performed W)
      → id_of u ≡ id_of v
      → b ≡ d
      → Moved u b p
      → Moved v d p
  Moved-same u v b d (returns r k) e q m = m
  Moved-same u v b d (goes_on l k) e q (x, y) = (x ∙ e, y ∙ q)

  or-step : (x y z w : Bool) → w ≡ x || z → y || w ≡ (x || y) || z
  or-step x y z w e = ground arith

  next-Moved :
      (a : Action) (as' : List Action) (l : Round) (p : Performed W)
      (f : Round → Link W → Performed W)
      → Moved (arms l.deadline a) (is_read a || is_some l.info_read) p
      → ((l' : Round) (k' : Link W)
          → Moved (armed l'.deadline as') (has_read as' || is_some l'.info_read) (f l' k'))
      → Moved (armed l.deadline (a ∷ as')) (has_read (a ∷ as') || is_some l.info_read) (next p f)
  next-Moved a as' l (returns r k) f m h = m
  next-Moved a as' l (goes_on l' k') f (x, y) h =
      Moved-same (armed l'.deadline as') (armed (arms l.deadline a) as')
        (has_read as' || is_some l'.info_read) (has_read (a ∷ as') || is_some l.info_read) (f l' k')
        (arms-id_of l'.deadline (arms l.deadline a) as' x)
        (or-step (is_read a) (has_read as') (is_some l.info_read) (is_some l'.info_read) y)
        (h l' k')

  -- A list of actions without a result.
  pub run-Moved :
      (as' : List Action) (l : Round) (k : Link W)
      → has_done as' ≡ false
      → Moved
          (armed l.deadline as')
          (has_read as' || is_some l.info_read)
          (run_actions display t as' l k)
  unfolding run_actions
  run-Moved [] l k h = (refl, refl)
  run-Moved (a ∷ as') l k h =
      next-Moved a as' l (perform display t a l k) (run_actions display t as')
        (perform-Moved a l k (ground arith)) (λ l' k'. run-Moved as' l' k' (ground arith))

  -- A list of actions that ends with a result: the pump returns, the finished phase reported last
  -- unless the transport failed before.
  abbrev pub Closes : Performed W → Type 0
  Closes (returns r k) = (last_phase k.reports ≡ some finished) ⊎ Broke r
  Closes (goes_on l k) = ⊥

  next-Closes :
      (wait : Option (TimerId × ℕ)) (reads : Bool) (p : Performed W)
      (f : Round → Link W → Performed W)
      → Moved wait reads p
      → ((l : Round) (k : Link W) → Closes (f l k))
      → Closes (next p f)
  next-Closes wait reads (returns r k) f m h = inr m
  next-Closes wait reads (goes_on l k) f m h = h l k

  last-Closes :
      (a b : Action) (l : Round) (k : Link W)
      → is_finished_phase a && is_done_action b ≡ true
      → Closes (run_actions display t (a ∷ b ∷ []) l k)
  unfolding run_actions perform
  last-Closes (report_phase finished) (finishes r) l k h = inl refl
  last-Closes a b l k h = cc

  pub run-Closes :
      (as' : List Action) (l : Round) (k : Link W)
      → ends as' ≡ true
      → Closes (run_actions display t as' l k)
  unfolding run_actions
  run-Closes [] l k h = cc
  run-Closes (a ∷ []) l k h = cc
  run-Closes (a ∷ (b ∷ [])) l k h = last-Closes a b l k h
  run-Closes (a ∷ (b ∷ (d ∷ ds))) l k h =
      next-Closes (arms l.deadline a) (is_read a || is_some l.info_read) (perform display t a l k)
        (run_actions display t (b ∷ (d ∷ ds))) (perform-Moved a l k (ground arith))
        (λ l' k'. run-Closes (b ∷ (d ∷ ds)) l' k' (ground arith))
