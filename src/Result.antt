-- ===== src/Result.antt =====
-- Rust's `Result<_, Error>` with the panic as a third outcome, and methods on `&mut self`: the state
-- comes back beside every outcome, since what was written before an error stays written.
use mkey_rs.Prelude.{Bool, Option, false, inl, inr, none, refl, some, true, ◌≡◌, ◌⊎◌}
use mkey_rs.Error.{Error}

pub data Result {ℓ} (A : Type ℓ) : Type ℓ where
  ok : A → Result A
  err : Error → Result A
  panic : Result A

abbrev pub Exec {ℓ} : Type ℓ → Type ℓ → Type ℓ
Exec S A = S → Result A × S

module _ {ℓ} {S A : Type ℓ} where
  abbrev pub pure : A → Exec S A
  pure a s = (ok a, s)

  abbrev pub fail : Error → Exec S A
  fail e s = (err e, s)

  abbrev pub lift : Result A → Exec S A
  lift r s = (r, s)

module _ {ℓ κ} {A : Type ℓ} {B : Type κ} where
  abbrev pub and_then : Result A → (A → Result B) → Result B
  and_then (ok a) f = f a
  and_then (err e) f = err e
  and_then panic f = panic

module _ {ℓ} {S A B : Type ℓ} where
  abbrev pub continue : Result A × S → (A → Exec S B) → Result B × S
  continue (ok a, s) f = f a s
  continue (err e, s) f = (err e, s)
  continue (panic, s) f = (panic, s)

  infixl 10 ◌>>=◌ ◌>>◌
  abbrev pub ◌>>=◌ : Exec S A → (A → Exec S B) → Exec S B
  ◌>>=◌ m f s = continue (m s) f

  abbrev pub ◌>>◌ : Exec S A → Exec S B → Exec S B
  ◌>>◌ m n s = continue (m s) (λ _. n)

module _ {ℓ} {S : Type ℓ} where
  abbrev pub gets : {A : Type ℓ} → (S → A) → Exec S A
  gets f s = (ok (f s), s)

-- Statements that only change the state, and early returns of an error.
module _ {S : Type 0} where
  abbrev pub modify : (S → S) → Exec S (Unit {0})
  modify f s = (ok tt, f s)

  abbrev pub ensure : Bool → Error → Exec S (Unit {0})
  ensure true e s = (ok tt, s)
  ensure false e s = (err e, s)

-- `Option::ok_or_else`.
abbrev pub ok_or {ℓ} : {A : Type ℓ} → Option A → Error → Result A
ok_or none e = err e
ok_or (some a) e = ok a

abbrev pub IsPanic {ℓ} : {A : Type ℓ} → Result A → Type 0
IsPanic (ok a) = ⊥
IsPanic (err e) = ⊥
IsPanic panic = Unit

pub Result-cases {ℓ} :
    {T : Type ℓ} (result : Result T)
    → ¬ (IsPanic result)
    → ((value : T) × (result ≡ ok value)) ⊎ ((error : Error) × (result ≡ err error))
Result-cases panic safe = absurd (safe tt)
Result-cases (err error) safe = inr (error, refl)
Result-cases (ok value) safe = inl (value, refl)

pub err-injective {ℓ} : {A : Type ℓ} (r : Result A) {x y : Error} → r ≡ err x → r ≡ err y → x ≡ y
err-injective r p q = cc
