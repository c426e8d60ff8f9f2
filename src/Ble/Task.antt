-- ===== src/Ble/Task.antt =====
-- A future under `tokio::time::timeout`: it may be dropped at any call that it awaits, with what it wrote
-- before that.
use mkey_rs.Error.{Error}
use mkey_rs.Result.{Result, err, ok}
use mkey_rs.Prelude.{ℕ}

pub data Awaited (A : Type 0) : Type 0 where
  done : A → Awaited A
  failed : Error → Awaited A
  elapsed : Awaited A

abbrev pub Task : Type 0 → Type 0 → Type 0
Task S A = S → Awaited A × S

module _ {S A : Type 0} where
  abbrev pub pure : A → Task S A
  pure a s = (done a, s)

  abbrev pub fail : Error → Task S A
  fail e s = (failed e, s)

module _ {S A B : Type 0} where
  abbrev pub proceed : Awaited A × S → (A → Task S B) → Awaited B × S
  proceed (done a, s) f = f a s
  proceed (failed e, s) f = (failed e, s)
  proceed (elapsed, s) f = (elapsed, s)

  infixl 10 ◌>>=◌ ◌>>◌
  abbrev pub ◌>>=◌ : Task S A → (A → Task S B) → Task S B
  ◌>>=◌ m f s = proceed (m s) f

  abbrev pub ◌>>◌ : Task S A → Task S B → Task S B
  ◌>>◌ m n s = proceed (m s) (λ _. n)

-- The result of the timeout.
abbrev pub within : {A : Type 0} → ℕ → Awaited A → Result A
within ms (done a) = ok a
within ms (failed e) = err e
within ms elapsed = err (Error.timeout ms)
