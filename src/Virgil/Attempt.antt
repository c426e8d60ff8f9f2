-- ===== src/Virgil/Attempt.antt =====
-- crates/mkey-sdk-virgil/src/lib.rs: the failures of provisioning, and the code that may panic.
use mkey_rs.Error.{Error, Message}
use mkey_rs.Prelude.{Option, none, refl, some, ◌≡◌}

-- The enum `Error` of this crate.
pub data VirgilError : Type 0 where
  key : Error → VirgilError
  container rsa_decryption wasm : Message → VirgilError

pub data Attempt {ℓ} (A : Type ℓ) : Type ℓ where
  ok : A → Attempt A
  err : VirgilError → Attempt A
  panic : Attempt A

infixl 10 ◌>>=◌
abbrev pub ◌>>=◌ {ℓ κ} : {A : Type ℓ} {B : Type κ} → Attempt A → (A → Attempt B) → Attempt B
ok a >>= f = f a
err e >>= f = err e
panic >>= f = panic

-- An index, or a slice, that is out of range.
abbrev pub or_panic {ℓ} : {A : Type ℓ} → Option A → Attempt A
or_panic none = panic
or_panic (some a) = ok a

abbrev pub or_fail {ℓ} : {A : Type ℓ} → VirgilError → Option A → Attempt A
or_fail e none = err e
or_fail e (some a) = ok a

-- What a chain that succeeds has passed through.
pub >>=-eq-ok {ℓ κ} :
    {X : Type ℓ} {Y : Type κ} (x : Attempt X) (next : X → Attempt Y) {y : Y}
    → (x >>= next) ≡ ok y
    → (mid : X) × (x ≡ ok mid) × (next mid ≡ ok y)
>>=-eq-ok panic next e = cc
>>=-eq-ok (err _) next e = cc
>>=-eq-ok (ok mid) next e = (mid, refl, e)

pub or_fail-eq-ok {ℓ} :
    {A : Type ℓ} (e : VirgilError) (o : Option A) {a : A} → or_fail e o ≡ ok a → o ≡ some a
or_fail-eq-ok e none h = cc
or_fail-eq-ok e (some x) h = cc

pub ok-injective {ℓ} : {A : Type ℓ} (x y : A) → ok x ≡ ok y → x ≡ y
ok-injective x y h = cc

-- The same, where another `>>=` is in scope.
abbrev pub and_then {ℓ κ} : {A : Type ℓ} {B : Type κ} → Attempt A → (A → Attempt B) → Attempt B
and_then m f = m >>= f
