-- ===== src/Prelude/Bits.antt =====
-- Equations between functions on bytes, checked value by value.
use Prim.Native.Nat.{ℕ, zero, suc, ◌<◌}
use mathlib.Core.Path.{◌≡◌}
use mathlib.Core.Logic.{inl, inr}
use mathlib.Core.Bool.{Bool, true, false}
use native.Mathlib.Omega.{arith}
use mkey_rs.Prelude.Tests.{Bool-cases, ◌==◌, if◌then◌else◌}

-- Whether two functions agree on every number below a bound.
unfoldable pub same_below : (ℕ → ℕ) → (ℕ → ℕ) → ℕ → Bool
same_below f g zero = true
same_below f g (suc bound) =
    let rest = same_below f g bound in if f bound == g bound then rest else false

pub agree_below :
    (bound : ℕ) (f g : ℕ → ℕ) → same_below f g bound ≡ true → (x : ℕ) → x < bound → f x ≡ g x
unfolding same_below
agree_below zero f g same x lt = absurd (omega arith)
agree_below (suc bound) f g same x lt =
    let here : f bound ≡ g bound = ground arith in
    let below : same_below f g bound ≡ true = ground arith in
    elim (Bool-cases (x == bound)) [
      | inl e ↦ let at_bound : x ≡ bound = ground arith in rw at_bound here
      | inr e ↦ agree_below bound f g below x (ground arith)
    ]
