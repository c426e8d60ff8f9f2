-- ===== src/Security/Random.antt =====
-- crates/mkey-core/src/security/random.rs.
use mkey_rs.Prelude.{
  Bytes, List, Option, Option-cases, [], arith, drop, get_elem?, inl, inr, length, min, none, refl,
  some, suc, zero, ℕ, ◌+◌, ◌∷◌, ◌≡◌, ◌⊎◌,
}
use mkey_rs.Result.{Result, err, ok, panic}

-- `FixedRandom`: a preset list of 16-byte values.
pub record FixedRandom : Type 0 where
  pub values : List Bytes
  pub next : ℕ

-- The two implementations of the trait `RandomSource`. `OsRandom` has no state in the source; the
-- bytes that the operating system gives are a stream, of which so many draws are used.
pub data RandomSource : Type 0 where
  os_random : (ℕ → Bytes) → ℕ → RandomSource
  fixed_random : FixedRandom → RandomSource

unfoldable pub new : List Bytes → FixedRandom
new values = record { values = values; next = 0 }

unfoldable pub single : Bytes → FixedRandom
unfolding new
single value = new (value ∷ [])

unfoldable pub consumed : FixedRandom → ℕ
consumed f = f.next

unfoldable pub remaining : FixedRandom → List Bytes
remaining f = drop (min f.next (length f.values)) f.values

abbrev fixed_next : FixedRandom → Option Bytes → Result Bytes × FixedRandom
fixed_next f none = (panic, f)
fixed_next f (some value) = (ok value, record f { next = f.next + 1 })

-- `FixedRandom::random16`.
unfoldable pub fixed_random16 : FixedRandom → Result Bytes × FixedRandom
fixed_random16 f = fixed_next f (get_elem? f.values f.next)

unfoldable pub random16 : RandomSource → Result Bytes × RandomSource
unfolding fixed_random16
random16 (os_random stream drawn) = (ok (stream drawn), os_random stream (drawn + 1))
random16 (fixed_random f) = ((fixed_random16 f).0, fixed_random (fixed_random16 f).1)

drop-min : (xs : List Bytes) (i : ℕ) → drop (min i (length xs)) xs ≡ drop i xs
drop-min [] zero = refl
drop-min [] (suc i) = let e : min (suc i) 0 ≡ 0 = omega arith in rw e refl
drop-min (x ∷ xs) zero = let e : min 0 (suc (length xs)) ≡ 0 = omega arith in rw e refl
drop-min (x ∷ xs) (suc i) =
    let e : min (suc i) (suc (length xs)) ≡ suc (min i (length xs)) = omega arith in
    rw e (drop-min xs i)

abbrev pub Draws : List Bytes → List Bytes → Result Bytes → Type 0
Draws before after (ok v) = before ≡ v ∷ after
Draws before after (err e) = ⊥
Draws before after panic = (before ≡ []) × (after ≡ [])

get_elem?-cases :
    (xs : List Bytes) (i : ℕ)
    → ((get_elem? xs i ≡ none) × (drop i xs ≡ []))
      ⊎ ((x : Bytes) × (get_elem? xs i ≡ some x) × (drop i xs ≡ x ∷ drop (i + 1) xs))
get_elem?-cases [] zero = inl (refl, refl)
get_elem?-cases [] (suc i) = inl (refl, refl)
get_elem?-cases (x ∷ xs) zero = inr (x, refl, refl)
get_elem?-cases (x ∷ xs) (suc i) =
    let e : suc i + 1 ≡ suc (i + 1) = omega arith in rw e (get_elem?-cases xs i)

-- Each draw takes the first of the remaining values, and a draw with none left panics: never a value
-- that was not provided, nor one twice.
pub fixed_random16-remaining :
    (f : FixedRandom) → Draws (remaining f) (remaining (fixed_random16 f).1) (fixed_random16 f).0
unfolding remaining fixed_random16
fixed_random16-remaining f = elim (get_elem?-cases f.values f.next) [
  | inl (e, d) ↦ rw (e, drop-min f.values f.next) (d, d)
  | inr (x, e, d) ↦ rw (e, drop-min f.values f.next, drop-min f.values (f.next + 1)) d
]

-- A source gives a value or panics: it has no error of its own.
pub random16-cases :
    (r : RandomSource) → ((random16 r).0 ≡ panic) ⊎ ((b : Bytes) × ((random16 r).0 ≡ ok b))
unfolding random16
random16-cases (os_random stream drawn) = inr (stream drawn, refl)
random16-cases (fixed_random f) = elim (Option-cases (get_elem? f.values f.next)) [
  | inl e ↦ inl (rw e refl)
  | inr (v, e) ↦ inr (v, rw e refl)
]
