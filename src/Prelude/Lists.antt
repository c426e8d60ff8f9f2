-- ===== src/Prelude/Lists.antt =====
-- Byte strings: lists measured and sliced by native numbers, under the library's names.
use Prim.Native.Nat.{ℕ, zero, suc, ◌+◌, ◌-◌, ◌<◌, min, compare, Ordering}
use mathlib.Core.Path.{◌≡◌, refl, ap}
use mathlib.Core.Bool.{Bool, true, false}
use mathlib.Core.List.{List, [], ◌∷◌, ◌++◌, reverse, reverse-cons}
use mathlib.Core.Option.{Option, none, some}
use native.Mathlib.Omega.{arith}

-- A sequence of `u8`.
abbrev pub Bytes : Type 0
Bytes = List ℕ

abbrev pub All {ℓ κ} : {A : Type ℓ} → (A → Type κ) → List A → Type κ
All P [] = Unit
All P (x ∷ xs) = P x × All P xs

abbrev pub IsByte : ℕ → Type 0
IsByte b = b < 256

-- Equality of byte strings, the `==` of slices.
abbrev pub bytes_eq : Bytes → Bytes → Bool
bytes_eq [] [] = true
bytes_eq [] (y ∷ ys) = false
bytes_eq (x ∷ xs) [] = false
bytes_eq (x ∷ xs) (y ∷ ys) =
    let rest = bytes_eq xs ys in elim (compare x y) [ Ordering.eq ↦ rest | _ ↦ false ]

pub bytes_eq_refl : (xs : Bytes) → bytes_eq xs xs ≡ true
bytes_eq_refl [] = refl
bytes_eq_refl (x ∷ xs) = ground (arith, bytes_eq_refl xs)

pub bytes_eq→eq : (xs ys : Bytes) → bytes_eq xs ys ≡ true → xs ≡ ys
bytes_eq→eq [] [] h = refl
bytes_eq→eq [] (y ∷ ys) h = cc
bytes_eq→eq (x ∷ xs) [] h = cc
bytes_eq→eq (x ∷ xs) (y ∷ ys) h = ground (arith, bytes_eq→eq xs ys)

module _ {ℓ} {A : Type ℓ} where
  abbrev pub length : List A → ℕ
  length [] = 0
  length (x ∷ xs) = suc (length xs)

  abbrev pub get_or : List A → ℕ → A → A
  get_or [] i d = d
  get_or (x ∷ xs) zero d = x
  get_or (x ∷ xs) (suc i) d = get_or xs i d

  abbrev pub get_elem? : List A → ℕ → Option A
  get_elem? [] i = none
  get_elem? (x ∷ xs) zero = some x
  get_elem? (x ∷ xs) (suc i) = get_elem? xs i

  abbrev pub take : ℕ → List A → List A
  take zero xs = []
  take (suc n) [] = []
  take (suc n) (x ∷ xs) = x ∷ take n xs

  abbrev pub drop : ℕ → List A → List A
  drop zero xs = xs
  drop (suc n) [] = []
  drop (suc n) (x ∷ xs) = drop n xs

  abbrev pub replicate : ℕ → A → List A
  replicate zero a = []
  replicate (suc n) a = a ∷ replicate n a

  pub length-append : (xs ys : List A) → length (xs ++ ys) ≡ length xs + length ys
  length-append [] ys = omega arith
  length-append (x ∷ xs) ys = omega (arith, length-append xs ys)

  pub take-append-drop : (n : ℕ) (xs : List A) → take n xs ++ drop n xs ≡ xs
  take-append-drop zero xs = refl
  take-append-drop (suc n) [] = refl
  take-append-drop (suc n) (x ∷ xs) = rw (take-append-drop n xs)

  pub length-take : (n : ℕ) (xs : List A) → length (take n xs) ≡ min n (length xs)
  length-take zero xs = omega arith
  length-take (suc n) [] = omega arith
  length-take (suc n) (x ∷ xs) = omega (arith, length-take n xs)

  pub length-drop : (n : ℕ) (xs : List A) → length (drop n xs) ≡ length xs - n
  length-drop zero xs = omega arith
  length-drop (suc n) [] = omega arith
  length-drop (suc n) (x ∷ xs) = omega (arith, length-drop n xs)

  pub length-replicate : (n : ℕ) (a : A) → length (replicate n a) ≡ n
  length-replicate zero a = refl
  length-replicate (suc n) a = ap suc (length-replicate n a)

  pub length-reverse : (ys : List A) → length (reverse ys) ≡ length ys
  length-reverse [] = refl
  length-reverse (y ∷ ys) =
      let turned = ap length (reverse-cons y ys) in
      omega (arith, length-reverse ys, turned, length-append (reverse ys) (y ∷ []))

  pub take-append : (xs ys : List A) → take (length xs) (xs ++ ys) ≡ xs
  take-append [] ys = refl
  take-append (x ∷ xs) ys = ap (◌∷◌ x) (take-append xs ys)

  pub take_all : (xs : List A) → take (length xs) xs ≡ xs
  take_all [] = refl
  take_all (x ∷ xs) = ap (◌∷◌ x) (take_all xs)

  pub drop-append : (xs ys : List A) → drop (length xs) (xs ++ ys) ≡ ys
  drop-append [] ys = refl
  drop-append (x ∷ xs) ys = drop-append xs ys

  -- A list is empty, or has a last element.
  abbrev pub init : List A → List A
  init [] = []
  init (x ∷ []) = []
  init (x ∷ (y ∷ ys)) = x ∷ init (y ∷ ys)

  abbrev pub last_or : A → List A → A
  last_or d [] = d
  last_or d (x ∷ xs) = last_or x xs

  pub length-init : (xs : List A) → length (init xs) ≡ length xs - 1
  length-init [] = omega arith
  length-init (x ∷ []) = omega arith
  length-init (x ∷ (y ∷ ys)) = omega (arith, length-init (y ∷ ys))

  pub init-append-last : (x : A) (xs : List A) → init (x ∷ xs) ++ (last_or x xs ∷ []) ≡ x ∷ xs
  init-append-last x [] = refl
  init-append-last x (y ∷ ys) = ap (◌∷◌ x) (init-append-last y ys)

  pub init-append : (xs : List A) (x : A) → init (xs ++ (x ∷ [])) ≡ xs
  init-append [] x = refl
  init-append (y ∷ []) x = refl
  init-append (y ∷ (z ∷ zs)) x = ap (◌∷◌ y) (init-append (z ∷ zs) x)

  pub last_or-append : (d : A) (xs : List A) (x : A) → last_or d (xs ++ (x ∷ [])) ≡ x
  last_or-append d [] x = refl
  last_or-append d (y ∷ ys) x = last_or-append y ys x

pub All-append {ℓ κ} :
    {A : Type ℓ} (P : A → Type κ) (xs ys : List A) → All P xs → All P ys → All P (xs ++ ys)
All-append P [] ys p q = q
All-append P (x ∷ xs) ys p q = (p.0, All-append P xs ys p.1 q)
