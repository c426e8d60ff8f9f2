-- ===== src/Crypto/Rotation.antt =====
-- crates/mkey-core/src/crypto/rotation.rs.
use mkey_rs.Prelude.{
  Bytes, [], ap, append-nil, append_assoc, ap₂, arith, init, init-append, init-append-last, last_or,
  last_or-append, length, length-init, length-reverse, refl, reverse, reverse-append,
  reverse-reverse, subst, suc, sym, zero, ℕ, ◌++◌, ◌∙◌, ◌∷◌, ◌≡◌,
}

unfoldable pub rotate_right : Bytes → Bytes
rotate_right [] = []
rotate_right (x ∷ xs) = last_or x xs ∷ init (x ∷ xs)

pub length-rotate_right : (xs : Bytes) → length (rotate_right xs) ≡ length xs
unfolding rotate_right
length-rotate_right [] = refl
length-rotate_right (x ∷ xs) = omega (arith, length-init (x ∷ xs))

init-suc : (x y : ℕ) (xs : Bytes) → init (x ∷ (xs ++ (y ∷ []))) ≡ x ∷ xs
init-suc x y xs = init-append (x ∷ xs) y

rotate_right_snoc : (xs : Bytes) (x : ℕ) → rotate_right (xs ++ (x ∷ [])) ≡ x ∷ xs
unfolding rotate_right
rotate_right_snoc [] x = refl
rotate_right_snoc (y ∷ ys) x = ap₂ ◌∷◌ (last_or-append y ys x) (init-suc y x ys)

abbrev pub rotations : ℕ → Bytes → Bytes
rotations zero xs = xs
rotations (suc n) xs = rotations n (rotate_right xs)

snoc_right : (z : ℕ) (rs xs : Bytes) → xs ++ reverse (z ∷ rs) ≡ (xs ++ reverse rs) ++ (z ∷ [])
snoc_right z rs xs =
    ap (◌++◌ xs) (reverse-append (z ∷ []) rs) ∙ sym (append_assoc xs (reverse rs) (z ∷ []))

snoc_left : (z : ℕ) (rs xs : Bytes) → reverse (z ∷ rs) ++ xs ≡ reverse rs ++ (z ∷ xs)
snoc_left z rs xs =
    ap (λ (ys : Bytes). ys ++ xs) (reverse-append (z ∷ []) rs)
    ∙ append_assoc (reverse rs) (z ∷ []) xs

rotations-swap : (rs xs : Bytes) → rotations (length rs) (xs ++ reverse rs) ≡ reverse rs ++ xs
rotations-swap [] xs = append-nil xs
rotations-swap (z ∷ rs) xs =
    ap (rotations (suc (length rs))) (snoc_right z rs xs)
    ∙ ap (rotations (length rs)) (rotate_right_snoc (xs ++ reverse rs) z)
    ∙ rotations-swap rs (z ∷ xs)
    ∙ sym (snoc_left z rs xs)

-- As many rotations as there are bytes give the original back.
pub rotations_full : (xs : Bytes) → rotations (length xs) xs ≡ xs
rotations_full xs =
    let e : length (reverse xs) ≡ length xs = length-reverse xs in
    subst (λ n. rotations n xs ≡ xs) e
      (subst (λ (ys : Bytes). rotations (length (reverse xs)) ys ≡ ys) (reverse-reverse xs)
        (rotations-swap (reverse xs) [] ∙ append-nil (reverse (reverse xs))))

unrotate : Bytes → Bytes
unrotate [] = []
unrotate (x ∷ xs) = xs ++ (x ∷ [])

unrotate-rotate_right : (xs : Bytes) → unrotate (rotate_right xs) ≡ xs
unfolding unrotate rotate_right
unrotate-rotate_right [] = refl
unrotate-rotate_right (x ∷ xs) = init-append-last x xs

-- The answer to a challenge determines the challenge.
pub rotate_right-injective : (xs ys : Bytes) → rotate_right xs ≡ rotate_right ys → xs ≡ ys
rotate_right-injective xs ys e =
    sym (unrotate-rotate_right xs) ∙ ap unrotate e ∙ unrotate-rotate_right ys
