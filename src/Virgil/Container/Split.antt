-- ===== src/Virgil/Container/Split.antt =====
-- crates/mkey-sdk-virgil/src/lib.rs: how a container that is read splits.
use mkey_rs.Virgil.Container.{
  VirgilContainer, cut_at, extract_recipient_id, id_prefix, is_sequence, marker, marker_position,
  message_info_length, no_id, parse_after_marker, parse_virgil_container, starts_with_marker,
}
use mkey_rs.Prelude.{
  Bool-cases, Bytes, Option, [], ap, arith, bytes_eq, bytes_eq→eq, drop, false, get_elem?, inl, inr,
  leb, length, length-drop, length-take, ltb, none, refl, some, subst, suc, sym, take,
  take-append-drop, true, zero, ℕ, ◌&&◌, ◌*◌, ◌++◌, ◌+◌, ◌<◌, ◌==◌, ◌∙◌, ◌∷◌, ◌≡◌, ◌≤◌,
}
use mkey_rs.Virgil.Attempt.{
  >>=-eq-ok, Attempt, VirgilError, err, ok, ok-injective, or_fail, or_fail-eq-ok, or_panic, panic,
  ◌>>=◌,
}

-- A window that equals a text is that text.
pub window-split :
    (m xs : Bytes) → bytes_eq (take (length m) xs) m ≡ true → m ++ drop (length m) xs ≡ xs
window-split m xs h =
    ap (λ (w : Bytes). w ++ drop (length m) xs) (sym (bytes_eq→eq (take (length m) xs) m h))
    ∙ take-append-drop (length m) xs

some-injective {ℓ} : {A : Type ℓ} (x y : A) → some x ≡ some y → x ≡ y
some-injective x y e = cc

-- The marker stands at the position, with the rest behind it.
abbrev pub MarkerAt : Bytes → ℕ → Type 0
MarkerAt bytes i =
    (pre : Bytes) × (bytes ≡ pre ++ (marker ++ drop (i + length marker) bytes)) × (length pre ≡ i)

later-MarkerAt :
    (b : ℕ) (bytes : Bytes) (i : ℕ) (o : Option ℕ)
    → ((j : ℕ) → o ≡ some j → MarkerAt bytes j)
    → elim o [ none ↦ none | some j ↦ some (suc j) ] ≡ some i
    → MarkerAt (b ∷ bytes) i
later-MarkerAt b bytes i none ih e = cc
later-MarkerAt b bytes i (some j) ih e =
    let (pre, same, n) = ih j refl in
    let step : suc j + length marker ≡ suc (j + length marker) = omega arith in
    subst (MarkerAt (b ∷ bytes)) (some-injective (suc j) i e)
      (b ∷ pre, rw step (ap (◌∷◌ b) same), ap suc n)

marker_position-MarkerAt :
    (bytes : Bytes) (i : ℕ) → marker_position bytes ≡ some i → MarkerAt bytes i
unfolding marker_position
marker_position-MarkerAt [] i e = cc
marker_position-MarkerAt (b ∷ bytes) i e = elim (Bool-cases (starts_with_marker (b ∷ bytes))) [
  | inl h ↦
      subst (MarkerAt (b ∷ bytes)) (some-injective 0 i (rw h at e))
        ([], sym (window-split marker (b ∷ bytes) h), refl)
  | inr h ↦
      later-MarkerAt b bytes i (marker_position bytes) (marker_position-MarkerAt bytes) (rw h at e)
]

-- No marker starts before the position.
abbrev pub NoneBefore : ℕ → Bytes → Type 0
NoneBefore i bytes = (j : ℕ) → j < i → starts_with_marker (drop j bytes) ≡ false

later-NoneBefore :
    (b : ℕ) (bytes : Bytes) (i : ℕ) (o : Option ℕ)
    → starts_with_marker (b ∷ bytes) ≡ false
    → ((j : ℕ) → o ≡ some j → NoneBefore j bytes)
    → elim o [ none ↦ none | some j ↦ some (suc j) ] ≡ some i
    → NoneBefore i (b ∷ bytes)
later-NoneBefore b bytes i none h ih e = cc
later-NoneBefore b bytes i (some k) h ih e =
    subst (λ (n : ℕ). NoneBefore n (b ∷ bytes)) (some-injective (suc k) i e) before
  where
    before : NoneBefore (suc k) (b ∷ bytes)
    before zero r = h
    before (suc j) r = ih k refl j (omega arith)

marker_position-NoneBefore :
    (bytes : Bytes) (i : ℕ) → marker_position bytes ≡ some i → NoneBefore i bytes
unfolding marker_position
marker_position-NoneBefore [] i e = cc
marker_position-NoneBefore (b ∷ bytes) i e = elim (Bool-cases (starts_with_marker (b ∷ bytes))) [
  | inl h ↦
      subst (λ (n : ℕ). NoneBefore n (b ∷ bytes)) (some-injective 0 i (rw h at e))
        (λ j r. absurd (omega arith))
  | inr h ↦
      later-NoneBefore b bytes i (marker_position bytes) h (marker_position-NoneBefore bytes)
        (rw h at e)
]

-- The recipient's id stands in the message info, behind its prefix.
abbrev pub NamesRecipient : Bytes → Bytes → Type 0
NamesRecipient bytes id =
    (pre : Bytes) × (post : Bytes) × (bytes ≡ pre ++ (id_prefix ++ (id ++ post))) × (length id ≡ 32)

found-NamesRecipient :
    (bytes : Bytes)
    → leb 36 (length bytes) && bytes_eq (take 4 bytes) id_prefix ≡ true
    → NamesRecipient bytes (take 32 (drop 4 bytes))
found-NamesRecipient bytes h =
    let long : 36 ≤ length bytes = ground arith in
    let same : bytes_eq (take 4 bytes) id_prefix ≡ true = ground arith in
    (
      [],
      drop 32 (drop 4 bytes),
      sym (window-split id_prefix bytes same)
          ∙ ap (λ (x : Bytes). id_prefix ++ x) (sym (take-append-drop 32 (drop 4 bytes))),
      omega (arith, length-take {0} {A = ℕ} 32 (drop 4 bytes), length-drop {0} {A = ℕ} 4 bytes),
    )

extract-NamesRecipient :
    (bytes id : Bytes) → extract_recipient_id bytes ≡ some id → NamesRecipient bytes id
unfolding extract_recipient_id
extract-NamesRecipient [] id e = cc
extract-NamesRecipient (b ∷ bytes) id e =
    elim (Bool-cases (leb 36 (length (b ∷ bytes)) && bytes_eq (take 4 (b ∷ bytes)) id_prefix)) [
      | inl h ↦
          subst (NamesRecipient (b ∷ bytes))
            (some-injective (take 32 (drop 4 (b ∷ bytes))) id (rw h at e))
            (found-NamesRecipient (b ∷ bytes) h)
      | inr h ↦
          let (pre, post, same, n) = extract-NamesRecipient bytes id (rw h at e) in
          (b ∷ pre, post, ap (◌∷◌ b) same, n)
    ]

-- What holds of a container that is read from some bytes.
pub record Splits (bytes : Bytes) (c : VirgilContainer) : Type 0 where
  pub header : Bytes
  pub parts : bytes ≡ header ++ (marker ++ (c.message_info ++ c.encrypted_content))
  pub first_marker : NoneBefore (length header) bytes
  pub recipient : NamesRecipient c.message_info c.recipient_id
  pub sequence : is_sequence c.message_info ≡ true
  -- The length that the message info declares is the length that it has.
  pub declared : ℕ
  pub header_size : ℕ
  pub sized :
      message_info_length (c.message_info ++ c.encrypted_content) ≡ ok (declared, header_size)
  pub measured : length c.message_info ≡ header_size + declared

index-eq :
    (bytes : Bytes) (i : ℕ) (f : ℕ → Attempt (ℕ × ℕ)) (x : ℕ × ℕ)
    → (or_panic (get_elem? bytes i) >>= f) ≡ ok x
    → (b : ℕ) × (f b ≡ ok x)
index-eq bytes i f x e = let (b, _, h) = >>=-eq-ok (or_panic (get_elem? bytes i)) f e in (b, h)

-- A header has two bytes or more.
header_pos :
    (after : Bytes) (len header : ℕ) → message_info_length after ≡ ok (len, header) → 2 ≤ header
unfolding message_info_length
header_pos after len header e =
    let (first, h) = index-eq after 1 _ (len, header) e in
    elim (Bool-cases (ltb first 0x80)) [
      | inl p ↦ size-le 2 first (rw p at h) (omega arith)
      | inr p ↦ elim (Bool-cases (first == 0x81)) [
        | inl q ↦
            let (b, k) = index-eq after 2 _ (len, header) (rw (p, q) at h) in
            size-le 3 b k (omega arith)
        | inr q ↦ elim (Bool-cases (first == 0x82)) [
          | inl r ↦
              let (b, k) = index-eq after 2 _ (len, header) (rw (p, q, r) at h) in
              let (d, g) = index-eq after 3 _ (len, header) k in
              size-le 4 (b * 256 + d) g (omega arith)
          | inr r ↦ absurd (refused (rw (p, q, r) at h))
        ]
      ]
    ]
  where
    size-le :
        (n m : ℕ) → ◌≡◌ {A = Attempt (ℕ × ℕ)} (ok (m, n)) (ok (len, header)) → 2 ≤ n → 2 ≤ header
    size-le n m q k = subst (λ (x : ℕ × ℕ). 2 ≤ x.1) (ok-injective (m, n) (len, header) q) k

    refused : {x : VirgilError} → ◌≡◌ {A = Attempt (ℕ × ℕ)} (err x) (ok (len, header)) → ⊥
    refused q = cc

cut_at-Splits :
    (after : Bytes) (len header : ℕ) (c : VirgilContainer)
    → is_sequence after ≡ true
    → message_info_length after ≡ ok (len, header)
    → cut_at (header + len) after ≡ ok c
    → (pre : Bytes) → NoneBefore (length pre) (pre ++ (marker ++ after))
    → Splits (pre ++ (marker ++ after)) c
cut_at-Splits after len header c sq m e pre early =
    elim (Bool-cases (ltb (length after) (header + len))) [
      | inl h ↦ absurd (refused (rw h at e))
      | inr h ↦
          let total : ℕ = header + len in
          let (id, found, same) =
            >>=-eq-ok (or_fail no_id (extract_recipient_id (take total after))) _ (rw h at e) in
          subst (Splits (pre ++ (marker ++ after))) (ok-injective _ c same) (record {
            header = pre;
            parts = ap (λ (x : Bytes). pre ++ (marker ++ x)) (sym (take-append-drop total after));
            first_marker = early;
            recipient =
                extract-NamesRecipient (take total after) id
                  (or_fail-eq-ok no_id (extract_recipient_id (take total after)) found);
            sequence = headed after total sq (omega (arith, header_pos after len header m));
            declared = len;
            header_size = header;
            sized = ap message_info_length (take-append-drop total after) ∙ m;
            measured = ground (arith, length-take total after);
          })
    ]
  where
    refused : panic ≡ ok c → ⊥
    refused q = cc

    headed : (xs : Bytes) (n : ℕ) → is_sequence xs ≡ true → 1 ≤ n → is_sequence (take n xs) ≡ true
    headed [] n p q = cc
    headed (x ∷ xs) zero p q = absurd (omega arith)
    headed (x ∷ xs) (suc n) p q = p

after_marker-Splits :
    (after : Bytes) (c : VirgilContainer) (pre : Bytes)
    → parse_after_marker after ≡ ok c
    → NoneBefore (length pre) (pre ++ (marker ++ after))
    → Splits (pre ++ (marker ++ after)) c
unfolding parse_after_marker
after_marker-Splits after c pre e early = elim (Bool-cases (is_sequence after)) [
  | inl h ↦
      let ((len, header), m, k) = >>=-eq-ok (message_info_length after) _ (rw h at e) in
      cut_at-Splits after len header c h m k pre early
  | inr h ↦ absurd (refused (rw h at e))
]
  where
    refused : {x : VirgilError} → err x ≡ ok c → ⊥
    refused q = cc

-- A container that is read is a header, the marker at its first place, the message info and the encrypted
-- content, with nothing between them and nothing lost; the message info is a sequence of exactly the length that it
-- declares, and holds the 32 bytes of the recipient's id behind their prefix.
pub parse_virgil_container-Splits :
    (bytes : Bytes) (c : VirgilContainer) → parse_virgil_container bytes ≡ ok c → Splits bytes c
unfolding parse_virgil_container
parse_virgil_container-Splits bytes c e =
    let (i, found, k) = >>=-eq-ok (or_fail _ (marker_position bytes)) _ e in
    let at_i = or_fail-eq-ok _ (marker_position bytes) found in
    let (pre, same, n) = marker_position-MarkerAt bytes i at_i in
    let early : NoneBefore (length pre) (pre ++ (marker ++ drop (i + length marker) bytes)) =
      subst (NoneBefore (length pre)) same
        (subst (λ (m : ℕ). NoneBefore m bytes) (sym n) (marker_position-NoneBefore bytes i at_i)) in
    subst (λ (x : Bytes). Splits x c) (sym same)
      (after_marker-Splits (drop (i + length marker) bytes) c pre k early)
