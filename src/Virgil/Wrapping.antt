-- ===== src/Virgil/Wrapping.antt =====
-- crates/mkey-sdk-virgil/src/lib.rs: the RSA wrapping of a private key. The crates rsa and base64 are
-- interfaces; `from_utf8` and `trim` of the standard library are written out, a text being the list of its
-- code points.
use mkey_rs.Virgil.Library.{Called, returns, traps}
use mkey_rs.Virgil.Attempt.{Attempt, VirgilError, err, ok, or_fail, ◌>>=◌}
use mkey_rs.Error.{Message, msg, text}
use mkey_rs.Prelude.{
  All, All-append, Bool, Bytes, List, Option, String, [], arith, false, if◌then◌else◌, leb, ltb,
  none, not, refl, reverse, reverse-cons, reverse-reverse, some, suc, true, zero, ℕ, ◌&&◌, ◌*◌, ◌+◌,
  ◌-◌, ◌<◌, ◌==◌, ◌||◌, ◌∷◌, ◌≡◌, ◌≤◌,
}

-- Keys of the crate rsa: `K` private, `P` public. A draw of random numbers is a number.
pub record Rsa (K P : Type 0) : Type 0 where
  pub generate : ℕ → ℕ → Called K
  pub to_pkcs8_der : K → Called Bytes
  pub from_pkcs8_der : Bytes → Called K
  pub from_public_key_der : Bytes → Called P
  pub from_pkcs1_der : Bytes → Called P
  pub to_public_key : K → P
  pub encrypt : P → ℕ → Bytes → Called Bytes
  pub decrypt : K → Bytes → Called Bytes

pub record Base64 : Type 0 where
  pub encode : Bytes → List ℕ
  pub decode : List ℕ → Called Bytes

abbrev pub rsa_key_bits : ℕ
rsa_key_bits = 2048

abbrev rsa_error : String → Message → VirgilError
rsa_error what e = VirgilError.rsa_decryption (text what ∷ e)

abbrev or_rsa_error : {A : Type 0} → String → Called A → Attempt A
or_rsa_error what (returns a) = ok a
or_rsa_error what (traps e) = err (rsa_error what e)

-- A code point of more than one byte, once it is whole: not shorter than it must be, no surrogate, in
-- range.
abbrev is_scalar : ℕ → ℕ → Bool
is_scalar lowest n = leb lowest n && (ltb n 0xD800 || (leb 0xE000 n && ltb n 0x11_0000))

abbrev prepend : ℕ → Option (List ℕ) → Option (List ℕ)
prepend c none = none
prepend c (some cs) = some (c ∷ cs)

-- `String::from_utf8`: the bytes that are still to come, what has been read, and the least code point.
unfoldable pub utf8_from : ℕ → ℕ → ℕ → Bytes → Option (List ℕ)
utf8_from zero acc lowest [] = some []
utf8_from (suc k) acc lowest [] = none
utf8_from zero acc lowest (b ∷ bytes) =
    if ltb b 0x80
    then prepend b (utf8_from 0 0 0 bytes)
    else let two = utf8_from 1 (b - 0xC0) 0x80 bytes in
      let three = utf8_from 2 (b - 0xE0) 0x800 bytes in
      let four = utf8_from 3 (b - 0xF0) 0x1_0000 bytes in
      if ltb b 0xC2
      then none
      else if ltb b 0xE0
      then two
      else if ltb b 0xF0
      then three
      else if ltb b 0xF5
      then four
      else none
utf8_from (suc k) acc lowest (b ∷ bytes) =
    let n = acc * 64 + (b - 0x80) in
    let more = utf8_from k n lowest bytes in
    let last = prepend n (utf8_from 0 0 0 bytes) in
    if not (leb 0x80 b && ltb b 0xC0)
    then none
    else if not (k == 0)
    then more
    else if is_scalar lowest n
    then last
    else none

-- `char::is_whitespace`.
abbrev pub is_whitespace : ℕ → Bool
is_whitespace c =
    (leb 9 c && ltb c 14)
    || c == 0x20
    || c == 0x85
    || c == 0xA0
    || c == 0x1680
    || (leb 0x2000 c && ltb c 0x200B)
    || c == 0x2028
    || c == 0x2029
    || c == 0x202F
    || c == 0x205F
    || c == 0x3000

unfoldable pub trim_start : List ℕ → List ℕ
trim_start [] = []
trim_start (c ∷ cs) = if is_whitespace c then trim_start cs else c ∷ cs

unfoldable pub trim : List ℕ → List ℕ
unfolding trim_start
trim cs = reverse (trim_start (reverse (trim_start cs)))

abbrev not_utf8 : VirgilError
not_utf8 = VirgilError.rsa_decryption (msg "Decrypted key not valid UTF-8: ")

-- `as_bytes` of a text of ASCII, the only one that `encode` gives.
module _ {K P : Type 0} (rsa : Rsa K P) (base64 : Base64) where
  unfoldable pub generate_rsa_private_key : ℕ → Attempt Bytes
  generate_rsa_private_key draw = do
    k ← or_rsa_error "RSA key generation failed: " (rsa.generate draw rsa_key_bits)
    or_rsa_error "PKCS8 encoding failed: " (rsa.to_pkcs8_der k)

  abbrev public_half : Called K → Called P
  public_half (returns k) = returns (rsa.to_public_key k)
  public_half (traps e) = traps e

  abbrev or_else : Called P → Attempt P → Attempt P
  or_else (returns p) rest = ok p
  or_else (traps e) rest = rest

  unfoldable pub rsa_public_key : Bytes → Attempt P
  rsa_public_key der = or_else (rsa.from_public_key_der der) (
      or_else (rsa.from_pkcs1_der der) (
        or_rsa_error "Not an RSA public key (SPKI/PKCS1) nor a PKCS8 private key: "
          (public_half (rsa.from_pkcs8_der der))))

  unfoldable pub encrypt_virgil_private_key : ℕ → Bytes → Bytes → Attempt Bytes
  unfolding rsa_public_key
  encrypt_virgil_private_key draw rsa_key_der private_key_der = do
    public ← rsa_public_key rsa_key_der
    or_rsa_error "RSA encryption failed: " (rsa.encrypt public draw (base64.encode private_key_der))

  unfoldable pub decrypt_virgil_private_key : Bytes → Bytes → Attempt Bytes
  unfolding utf8_from trim
  decrypt_virgil_private_key rsa_key_der encrypted_key = do
    private ← or_rsa_error "Failed to parse RSA key: " (rsa.from_pkcs8_der rsa_key_der)
    wrapped ← or_rsa_error "RSA decryption failed: " (rsa.decrypt private encrypted_key)
    chars ← or_fail not_utf8 (utf8_from 0 0 0 wrapped)
    or_rsa_error "Base64 decode failed: " (base64.decode (trim chars))

  -- What the crates promise. An encoded text is printable ASCII, and is decoded to what it encodes; RSA
  -- decryption with a key undoes encryption with its public half.
  pub record Lawful : Type 0 where
    pub encode-Printable :
        (bytes : Bytes) → All (λ c. (0x21 ≤ c) × (c < 0x7F)) (base64.encode bytes)
    pub decode-encode : (bytes : Bytes) → base64.decode (base64.encode bytes) ≡ returns bytes
    pub decrypt-encrypt :
        (k : K) (draw : ℕ) (bytes cipher : Bytes)
        → rsa.encrypt (rsa.to_public_key k) draw bytes ≡ returns cipher
        → rsa.decrypt k cipher ≡ returns bytes

  abbrev Printable : List ℕ → Type 0
  Printable cs = All (λ c. (0x21 ≤ c) × (c < 0x7F)) cs

  utf8-Printable : (cs : List ℕ) → Printable cs → utf8_from 0 0 0 cs ≡ some cs
  unfolding utf8_from
  utf8-Printable [] p = refl
  utf8-Printable (c ∷ cs) ((lo, hi), p) =
      let small : ltb c 0x80 ≡ true = ground arith in rw (small, utf8-Printable cs p) refl

  trim_start-Printable : (cs : List ℕ) → Printable cs → trim_start cs ≡ cs
  unfolding trim_start
  trim_start-Printable [] p = refl
  trim_start-Printable (c ∷ cs) ((lo, hi), p) =
      let ink : is_whitespace c ≡ false = ground arith in rw ink refl

  reverse-Printable : (cs : List ℕ) → Printable cs → Printable (reverse cs)
  reverse-Printable [] p = tt
  reverse-Printable (c ∷ cs) (q, p) = rw (reverse-cons c cs) (
      All-append (λ c. (0x21 ≤ c) × (c < 0x7F)) (reverse cs) (c ∷ []) (reverse-Printable cs p)
        (q, tt))

  trim-Printable : (cs : List ℕ) → Printable cs → trim cs ≡ cs
  unfolding trim
  trim-Printable cs p =
      rw (trim_start-Printable cs p, trim_start-Printable (reverse cs) (reverse-Printable cs p))
        (reverse-reverse cs)

  -- A private key survives the wrapping: encrypted for the public half of a key, in whichever of the three
  -- encodings that half is given, it is decrypted with that key to what it was.
  pub decrypt-encrypt_virgil_private_key :
      Lawful
      → (draw : ℕ) (public_der private_der der cipher : Bytes) (k : K)
      → rsa.from_pkcs8_der private_der ≡ returns k
      → rsa_public_key public_der ≡ ok (rsa.to_public_key k)
      → encrypt_virgil_private_key draw public_der der ≡ ok cipher
      → decrypt_virgil_private_key private_der cipher ≡ ok der
  unfolding encrypt_virgil_private_key decrypt_virgil_private_key
  decrypt-encrypt_virgil_private_key laws draw public_der private_der der cipher k own half e =
      let printable = laws.encode-Printable der in
      let opened : rsa.decrypt k cipher ≡ returns (base64.encode der) =
        laws.decrypt-encrypt k draw (base64.encode der) cipher (
          returned_of (rsa.encrypt (rsa.to_public_key k) draw (base64.encode der))
            (rw half at e)) in
      rw
        (
          own,
          opened,
          utf8-Printable (base64.encode der) printable,
          trim-Printable (base64.encode der) printable,
          laws.decode-encode der,
        )
        refl
    where
      returned_of :
          (x : Called Bytes)
          → or_rsa_error "RSA encryption failed: " x ≡ ok cipher
          → x ≡ returns cipher
      returned_of (returns a) q = cc
      returned_of (traps m) q = cc
