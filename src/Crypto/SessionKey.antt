-- ===== src/Crypto/SessionKey.antt =====
-- crates/mkey-core/src/crypto/session.rs. The arguments are `[u8; 16]`.
use mkey_rs.Prelude.{
  Bytes, arith, drop, length, length-append, length-drop, length-take, take, ◌++◌, ◌≡◌,
}

abbrev pub first4 : Bytes → Bytes
first4 xs = take 4 xs

abbrev pub last4 : Bytes → Bytes
last4 xs = take 4 (drop 12 xs)

unfoldable pub derive_session_key : Bytes → Bytes → Bytes
derive_session_key random_a random_b =
    first4 random_a ++ (first4 random_b ++ (last4 random_a ++ last4 random_b))

-- From two random values of 16 bytes comes a session key of 16 bytes.
pub length-derive_session_key :
    (a b : Bytes) → length a ≡ 16 → length b ≡ 16 → length (derive_session_key a b) ≡ 16
unfolding derive_session_key
length-derive_session_key a b p q = omega (
  arith,
  length-append (first4 a) (first4 b ++ (last4 a ++ last4 b)),
  length-append (first4 b) (last4 a ++ last4 b),
  length-append (last4 a) (last4 b),
  length-take 4 a,
  length-take 4 b,
  length-take 4 (drop 12 a),
  length-take 4 (drop 12 b),
  length-drop 12 a,
  length-drop 12 b,
)
