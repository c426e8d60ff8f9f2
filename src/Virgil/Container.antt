-- ===== src/Virgil/Container.antt =====
-- crates/mkey-sdk-virgil/src/lib.rs: the container of an encrypted mobile key.
pub mod Split
pub mod RoundTrip
use mkey_rs.Virgil.Attempt.{
  Attempt, VirgilError, container, err, ok, or_fail, or_panic, panic, ◌>>=◌,
}
use mkey_rs.Error.{hex, msg, text}
use mkey_rs.Prelude.{
  Bool, Bytes, Option, [], bytes_eq, drop, false, get_elem?, if◌then◌else◌, leb, length, ltb, none,
  not, some, suc, take, ℕ, ◌&&◌, ◌*◌, ◌+◌, ◌==◌, ◌∷◌,
}

-- "VIRGIL-DATA-SIGNATURE"
abbrev pub marker : Bytes
marker =
    0x56 ∷ 0x49 ∷ 0x52 ∷ 0x47 ∷ 0x49 ∷ 0x4C ∷ 0x2D ∷ 0x44 ∷ 0x41 ∷ 0x54 ∷ 0x41 ∷ 0x2D ∷ 0x53 ∷ 0x49
    ∷ 0x47 ∷ 0x4E ∷ 0x41 ∷ 0x54 ∷ 0x55 ∷ 0x52 ∷ 0x45 ∷ []

pub record VirgilContainer : Type 0 where
  pub message_info : Bytes
  pub encrypted_content : Bytes
  pub recipient_id : Bytes

-- The window at the head is the marker.
abbrev pub starts_with_marker : Bytes → Bool
starts_with_marker bytes = bytes_eq (take (length marker) bytes) marker

-- `windows(…).position(…)`
unfoldable pub marker_position : Bytes → Option ℕ
marker_position [] = none
marker_position (b ∷ bytes) =
    if starts_with_marker (b ∷ bytes)
    then some 0
    else elim (marker_position bytes) [ none ↦ none | some i ↦ some (suc i) ]

-- The four bytes in front of a recipient's id: A0 22 04 20.
abbrev pub id_prefix : Bytes
id_prefix = 0xA0 ∷ 0x22 ∷ 0x04 ∷ 0x20 ∷ []

-- The loop runs while 36 bytes are left.
unfoldable pub extract_recipient_id : Bytes → Option Bytes
extract_recipient_id [] = none
extract_recipient_id (b ∷ bytes) =
    if leb 36 (length (b ∷ bytes)) && bytes_eq (take 4 (b ∷ bytes)) id_prefix
    then some (take 32 (drop 4 (b ∷ bytes)))
    else extract_recipient_id bytes

abbrev pub index : Bytes → ℕ → Attempt ℕ
index bytes i = or_panic (get_elem? bytes i)

-- The length and the size of the header, read behind the tag.
unfoldable pub message_info_length : Bytes → Attempt (ℕ × ℕ)
message_info_length after = do
  first ← index after 1
  if ltb first 0x80
      then ok (first, 2)
      else if first == 0x81
      then (do len ← index after 2; ok (len, 3))
      else if first == 0x82
      then (do high ← index after 2; low ← index after 3; ok (high * 256 + low, 4))
      else err
          (VirgilError.container (text "Unsupported ASN.1 length encoding: 0x" ∷ hex first ∷ []))

abbrev pub no_id : VirgilError
no_id = VirgilError.container (msg "Failed to extract recipient_id from message_info")

-- The slices at the end of the message info.
abbrev pub cut_at : ℕ → Bytes → Attempt VirgilContainer
cut_at total after = if ltb (length after) total then panic else (do
  id ← or_fail no_id (extract_recipient_id (take total after))
  ok (record {
    message_info = take total after;
    encrypted_content = drop total after;
    recipient_id = id;
  }))

abbrev pub is_sequence : Bytes → Bool
is_sequence [] = false
is_sequence (b ∷ bytes) = b == 0x30

-- What is done behind the marker.
unfoldable pub parse_after_marker : Bytes → Attempt VirgilContainer
unfolding message_info_length extract_recipient_id
parse_after_marker after =
    if not (is_sequence after)
    then err (VirgilError.container (msg "Expected SEQUENCE tag (0x30) at start of message_info"))
    else (do (len, header) ← message_info_length after; cut_at (header + len) after)

unfoldable pub parse_virgil_container : Bytes → Attempt VirgilContainer
unfolding parse_after_marker marker_position
parse_virgil_container bytes = do
  i ←
      or_fail (VirgilError.container (msg "VIRGIL-DATA-SIGNATURE marker not found"))
        (marker_position bytes)
  parse_after_marker (drop (i + length marker) bytes)
