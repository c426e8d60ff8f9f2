-- ===== src/Command/Justin/Access.antt =====
-- crates/mkey-core/src/command/justin.rs: which tags the lock may read and write.
use mkey_rs.Prelude.{
  Bool, Bool-cases, Bytes, Option, Option-cases, [], ap, arith, false, if◌then◌else◌, inl, inr,
  length, none, not, refl, some, subst, sym, true, ℕ, ◌<◌, ◌↔◌, ◌∙◌, ◌∷◌, ◌≡◌, ◌≢◌, ◌⊎◌,
}
use mkey_rs.Result.{Result, ok}
use mkey_rs.Data.Permissions.{
  Permissions, contains, read_without_security_flag, readable_flag, writable_flag,
  write_without_security_flag,
}
use mkey_rs.Data.MobileKey.{MobileKey, TagData, get_tag}
use mkey_rs.Command.Justin.{
  Justin, JustinState, can_read_tag, can_write_tag, command_byte, connected, generic_error,
  handle_read_tag, handle_write_tag, is_connected, is_legacy_tag, not_found, process_command,
  read_from, read_key, read_tag, ready, serve_tag, status, status_byte, store_tag, success,
  tag_audit, write_key, write_payload, write_tag, write_to,
}

-- Who may read a tag: tags 0 and 1 anybody, the kN key a secure peer, any other tag a peer that its
-- flags allow.
abbrev pub MayRead : Bool → ℕ → Permissions → Type 0
MayRead secure id p =
    (id < 2)
    ⊎ ((id ≡ 2) × (secure ≡ true))
    ⊎ ((2 < id)
        × (contains p readable_flag ≡ true)
        × ((secure ≡ true) ⊎ (contains p read_without_security_flag ≡ true)))

-- Who may write a tag: nobody tags 0 to 2, anybody the audit tag, any other tag a peer that its flags
-- allow.
abbrev pub MayWrite : Bool → ℕ → Permissions → Type 0
MayWrite secure id p =
    (2 < id)
    × ((id ≡ tag_audit)
        ⊎ ((contains p writable_flag ≡ true)
            × ((secure ≡ true) ⊎ (contains p write_without_security_flag ≡ true))))

pub can_read_tag_iff :
    (j : Justin) (id : ℕ) (p : Permissions)
    → (can_read_tag j id p ≡ true) ↔ MayRead j.secure_session id p
unfolding can_read_tag
can_read_tag_iff j id p = (ground arith, ground arith)

pub can_write_tag_iff :
    (j : Justin) (id : ℕ) (p : Permissions)
    → (can_write_tag j id p ≡ true) ↔ MayWrite j.secure_session id p
unfolding can_write_tag
can_write_tag_iff j id p = (ground arith, ground arith)

-- The tag that a connected manager holds.
abbrev pub Has : Justin → ℕ → TagData → Type 0
Has j id tag =
    (key : MobileKey) × (j.state ≡ connected)
    × (j.current_key ≡ some key)
    × (get_tag key id ≡ some tag)

pub serve_tag_iff :
    (id : ℕ) (tag : TagData) (j : Justin) (bytes : Bytes)
    → ((serve_tag id tag j).0 ≡ ok (status_byte success ∷ bytes))
      ↔ (MayRead j.secure_session id tag.permissions × (bytes ≡ tag.bytes))
unfolding serve_tag can_read_tag
serve_tag_iff id tag j bytes = (
  ground (arith, can_read_tag_iff j id tag.permissions),
  ground (arith, can_read_tag_iff j id tag.permissions),
)

Has-cases :
    (j : Justin) (id : ℕ)
    → ((tag : TagData) × Has j id tag)
      ⊎ ((is_connected j.state ≡ false)
          ⊎ (j.current_key ≡ none)
          ⊎ ((key : MobileKey) × (j.current_key ≡ some key) × (get_tag key id ≡ none)))
Has-cases j id = go j.state j.current_key refl refl
  where
    go :
        (st : JustinState) (ck : Option MobileKey)
        → j.state ≡ st
        → j.current_key ≡ ck
        → ((tag : TagData) × Has j id tag)
          ⊎ ((is_connected j.state ≡ false)
              ⊎ (j.current_key ≡ none)
              ⊎ ((key : MobileKey) × (j.current_key ≡ some key) × (get_tag key id ≡ none)))
    go ready ck p q = inr (inl (rw p refl))
    go connected none p q = inr (inr (inl q))
    go connected (some key) p q = elim (Option-cases (get_tag key id)) [
      | inl e ↦ inr (inr (inr (key, q, e)))
      | inr (tag, e) ↦ inl (tag, (key, p, q, e))
    ]

pub not_legacy : (id : ℕ) → 2 < id → is_legacy_tag id ≡ false
unfolding is_legacy_tag
not_legacy id h = ground arith

-- The answer where there is no tag to serve.
abbrev IsRefused : Result Bytes → Type 0
IsRefused r = (r ≡ ok (status_byte generic_error ∷ [])) ⊎ (r ≡ ok (status_byte not_found ∷ []))

pub read_of_Has :
    (id : ℕ) (rest : Bytes) (j : Justin) (tag : TagData)
    → Has j id tag
    → handle_read_tag (id ∷ rest) j ≡ serve_tag id tag j
unfolding handle_read_tag
read_of_Has id rest j tag (key, p, q, e) =
    ap (λ st. if not (is_connected st) then status generic_error j else read_key j.current_key id j)
      p
    ∙ ap (λ ck. read_key ck id j) q
    ∙ ap (λ o. read_from o id j) e

read_of_none :
    (id : ℕ) (rest : Bytes) (j : Justin)
    → ((is_connected j.state ≡ false)
        ⊎ (j.current_key ≡ none)
        ⊎ ((key : MobileKey) × (j.current_key ≡ some key) × (get_tag key id ≡ none)))
    → IsRefused (handle_read_tag (id ∷ rest) j).0
unfolding handle_read_tag
read_of_none id rest j h = ground arith

Refused-not-success :
    (r : Result Bytes) (bytes : Bytes) → IsRefused r → r ≢ ok (status_byte success ∷ bytes)
Refused-not-success r bytes h e = ground arith

-- A read succeeds exactly if the manager is connected and holds the tag, and the peer may read it; the
-- answer is then the value of the tag.
pub read_tag_iff :
    (id : ℕ) (rest : Bytes) (j : Justin) (bytes : Bytes)
    → ((process_command (command_byte read_tag ∷ id ∷ rest) j).0 ≡ ok (status_byte success ∷ bytes))
      ↔ ((tag : TagData) × Has j id tag
          × MayRead j.secure_session id tag.permissions
          × (bytes ≡ tag.bytes))
unfolding process_command
read_tag_iff id rest j bytes = (
  λ h. elim (Has-cases j id) [
    | inl (tag, held) ↦
        let served = rw (read_of_Has id rest j tag held) at h in
        let (may, same) = (serve_tag_iff id tag j bytes).0 served in (tag, held, may, same)
    | inr why ↦ absurd (Refused-not-success _ bytes (read_of_none id rest j why) h)
  ],
  λ (tag, held, may, same).
      rw (read_of_Has id rest j tag held) ((serve_tag_iff id tag j bytes).1 (may, same)),
)

store_tag_iff :
    (id : ℕ) (bytes : Bytes) (key : MobileKey) (p : Permissions) (j : Justin)
    → ((store_tag id bytes key p j).0 ≡ ok (status_byte success ∷ []))
      ↔ MayWrite j.secure_session id p
unfolding store_tag can_write_tag
store_tag_iff id bytes key p j =
    (ground (arith, can_write_tag_iff j id p), ground (arith, can_write_tag_iff j id p))

pub write_of_Has :
    (id b : ℕ) (bs : Bytes) (j : Justin) (tag : TagData)
    → is_legacy_tag id ≡ false
    → (held : Has j id tag)
    → handle_write_tag (id ∷ b ∷ bs) j ≡ store_tag id (b ∷ bs) held.0 tag.permissions j
unfolding handle_write_tag
write_of_Has id b bs j tag legacy (key, p, q, e) =
    ap
      (λ st.
        if not (is_connected st) then status generic_error j else write_payload (id ∷ b ∷ bs) j)
      p
    ∙ ap (λ l. if l then status generic_error j else write_key j.current_key id (b ∷ bs) j) legacy
    ∙ ap (λ ck. write_key ck id (b ∷ bs) j) q
    ∙ ap (λ o. write_to o id (b ∷ bs) key j) e

write_of_none :
    (id b : ℕ) (bs : Bytes) (j : Justin)
    → ((is_connected j.state ≡ false)
        ⊎ (j.current_key ≡ none)
        ⊎ ((key : MobileKey) × (j.current_key ≡ some key) × (get_tag key id ≡ none)))
    → IsRefused (handle_write_tag (id ∷ b ∷ bs) j).0
unfolding handle_write_tag
write_of_none id b bs j h = ground arith

write_of_legacy :
    (id b : ℕ) (bs : Bytes) (j : Justin)
    → is_legacy_tag id ≡ true
    → IsRefused (handle_write_tag (id ∷ b ∷ bs) j).0
unfolding handle_write_tag
write_of_legacy id b bs j h = ground arith

pub long_write_iff :
    (id b : ℕ) (bs : Bytes) (j : Justin)
    → ((handle_write_tag (id ∷ b ∷ bs) j).0 ≡ ok (status_byte success ∷ []))
      ↔ ((tag : TagData) × Has j id tag × MayWrite j.secure_session id tag.permissions)
long_write_iff id b bs j = (
  λ h. elim (Bool-cases (is_legacy_tag id)) [
    | inl legacy ↦ absurd (Refused-not-success _ [] (write_of_legacy id b bs j legacy) h)
    | inr other ↦ elim (Has-cases j id) [
      | inr why ↦ absurd (Refused-not-success _ [] (write_of_none id b bs j why) h)
      | inl (tag, held) ↦
          let stored = rw (write_of_Has id b bs j tag other held) at h in
          (tag, held, (store_tag_iff id (b ∷ bs) held.0 tag.permissions j).0 stored)
    ]
  ],
  λ (tag, held, may).
      rw (write_of_Has id b bs j tag (not_legacy id may.0) held)
        ((store_tag_iff id (b ∷ bs) held.0 tag.permissions j).1 may),
)

-- A payload that holds no byte to write.
write_of_short :
    (payload : Bytes) (j : Justin) → length payload < 2 → IsRefused (handle_write_tag payload j).0
unfolding handle_write_tag
write_of_short [] j h = ground arith
write_of_short (id ∷ []) j h = ground arith
write_of_short (id ∷ (b ∷ bs)) j h = absurd (omega arith)

-- What a write needs: a tag's number with a byte or more behind it, a connected manager that holds the
-- tag, and a peer that may write it.
abbrev pub MayStore : Bytes → Justin → Type 0
MayStore payload j =
    (id : ℕ) × (b : ℕ) × (bs : Bytes) × (tag : TagData) × (payload ≡ id ∷ b ∷ bs)
    × Has j id tag
    × MayWrite j.secure_session id tag.permissions

-- A write, with any payload, succeeds exactly if the payload is a tag's number with at least one byte
-- behind it, the manager is connected and holds the tag, and the peer may write it.
pub write_tag_iff :
    (payload : Bytes) (j : Justin)
    → ((process_command (command_byte write_tag ∷ payload) j).0 ≡ ok (status_byte success ∷ []))
      ↔ MayStore payload j
unfolding process_command
write_tag_iff payload j = (
  stored payload,
  λ (id, b, bs, tag, same, held, may).
      subst (λ (x : Bytes). (handle_write_tag x j).0 ≡ ok (status_byte success ∷ [])) (sym same)
        ((long_write_iff id b bs j).1 (tag, held, may)),
)
  where
    stored : (x : Bytes) → (handle_write_tag x j).0 ≡ ok (status_byte success ∷ []) → MayStore x j
    stored [] h = absurd (Refused-not-success _ [] (write_of_short [] j (omega arith)) h)
    stored (id ∷ []) h =
        absurd (Refused-not-success _ [] (write_of_short (id ∷ []) j (omega arith)) h)
    stored (id ∷ (b ∷ bs)) h =
        let (tag, held, may) = (long_write_iff id b bs j).0 h in (id, b, bs, tag, refl, held, may)
