-- ===== src/Ble/Lock/Tags.antt =====
-- crates/mkey-ble/src/lock.rs: what is read of the loaded key after a write.
use mkey_rs.Ble.Lock.{SaltoLock, read_tag, write_tag}
use mkey_rs.Data.MobileKey.{MobileKey, TagData, get_tag, map_tag, new_value, set_tag_data}
use mkey_rs.Data.TagMap.{GeneralPurposeTag, find, find-insert}
use mkey_rs.Prelude.{
  Bytes, Option, [], ap, arith, if◌then◌else◌, ltb, none, refl, some, sym, ℕ, ◌&&◌, ◌==◌, ◌∙◌, ◌∷◌,
  ◌≡◌,
}
use mkey_rs.Result.{Result, err, ok}
use mkey_rs.Error.{Error, hex, text}

-- What `read_tag` makes of a tag.
abbrev bytes_of : ℕ → Option TagData → Result Bytes
bytes_of id none = err (Error.key_not_found (text "Tag 0x" ∷ hex id ∷ []))
bytes_of id (some tag) = ok tag.bytes

bytes_of-map_tag :
    (id : ℕ) (b : Bytes) (o : Option GeneralPurposeTag)
    → bytes_of id (map_tag (some (new_value o id b))) ≡ ok b
bytes_of-map_tag id b none = refl
bytes_of-map_tag id b (some t) = refl

bytes_of-get_tag :
    (key : MobileKey) (id j : ℕ) (b : Bytes)
    → bytes_of j (get_tag (set_tag_data key id b) j)
      ≡ (if (j == id) && ltb 2 j then ok b else bytes_of j (get_tag key j))
unfolding get_tag set_tag_data
bytes_of-get_tag key id j b = ground (
  arith,
  find-insert j id (new_value (find id key.tags) id b) key.tags,
  bytes_of-map_tag id b (find id key.tags),
)

module _ {W : Type 0} where
  read-keyed :
      (j : ℕ) (lk : SaltoLock W) (key : MobileKey)
      → lk.mobile_key ≡ some key
      → (read_tag j lk).0 ≡ bytes_of j (get_tag key j)
  unfolding read_tag
  read-keyed j lk key e = simp e (split (get_tag key j))
    where
      split :
          (o : Option TagData)
          → elim o [
            | none ↦ err (Error.key_not_found (text "Tag 0x" ∷ hex j ∷ []))
            | some tag ↦ ok tag.bytes
          ]
            ≡ bytes_of j o
      split none = refl
      split (some tag) = refl

  written_key :
      (id : ℕ) (b : Bytes) (lk : SaltoLock W) (key : MobileKey)
      → lk.mobile_key ≡ some key
      → (write_tag id b lk).1.mobile_key ≡ some (set_tag_data key id b)
  unfolding write_tag
  written_key id b lk key e = simp e

  -- On a loaded key, a tag that was written is read back as it was written, unless it is one of the tags
  -- 0, 1 and 2, which are read as they were before; and so is every other tag.
  pub read_tag-write_tag :
      (id j : ℕ) (b : Bytes) (lk : SaltoLock W) (key : MobileKey)
      → lk.mobile_key ≡ some key
      → (read_tag j (write_tag id b lk).1).0
        ≡ (if (j == id) && ltb 2 j then ok b else (read_tag j lk).0)
  read_tag-write_tag id j b lk key e =
      read-keyed j (write_tag id b lk).1 (set_tag_data key id b) (written_key id b lk key e)
      ∙ bytes_of-get_tag key id j b
      ∙ ap (λ x. if (j == id) && ltb 2 j then ok b else x) (sym (read-keyed j lk key e))
