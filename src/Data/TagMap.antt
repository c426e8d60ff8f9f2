-- ===== src/Data/TagMap.antt =====
-- The `HashMap<u8, GeneralPurposeTag>` of crates/mkey-core/src/data/mobile_key.rs, as an association
-- list with one entry for each key. The order is that of `values()`, which the source leaves open.
use mkey_rs.Prelude.{
  Bytes, List, Option, [], arith, if◌then◌else◌, none, refl, some, ℕ, ◌==◌, ◌∷◌, ◌≡◌,
}
use mkey_rs.Data.Permissions.{Permissions}

pub record GeneralPurposeTag : Type 0 where
  pub tag_id : ℕ
  pub permissions : Permissions
  pub value : Bytes

abbrev pub Tags : Type 0
Tags = List (ℕ × GeneralPurposeTag)

-- `HashMap::get`.
unfoldable pub find : ℕ → Tags → Option GeneralPurposeTag
find k [] = none
find k ((j, t) ∷ ts) = if j == k then some t else find k ts

-- `HashMap::insert`.
unfoldable pub insert : ℕ → GeneralPurposeTag → Tags → Tags
insert k t [] = (k, t) ∷ []
insert k t ((j, u) ∷ ts) = if j == k then (k, t) ∷ ts else (j, u) ∷ insert k t ts

abbrev insert_if_none : Option GeneralPurposeTag → ℕ → GeneralPurposeTag → Tags → Tags
insert_if_none none k t ts = insert k t ts
insert_if_none (some u) k t ts = ts

-- `HashMap::entry(k).or_insert(t)`.
unfoldable pub or_insert : ℕ → GeneralPurposeTag → Tags → Tags
or_insert k t ts = insert_if_none (find k ts) k t ts

pub find-insert :
    (k j : ℕ) (t : GeneralPurposeTag) (ts : Tags)
    → find k (insert j t ts) ≡ (if j == k then some t else find k ts)
unfolding find insert
find-insert k j t [] = refl
find-insert k j t ((i, u) ∷ ts) = ground (arith, find-insert k j t ts)
