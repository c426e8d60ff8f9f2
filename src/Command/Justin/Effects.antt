-- ===== src/Command/Justin/Effects.antt =====
-- crates/mkey-core/src/command/justin.rs: what a command changes, and that it always has an answer.
use mkey_rs.Prelude.{
  Bool, Bool-cases, Bytes, [], ap, arith, if◌then◌else◌, inl, inr, not, refl, some, true, ℕ, ◌<◌,
  ◌==◌, ◌∙◌, ◌∷◌, ◌≡◌, ◌≢◌, ◌⊎◌,
}
use mkey_rs.Result.{Result, err, ok, panic}
use mkey_rs.Data.Permissions.{Permissions, contains, writable_flag}
use mkey_rs.Data.TagMap.{find, find-insert}
use mkey_rs.Data.MobileKey.{MobileKey, TagData, get_tag, new_value, set_tag_data}
use mkey_rs.Command.Justin.{
  CommandOpCode, Justin, can_write_tag, close_session, command_byte, command_try_from-cases,
  connected, dispatch_command, generic_error, handle_close, handle_open, handle_read_tag,
  handle_write_tag, latch, not_found, open_session, process_command, read_tag, status, status_byte,
  store_tag, success, tag_audit, write_tag,
}
use mkey_rs.Command.Justin.Access.{
  MayWrite, can_write_tag_iff, long_write_iff, not_legacy, write_of_Has,
}
use mkey_rs.Error.{Error}

get_tag-set_self :
    (key : MobileKey) (id : ℕ) (bytes : Bytes) (tag : TagData)
    → 2 < id
    → get_tag key id ≡ some tag
    → get_tag (set_tag_data key id bytes) id ≡ some (record tag { bytes = bytes })
unfolding get_tag set_tag_data
get_tag-set_self key id bytes tag h e =
    ground (arith, find-insert id id (new_value (find id key.tags) id bytes) key.tags)

get_tag-set_ne :
    (key : MobileKey) (id i : ℕ) (bytes : Bytes)
    → i ≢ id
    → get_tag (set_tag_data key id bytes) i ≡ get_tag key i
unfolding get_tag set_tag_data
get_tag-set_ne key id i bytes h =
    ground (arith, find-insert i id (new_value (find id key.tags) id bytes) key.tags)

get_tag-set_other :
    (key : MobileKey) (id i : ℕ) (bytes : Bytes)
    → (i ≡ id) ⊎ (get_tag (set_tag_data key id bytes) i ≡ get_tag key i)
get_tag-set_other key id i bytes = elim (Bool-cases (i == id)) [
  | inl e ↦ inl (ground arith)
  | inr e ↦ inr (get_tag-set_ne key id i bytes (ground arith))
]

-- The manager after a write that succeeded.
pub record Wrote (id b : ℕ) (bs : Bytes) (j t : Justin) : Type 0 where
  pub before : MobileKey
  pub after : MobileKey
  pub was : j.current_key ≡ some before
  pub is : t.current_key ≡ some after
  pub permissions : Permissions
  pub old : Bytes
  pub held : get_tag before id ≡ some (record { permissions = permissions; bytes = old })
  pub written : get_tag after id ≡ some (record { permissions = permissions; bytes = b ∷ bs })
  pub others : (i : ℕ) → (i ≡ id) ⊎ (get_tag after i ≡ get_tag before i)
  pub fixed : (i : ℕ) → i < 3 → get_tag after i ≡ get_tag before i
  pub connected_still : t.state ≡ connected
  pub audit : t.last_audit_op_result ≡ (if id == tag_audit then some b else j.last_audit_op_result)
  pub same_flag : t.secure_session ≡ j.secure_session

store_tag_lem :
    (id : ℕ) (bytes : Bytes) (key : MobileKey) (p : Permissions) (j : Justin)
    → MayWrite j.secure_session id p
    → store_tag id bytes key p j ≡ (
      ok (status_byte success ∷ []),
      record j {
        current_key = some (set_tag_data key id bytes);
        last_audit_op_result = latch id bytes j.last_audit_op_result;
      },
    )
unfolding store_tag
store_tag_lem id bytes key p j may =
    let e : can_write_tag j id p ≡ true = (can_write_tag_iff j id p).1 may in
    ap
      (λ (b : Bool).
        if not b
        then (if not (contains p writable_flag) then status not_found j else status generic_error j)
        else (
          ok (status_byte success ∷ []),
          record j {
            current_key = some (set_tag_data key id bytes);
            last_audit_op_result = latch id bytes j.last_audit_op_result;
          },
        ))
      e

-- A write that succeeds stores its bytes in its tag, under the permissions that the tag had, and changes
-- no other tag, and none of the tags 0 to 2. A write to the audit tag, and no other, latches its first
-- byte as the operation result. The manager stays connected, and its secure flag is as it was.
pub write_tag_effect :
    (id b : ℕ) (bs : Bytes) (j : Justin)
    → (process_command (command_byte write_tag ∷ id ∷ b ∷ bs) j).0 ≡ ok (status_byte success ∷ [])
    → Wrote id b bs j (process_command (command_byte write_tag ∷ id ∷ b ∷ bs) j).1
unfolding process_command
write_tag_effect id b bs j h =
    let (tag, held, may) = (long_write_iff id b bs j).0 h in
    let key = held.0 in
    let e : handle_write_tag (id ∷ b ∷ bs) j ≡ (
      ok (status_byte success ∷ []),
      record j {
        current_key = some (set_tag_data key id (b ∷ bs));
        last_audit_op_result = latch id (b ∷ bs) j.last_audit_op_result;
      },
    ) =
      write_of_Has id b bs j tag (not_legacy id may.0) held
      ∙ store_tag_lem id (b ∷ bs) key tag.permissions j may in
    rw e (record {
      before = key;
      after = set_tag_data key id (b ∷ bs);
      was = held.2;
      is = refl;
      permissions = tag.permissions;
      old = tag.bytes;
      held = held.3;
      written = get_tag-set_self key id (b ∷ bs) tag may.0 held.3;
      others = λ i. get_tag-set_other key id i (b ∷ bs);
      fixed = λ i small. get_tag-set_ne key id i (b ∷ bs) (λ same. omega (arith, may.0, same));
      connected_still = held.1;
      audit = refl;
      same_flag = refl;
    })

-- An answer: a status byte, and data behind it only where the status is success.
abbrev pub IsAnswer : Result Bytes → Type 0
IsAnswer (ok []) = ⊥
IsAnswer (ok (st ∷ bytes)) = (st ≡ 0) ⊎ (((st ≡ 1) ⊎ (st ≡ 2)) × (bytes ≡ []))
IsAnswer (err e) = ⊥
IsAnswer panic = ⊥

dispatch-IsAnswer :
    (op : CommandOpCode) (payload : Bytes) (j : Justin) → IsAnswer (dispatch_command op payload j).0
unfolding dispatch_command handle_open handle_close handle_read_tag handle_write_tag
dispatch-IsAnswer open_session payload j = ground arith
dispatch-IsAnswer close_session payload j = ground arith
dispatch-IsAnswer read_tag payload j = ground arith
dispatch-IsAnswer write_tag payload j = ground arith

command_byte-lt : (op : CommandOpCode) → command_byte op < 4
command_byte-lt open_session = omega arith
command_byte-lt close_session = omega arith
command_byte-lt read_tag = omega arith
command_byte-lt write_tag = omega arith

abbrev pub IsKnown : Bytes → Type 0
IsKnown [] = ⊥
IsKnown (b ∷ payload) = b < 4

-- Every command with a known opcode is answered by a status, whatever its payload and the state; any
-- other packet is an error, and leaves the manager as it was.
pub process_command_total :
    (command : Bytes) (j : Justin)
    → (IsKnown command × IsAnswer (process_command command j).0)
      ⊎ (¬ (IsKnown command) × ((e : Error) × (process_command command j ≡ (err e, j))))
unfolding process_command
process_command_total [] j = inr (λ h. h, (_, refl))
process_command_total (b ∷ payload) j = elim (command_try_from-cases b) [
  | inl (op, e, p) ↦ inl (rw p (command_byte-lt op), rw e (dispatch-IsAnswer op payload j))
  | inr (big, (x, e)) ↦ inr (λ small. omega arith, (x, rw e refl))
]
