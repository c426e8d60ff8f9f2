-- ===== src/OpResult.antt =====
-- crates/mkey-core/src/op_result.rs: what the lock says happened.
use mkey_rs.Prelude.{Bool, String, bit_and, false, if◌then◌else◌, true, ℕ, ◌==◌}

pub data OpResultGroup : Type 0 where
  unknown failure accepted rejected : OpResultGroup

-- `OpResultGroup::of`.
unfoldable pub group_of : ℕ → OpResultGroup
group_of op_result =
    let low = bit_and op_result 3 in
    if low == 1
    then failure
    else if low == 2
    then accepted
    else if low == 3
    then rejected
    else unknown

-- `OpResultGroup::as_str`.
unfoldable pub group_str : OpResultGroup → String
group_str unknown = "unknown"
group_str failure = "failure"
group_str accepted = "accepted"
group_str rejected = "rejected"

unfoldable pub is_accepted : OpResultGroup → Bool
is_accepted accepted = true
is_accepted _ = false

unfoldable pub is_final : OpResultGroup → Bool
is_final accepted = true
is_final rejected = true
is_final _ = false

unfoldable pub decode_op_result : ℕ → String
decode_op_result op_result =
    if op_result == 0
    then "UNKNOWN_RESULT"
    else if op_result == 2
    then "ACCESS_GRANTED"
    else if op_result == 3
    then "ACCESS_REJECTED"
    else if op_result == 6
    then "DOOR_IN_OFFICE"
    else if op_result == 7
    then "PIN_REQUIRED"
    else if op_result == 10
    then "END_OFFICE"
    else if op_result == 11
    then "CANCELLED_KEY"
    else if op_result == 14
    then "OPENING_ROLLER"
    else if op_result == 18
    then "CLOSING_ROLLER"
    else if op_result == 22
    then "STOP_ROLLER"
    else if op_result == 26
    then "WAIT_SECOND_CARD"
    else if op_result == 27
    then "FINGER_REQUIRED"
    else if op_result == 30
    then "KEY_PROCESSED"
    else "UNKNOWN"
