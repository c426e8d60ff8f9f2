-- ===== src/Command/Justin/Secrecy.antt =====
-- crates/mkey-core/src/command/justin.rs: what the answers reveal of the kN key.
use mkey_rs.Prelude.{
  Bytes, List, Option, [], ap, ap₂, arith, false, inl, inr, none, refl, some, sym, ◌∙◌, ◌∷◌, ◌≡◌,
}
use mkey_rs.Result.{Result}
use mkey_rs.Data.MobileKey.{MobileKey, get_tag, set_tag_data}
use mkey_rs.Command.Justin.{
  CommandOpCode, Justin, close_session, command_try_from-cases, dispatch_command, handle_close,
  handle_open, handle_read_tag, handle_write_tag, open_session, process_command, read_tag,
  write_tag,
}

-- The same key, with nothing for its kN key.
abbrev pub erase_key : MobileKey → MobileKey
erase_key key = record key { kn_key = [] }

abbrev pub erase_current : Option MobileKey → Option MobileKey
erase_current none = none
erase_current (some key) = some (erase_key key)

abbrev pub erase : Justin → Justin
erase j = record j { current_key = erase_current j.current_key }

-- Two managers answer alike: they give one result, and differ in the kN key at most afterwards.
abbrev pub Alike : Result Bytes × Justin → Result Bytes × Justin → Type 0
Alike (r, t) (q, u) = (r ≡ q) × (erase t ≡ erase u)

read_tag-Alike :
    (payload : Bytes) (j : Justin)
    → j.secure_session ≡ false
    → Alike (handle_read_tag payload j) (handle_read_tag payload (erase j))
unfolding handle_read_tag get_tag
read_tag-Alike payload j h = ground arith

write_tag-Alike :
    (payload : Bytes) (j : Justin)
    → Alike (handle_write_tag payload j) (handle_write_tag payload (erase j))
unfolding handle_write_tag get_tag set_tag_data
write_tag-Alike payload j = ground arith

open-Alike :
    (payload : Bytes) (j : Justin) → Alike (handle_open payload j) (handle_open payload (erase j))
unfolding handle_open
open-Alike payload j = ground arith

close-Alike :
    (payload : Bytes) (j : Justin) → Alike (handle_close payload j) (handle_close payload (erase j))
unfolding handle_close
close-Alike payload j = ground arith

dispatch-Alike :
    (op : CommandOpCode) (payload : Bytes) (j : Justin)
    → j.secure_session ≡ false
    → Alike (dispatch_command op payload j) (dispatch_command op payload (erase j))
unfolding dispatch_command
dispatch-Alike open_session payload j h = open-Alike payload j
dispatch-Alike close_session payload j h = close-Alike payload j
dispatch-Alike read_tag payload j h = read_tag-Alike payload j h
dispatch-Alike write_tag payload j h = write_tag-Alike payload j

erase-erase : (j : Justin) → erase (erase j) ≡ erase j
erase-erase j = ground arith

process_command-erase :
    (command : Bytes) (j : Justin)
    → j.secure_session ≡ false
    → Alike (process_command command j) (process_command command (erase j))
unfolding process_command
process_command-erase [] j h = (refl, sym (erase-erase j))
process_command-erase (b ∷ payload) j h = elim (command_try_from-cases b) [
  | inl (op, e, _) ↦ rw e (dispatch-Alike op payload j h)
  | inr (_, (x, e)) ↦ rw e (refl, sym (erase-erase j))
]

-- Outside a secure session no command tells two managers apart that differ in the kN key alone: the
-- answers are the same, and the managers afterwards differ in that key at most.
pub process_command-Alike :
    (command : Bytes) (j i : Justin)
    → j.secure_session ≡ false
    → erase j ≡ erase i
    → Alike (process_command command j) (process_command command i)
process_command-Alike command j i h e =
    let plain : i.secure_session ≡ false = sym (ap (λ (x : Justin). x.secure_session) e) ∙ h in
    let (p, q) = process_command-erase command j h in
    let (r, s) = process_command-erase command i plain in
    (
      p ∙ ap (λ (x : Justin). (process_command command x).0) e ∙ sym r,
      q ∙ ap (λ (x : Justin). erase (process_command command x).1) e ∙ sym s,
    )

abbrev pub commands : List Bytes → Justin → List (Result Bytes)
commands [] j = []
commands (m ∷ ms) j = (process_command m j).0 ∷ commands ms (process_command m j).1

dispatch-insecure :
    (op : CommandOpCode) (payload : Bytes) (j : Justin)
    → (dispatch_command op payload j).1.secure_session ≡ j.secure_session
unfolding dispatch_command handle_open handle_close handle_read_tag handle_write_tag
dispatch-insecure open_session payload j = ground arith
dispatch-insecure close_session payload j = ground arith
dispatch-insecure read_tag payload j = ground arith
dispatch-insecure write_tag payload j = ground arith

-- No command switches the secure session on or off.
pub process_command-insecure :
    (command : Bytes) (j : Justin) → (process_command command j).1.secure_session ≡ j.secure_session
unfolding process_command
process_command-insecure [] j = refl
process_command-insecure (b ∷ payload) j = elim (command_try_from-cases b) [
  | inl (op, e, _) ↦ rw e (dispatch-insecure op payload j)
  | inr (_, (x, e)) ↦ rw e refl
]

-- So a peer that has not opened a secure session learns nothing of the kN key, by any number of
-- commands.
pub commands_hide_kn :
    (ms : List Bytes) (j i : Justin)
    → j.secure_session ≡ false
    → erase j ≡ erase i
    → commands ms j ≡ commands ms i
commands_hide_kn [] j i h e = refl
commands_hide_kn (m ∷ ms) j i h e =
    let (p, q) = process_command-Alike m j i h e in
    ap₂ ◌∷◌ p (
      commands_hide_kn ms (process_command m j).1 (process_command m i).1
        (process_command-insecure m j ∙ h) q)
