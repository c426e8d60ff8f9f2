-- ===== src/Examples/Command.antt =====
-- The command layer at concrete keys and commands.
use mkey_rs.Command.Justin.{
  command_byte, handle_write_tag, process_command, read_tag, status_byte, success, write_tag,
}
use mkey_rs.Prelude.{[], false, refl, ◌↔◌, ◌∷◌, ◌≡◌, ◌⊎◌}
use mkey_rs.Error.{Error}
use mkey_rs.Result.{err, ok}
use mkey_rs.Data.TagMap.{find}
use mkey_rs.Data.MobileKey.{TagData, get_tag}
use mkey_rs.Command.Justin.Access.{Has, MayRead, MayStore, read_tag_iff, write_tag_iff}
use mkey_rs.Command.Justin.Effects.{
  IsAnswer, IsKnown, Wrote, process_command_total, write_tag_effect,
}
use mkey_rs.Examples.Fixtures.{commands_of, kn, mobile_key}

read_tag_iff_example :
    ((process_command (command_byte read_tag ∷ 0x10 ∷ []) (commands_of (mobile_key kn))).0
      ≡ ok (status_byte success ∷ 0 ∷ []))
    ↔ ((tag : TagData) × Has (commands_of (mobile_key kn)) 0x10 tag
        × MayRead false 0x10 tag.permissions
        × (0 ∷ [] ≡ tag.bytes))
read_tag_iff_example = read_tag_iff 0x10 [] (commands_of (mobile_key kn)) (0 ∷ [])

write_tag_iff_example :
    ((process_command (command_byte write_tag ∷ 0x0B ∷ 2 ∷ []) (commands_of (mobile_key kn))).0
      ≡ ok (status_byte success ∷ []))
    ↔ MayStore (0x0B ∷ 2 ∷ []) (commands_of (mobile_key kn))
write_tag_iff_example = write_tag_iff (0x0B ∷ 2 ∷ []) (commands_of (mobile_key kn))

audit_written :
    (process_command (command_byte write_tag ∷ 0x0B ∷ 2 ∷ []) (commands_of (mobile_key kn))).0
    ≡ ok (status_byte success ∷ [])
unfolding process_command handle_write_tag get_tag find
audit_written = refl

write_tag_effect_example :
    Wrote 0x0B 2 []
      (commands_of (mobile_key kn))
      (process_command (command_byte write_tag ∷ 0x0B ∷ 2 ∷ []) (commands_of (mobile_key kn))).1
write_tag_effect_example = write_tag_effect 0x0B 2 [] (commands_of (mobile_key kn)) audit_written

process_command_total_example :
    (IsKnown (9 ∷ []) × IsAnswer (process_command (9 ∷ []) (commands_of (mobile_key kn))).0)
    ⊎ (¬ (IsKnown (9 ∷ []))
        × ((e : Error) × (process_command (9 ∷ []) (commands_of (mobile_key kn))
              ≡ (err e, commands_of (mobile_key kn)))))
process_command_total_example = process_command_total (9 ∷ []) (commands_of (mobile_key kn))
