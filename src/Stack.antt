-- ===== src/Stack.antt =====
-- crates/mkey-core/src/stack.rs: SSP and Justin as one packet handler.
pub mod Layers
pub mod Secrecy
pub mod Safety
use mkey_rs.Prelude.{Bool, Bytes, [], false, if◌then◌else◌, true, ℕ, ◌∷◌}
use mkey_rs.Error.{Error, invalid_data, msg}
use mkey_rs.Result.{Exec, fail, pure, ◌>>=◌, ◌>>◌}
use mkey_rs.Crypto.Aes.{Cbc}
use mkey_rs.Security.SspTypes.{Ssp, is_control, is_encrypted}
use mkey_rs.Security.Ssp.{process_packet, wrap_data}
use mkey_rs.Command.Justin.{Justin, process_command, set_secure_session}

pub record Stack : Type 0 where
  pub ssp : Ssp
  pub justin : Justin

-- A method of one layer, run on the stack.
abbrev pub on_ssp : Exec Ssp Bytes → Exec Stack Bytes
on_ssp m s = let (r, t) = m s.ssp in (r, record s { ssp = t })

-- The secure flag holds for this command only.
unfoldable pub process_justin : Bytes → Bool → Exec Stack Bytes
process_justin payload secure s =
    let before = s.justin.secure_session in
    let (r, j) = process_command payload (set_secure_session secure s.justin) in
    (r, record s { justin = set_secure_session before j })

module _ (c : Cbc) where
  -- The three kinds of packet of `handle_packet`, behind its length check.
  unfoldable pub handle_control : ℕ → Bytes → Exec Stack Bytes
  handle_control control_byte rest = on_ssp (process_packet c (control_byte ∷ rest))

  unfoldable pub handle_secure : ℕ → Bytes → Exec Stack Bytes
  handle_secure control_byte rest = do
    plaintext ← on_ssp (process_packet c (control_byte ∷ rest))
    response ← process_justin plaintext true
    on_ssp (wrap_data c response)

  unfoldable pub handle_plain : ℕ → Bytes → Exec Stack Bytes
  handle_plain control_byte rest = do
    response ← process_justin rest false
    pure (control_byte ∷ response)

  unfoldable pub route : ℕ → Bytes → Exec Stack Bytes
  route control_byte rest =
      if is_control control_byte
      then handle_control control_byte rest
      else if is_encrypted control_byte
      then handle_secure control_byte rest
      else handle_plain control_byte rest

  unfoldable pub handle_packet : Bytes → Exec Stack Bytes
  handle_packet [] = fail (Error.invalid_data (msg "SSP packet too short"))
  handle_packet (control_byte ∷ []) = fail (Error.invalid_data (msg "SSP packet too short"))
  handle_packet (control_byte ∷ (b ∷ bs)) = route control_byte (b ∷ bs)
