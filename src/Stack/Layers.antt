-- ===== src/Stack/Layers.antt =====
-- crates/mkey-core/src/stack.rs: which layer a packet reaches, and with which rights.
use mkey_rs.Prelude.{Bool, Bytes, arith, false, refl, true, ℕ, ◌∷◌, ◌≡◌, ◌⊎◌}
use mkey_rs.Command.Justin.{set_secure_session}
use mkey_rs.Crypto.Aes.{Cbc}
use mkey_rs.Security.SspTypes.{is_control, is_encrypted}
use mkey_rs.Stack.{
  Stack, handle_control, handle_packet, handle_plain, handle_secure, process_justin, route,
}

process_justin-keeps :
    (payload : Bytes) (secure : Bool) (s : Stack)
    → ((process_justin payload secure s).1.ssp ≡ s.ssp)
      × ((process_justin payload secure s).1.justin.secure_session ≡ s.justin.secure_session)
unfolding process_justin set_secure_session
process_justin-keeps payload secure s = (refl, refl)

module _ (c : Cbc) where
  handle_secure-flag :
      (cb : ℕ) (rest : Bytes) (s : Stack)
      → (handle_secure c cb rest s).1.justin.secure_session ≡ s.justin.secure_session
  unfolding handle_secure process_justin set_secure_session
  handle_secure-flag cb rest s = ground arith

  handle_plain-keeps :
      (cb : ℕ) (rest : Bytes) (s : Stack)
      → ((handle_plain c cb rest s).1.ssp ≡ s.ssp)
        × ((handle_plain c cb rest s).1.justin.secure_session ≡ s.justin.secure_session)
  unfolding handle_plain process_justin set_secure_session
  handle_plain-keeps cb rest s = ground arith

  -- A control packet leaves the command layer alone, a plaintext data packet the security layer, and
  -- no packet leaves the secure flag of the command layer other than it was.
  pub handle_packet_layers :
      (cb b : ℕ) (bs : Bytes) (s : Stack)
      → let t = (handle_packet c (cb ∷ b ∷ bs) s).1 in
        (((is_control cb ≡ true) × (t.justin ≡ s.justin))
          ⊎ ((is_control cb ≡ false) × (is_encrypted cb ≡ true))
          ⊎ ((is_control cb ≡ false) × (is_encrypted cb ≡ false) × (t.ssp ≡ s.ssp)))
        × (t.justin.secure_session ≡ s.justin.secure_session)
  unfolding handle_packet route handle_control
  handle_packet_layers cb b bs s =
      ground (arith, handle_secure-flag cb (b ∷ bs) s, handle_plain-keeps cb (b ∷ bs) s)
