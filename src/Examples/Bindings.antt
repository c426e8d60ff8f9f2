-- ===== src/Examples/Bindings.antt =====
-- A session built from JavaScript, and some calls of it.
use mkey_rs.Wasm.Bindings.{
  JsCall, JsOptions, JsResult, aborted, given, missing, new_session, no_options, notification,
  started, timer,
}
use mkey_rs.Wasm.Bindings.Safe.{AllAnswer, new_session-AllAnswer}
use mkey_rs.Wasm.Wire.{WireAction}
use mkey_rs.Session.Types.{default_options}
use mkey_rs.Session.State.{Session, idle, with_random_source}
use mkey_rs.Data.MobileKey.{Tlv, from_bytes, primitive, tag_number, with_system_tags}
use mkey_rs.Examples.Fixtures.{cipher, cipher-IsCbc, kn, no_text}
use mkey_rs.Examples.Session.{os, os_16}
use mkey_rs.Prelude.{Bytes, List, [], false, none, refl, ◌∷◌, ◌≡◌}

abbrev three_tags : Bytes → List Tlv
three_tags bytes =
    record { tag_bytes = 0xC0 ∷ []; value = primitive (1 ∷ []) }
    ∷ record { tag_bytes = 0xC1 ∷ []; value = primitive (2 ∷ []) }
    ∷ record { tag_bytes = 0xC2 ∷ []; value = primitive kn }
    ∷ []

abbrev as_options : List WireAction → JsResult JsOptions
as_options v = given no_options

abbrev as_count : List WireAction → JsResult (List WireAction)
as_count actions = given actions

abbrev built : Session
built = record {
  key = record { tag_0 = 1 ∷ []; tag_1 = 2 ∷ []; kn_key = kn; tags = with_system_tags [] };
  options = default_options;
  random = none;
  state = idle;
  is_done = false;
}

builds : new_session no_text as_options three_tags (7 ∷ []) missing ≡ given built
unfolding new_session from_bytes with_random_source tag_number
builds = refl

abbrev calls : List JsCall
calls = notification [] ∷ started ∷ timer "nonsense" ∷ notification (1 ∷ []) ∷ aborted ∷ []

new_session-AllAnswer_example :
    AllAnswer no_text as_count (λ ws. tt) cipher cipher-IsCbc os os_16 calls built
new_session-AllAnswer_example =
    new_session-AllAnswer no_text as_count (λ ws. tt) cipher cipher-IsCbc os os_16 as_options
      three_tags (7 ∷ []) missing built builds refl calls
