-- ===== src/Ble/Lock.antt =====
-- crates/mkey-ble/src/lock.rs: connect to a lock, then run one opening attempt. The transport is an
-- interface on its own state, which the facade owns; a method returns its result and the facade.
pub mod Opening
pub mod Calls
pub mod Attempt
pub mod Down
pub mod Tags
pub mod Plan
use mkey_rs.Ble.Discovery.{ConnectedLock, DiscoveredLock, LockFilter}
use mkey_rs.Ble.Pump.{Transport}
use mkey_rs.Session.Types.{Detection, Mode, Timeouts, default_timeouts, info, no_detection}
use mkey_rs.Security.Random.{RandomSource}
use mkey_rs.Data.MobileKey.{MobileKey, get_tag, set_tag_data}
use mkey_rs.Result.{Exec, Result, err, lift, modify, ok, ok_or, ◌>>=◌, ◌>>◌}
use mkey_rs.Error.{Error, Message, hex, invalid_mobile_key, invalid_state, key_not_found, msg, text}
use mkey_rs.Prelude.{
  Bool, Bytes, List, Option, String, [], false, if◌then◌else◌, none, some, true, ℕ, ◌==◌, ◌∷◌,
}

pub data OpeningMode : Type 0 where
  standard office : OpeningMode

-- `From<OpeningMode> for Mode`.
unfoldable pub mode_of : OpeningMode → Mode
mode_of standard = Mode.standard
mode_of office = Mode.office

abbrev pub default_scan_duration : ℕ
default_scan_duration = 5_000

abbrev pub default_timeout : ℕ
default_timeout = 10_000

-- `ask_nothing` is `HandshakePlan::None`.
pub data HandshakePlan : Type 0 where
  auto app_protocol read_only ask_nothing : HandshakePlan

unfoldable pub for_advertised_version : ℕ → Detection
for_advertised_version version =
    if version == 0 then Detection.read_only else Detection.app_protocol

-- `HandshakePlan::resolve`.
unfoldable pub resolve : HandshakePlan → ℕ → Detection
unfolding for_advertised_version
resolve auto version = for_advertised_version version
resolve app_protocol version = Detection.app_protocol
resolve read_only version = Detection.read_only
resolve ask_nothing version = Detection.no_detection

pub data LockState : Type 0 where
  disconnected connected authenticated : LockState

-- The derived `==`.
abbrev pub same_state : LockState → LockState → Bool
same_state disconnected disconnected = true
same_state connected connected = true
same_state authenticated authenticated = true
same_state _ _ = false

-- The `Display` of a state.
abbrev pub state_name : LockState → Message
state_name disconnected = msg "DISCONNECTED"
state_name connected = msg "CONNECTED"
state_name authenticated = msg "AUTHENTICATED"

-- The trait `BleTransport`: what the pump calls of it, and the rest.
pub record BleTransport (W : Type 0) : Type 0 where
  pub link : Transport W
  pub scan_for : ℕ → W → Result (List DiscoveredLock) × W
  pub connect_first : ℕ → Option LockFilter → W → Result ConnectedLock × W
  pub connect_to : String → ℕ → W → Result ConnectedLock × W
  pub is_up : W → Bool
  pub notify_readable : W → Bool

pub record SaltoLock (W : Type 0) : Type 0 where
  pub transport : W
  pub connected_lock : Option ConnectedLock
  pub mobile_key : Option MobileKey
  pub state : LockState
  pub handshake : HandshakePlan
  pub timeouts : Timeouts
  pub random : Option RandomSource

abbrev pub unwrap_or {ℓ} : {A : Type ℓ} → Option A → A → A
unwrap_or none d = d
unwrap_or (some a) d = a

abbrev pub advertised_version : Option ConnectedLock → ℕ
advertised_version none = 0
advertised_version (some c) = c.info.protocol_version

abbrev pub wrong_state : LockState → LockState → Error
wrong_state expected actual = Error.invalid_state (state_name expected) (state_name actual)

module _ {W : Type 0} where
  -- `SaltoLock::with_transport`.
  unfoldable pub with_transport : W → SaltoLock W
  with_transport w = record {
    transport = w;
    connected_lock = none;
    mobile_key = none;
    state = disconnected;
    handshake = auto;
    timeouts = default_timeouts;
    random = none;
  }

  unfoldable pub set_handshake : HandshakePlan → SaltoLock W → SaltoLock W
  set_handshake plan lk = record lk { handshake = plan }

  unfoldable pub with_timeouts : Timeouts → SaltoLock W → SaltoLock W
  with_timeouts timeouts lk = record lk { timeouts = timeouts }

  unfoldable pub with_random : RandomSource → SaltoLock W → SaltoLock W
  with_random random lk = record lk { random = some random }

  unfoldable pub expect_state : LockState → Exec (SaltoLock W) (Unit {0})
  expect_state expected lk =
      if same_state lk.state expected
      then (ok tt, lk)
      else (err (wrong_state expected lk.state), lk)

  -- A call of the transport that the facade awaits.
  abbrev pub call : {A : Type 0} → (W → Result A × W) → Exec (SaltoLock W) A
  call f lk = let (r, w) = f lk.transport in (r, record lk { transport = w })

  abbrev pub succeeds : Option Error × W → Result (Unit {0}) × W
  succeeds (none, w) = (ok tt, w)
  succeeds (some e, w) = (err e, w)

  unfoldable pub after_connect : ConnectedLock → Exec (SaltoLock W) DiscoveredLock
  after_connect c lk =
      (ok c.info, record lk { connected_lock = some c; mobile_key = none; state = connected })

  -- The getter `connected_lock`.
  abbrev pub lock_info : SaltoLock W → Option DiscoveredLock
  lock_info lk = elim lk.connected_lock [ none ↦ none | some c ↦ some c.info ]

  unfoldable pub authenticate : MobileKey → Exec (SaltoLock W) (Unit {0})
  unfolding expect_state
  authenticate key = do
    expect_state connected
    modify (λ (lk : SaltoLock W). record lk { mobile_key = some key; state = authenticated })

  abbrev loaded_key : Exec (SaltoLock W) MobileKey
  loaded_key lk = (ok_or lk.mobile_key Error.invalid_mobile_key, lk)

  unfoldable pub read_tag : ℕ → Exec (SaltoLock W) Bytes
  read_tag id = do
    key ← loaded_key
    lift (elim (get_tag key id) [
      | none ↦ err (Error.key_not_found (text "Tag 0x" ∷ hex id ∷ []))
      | some tag ↦ ok tag.bytes
    ])

  unfoldable pub write_tag : ℕ → Bytes → Exec (SaltoLock W) (Unit {0})
  write_tag id bytes = do
    key ← loaded_key
    modify (λ (lk : SaltoLock W). record lk { mobile_key = some (set_tag_data key id bytes) })

module _ {W : Type 0} (t : BleTransport W) where
  unfoldable pub scan : Option ℕ → Exec (SaltoLock W) (List DiscoveredLock)
  scan duration = call (t.scan_for (unwrap_or duration default_scan_duration))

  unfoldable pub scan_and_connect_filtered :
      Option ℕ → Option LockFilter → Exec (SaltoLock W) DiscoveredLock
  unfolding expect_state after_connect
  scan_and_connect_filtered within filter = do
    expect_state disconnected
    c ← call (t.connect_first (unwrap_or within default_scan_duration) filter)
    after_connect c

  unfoldable pub scan_and_connect : Option ℕ → Exec (SaltoLock W) DiscoveredLock
  unfolding scan_and_connect_filtered
  scan_and_connect within = scan_and_connect_filtered within none

  unfoldable pub connect_by_id : String → Option ℕ → Exec (SaltoLock W) DiscoveredLock
  unfolding expect_state after_connect
  connect_by_id id within = do
    expect_state disconnected
    c ← call (t.connect_to id (unwrap_or within default_timeout))
    after_connect c

  unfoldable pub disconnect : Exec (SaltoLock W) (Unit {0})
  disconnect = do
    call (λ w. succeeds (t.link.disconnect w))
    modify (λ (lk : SaltoLock W). record lk {
      connected_lock = none;
      mobile_key = none;
      state = disconnected;
    })

  unfoldable pub is_connected : SaltoLock W → Bool
  is_connected lk = t.is_up lk.transport
