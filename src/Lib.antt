-- ===== src/Lib.antt =====
-- mkey-rs opens SALTO door locks from a phone: it answers the packets of a lock over Bluetooth, proves
-- to the lock that it holds a mobile key, and serves the tags of that key. This library models the
-- program, from the cryptographic helpers to the facade that connects to a lock and opens it, the bindings
-- for JavaScript, and the client that decrypts a mobile key.
--
-- The parts, from the bottom up, and the files that model them (paths from the repository's root):
--   Error, Result         crates/mkey-core/src/error.rs. `Result` is Rust's with a panic as a third
--                         outcome; `Exec S A` is a method on `&mut self`, whose state comes back beside
--                         an error too. A formatted message is the list of its pieces.
--   Crypto                crates/mkey-core/src/crypto: padding.rs (apply_padding, remove_padding),
--                         crc.rs (crc16_ssp, crc16_hasher), rotation.rs, session.rs
--                         (derive_session_key) and aes.rs, over the cipher crates' interface `Cbc`.
--   Data                  crates/mkey-core/src/data: mobile_key.rs in Permissions, TagMap (the hash map
--                         of tags, an association list) and MobileKey; base62.rs in Base62.
--   Security              crates/mkey-core/src/security: random.rs in Random; ssp.rs, the security
--                         layer, with its state and codes in SspTypes and its packet handlers in Ssp.
--                         Ssp/Relation has the step relation of the layer, Ssp/Handshake an honest lock.
--   Command.Justin        crates/mkey-core/src/command/justin.rs, the commands of a lock.
--   OpResult              crates/mkey-core/src/op_result.rs, what the lock says happened.
--   Advertisement         crates/mkey-core/src/advertisement.rs.
--   Stack                 crates/mkey-core/src/stack.rs: handle_packet, which decrypts a packet with the
--                         security layer, has the command layer answer it, and encrypts the answer.
--   Session               crates/mkey-session/src: types.rs in Types; session.rs in State, Answer (the
--                         end of a session, the next wait), Detecting, FlowV0200, FlowV0100 and Poll. A
--                         session is polled with an event and returns actions.
--   Ble.Pump              crates/mkey-ble/src/pump.rs: performs the actions on a transport, and turns what
--                         the transport does into the next event.
--                         Pump/Draining has the measure by which the loop ends.
--   Ble.Discovery         crates/mkey-ble/src/traits.rs and advertisement.rs: a lock that was found.
--   Ble.Lock              crates/mkey-ble/src/lock.rs: the facade `SaltoLock`, over the trait BleTransport
--                         as an interface, an opening in Lock/Opening. Lock/Calls has its calls as a
--                         data type and a history of them as a list; Lock/Down what it relies on of the
--                         transport's `is_connected`, `MindsLink`.
--   Ble.Btleplug          crates/mkey-ble/src/btleplug_impl.rs and gatt.rs: the transport over a Bluetooth
--                         library, searching and connecting in Connecting, the methods in Linked, which
--                         fill the facade's interface. Btleplug/Minding fills `MindsLink`, and
--                         Btleplug/Driven puts the facade on top. Ble.Task is a future under a timeout,
--                         which may be dropped wherever it awaits.
--   Wasm.Wire             crates/mkey-wasm/src/wire.rs: the shapes that cross into JavaScript.
--   Wasm.Bindings         crates/mkey-wasm/src/lib.rs: a session built and called from JavaScript.
--   Virgil                crates/mkey-sdk-virgil/src/lib.rs: Container (the encrypted container), Library
--                         and Runtime (the calls of the foundation library), Keys, Wrapping (of a private
--                         key by RSA) and Decrypt (a mobile key out of a container).
--                         Decrypt/Serving has what the decryption relies on of the library.
--   Prelude               byte strings, Boolean tests and the lemmas that the parts share.
--   Examples              a concrete cipher, keys, managers and sessions, a scripted transport, a radio,
--                         a Bluetooth library, a foundation library and a container.
--
-- Numbers are natural numbers; where the code's integer may wrap, the remainder is written out. The bytes
-- that a theorem needs in range have a bound as a hypothesis. Arrays of 16 bytes are byte strings, their
-- lengths kept by the invariant `Inv` of Ssp/Invariant.
--
-- Loops are recursions on the list that they run over. Those that are not have fuel: apply_padding
-- sixteen rounds, which reach the next multiple of sixteen, and encode_base62 two for each byte, since
-- 256 is below 62 ^ 2. The pump is a loop without an end of its own: it is modelled round by round, for
-- any number of rounds; over a transport whose packets run dry, three rounds more than the packets are
-- enough. The search for a lock runs over the events that the Bluetooth library reports, a list that ends
-- with the stream of events or holds the deadline.
--
-- Parameters: the block cipher (`Cbc`, with the laws `IsCbc`: whole blocks are accepted and keep their
-- length, and decryption undoes encryption); the random bytes of the operating system, a stream of 16-byte
-- values; the TLV parser of iso7816-tlv and the decoder of the hex crate; the clock; the text of an error,
-- which thiserror derives; the Bluetooth library (`Central`, about which nothing is assumed); the
-- foundation library (`Library`, with `Accounts`: which of its calls make and delete an object, and
-- `Serves`: what its calls do with memory, keys and messages, memory not running out); the crates
-- rsa and base64 (`Rsa`, `Base64`, with `Lawful`: a text is printable and decoded to what it encodes, and
-- decryption undoes encryption); and what serde reads and writes. No theorem claims that the cipher hides
-- anything: what is said of the kN key is that answers without encryption do not depend on it.
--
-- Not modelled: log lines and StderrObserver, which print; the getters, which are record fields; of
-- crates/mkey-sdk-virgil the compilation and linking of the embedded module, and the drop of a runtime,
-- whose calls act on a store that goes with it; the crate roots, which declare modules.
pub mod Prelude
pub mod Error
pub mod Result
pub mod Crypto
pub mod Security
pub mod Data
pub mod OpResult
pub mod Command
pub mod Advertisement
pub mod Stack
pub mod Session
pub mod Ble
pub mod Wasm
pub mod Virgil
pub mod Examples
