-- ===== src/Wasm.antt =====
-- crates/mkey-wasm: what crosses into JavaScript.
pub mod Wire
pub mod Bindings
