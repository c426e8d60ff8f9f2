-- ===== src/Session.antt =====
-- crates/mkey-session/src: one opening attempt as a state machine.
pub mod Types
pub mod State
pub mod Answer
pub mod Detecting
pub mod FlowV0200
pub mod FlowV0100
pub mod Poll
pub mod Contract
pub mod Totality
pub mod Runs
pub mod Verdict
