-- ===== src/Demo.antt =====
-- crates/tlsn-demo/demo: the settings of the demo binaries, and the step that verifies a persisted
-- presentation and signs.
pub mod Text
pub mod Settings
pub mod Target
pub mod VerifySign
pub mod Notarize
pub mod Spike
