-- ===== src/Program.antt =====
-- programs/webproof/src: the on-chain program, by its files: `Errors` (errors.rs), `State`
-- (state.rs), `Verification` (verification.rs) and `Instructions` (lib.rs).
pub mod Errors
pub mod State
pub mod Verification
pub mod Ledger
pub mod Instructions
pub mod Registry
