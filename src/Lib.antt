-- ===== src/Lib.antt =====
-- WebProof: claims about what an HTTPS server has said, from a TLSNotary proof to a Solana account.
--
-- A prover persists a TLSNotary presentation. The verifier checks it and signs a claim; the program
-- on Solana accepts a claim behind a native Ed25519 instruction and stores it for ever.
--
--   crates/webproof-core/src/lib.rs        Core: the claim, its bytes, its validation
--   crates/webproof-verifier/src/lib.rs    Verifier: the signer behind the proof verifier
--   crates/tlsn-demo/webproof-tlsn/src/verify.rs   Tlsn: the proof verifier
--   crates/tlsn-demo/webproof-tlsn/src/present.rs  Tlsn.Present: the disclosure policy
--   crates/tlsn-demo/webproof-tlsn/src/notarize.rs Tlsn.Notarize: prover and notary
--   crates/tlsn-demo/webproof-tlsn/src/fixture.rs  Tlsn.Fixture: the test server's port and loop
--   crates/tlsn-demo/demo/src/lib.rs               Demo.Settings, Demo.Target
--   crates/tlsn-demo/demo/src/bin/webproof_notarize.rs     Demo.Notarize: notarize, hand over
--   crates/tlsn-demo/demo/src/bin/webproof_verify_sign.rs  Demo.VerifySign: check, then sign
--   crates/tlsn-demo/demo/src/bin/spike.rs                 Demo.Spike: notarize, verify, show
--   programs/webproof/src/errors.rs        Program.Errors
--   programs/webproof/src/state.rs         Program.State: the accounts and their serialization
--   programs/webproof/src/verification.rs  Program.Verification: validation, introspection
--   programs/webproof/src/lib.rs           Program.Instructions: the handlers and account checks
--
-- Program.Registry is the abstract specification of the program: a registry of signed claims by
-- their ids under the rules of crates/webproof-core, with no accounts, addresses or transactions.
--
-- Prelude holds tests, results, lists, byte strings and `i64`; Borsh the primitive encodings, as an
-- interface with laws and as a concrete layout; Crypto SHA-256 and Ed25519 by what the code relies
-- on; Program.Ledger the accounts of the program and the runtime. Child modules hold the proofs.
-- Examples has concrete parameters, the tests of the crates and the instances of the theorems.
--
-- A function of the source keeps its name. Strings are their UTF-8 bytes and byte arrays lists of
-- numbers; `i64` is an integer with saturating addition and subtraction written out, and a theorem
-- that needs the range says so; `usize` and `u16` are natural numbers, no sum of which comes near
-- the end of `usize`. A handler is a function from the ledger to a new ledger or an error, and an
-- error leaves the ledger as it was; time, the sysvar and the accounts that a transaction passes
-- are arguments. Every loop is a structural recursion but one: that of the fixture server, which may
-- run for ever, has a number of rounds, and a theorem says when it has ended within them.
--
-- Parameters: the hash, the signature scheme (a signature that was made verifies, sizes of 32 and
-- 64 bytes), the derivation of program addresses, the native Ed25519 program by its documented
-- success, `serde_json`, `url`, `hex`, `bs58`, the pinned `tlsn` release with its HTTP parser (a
-- verification is whatever that release answers), and for the demo's programs the files,
-- the environment, the clock and the nonce; what `hex`, `serde_json` and `url` print is read back. No theorem assumes that the hash has no collisions or that
-- signatures cannot be forged.
--
-- Demo.Text writes out what the demo uses of `str`: white space of Unicode, `split`, `replace` and
-- the integer parsers; its child Numerals has an independent description of what these read.
--
-- The prover and the notary of notarize.rs run concurrently over a socket. Tlsn.Notarize composes
-- them at their one exchange, in which the notary answers the prover's request, and takes the calls
-- of `tlsn`, hyper and tokio between as a parameter. The joint MPC session is part of that parameter:
-- its interleavings, and the deadlocks that the timeout of 120 seconds is for, are not modelled but
-- for the answer that the run has not ended in time.
--
-- Not modelled: printed progress, the name of the artifact
-- directory and what a failed write leaves in it, the TypeScript SDK and client, scripts, rent and fees beyond whether the payer can pay, and the
-- closing of accounts, which the program does not offer.
pub mod Prelude
pub mod Borsh
pub mod Crypto
pub mod Core
pub mod Program
pub mod Verifier
pub mod Tlsn
pub mod Demo
mod Examples
