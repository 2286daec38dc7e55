-- ===== src/Program/Errors.antt =====
-- programs/webproof/src/errors.rs, and the failures that the Anchor framework answers by itself.
pub data WebProofError : Type 0 where
  invalid_max_age invalid_version invalid_length invalid_time_window : WebProofError
  expired future too_old claim_id_mismatch missing_signature : WebProofError
  malformed_ed25519 wrong_verifier message_mismatch serialization : WebProofError

-- What the framework answers when a constraint of an accounts struct does not hold, when the
-- system program cannot create an account, when an account does not fit its space, and when a
-- sysvar is not available.
pub data AnchorError : Type 0 where
  account_not_initialized account_discriminator_mismatch account_not_signer : AnchorError
  invalid_program_id constraint_seeds constraint_address constraint_mut : AnchorError
  account_already_in_use insufficient_funds privilege_escalation : AnchorError
  account_did_not_serialize unsupported_sysvar : AnchorError

pub data Failure : Type 0 where
  web_proof : WebProofError → Failure
  anchor : AnchorError → Failure
