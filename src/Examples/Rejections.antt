-- ===== src/Examples/Rejections.antt =====
-- Transactions that programs/webproof refuses on the small chain.
use webproof_solana.Prelude.{◌≡◌, refl, arith, some, pos, err, bytes_eq_refl}
use webproof_solana.Borsh.Layout.{layout}
use webproof_solana.Program.Errors.{web_proof}
use webproof_solana.Program.Verification.{InstructionsSysvar, verify_preceding_ed25519}
use webproof_solana.Program.Instructions.{submit_claim}
use webproof_solana.Program.Instructions.Initialize.{config_address}
use webproof_solana.Program.Instructions.History.{claim_address}
use webproof_solana.Examples.{toy_sha, toy_runtime, signed_out}
use webproof_solana.Program.Errors.{missing_signature, expired}
use webproof_solana.Program.Verification.{validate_claim}
use webproof_solana.Program.Verification.Unattested.{
  IsUnattested, verify_preceding_ed25519-IsUnattested,
}
use webproof_solana.Program.Instructions.Failures.{IsRejected, submit_claim-IsRejected}
use webproof_solana.Examples.Chain.{
  submit_accounts, claim, message, sysvar, configured, fresh, held,
}

abbrev alone : InstructionsSysvar
alone = record {
  load_current_index_checked = some 0;
  load_instruction_at_checked = sysvar.load_instruction_at_checked;
}

-- A submission that is the first instruction of its transaction.
unattested :
    verify_preceding_ed25519 toy_runtime.ed25519_program_id alone signed_out.verifier_public_key
      message
    ≡ err missing_signature
unfolding verify_preceding_ed25519
unattested = refl

verify_preceding_ed25519-IsUnattested_example :
    IsUnattested toy_runtime.ed25519_program_id alone signed_out.verifier_public_key message
      missing_signature
verify_preceding_ed25519-IsUnattested_example =
    verify_preceding_ed25519-IsUnattested toy_runtime.ed25519_program_id alone
      signed_out.verifier_public_key message missing_signature unattested

-- A submission after the claim's life.
too_late :
    submit_claim toy_runtime layout toy_sha
      (some (pos 1000))
      sysvar
      submit_accounts
      claim
      signed_out.claim_id
      configured
    ≡ err (web_proof expired)
unfolding submit_claim validate_claim
too_late = ground (
  arith,
  held,
  fresh,
  bytes_eq_refl toy_runtime.system_program_id,
  bytes_eq_refl toy_runtime.instructions_sysvar_id,
  bytes_eq_refl (claim_address toy_runtime signed_out.claim_id),
  bytes_eq_refl (config_address toy_runtime),
)

submit_claim-IsRejected_example :
    IsRejected toy_runtime layout toy_sha
      (some (pos 1000))
      sysvar
      submit_accounts
      claim
      signed_out.claim_id
      configured
      expired
submit_claim-IsRejected_example =
    submit_claim-IsRejected toy_runtime layout toy_sha (some (pos 1000)) sysvar submit_accounts
      claim signed_out.claim_id configured expired too_late
