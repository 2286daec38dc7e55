-- ===== src/Examples/Chain.antt =====
-- The signed claim of the verifier crate's test on a small chain: a configuration is initialized,
-- then the claim is submitted.
use webproof_solana.Prelude.{
  ◌≡◌, refl, arith, true, false, ◌+ℤ◌, ◌-ℤ◌, some, none, ◌++◌, Bytes, codes, length, replicate, pos,
  ok, bytes_eq, bytes_eq_refl,
}
use webproof_solana.Borsh.Layout.{layout}
use webproof_solana.Program.State.{WebProofConfig, VerifiedClaim, ClaimV1, try_to_vec}
use webproof_solana.Program.Verification.{InstructionsSysvar, domain, verify_preceding_ed25519}
use webproof_solana.Program.Verification.Agreement.{to_program}
use webproof_solana.Program.Verification.Attested.{HasRun}
use webproof_solana.Program.Verification.Transaction.{
  two_instructions, two_instructions-HasRun, verify-two_instructions,
}
use webproof_solana.Program.Ledger.{config, verified_claim, Ledger, empty, insert, insert_self}
use webproof_solana.Program.Instructions.{
  Signer, InitializeConfig, SubmitClaim, initialize_config, submit_claim,
}
use webproof_solana.Program.Instructions.Submit.{recorded, IsSized}
use webproof_solana.Program.Instructions.Initialize.{config_address}
use webproof_solana.Program.Instructions.History.{claim_address, Step, initialize, submit}
use webproof_solana.Verifier.OnChain.{signed_claim_is_bound}
use webproof_solana.Verifier.Pipeline.{IsSubmittable, signed_claim_is_stored}
use mathlib.Core.List.{flatten}
use webproof_solana.Examples.{
  fold_bytes, fold_bytes-IsArray, toy_json, toy_sha, toy_ed25519, toy_runtime, mock, signer, url,
  signed_out,
}
use webproof_solana.Examples.Signatures.{signed_lem}

abbrev pub submitter : Signer
submitter = record { key = replicate 32 5; is_signer = true; is_writable = true; is_funded = true }

abbrev pub configuration : WebProofConfig
configuration = record {
  authority = submitter.key;
  verifier_pubkey = signed_out.verifier_public_key;
  max_claim_age_seconds = pos 300;
  bump = 255;
}

abbrev pub initialize_accounts : InitializeConfig
initialize_accounts = record {
  config = config_address toy_runtime;
  config_is_writable = true;
  authority = submitter;
  system_program = toy_runtime.system_program_id;
}

abbrev pub submit_accounts : SubmitClaim
submit_accounts = record {
  config = config_address toy_runtime;
  verified_claim = claim_address toy_runtime signed_out.claim_id;
  verified_claim_is_writable = true;
  submitter = submitter;
  instructions = toy_runtime.instructions_sysvar_id;
  system_program = toy_runtime.system_program_id;
}

abbrev pub claim : ClaimV1
claim = to_program signed_out.claim

abbrev pub message : Bytes
message = domain ++ try_to_vec layout claim

abbrev pub sysvar : InstructionsSysvar
sysvar =
    two_instructions toy_runtime.ed25519_program_id signed_out.verifier_public_key
      signed_out.signature message

abbrev pub configured : Ledger
configured = insert (config_address toy_runtime) (config configuration) empty

abbrev pub stored : VerifiedClaim
stored = recorded claim signed_out.claim_id submitter.key (pos 350) 255

abbrev pub final : Ledger
final = insert (claim_address toy_runtime signed_out.claim_id) (verified_claim stored) configured

pub initialized :
    initialize_config toy_runtime initialize_accounts signed_out.verifier_public_key (pos 300) empty
    ≡ ok configured
unfolding initialize_config
initialized =
    ground (
      arith,
      bytes_eq_refl (config_address toy_runtime),
      bytes_eq_refl toy_runtime.system_program_id,
    )

pub distinct :
    bytes_eq (claim_address toy_runtime signed_out.claim_id) (config_address toy_runtime) ≡ false
unfolding bytes_eq fold_bytes flatten
distinct = refl

pub fresh : configured (claim_address toy_runtime signed_out.claim_id) ≡ none
unfolding insert
fresh = rw distinct refl

pub held : configured (config_address toy_runtime) ≡ some (config configuration)
held = insert_self (config_address toy_runtime) (config configuration) empty

pub submittable :
    IsSubmittable toy_runtime layout signed_out sysvar submit_accounts configured configuration
submittable = record {
  index = 0;
  current = refl;
  preceding = refl;
  signing = (refl, refl);
  writable = refl;
  paying = refl;
  submitter_size = refl;
  system = refl;
  introspecting = refl;
  configured = held;
  config_derived = refl;
  claim_derived = refl;
  fresh = fresh;
  trusted = refl;
}

pub key_size : length signed_out.verifier_public_key ≡ 32
key_size = (fold_bytes-IsArray 32 0 signer.key).sized

pub signature_size : length signed_out.signature ≡ 64
signature_size = (fold_bytes-IsArray 64 0 _).sized

pub claim_size : IsSized submit_accounts claim
claim_size = record {
  request_path_hash = (fold_bytes-IsArray 32 0 _).sized;
  provenance_hash = (fold_bytes-IsArray 32 0 _).sized;
  submitter = refl;
}

pub accepted :
    verify_preceding_ed25519 toy_runtime.ed25519_program_id sysvar signed_out.verifier_public_key
      message
    ≡ ok tt
accepted =
    verify-two_instructions toy_runtime.ed25519_program_id signed_out.verifier_public_key
      signed_out.signature message key_size signature_size

pub submitted :
    submit_claim toy_runtime layout toy_sha
      (some (pos 350))
      sysvar
      submit_accounts
      claim
      signed_out.claim_id
      configured
    ≡ ok final
unfolding ◌+ℤ◌ ◌-ℤ◌
submitted =
    signed_claim_is_stored toy_json layout toy_sha toy_ed25519 signer mock (codes "proof") url
      (codes "/price") (pos 100) (pos 300) (replicate 32 9) signed_out (omega arith) signed_lem
      toy_runtime sysvar submit_accounts configured configuration (pos 350) submittable
      (omega arith) (omega arith) (omega arith) (omega arith) (omega arith) (omega arith)

pub verifies : toy_ed25519.verify signed_out.verifier_public_key message signed_out.signature ≡ true
verifies =
    (signed_claim_is_bound toy_json layout toy_sha toy_ed25519 signer mock (codes "proof") url
      (codes "/price") (pos 100) (pos 300) (replicate 32 9) signed_out (omega arith) signed_lem).1

pub has_run : HasRun toy_runtime.ed25519_program_id sysvar toy_ed25519.verify
has_run =
    two_instructions-HasRun toy_runtime.ed25519_program_id signed_out.verifier_public_key
      signed_out.signature message key_size signature_size toy_ed25519.verify verifies

pub initial-Step : Step toy_runtime layout toy_sha toy_ed25519.verify empty configured
initial-Step =
    initialize initialize_accounts signed_out.verifier_public_key (pos 300) empty configured
      key_size initialized

pub submit-Step : Step toy_runtime layout toy_sha toy_ed25519.verify configured final
submit-Step =
    submit (some (pos 350)) sysvar submit_accounts claim signed_out.claim_id configured final
      has_run submitted

pub final_holds :
    final (claim_address toy_runtime signed_out.claim_id) ≡ some (verified_claim stored)
final_holds =
    insert_self (claim_address toy_runtime signed_out.claim_id) (verified_claim stored) configured
