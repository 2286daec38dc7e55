-- ===== src/Examples/Submissions.antt =====
-- The theorems about programs/webproof and the whole pipeline on the small chain.
use webproof_solana.Prelude.{
  ◌≡◌, ◌≢◌, ◌↔◌, arith, true, ◌+ℤ◌, ◌-ℤ◌, some, Bytes, codes, length, replicate, pos, ok, err,
}
use webproof_solana.Borsh.Layout.{layout}
use webproof_solana.Program.Errors.{web_proof, anchor, serialization, account_did_not_serialize}
use webproof_solana.Program.Verification.{verify_preceding_ed25519}
use webproof_solana.Program.Verification.Attested.{
  IsPreceded, verify_preceding_ed25519_iff, verify_preceding_ed25519_sound,
}
use webproof_solana.Program.Ledger.{config, verified_claim, empty, insert}
use webproof_solana.Program.Instructions.{initialize_config, submit_claim}
use webproof_solana.Program.Instructions.Submit.{recorded, IsAccepted, submit_claim_iff}
use webproof_solana.Program.Instructions.Storable.{submit_claim_storable}
use webproof_solana.Program.Instructions.Initialize.{
  config_address, IsInitialized, initialize_config_iff,
}
use webproof_solana.Program.Instructions.History.{initialize_config_once}
use webproof_solana.Program.Instructions.History.{
  claim_address, here, next, Reach-keeps, submit_claim_once,
}
use webproof_solana.Program.Instructions.Authentic.{
  IsUsable, Reach-IsUsable, IsAuthentic, Reach-IsAuthentic,
}
use webproof_solana.Verifier.Pipeline.{signed_claim_is_stored}
use webproof_solana.Examples.{
  toy_json, toy_sha, toy_ed25519, toy_runtime, mock, signer, url, signed_out,
}
use webproof_solana.Examples.Signatures.{signed_lem}
use webproof_solana.Examples.Chain.{
  submitter, configuration, initialize_accounts, submit_accounts, claim, message, sysvar,
  configured, stored, final, initialized, held, submittable, key_size, claim_size, accepted,
  submitted, has_run, initial-Step, submit-Step, final_holds,
}

signed_claim_is_stored_example :
    submit_claim toy_runtime layout toy_sha
      (some (pos 80))
      sysvar
      submit_accounts
      claim
      signed_out.claim_id
      configured
    ≡ ok (
        insert
          (claim_address toy_runtime signed_out.claim_id)
          (verified_claim (recorded claim signed_out.claim_id submitter.key (pos 80) 255))
          configured)
unfolding ◌+ℤ◌ ◌-ℤ◌
signed_claim_is_stored_example =
    signed_claim_is_stored toy_json layout toy_sha toy_ed25519 signer mock (codes "proof") url
      (codes "/price") (pos 100) (pos 300) (replicate 32 9) signed_out (omega arith) signed_lem
      toy_runtime sysvar submit_accounts configured configuration (pos 80) submittable (omega arith)
      (omega arith) (omega arith) (omega arith) (omega arith) (omega arith)

Reach-IsAuthentic_example :
    IsAuthentic toy_runtime layout toy_sha toy_ed25519.verify final
      (claim_address toy_runtime signed_out.claim_id)
      stored
Reach-IsAuthentic_example =
    Reach-IsAuthentic toy_runtime layout toy_sha toy_ed25519.verify final
      (next (next here initial-Step) submit-Step) (claim_address toy_runtime signed_out.claim_id)
      stored final_holds

submit_claim_iff_example :
    (submit_claim toy_runtime layout toy_sha
        (some (pos 350))
        sysvar
        submit_accounts
        claim
        signed_out.claim_id
        configured
      ≡ ok final)
    ↔ IsAccepted toy_runtime layout toy_sha
        (some (pos 350))
        sysvar
        submit_accounts
        claim
        signed_out.claim_id
        configured
        final
submit_claim_iff_example =
    submit_claim_iff toy_runtime layout toy_sha (some (pos 350)) sysvar submit_accounts claim
      signed_out.claim_id configured final claim_size

submit_claim_once_example :
    submit_claim toy_runtime layout toy_sha
      (some (pos 360))
      sysvar
      submit_accounts
      claim
      signed_out.claim_id
      final
    ≢ ok final
submit_claim_once_example =
    submit_claim_once toy_runtime layout toy_sha toy_ed25519.verify (some (pos 350))
      (some (pos 360)) sysvar sysvar submit_accounts submit_accounts claim claim signed_out.claim_id
      configured final final final submitted here

Reach-keeps_example : final (config_address toy_runtime) ≡ some (config configuration)
Reach-keeps_example =
    Reach-keeps toy_runtime layout toy_sha toy_ed25519.verify (next here submit-Step)
      (config_address toy_runtime) (config configuration) held

submit_claim_storable_example :
    (submit_claim toy_runtime layout toy_sha
        (some (pos 350))
        sysvar
        submit_accounts
        claim
        signed_out.claim_id
        configured
      ≢ err (web_proof serialization))
    × (submit_claim toy_runtime layout toy_sha
          (some (pos 350))
          sysvar
          submit_accounts
          claim
          signed_out.claim_id
          configured
        ≢ err (anchor account_did_not_serialize))
submit_claim_storable_example =
    submit_claim_storable toy_runtime layout toy_sha (some (pos 350)) sysvar submit_accounts claim
      signed_out.claim_id configured claim_size

verify_preceding_ed25519_iff_example :
    (verify_preceding_ed25519 toy_runtime.ed25519_program_id sysvar signed_out.verifier_public_key
        message
      ≡ ok tt)
    ↔ IsPreceded toy_runtime.ed25519_program_id sysvar signed_out.verifier_public_key message
verify_preceding_ed25519_iff_example =
    verify_preceding_ed25519_iff toy_runtime.ed25519_program_id sysvar
      signed_out.verifier_public_key message key_size

verify_preceding_ed25519_sound_example :
    (signature : Bytes) × (length signature ≡ 64)
    × (toy_ed25519.verify signed_out.verifier_public_key message signature ≡ true)
verify_preceding_ed25519_sound_example =
    verify_preceding_ed25519_sound toy_runtime.ed25519_program_id sysvar
      signed_out.verifier_public_key message toy_ed25519.verify has_run key_size accepted

initialize_config_iff_example :
    (initialize_config toy_runtime initialize_accounts signed_out.verifier_public_key
        (pos 300)
        empty
      ≡ ok configured)
    ↔ IsInitialized toy_runtime initialize_accounts signed_out.verifier_public_key
        (pos 300)
        empty
        configured
initialize_config_iff_example =
    initialize_config_iff toy_runtime initialize_accounts signed_out.verifier_public_key (pos 300)
      empty configured

second_initialization_fails :
    initialize_config toy_runtime initialize_accounts submitter.key (pos 5) final ≢ ok final
second_initialization_fails =
    initialize_config_once toy_runtime layout toy_sha toy_ed25519.verify initialize_accounts
      initialize_accounts signed_out.verifier_public_key submitter.key (pos 300) (pos 5) empty
      configured final final initialized (next here submit-Step)

Reach-IsUsable_example :
    IsUsable toy_runtime layout toy_sha toy_ed25519.verify
      (config_address toy_runtime)
      configuration
Reach-IsUsable_example =
    Reach-IsUsable toy_runtime layout toy_sha toy_ed25519.verify configured (next here initial-Step)
      (config_address toy_runtime) configuration held
