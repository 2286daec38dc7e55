-- ===== src/Examples/Registries.antt =====
-- The theorems about the registry on the small chain.
use webproof_solana.Prelude.{
  ◌≡◌, refl, ap, sym, subst, true, some, pos, ok, saturating_add, saturating_sub,
}
use webproof_solana.Borsh.Layout.{layout}
use webproof_solana.Core.{claim_id, signing_message, validate}
use webproof_solana.Program.Verification.Agreement.{signing_message-domain}
use webproof_solana.Program.Ledger.{Ledger}
use webproof_solana.Program.Instructions.History.{Step, here, next}
use webproof_solana.Program.Registry.{Policy, Events, empty_registry, registry, entry, policy_in}
use webproof_solana.Program.Registry.Refined.{Reach-Events}
use webproof_solana.Program.Registry.Offered.{publishable-Step}
use webproof_solana.Examples.{toy_sha, toy_ed25519, toy_runtime, signed_out}
use webproof_solana.Examples.Chain.{
  submitter, configured, final, initial-Step, submit-Step, fresh, held, signature_size, claim_size,
  verifies,
}

Reach-Events_example :
    Events layout toy_sha toy_ed25519.verify empty_registry (registry toy_runtime final)
Reach-Events_example =
    Reach-Events toy_runtime layout toy_sha toy_ed25519.verify final
      (next (next here initial-Step) submit-Step)

abbrev policy : Policy
policy = record {
  authority = submitter.key;
  verifier_pubkey = signed_out.verifier_public_key;
  max_claim_age_seconds = pos 300;
}

signed_in_core :
    toy_ed25519.verify policy.verifier_pubkey
      (signing_message layout signed_out.claim)
      signed_out.signature
    ≡ true
signed_in_core =
    subst (λ m. toy_ed25519.verify policy.verifier_pubkey m signed_out.signature ≡ true)
      (sym (signing_message-domain layout signed_out.claim)) verifies

valid_now : validate signed_out.claim (pos 350) (pos 300) ≡ ok tt
unfolding validate saturating_add saturating_sub
valid_now = refl

publishable-Step_example :
    (l' : Ledger) × Step toy_runtime layout toy_sha toy_ed25519.verify configured l'
    × ((registry toy_runtime l').claims (claim_id layout toy_sha signed_out.claim)
        ≡ some (entry signed_out.claim submitter.key (pos 350)))
publishable-Step_example =
    publishable-Step toy_runtime layout toy_sha toy_ed25519.verify configured policy
      signed_out.claim submitter.key signed_out.signature (pos 350) (next here initial-Step)
      (ap policy_in held) fresh valid_now signed_in_core signature_size refl
      claim_size.request_path_hash claim_size.provenance_hash
