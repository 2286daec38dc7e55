-- ===== src/Program/Registry/Offered.antt =====
-- What the registry allows, programs/webproof/src/lib.rs does: the transaction that publishes.
use webproof_solana.Prelude.{
  ◌≡◌, refl, ap, sym, Bool, true, Option, some, none, some-injective, ◌++◌, Bytes, length, ℤ, ok,
  bytes_eq_refl,
}
use webproof_solana.Borsh.{Borsh}
use webproof_solana.Crypto.{Sha256}
use webproof_solana.Core
use webproof_solana.Core.{claim_id, signing_message, validate}
use webproof_solana.Program.State.{try_to_vec, WebProofConfig}
use webproof_solana.Program.Verification.{domain, InstructionsSysvar}
use webproof_solana.Program.Verification.Agreement.{
  to_program, validate→validate_claim, claim_id-digest, signing_message-domain,
}
use webproof_solana.Program.Verification.Transaction.{
  two_instructions, two_instructions-HasRun, verify-two_instructions,
}
use webproof_solana.Program.Ledger.{
  Account, config, verified_claim, Ledger, empty, insert, insert_self, Runtime,
}
use webproof_solana.Program.Instructions.{SubmitClaim, config_seeds, claim_seeds, submit_claim}
use webproof_solana.Program.Instructions.Submit.{recorded, IsSized, submit_claim_iff}
use webproof_solana.Program.Instructions.Initialize.{config_address}
use webproof_solana.Program.Instructions.History.{claim_address, Step, submit, Reach}
use webproof_solana.Program.Instructions.Authentic.{Reach-IsUsable}
use webproof_solana.Program.Registry.{Policy, entry, policy_in, registry}

policy_in→config :
    (x : Option Account) (p : Policy)
    → policy_in x ≡ some p
    → (c : WebProofConfig) × (x ≡ some (config c))
      × (p.verifier_pubkey ≡ c.verifier_pubkey)
      × (p.max_claim_age_seconds ≡ c.max_claim_age_seconds)
policy_in→config none p h = cc
policy_in→config (some (verified_claim v)) p h = cc
policy_in→config (some (config c)) p h =
    let e = some-injective _ _ h in
    (
      c,
      refl,
      sym (ap (λ (q : Policy). q.verifier_pubkey) e),
      sym (ap (λ (q : Policy). q.max_claim_age_seconds) e),
    )

module _ (rt : Runtime) (b : Borsh) (sha : Sha256) (verify : Bytes → Bytes → Bytes → Bool) where
  abbrev publishing : Bytes → Bytes → SubmitClaim
  publishing submitted_by id = record {
    config = config_address rt;
    verified_claim = claim_address rt id;
    verified_claim_is_writable = true;
    submitter = record {
      key = submitted_by;
      is_signer = true;
      is_writable = true;
      is_funded = true;
    };
    instructions = rt.instructions_sysvar_id;
    system_program = rt.system_program_id;
  }

  module _ (l : Ledger) (c : WebProofConfig) (claim : Core.ClaimV1) (submitted_by signature : Bytes)
      (now : ℤ) where
    abbrev id : Bytes
    id = claim_id b sha claim

    abbrev message : Bytes
    message = domain ++ try_to_vec b (to_program claim)

    abbrev transaction : InstructionsSysvar
    transaction = two_instructions rt.ed25519_program_id c.verifier_pubkey signature message

    abbrev grown : Ledger
    grown =
        insert (claim_address rt id)
          (verified_claim (
            recorded (to_program claim) id submitted_by now
              (rt.find_program_address (claim_seeds id)).1))
          l

    submit-publishing :
        l (config_address rt) ≡ some (config c)
        → rt.create_program_address config_seeds c.bump ≡ some (config_address rt)
        → l (claim_address rt id) ≡ none
        → validate claim now c.max_claim_age_seconds ≡ ok tt
        → length c.verifier_pubkey ≡ 32
        → length signature ≡ 64
        → IsSized (publishing submitted_by id) (to_program claim)
        → submit_claim rt b sha
            (some now)
            transaction
            (publishing submitted_by id)
            (to_program claim)
            id
            l
          ≡ ok grown
    submit-publishing held rederived free valid key_size signature_size sized =
        (submit_claim_iff rt b sha (some now) transaction (publishing submitted_by id)
            (to_program claim) id l grown sized).1
          (record {
            now = now;
            configuration = c;
            ticking = refl;
            signing = (refl, refl);
            writable = refl;
            paying = refl;
            system = refl;
            introspecting = refl;
            configured = held;
            config_derived = rederived;
            claim_derived = refl;
            fresh = free;
            valid = validate→validate_claim claim now c.max_claim_age_seconds valid;
            identified = claim_id-digest b sha claim;
            signed =
                verify-two_instructions rt.ed25519_program_id c.verifier_pubkey signature message
                  key_size signature_size;
            stored = refl;
          })

  -- Whatever the registry allows happens: in a reachable ledger whose registry has a policy, and
  -- where the address of the claim's id is free, a claim that crates/webproof-core validates now, of
  -- the Rust type's sizes, with a signature of 64 bytes that verifies under the policy's key, is
  -- published by some instruction, for any submitter: the registry then has its entry under its id.
  pub publishable-Step :
      (l : Ledger) (policy : Policy) (claim : Core.ClaimV1) (submitted_by signature : Bytes)
      (now : ℤ)
      → Reach rt b sha verify empty l
      → (registry rt l).policy ≡ some policy
      → l (claim_address rt (claim_id b sha claim)) ≡ none
      → validate claim now policy.max_claim_age_seconds ≡ ok tt
      → verify policy.verifier_pubkey (signing_message b claim) signature ≡ true
      → length signature ≡ 64
      → length submitted_by ≡ 32
      → length claim.request_path_hash ≡ 32
      → length claim.provenance_hash ≡ 32
      → (l' : Ledger) × Step rt b sha verify l l'
        × ((registry rt l').claims (claim_id b sha claim) ≡ some (entry claim submitted_by now))
  publishable-Step l policy claim submitted_by signature now r set free valid signed signature_size
        submitter_size path_size provenance_size =
      let (c, held, same_key, same_age) = policy_in→config (l (config_address rt)) policy set in
      let usable = Reach-IsUsable rt b sha verify l r (config_address rt) c held in
      (
        grown l c claim submitted_by signature now,
        submit (some now) (transaction l c claim submitted_by signature now)
            (publishing submitted_by (claim_id b sha claim)) (to_program claim)
            (claim_id b sha claim) l (grown l c claim submitted_by signature now)
            (two_instructions-HasRun rt.ed25519_program_id c.verifier_pubkey signature
              (message l c claim submitted_by signature now) usable.sized signature_size verify
              (rw (← same_key, ← signing_message-domain b claim) signed))
            (submit-publishing l c claim submitted_by signature now held usable.rederived free
              (rw (← same_age) valid) usable.sized signature_size
              (record {
                request_path_hash = path_size;
                provenance_hash = provenance_size;
                submitter = submitter_size;
              })),
        rw (insert_self, bytes_eq_refl) refl,
      )
