-- ===== src/Program/Instructions/Failures.antt =====
-- How `submit_claim` of lib.rs fails with an error of the program.
use webproof_solana.Prelude.{
  ℕ, failed, map_err, map_err-eq-ok, ◌≡◌, ◌≢◌, ◌⊎◌, arith, Option, some, ◌++◌, Bytes, bytes_eq,
  Bool-cases, ◌∙◌, bytes_eq_iff, ℤ, ok, err, inl, inr, Result-cases, ap,
}
use webproof_solana.Borsh.{Borsh}
use webproof_solana.Crypto.{Sha256}
use webproof_solana.Program.Errors.{WebProofError, web_proof, anchor, claim_id_mismatch}
use webproof_solana.Program.State.{WebProofConfig, ClaimV1, try_to_vec, try_to_vec_result}
use webproof_solana.Program.Verification.{
  InstructionsSysvar, domain, validate_claim, verify_preceding_ed25519,
}
use webproof_solana.Program.Ledger.{config, Ledger, Runtime}
use webproof_solana.Program.Instructions.{
  SubmitClaim, submit_claim, submit_claim_accounts, submit_claim_body,
}
use webproof_solana.Program.Instructions.Submit.{validate_claim-bounds, now_of}

module _ (rt : Runtime) (b : Borsh) (sha : Sha256) (clock : Option ℤ) (sysvar : InstructionsSysvar)
    (ctx : SubmitClaim) (claim : ClaimV1) (claim_id : Bytes) (l : Ledger) where
  -- The checks of the body, in their order, with the configuration and the time that they use.
  pub record IsRejected (e : WebProofError) : Type 0 where
    pub now : ℤ
    pub configuration : WebProofConfig
    pub ticking : clock ≡ some now
    pub configured : l ctx.config ≡ some (config configuration)
    pub why :
        (validate_claim claim now configuration.max_claim_age_seconds ≡ err e)
        ⊎ ((e ≡ claim_id_mismatch)
            × (claim_id ≢ sha.digest (try_to_vec b claim))
            × (validate_claim claim now configuration.max_claim_age_seconds ≡ ok tt))
        ⊎ ((verify_preceding_ed25519 rt.ed25519_program_id sysvar configuration.verifier_pubkey
                (domain ++ try_to_vec b claim)
              ≡ err e)
            × (claim_id ≡ sha.digest (try_to_vec b claim))
            × (validate_claim claim now configuration.max_claim_age_seconds ≡ ok tt))

  -- The account checks, when they pass.
  accounts→configured :
      (c : WebProofConfig) (bump : ℕ)
      → submit_claim_accounts rt ctx claim_id l ≡ ok (c, bump)
      → l ctx.config ≡ some (config c)
  unfolding submit_claim_accounts
  accounts→configured c bump h = ground arith

  body→IsRejected :
      (c : WebProofConfig) (bump : ℕ) (e : WebProofError)
      → l ctx.config ≡ some (config c)
      → submit_claim_body rt b sha clock sysvar ctx c bump claim claim_id ≡ err (web_proof e)
      → IsRejected e
  unfolding submit_claim_body try_to_vec_result
  body→IsRejected c bump e configured h = record {
    now = now_of clock;
    configuration = c;
    ticking = ground arith;
    configured = configured;
    why = elim (Result-cases (validate_claim claim (now_of clock) c.max_claim_age_seconds)) [
      | inr (e', invalid) ↦ let same : e' ≡ e = ground arith in inl (invalid ∙ ap err same)
      | inl (u, valid) ↦
          let within = validate_claim-bounds claim (now_of clock) c.max_claim_age_seconds valid in
          elim (Bool-cases (bytes_eq claim_id (sha.digest (try_to_vec b claim)))) [
            | inl own ↦ inr (inr (ground arith, (bytes_eq_iff _ _).0 own, valid))
            | inr other ↦ inr (
                inl (ground arith, λ same. ground (arith, other, (bytes_eq_iff _ _).1 same), valid))
          ]
    ];
  }

  -- An error of the program that `submit_claim` gives is, at the clock's time and for the stored
  -- configuration, that of the claim's validation; or the mismatch of the id of a valid claim; or,
  -- for a valid claim with its own id, that of the search for its signature.
  pub submit_claim-IsRejected :
      (e : WebProofError)
      → submit_claim rt b sha clock sysvar ctx claim claim_id l ≡ err (web_proof e)
      → IsRejected e
  unfolding submit_claim try_to_vec_result
  submit_claim-IsRejected e h =
      elim (failed (map_err anchor (submit_claim_accounts rt ctx claim_id l)) _ h) [
        | inl refused ↦ absurd (ground arith)
        | inr ((c, bump), passed_accounts, rest) ↦
            elim (failed (submit_claim_body rt b sha clock sysvar ctx c bump claim claim_id) _
              rest) [
                | inl why ↦
                    body→IsRejected c bump e
                      (accounts→configured c bump (map_err-eq-ok anchor _ passed_accounts)) why
                | inr (v, done, written) ↦ absurd (ground (arith, written))
              ]
      ]
