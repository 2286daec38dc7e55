-- ===== src/Program/Instructions.antt =====
-- programs/webproof/src/lib.rs: the two instructions with their accounts structs. What Anchor
-- checks by itself comes before a handler's body; an error leaves the ledger as it was.
pub mod Initialize
pub mod Submit
pub mod Storable
pub mod Failures
pub mod History
pub mod Authentic
use webproof_solana.Prelude.{
  ℕ, Bool, Option, [], ◌∷◌, ◌++◌, Bytes, codes, length, leb, bytes_eq, opt_bytes_eq, ℤ, pos, ltb_ℤ,
  Result, ok, err, ◌>>=◌, ◌>>◌, ◌&&◌, require, ok_or, map_err, List, none, some,
}
use webproof_solana.Borsh.{Borsh}
use webproof_solana.Crypto.{Sha256}
use webproof_solana.Program.Errors.{
  invalid_max_age, claim_id_mismatch, serialization, AnchorError, account_not_initialized,
  account_discriminator_mismatch, account_not_signer, invalid_program_id, constraint_seeds,
  constraint_address, constraint_mut, account_already_in_use, insufficient_funds,
  privilege_escalation, account_did_not_serialize, unsupported_sysvar, Failure, web_proof, anchor,
}
use webproof_solana.Program.State.{
  WebProofConfig, VerifiedClaim, ClaimV1, verified_claim_init_space, try_to_vec_result,
  serialize_verified_claim,
}
use webproof_solana.Program.Verification.{
  InstructionsSysvar, domain, validate_claim, verify_preceding_ed25519,
}
use webproof_solana.Program.Ledger.{Account, Ledger, insert, is_free, Runtime}

-- A signer as passed, and whether it can pay the rent of a new account.
pub record Signer : Type 0 where
  pub key : Bytes
  pub is_signer : Bool
  pub is_writable : Bool
  pub is_funded : Bool

pub record InitializeConfig : Type 0 where
  pub config : Bytes
  pub config_is_writable : Bool
  pub authority : Signer
  pub system_program : Bytes

pub record SubmitClaim : Type 0 where
  pub config : Bytes
  pub verified_claim : Bytes
  pub verified_claim_is_writable : Bool
  pub submitter : Signer
  pub instructions : Bytes
  pub system_program : Bytes

abbrev pub config_seeds : List Bytes
config_seeds = codes "config" ∷ []

abbrev pub claim_seeds : Bytes → List Bytes
claim_seeds claim_id = codes "claim" ∷ claim_id ∷ []

load_config : Option Account → Result AnchorError WebProofConfig
load_config none = err account_not_initialized
load_config (some (Account.config c)) = ok c
load_config (some (Account.verified_claim v)) = err account_discriminator_mismatch

module _ (rt : Runtime) where
  -- `#[account(init, payer, seeds, bump)]`: the address must be the derived one, and free; the call of
  -- the system program writes to it and to the payer, so that both must be passed as writable.
  init_account : List Bytes → Bytes → Bool → Signer → Ledger → Result AnchorError ℕ
  init_account seeds address is_writable payer l = do
    require (bytes_eq address (rt.find_program_address seeds).0) constraint_seeds
    require (payer.is_writable && is_writable) privilege_escalation
    require (is_free (l address)) account_already_in_use
    require payer.is_funded insufficient_funds
    ok (rt.find_program_address seeds).1

  -- The accounts of `initialize_config`; the result is the bump of the new account.
  initialize_config_accounts : InitializeConfig → Ledger → Result AnchorError ℕ
  unfolding init_account
  initialize_config_accounts ctx l = do
    require ctx.authority.is_signer account_not_signer
    require (bytes_eq ctx.system_program rt.system_program_id) invalid_program_id
    bump ← init_account config_seeds ctx.config ctx.config_is_writable ctx.authority l
    require ctx.authority.is_writable constraint_mut
    ok bump

  unfoldable pub initialize_config : InitializeConfig → Bytes → ℤ → Ledger → Result Failure Ledger
  unfolding initialize_config_accounts
  initialize_config ctx verifier_pubkey max_claim_age_seconds l = do
    bump ← map_err anchor (initialize_config_accounts ctx l)
    require (ltb_ℤ (pos 0) max_claim_age_seconds) (web_proof invalid_max_age)
    let c = Account.config (record {
      authority = ctx.authority.key;
      verifier_pubkey = verifier_pubkey;
      max_claim_age_seconds = max_claim_age_seconds;
      bump = bump;
    })
    ok (insert ctx.config c l)

  -- The accounts of `submit_claim`; the result is the configuration and the new account's bump.
  pub submit_claim_accounts : SubmitClaim → Bytes → Ledger → Result AnchorError (WebProofConfig × ℕ)
  unfolding load_config init_account
  submit_claim_accounts ctx claim_id l = do
    c ← load_config (l ctx.config)
    require ctx.submitter.is_signer account_not_signer
    require (bytes_eq ctx.system_program rt.system_program_id) invalid_program_id
    bump ←
        init_account (claim_seeds claim_id) ctx.verified_claim ctx.verified_claim_is_writable
          ctx.submitter l
    require (opt_bytes_eq (rt.create_program_address config_seeds c.bump) ctx.config)
        constraint_seeds
    require ctx.submitter.is_writable constraint_mut
    require (bytes_eq ctx.instructions rt.instructions_sysvar_id) constraint_address
    ok (c, bump)

  module _ (b : Borsh) (sha : Sha256) where
    -- The body of the handler, from the clock's answer to the account that is written. At the exit
    -- Anchor writes the account into its space.
    pub submit_claim_body :
        Option ℤ
        → InstructionsSysvar
        → SubmitClaim
        → WebProofConfig
        → ℕ
        → ClaimV1
        → Bytes
        → Result Failure VerifiedClaim
    submit_claim_body clock sysvar ctx config bump claim claim_id = do
      now ← ok_or clock (anchor unsupported_sysvar)
      map_err web_proof (validate_claim claim now config.max_claim_age_seconds)
      bytes ← ok_or (try_to_vec_result b claim) (web_proof serialization)
      require (bytes_eq claim_id (sha.digest bytes)) (web_proof claim_id_mismatch)
      map_err web_proof (
          verify_preceding_ed25519 rt.ed25519_program_id sysvar config.verifier_pubkey
            (domain ++ bytes))
      ok (record {
        claim_id = claim_id;
        source_host = claim.source_host;
        request_path_hash = claim.request_path_hash;
        claim_key = claim.claim_key;
        claim_value = claim.claim_value;
        issued_at = claim.issued_at;
        expires_at = claim.expires_at;
        provenance_hash = claim.provenance_hash;
        submitted_by = ctx.submitter.key;
        created_at = now;
        bump = bump;
      })

    unfoldable pub submit_claim :
        Option ℤ
        → InstructionsSysvar
        → SubmitClaim
        → ClaimV1
        → Bytes
        → Ledger
        → Result Failure Ledger
    unfolding submit_claim_accounts submit_claim_body
    submit_claim clock sysvar ctx claim claim_id l = do
      (config, bump) ← map_err anchor (submit_claim_accounts ctx claim_id l)
      out ← submit_claim_body clock sysvar ctx config bump claim claim_id
      require (leb (length (serialize_verified_claim b out)) verified_claim_init_space)
          (anchor account_did_not_serialize)
      ok (insert ctx.verified_claim (Account.verified_claim out) l)
