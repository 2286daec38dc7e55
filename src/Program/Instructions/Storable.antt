-- ===== src/Program/Instructions/Storable.antt =====
-- The failures that `submit_claim` of lib.rs never shows: a validated claim can be serialized, and
-- it fits the space of its account.
use webproof_solana.Prelude.{
  ℕ, ◌≡◌, arith, Option, ◌++◌, Bytes, bytes_eq_iff, ℤ, err, ◌≢◌, ◌⊎◌, inl, inr, Result-cases,
}
use webproof_solana.Borsh.{Borsh}
use webproof_solana.Crypto.{Sha256}
use webproof_solana.Program.Errors.{
  WebProofError, web_proof, anchor, serialization, account_did_not_serialize,
}
use webproof_solana.Program.State.{ClaimV1, try_to_vec, try_to_vec_result}
use webproof_solana.Program.Verification.{
  InstructionsSysvar, domain, validate_claim, verify_preceding_ed25519, check_ed25519_data, u16_at,
}
use webproof_solana.Program.Ledger.{Ledger, Runtime}
use webproof_solana.Program.Instructions.{SubmitClaim, claim_seeds, submit_claim}
use webproof_solana.Program.Instructions.Submit.{
  IsWithin, validate_claim-bounds, recorded_fits, IsSized, now_of, config_of,
}

validate_claim-ne-serialization :
    (c : ClaimV1) (now max_age : ℤ) → validate_claim c now max_age ≢ err serialization
unfolding validate_claim
validate_claim-ne-serialization c now max_age h = ground arith

u16_at-ne-serialization : (d : Bytes) (i : ℕ) → u16_at d i ≢ err serialization
unfolding u16_at
u16_at-ne-serialization d i h = ground arith

check-ne-serialization :
    (d key message : Bytes) → check_ed25519_data d key message ≢ err serialization
unfolding check_ed25519_data
check-ne-serialization d key message h = ground (
  arith,
  u16_at-ne-serialization d 2,
  u16_at-ne-serialization d 4,
  u16_at-ne-serialization d 6,
  u16_at-ne-serialization d 8,
  u16_at-ne-serialization d 10,
  u16_at-ne-serialization d 12,
  u16_at-ne-serialization d 14,
)

verify-ne-serialization :
    (program_id : Bytes) (sysvar : InstructionsSysvar) (key message : Bytes)
    → verify_preceding_ed25519 program_id sysvar key message ≢ err serialization
unfolding verify_preceding_ed25519
verify-ne-serialization program_id sysvar key message h = grind (arith, check-ne-serialization)

module _ (rt : Runtime) (b : Borsh) (sha : Sha256) (clock : Option ℤ) (sysvar : InstructionsSysvar)
    (ctx : SubmitClaim) (claim : ClaimV1) (claim_id : Bytes) (l : Ledger) where
  bounds_here :
      ((e : WebProofError) × (validate_claim claim
            (now_of clock)
            (config_of (l ctx.config)).max_claim_age_seconds
          ≡ err e))
      ⊎ IsWithin claim
  bounds_here =
      elim (Result-cases
        (validate_claim claim (now_of clock) (config_of (l ctx.config)).max_claim_age_seconds)) [
          | inl (u, e) ↦ inr (
              validate_claim-bounds claim (now_of clock)
                (config_of (l ctx.config)).max_claim_age_seconds e)
          | inr failed ↦ inl failed
        ]

  submit-ne-serialization :
      submit_claim rt b sha clock sysvar ctx claim claim_id l ≢ err (web_proof serialization)
  unfolding submit_claim try_to_vec_result
  submit-ne-serialization h = ground (
    arith,
    bounds_here,
    validate_claim-ne-serialization claim (now_of clock)
        (config_of (l ctx.config)).max_claim_age_seconds,
    verify-ne-serialization rt.ed25519_program_id sysvar (config_of (l ctx.config)).verifier_pubkey
        (domain ++ try_to_vec b claim),
  )

  submit-ne-did_not_serialize :
      IsSized ctx claim
      → submit_claim rt b sha clock sysvar ctx claim claim_id l
        ≢ err (anchor account_did_not_serialize)
  unfolding submit_claim try_to_vec_result
  submit-ne-did_not_serialize sized h = ground (
    arith,
    bounds_here,
    bytes_eq_iff claim_id (sha.digest (try_to_vec b claim)),
    (sha.digest-IsArray (try_to_vec b claim)).sized,
    sized.request_path_hash,
    sized.provenance_hash,
    sized.submitter,
    recorded_fits b claim claim_id ctx.submitter.key (now_of clock)
        (rt.find_program_address (claim_seeds claim_id)).1,
  )

  -- For byte arrays of the Rust types' sizes, `submit_claim` fails neither by the error for a
  -- claim that cannot be serialized, nor because the account to write is larger than the space
  -- that `init` allocates.
  pub submit_claim_storable :
      IsSized ctx claim
      → (submit_claim rt b sha clock sysvar ctx claim claim_id l ≢ err (web_proof serialization))
        × (submit_claim rt b sha clock sysvar ctx claim claim_id l
            ≢ err (anchor account_did_not_serialize))
  submit_claim_storable sized = (submit-ne-serialization, submit-ne-did_not_serialize sized)
