-- ===== src/Program/Instructions/Submit.antt =====
-- What a successful `submit_claim` of lib.rs has checked and written.
use webproof_solana.Prelude.{
  ℕ, ◌≡◌, ◌≤◌, ◌↔◌, arith, true, Option, none, some, [], ◌++◌, Bytes, length, leb, le→leb,
  length-append, bytes_eq_refl, bytes_eq_iff, opt_bytes_eq→eq, ℤ, pos, ok,
}
use webproof_solana.Borsh.{Borsh}
use webproof_solana.Crypto.{Sha256}
use webproof_solana.Program.State.{
  WebProofConfig, VerifiedClaim, ClaimV1, try_to_vec, try_to_vec_result, serialize_verified_claim,
  verified_claim_init_space,
}
use webproof_solana.Program.Verification.{
  InstructionsSysvar, domain, validate_claim, verify_preceding_ed25519,
}
use webproof_solana.Program.Ledger.{Account, config, verified_claim, Ledger, insert, Runtime}
use webproof_solana.Program.Instructions.{SubmitClaim, config_seeds, claim_seeds, submit_claim}

-- The account that records a claim.
abbrev pub recorded : ClaimV1 → Bytes → Bytes → ℤ → ℕ → VerifiedClaim
recorded claim claim_id submitted_by created_at bump = record {
  claim_id = claim_id;
  source_host = claim.source_host;
  request_path_hash = claim.request_path_hash;
  claim_key = claim.claim_key;
  claim_value = claim.claim_value;
  issued_at = claim.issued_at;
  expires_at = claim.expires_at;
  provenance_hash = claim.provenance_hash;
  submitted_by = submitted_by;
  created_at = created_at;
  bump = bump;
}

module _ (rt : Runtime) (b : Borsh) (sha : Sha256) where
  pub record IsAccepted (clock : Option ℤ) (sysvar : InstructionsSysvar) (ctx : SubmitClaim)
      (claim : ClaimV1) (claim_id : Bytes) (l l' : Ledger) : Type 0 where
    pub now : ℤ
    pub configuration : WebProofConfig
    pub ticking : clock ≡ some now
    pub signing : (ctx.submitter.is_signer ≡ true) × (ctx.submitter.is_writable ≡ true)
    pub writable : ctx.verified_claim_is_writable ≡ true
    pub paying : ctx.submitter.is_funded ≡ true
    pub system : ctx.system_program ≡ rt.system_program_id
    pub introspecting : ctx.instructions ≡ rt.instructions_sysvar_id
    pub configured : l ctx.config ≡ some (config configuration)
    pub config_derived : rt.create_program_address config_seeds configuration.bump ≡ some ctx.config
    pub claim_derived : ctx.verified_claim ≡ (rt.find_program_address (claim_seeds claim_id)).0
    pub fresh : l ctx.verified_claim ≡ none
    pub valid : validate_claim claim now configuration.max_claim_age_seconds ≡ ok tt
    pub identified : claim_id ≡ sha.digest (try_to_vec b claim)
    pub signed :
        verify_preceding_ed25519 rt.ed25519_program_id sysvar configuration.verifier_pubkey
          (domain ++ try_to_vec b claim)
        ≡ ok tt
    pub stored :
        l'
        ≡ insert ctx.verified_claim
            (verified_claim (
              recorded claim claim_id ctx.submitter.key now
                (rt.find_program_address (claim_seeds claim_id)).1))
            l

abbrev pub now_of : Option ℤ → ℤ
now_of none = pos 0
now_of (some t) = t

abbrev pub config_of : Option Account → WebProofConfig
config_of (some (config c)) = c
config_of _ = record {
  authority = [];
  verifier_pubkey = [];
  max_claim_age_seconds = pos 0;
  bump = 0;
}

abbrev pub IsWithin : ClaimV1 → Type 0
IsWithin c =
    (length c.source_host ≤ 128) × (length c.claim_key ≤ 128) × (length c.claim_value ≤ 256)

pub validate_claim-bounds :
    (c : ClaimV1) (now max_age : ℤ) → validate_claim c now max_age ≡ ok tt → IsWithin c
unfolding validate_claim
validate_claim-bounds c now max_age h = ground arith

-- A validated claim fits the space that `init` allocates.
pub recorded_fits :
    (b : Borsh) (c : ClaimV1) (claim_id submitted_by : Bytes) (now : ℤ) (bump : ℕ)
    → IsWithin c
    → length claim_id ≡ 32
    → length c.request_path_hash ≡ 32
    → length c.provenance_hash ≡ 32
    → length submitted_by ≡ 32
    → leb
        (length (serialize_verified_claim b (recorded c claim_id submitted_by now bump)))
        verified_claim_init_space
      ≡ true
unfolding serialize_verified_claim
recorded_fits b c claim_id submitted_by now bump within i r p s =
    simp
      (
        length-append, b.length-put_u8, b.length-put_string, b.length-put_array, b.length-put_i64,
        i, r, p, s,
      )
      (le→leb _ _ (omega arith))

-- The Rust types of the byte arrays that are stored.
pub record IsSized (ctx : SubmitClaim) (claim : ClaimV1) : Type 0 where
  pub request_path_hash : length claim.request_path_hash ≡ 32
  pub provenance_hash : length claim.provenance_hash ≡ 32
  pub submitter : length ctx.submitter.key ≡ 32

module _ (rt : Runtime) (b : Borsh) (sha : Sha256) (clock : Option ℤ) (sysvar : InstructionsSysvar)
    (ctx : SubmitClaim) (claim : ClaimV1) (claim_id : Bytes) (l l' : Ledger) where
  pub submit→IsAccepted :
      submit_claim rt b sha clock sysvar ctx claim claim_id l ≡ ok l'
      → IsAccepted rt b sha clock sysvar ctx claim claim_id l l'
  unfolding submit_claim try_to_vec_result
  submit→IsAccepted h = record {
    now = now_of clock;
    configuration = config_of (l ctx.config);
    ticking = ground arith;
    signing = ground arith;
    writable = ground arith;
    paying = ground arith;
    system = (bytes_eq_iff _ _).0 (ground arith);
    introspecting = (bytes_eq_iff _ _).0 (ground arith);
    configured = ground arith;
    config_derived = opt_bytes_eq→eq _ _ (ground arith);
    claim_derived = (bytes_eq_iff _ _).0 (ground arith);
    fresh = ground arith;
    valid = ground arith;
    identified = (bytes_eq_iff _ _).0 (ground arith);
    signed = ground arith;
    stored = ground arith;
  }

  IsAccepted→submit :
      IsSized ctx claim
      → IsAccepted rt b sha clock sysvar ctx claim claim_id l l'
      → submit_claim rt b sha clock sysvar ctx claim claim_id l ≡ ok l'
  unfolding submit_claim try_to_vec_result
  IsAccepted→submit sized s = ground (
    arith,
    s.signing,
    bytes_eq_refl rt.system_program_id,
    bytes_eq_refl rt.instructions_sysvar_id,
    bytes_eq_refl (rt.find_program_address (claim_seeds claim_id)).0,
    bytes_eq_refl ctx.config,
    bytes_eq_refl (sha.digest (try_to_vec b claim)),
    bytes_eq_refl claim_id,
    validate_claim-bounds claim s.now s.configuration.max_claim_age_seconds s.valid,
    recorded_fits b claim claim_id ctx.submitter.key s.now
        (rt.find_program_address (claim_seeds claim_id)).1
        (validate_claim-bounds claim s.now s.configuration.max_claim_age_seconds s.valid)
        (rw s.identified (sha.digest-IsArray _).sized) sized.request_path_hash sized.provenance_hash
        sized.submitter,
  )

  -- For byte arrays of the Rust types' sizes, `submit_claim` succeeds with a new ledger exactly if:
  -- the submitter has signed, is writable and can pay, the programs and the sysvar are the right
  -- ones, the config account is the derived one and holds a configuration, the claim account is passed
  -- as writable, has the address derived from the claim id and is free, the claim is valid at the clock's time for
  -- the configured age, the claim id is the SHA-256 of the claim's bytes, and the preceding
  -- instruction passes the Ed25519 check for the configured key and the domain-separated bytes; and
  -- the new ledger is the old one with the claim's fields, the submitter, the time and the bump
  -- recorded at the claim account's address.
  pub submit_claim_iff :
      IsSized ctx claim
      → (submit_claim rt b sha clock sysvar ctx claim claim_id l ≡ ok l')
        ↔ IsAccepted rt b sha clock sysvar ctx claim claim_id l l'
  submit_claim_iff sized = (submit→IsAccepted, IsAccepted→submit sized)
