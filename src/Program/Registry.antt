-- ===== src/Program/Registry.antt =====
-- What programs/webproof is for, without accounts, addresses and transactions: a registry of signed
-- claims by their ids, under the rules of crates/webproof-core.
pub mod Refined
pub mod Offered
use webproof_solana.Prelude.{
  ◌≡◌, Bool, true, Option, none, some, Bytes, bytes_eq, length, ◌<ℤ◌, ℤ, pos, ok, if◌then◌else◌,
}
use webproof_solana.Borsh.{Borsh}
use webproof_solana.Crypto.{Sha256}
use webproof_solana.Core.{ClaimV1, claim_id, signing_message, validate}
use webproof_solana.Program.State.{WebProofConfig, VerifiedClaim}
use webproof_solana.Program.Ledger.{Account, config, verified_claim, Ledger, Runtime}
use webproof_solana.Program.Instructions.Initialize.{config_address}
use webproof_solana.Program.Instructions.History.{claim_address}

-- Whose signatures count, and how old a claim may be.
pub record Policy : Type 0 where
  pub authority : Bytes
  pub verifier_pubkey : Bytes
  pub max_claim_age_seconds : ℤ

-- What the registry tells about a claim id.
pub record Entry : Type 0 where
  pub source_host : Bytes
  pub request_path_hash : Bytes
  pub claim_key : Bytes
  pub claim_value : Bytes
  pub issued_at : ℤ
  pub expires_at : ℤ
  pub provenance_hash : Bytes
  pub submitted_by : Bytes
  pub created_at : ℤ

pub record Registry : Type 0 where
  pub policy : Option Policy
  pub claims : Bytes → Option Entry

abbrev pub empty_registry : Registry
empty_registry = record { policy = none; claims = λ id. none }

abbrev pub entry : ClaimV1 → Bytes → ℤ → Entry
entry c submitted_by created_at = record {
  source_host = c.source_host;
  request_path_hash = c.request_path_hash;
  claim_key = c.claim_key;
  claim_value = c.claim_value;
  issued_at = c.issued_at;
  expires_at = c.expires_at;
  provenance_hash = c.provenance_hash;
  submitted_by = submitted_by;
  created_at = created_at;
}

abbrev pub with_entry : Bytes → Entry → (Bytes → Option Entry) → Bytes → Option Entry
with_entry id e claims i = if bytes_eq i id then some e else claims i

module _ (b : Borsh) (sha : Sha256) (verify : Bytes → Bytes → Bytes → Bool) where
  -- The two things that happen to a registry: it gets its policy, once; and it gets a claim that is
  -- valid by the rules of the core library and signed under the policy's key, under an id that has
  -- none.
  pub data Event (r r' : Registry) : Type 0 where
    configured :
        (policy : Policy)
        → r.policy ≡ none
        → length policy.verifier_pubkey ≡ 32
        → pos 0 <ℤ policy.max_claim_age_seconds
        → r'.policy ≡ some policy
        → ((id : Bytes) → r'.claims id ≡ r.claims id)
        → Event r r'
    published :
        (policy : Policy) (claim : ClaimV1) (submitter signature : Bytes) (now : ℤ)
        → r.policy ≡ some policy
        → r.claims (claim_id b sha claim) ≡ none
        → validate claim now policy.max_claim_age_seconds ≡ ok tt
        → verify policy.verifier_pubkey (signing_message b claim) signature ≡ true
        → r'.policy ≡ r.policy
        → ((id : Bytes)
            → r'.claims id
              ≡ with_entry (claim_id b sha claim) (entry claim submitter now) r.claims id)
        → Event r r'

  pub data Events (r : Registry) : Registry → Type 0 where
    start : Events r r
    then_one : {s t : Registry} → Events r s → Event s t → Events r t

-- The registry that a ledger stands for: the account at the derived address tells the policy, and
-- the one at the address of an id tells its claim, if it is a claim with that id.
abbrev pub policy_in : Option Account → Option Policy
policy_in (some (config c)) = some (record {
  authority = c.authority;
  verifier_pubkey = c.verifier_pubkey;
  max_claim_age_seconds = c.max_claim_age_seconds;
})
policy_in _ = none

abbrev pub entry_of : VerifiedClaim → Entry
entry_of v = record {
  source_host = v.source_host;
  request_path_hash = v.request_path_hash;
  claim_key = v.claim_key;
  claim_value = v.claim_value;
  issued_at = v.issued_at;
  expires_at = v.expires_at;
  provenance_hash = v.provenance_hash;
  submitted_by = v.submitted_by;
  created_at = v.created_at;
}

abbrev pub entry_in : Bytes → Option Account → Option Entry
entry_in id (some (verified_claim v)) = if bytes_eq id v.claim_id then some (entry_of v) else none
entry_in id _ = none

module _ (rt : Runtime) where
  abbrev pub registry : Ledger → Registry
  registry l = record {
    policy = policy_in (l (config_address rt));
    claims = λ id. entry_in id (l (claim_address rt id));
  }
