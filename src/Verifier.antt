-- ===== src/Verifier.antt =====
-- crates/webproof-verifier/src/lib.rs: the signer, which sees only what a proof verifier has passed.
-- `serde_json` and `url` are parameters; the laws stand in the modules below.
pub mod Signing
pub mod Typed
pub mod Failures
pub mod OnChain
pub mod Pipeline
use webproof_solana.Prelude.{
  ℕ, ◌||◌, Bool, true, false, not, Option, none, some, Bytes, codes, bytes_eq, opt_bytes_eq, ℤ,
  saturating_add, Result, ok, err, ◌>>=◌, ◌>>◌, require, ok_or, map_err,
}
use webproof_solana.Borsh.{Borsh}
use webproof_solana.Crypto.{Sha256, Ed25519}
use webproof_solana.Core.{ClaimV1, ClaimError, claim_version, validate, claim_id, signing_message}

-- The variants of `serde_json::Value`, with the text that `to_string` makes of a number.
pub data JsonView : Type 0 where
  null array object : JsonView
  bool : Bool → JsonView
  number string : Bytes → JsonView

-- What the code takes from `serde_json`.
pub record Json : Type 1 where
  pub Value : Type 0
  pub pointer : Value → Bytes → Option Value
  pub view : Value → JsonView

-- A `url::Url`, by what the code reads from it.
pub record Url : Type 0 where
  pub scheme : Bytes
  pub username : Bytes
  pub password : Option Bytes
  pub host_str : Option Bytes
  pub port : Option ℕ
  pub path : Bytes
  pub query : Option Bytes
  pub as_str : Bytes

pub data Error : Type 0 where
  tlsn host field : Error
  claim : ClaimError → Error

pub record SignedClaim : Type 0 where
  pub claim : ClaimV1
  pub claim_id : Bytes
  pub signature : Bytes
  pub verifier_public_key : Bytes
  pub tlsn_artifact_hash : Bytes

-- Its key is the seed of the signing key.
pub record ClaimSigner : Type 0 where
  pub key : Bytes

pub record VerifiedTlsData (json : Json) : Type 0 where
  pub host : Bytes
  pub path : Bytes
  pub response : json.Value
  pub artifact : Bytes

-- Its fields are read by `host`, `path` and `response`; only a proof verifier constructs it.
abbrev pub from_verified_presentation :
    {json : Json} → Bytes → Bytes → json.Value → Bytes → VerifiedTlsData json
from_verified_presentation host' path response artifact = record {
  host = host';
  path = path;
  response = response;
  artifact = artifact;
}

-- The trait, with the error type of an implementation.
pub record TlsnProofVerifier (json : Json) (E : Type 0) : Type 0 where
  pub verify : Bytes → Result E (VerifiedTlsData json)

-- The text of a scalar.
unfoldable pub scalar : JsonView → Option Bytes
scalar (JsonView.string s) = some s
scalar (JsonView.number n) = some n
scalar (JsonView.bool true) = some (codes "true")
scalar (JsonView.bool false) = some (codes "false")
scalar JsonView.null = some (codes "null")
scalar JsonView.array = none
scalar JsonView.object = none

module _ (json : Json) (b : Borsh) (sha : Sha256) (ed : Ed25519) where
  -- The claim that the signer builds from verified data.
  unfoldable pub build_claim : VerifiedTlsData json → Bytes → Bytes → ℤ → ℤ → Bytes → ClaimV1
  build_claim d field_name value now ttl nonce = record {
    version = claim_version;
    source_host = d.host;
    request_path_hash = sha.digest d.path;
    claim_key = field_name;
    claim_value = value;
    issued_at = now;
    expires_at = saturating_add now ttl;
    nonce = nonce;
    provenance_hash = sha.digest d.artifact;
  }

  unfoldable pub sign_verified :
      ClaimSigner → VerifiedTlsData json → Url → Bytes → ℤ → ℤ → Bytes → Result Error SignedClaim
  unfolding build_claim
  sign_verified self d expected_url field_name now ttl nonce = do
    require
        (not (
          not (bytes_eq expected_url.scheme (codes "https"))
          || not (opt_bytes_eq expected_url.host_str d.host)))
        Error.host
    value ← ok_or (json.pointer d.response field_name) Error.field
    value ← ok_or (scalar (json.view value)) Error.field
    let claim = build_claim d field_name value now ttl nonce
    map_err Error.claim (validate claim now ttl)
    let signature = ed.sign self.key (signing_message b claim)
    ok (record {
      claim = claim;
      claim_id = claim_id b sha claim;
      signature = signature;
      verifier_public_key = ed.verifying_key self.key;
      tlsn_artifact_hash = sha.digest d.artifact;
    })

  unfoldable pub verify_and_sign :
      {E : Type 0}
      → ClaimSigner
      → TlsnProofVerifier json E
      → Bytes
      → Url
      → Bytes
      → ℤ
      → ℤ
      → Bytes
      → Result Error SignedClaim
  verify_and_sign self verifier artifact expected_url field_name now ttl nonce = do
    verified ← map_err (λ _. Error.tlsn) (verifier.verify artifact)
    sign_verified self verified expected_url field_name now ttl nonce
