-- ===== src/Core.antt =====
-- crates/webproof-core/src/lib.rs: the claim, its canonical bytes and its validation. Strings are
-- their UTF-8 bytes, `i64` is an integer, and the laws stand in the modules below.
pub mod Encoding
pub mod Validity
use webproof_solana.Prelude.{
  ℕ, String, ◌≡◌, Bool, Option, none, some, [], ◌++◌, ◌||◌, Bytes, codes, is_empty, length as len,
  ltb, ◌==◌, if◌then◌else◌, ℤ, pos, ltb_ℤ, leb_ℤ, saturating_add, saturating_sub, Result, ok, err,
  ◌>>◌, IsByte, IsText, IsArray, IsI64, not, require,
}
use webproof_solana.Borsh
use webproof_solana.Borsh.{Borsh, Decoder, pure, ◌>>=◌}
use webproof_solana.Crypto.{Sha256}

abbrev pub claim_version : ℕ
claim_version = 1

abbrev pub domain_separator : Bytes
domain_separator = codes "WEBPROOF_SOLANA_CLAIM_V1"

abbrev pub max_source_host : ℕ
max_source_host = 128

abbrev pub max_claim_key : ℕ
max_claim_key = 128

abbrev pub max_claim_value : ℕ
max_claim_value = 256

abbrev pub max_future_skew_seconds : ℤ
max_future_skew_seconds = pos 30

pub record ClaimV1 : Type 0 where
  pub version : ℕ
  pub source_host : Bytes
  pub request_path_hash : Bytes
  pub claim_key : Bytes
  pub claim_value : Bytes
  pub issued_at : ℤ
  pub expires_at : ℤ
  pub nonce : Bytes
  pub provenance_hash : Bytes

-- What the Rust types of the fields say.
pub record IsTyped (c : ClaimV1) : Type 0 where
  pub version : IsByte c.version
  pub source_host : IsText c.source_host
  pub request_path_hash : IsArray 32 c.request_path_hash
  pub claim_key : IsText c.claim_key
  pub claim_value : IsText c.claim_value
  pub issued_at : IsI64 c.issued_at
  pub expires_at : IsI64 c.expires_at
  pub nonce : IsArray 32 c.nonce
  pub provenance_hash : IsArray 32 c.provenance_hash

pub data ClaimError : Type 0 where
  version : ClaimError
  length : String → ClaimError
  time_window expired future too_old : ClaimError

module _ (b : Borsh) where
  -- The derived `BorshSerialize`: the fields in their order.
  unfoldable pub canonical_bytes : ClaimV1 → Bytes
  canonical_bytes c =
      b.put_u8 c.version
      ++ (b.put_string c.source_host
          ++ (b.put_array c.request_path_hash
              ++ (b.put_string c.claim_key
                  ++ (b.put_string c.claim_value
                      ++ (b.put_i64 c.issued_at
                          ++ (b.put_i64 c.expires_at
                              ++ (b.put_array c.nonce ++ b.put_array c.provenance_hash)))))))

  -- The derived `BorshDeserialize`.
  pub deserialize : Decoder ClaimV1
  deserialize = do
    version' ← b.get_u8
    source_host ← b.get_string
    request_path_hash ← b.get_array 32
    claim_key ← b.get_string
    claim_value ← b.get_string
    issued_at ← b.get_i64
    expires_at ← b.get_i64
    nonce ← b.get_array 32
    provenance_hash ← b.get_array 32
    pure (record {
      version = version';
      source_host = source_host;
      request_path_hash = request_path_hash;
      claim_key = claim_key;
      claim_value = claim_value;
      issued_at = issued_at;
      expires_at = expires_at;
      nonce = nonce;
      provenance_hash = provenance_hash;
    })

  -- `borsh::from_slice`, which refuses bytes left over.
  pub from_slice : Bytes → Option ClaimV1
  from_slice bytes = elim (deserialize bytes) [
    | none ↦ none
    | some (c, rest) ↦ if is_empty rest then some c else none
  ]

  unfoldable pub signing_message : ClaimV1 → Bytes
  signing_message c = let bytes = canonical_bytes c in domain_separator ++ bytes

  unfoldable pub claim_id : Sha256 → ClaimV1 → Bytes
  claim_id sha c = sha.digest (canonical_bytes c)

pub bounded : Bytes → ℕ → String → Result ClaimError (Unit {0})
bounded value max name =
    if is_empty value || ltb max (len value) then err (ClaimError.length name) else ok tt

-- `if test { return Err(e); }`
abbrev reject_if : Bool → ClaimError → Result ClaimError (Unit {0})
reject_if test e = require (not test) e

unfoldable pub validate : ClaimV1 → ℤ → ℤ → Result ClaimError (Unit {0})
unfolding bounded
validate c now max_age = do
  reject_if (not (c.version == claim_version)) ClaimError.version
  bounded c.source_host max_source_host "source_host"
  bounded c.claim_key max_claim_key "claim_key"
  bounded c.claim_value max_claim_value "claim_value"
  reject_if (leb_ℤ c.expires_at c.issued_at) time_window
  reject_if (ltb_ℤ c.expires_at now) expired
  reject_if (ltb_ℤ (saturating_add now max_future_skew_seconds) c.issued_at) future
  reject_if (ltb_ℤ max_age (saturating_sub now c.issued_at)) too_old
  ok tt
