-- ===== src/Program/State.antt =====
-- programs/webproof/src/state.rs: the accounts and the submitted claim, with what the derived
-- `InitSpace` and `AnchorSerialize` make of them.
use webproof_solana.Prelude.{
  ℕ, ◌+◌, ◌^◌, Bool, ◌&&◌, Option, none, some, Bytes, ◌++◌, length, ltb, if◌then◌else◌, ℤ,
}
use webproof_solana.Borsh.{Borsh}

pub record WebProofConfig : Type 0 where
  pub authority : Bytes
  pub verifier_pubkey : Bytes
  pub max_claim_age_seconds : ℤ
  pub bump : ℕ

pub record VerifiedClaim : Type 0 where
  pub claim_id : Bytes
  pub source_host : Bytes
  pub request_path_hash : Bytes
  pub claim_key : Bytes
  pub claim_value : Bytes
  pub issued_at : ℤ
  pub expires_at : ℤ
  pub provenance_hash : Bytes
  pub submitted_by : Bytes
  pub created_at : ℤ
  pub bump : ℕ

pub record ClaimV1 : Type 0 where
  pub version : ℕ
  pub source_host : Bytes
  pub request_path_hash : Bytes
  pub claim_key : Bytes
  pub claim_value : Bytes
  pub issued_at : ℤ
  pub expires_at : ℤ
  pub nonce : Bytes
  pub provenance_hash : Bytes

-- `INIT_SPACE`: 32 for an array of 32 bytes or a key, 4 + n for a text of at most n bytes, 8 for
-- an `i64`, 1 for a `u8`.
abbrev pub verified_claim_init_space : ℕ
verified_claim_init_space = 32 + (4 + 128) + 32 + (4 + 128) + (4 + 256) + 8 + 8 + 32 + 32 + 8 + 1

abbrev pub fits : Bytes → Bool
fits s = ltb (length s) (2 ^ 32)

module _ (b : Borsh) where
  -- `claim.try_to_vec()`: the fields in their order.
  unfoldable pub try_to_vec : ClaimV1 → Bytes
  try_to_vec c =
      b.put_u8 c.version
      ++ (b.put_string c.source_host
          ++ (b.put_array c.request_path_hash
              ++ (b.put_string c.claim_key
                  ++ (b.put_string c.claim_value
                      ++ (b.put_i64 c.issued_at
                          ++ (b.put_i64 c.expires_at
                              ++ (b.put_array c.nonce ++ b.put_array c.provenance_hash)))))))

  -- The stored form of a claim account, without its discriminator.
  unfoldable pub serialize_verified_claim : VerifiedClaim → Bytes
  serialize_verified_claim v =
      b.put_array v.claim_id
      ++ (b.put_string v.source_host
          ++ (b.put_array v.request_path_hash
              ++ (b.put_string v.claim_key
                  ++ (b.put_string v.claim_value
                      ++ (b.put_i64 v.issued_at
                          ++ (b.put_i64 v.expires_at
                              ++ (b.put_array v.provenance_hash
                                  ++ (b.put_array v.submitted_by
                                      ++ (b.put_i64 v.created_at ++ b.put_u8 v.bump)))))))))

  -- `try_to_vec` fails on a text that a `u32` cannot measure, and on nothing else.
  unfoldable pub try_to_vec_result : ClaimV1 → Option Bytes
  try_to_vec_result c =
      if fits c.source_host && fits c.claim_key && fits c.claim_value
      then some (try_to_vec c)
      else none
