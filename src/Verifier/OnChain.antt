-- ===== src/Verifier/OnChain.antt =====
-- What crates/webproof-verifier signs, programs/webproof accepts: the two ends of the pipeline.
use webproof_solana.Prelude.{
  ◌≡◌, ◌+ℤ◌, ◌-ℤ◌, ◌≤ℤ◌, ◌<ℤ◌, ◌∙◌, ap, ℤ, pos, IsI64, i64_max, ok, true, Bytes, map_err,
  saturating_add, lt-saturating_add, ◌++◌,
}
use webproof_solana.Borsh.{Borsh}
use webproof_solana.Crypto.{Sha256, Ed25519}
use webproof_solana.Core.{ClaimV1, validate, claim_id, signing_message}
use webproof_solana.Core.Validity.{validate_iff}
use webproof_solana.Program.State.{try_to_vec}
use webproof_solana.Program.Verification.{domain, validate_claim}
use webproof_solana.Program.Verification.Agreement.{
  to_program, to_program_error, validate_claim-validate, try_to_vec-canonical_bytes,
}
use webproof_solana.Verifier.{
  Json, Url, SignedClaim, ClaimSigner, VerifiedTlsData, TlsnProofVerifier, build_claim,
  verify_and_sign,
}
use webproof_solana.Verifier.Signing.{IsIssuable, verify_and_sign_iff}

-- A claim that could be issued at `now` is valid for the rest of its life.
still_valid :
    (c : ClaimV1) (now ttl : ℤ)
    → IsI64 now
    → c.version ≡ 1
    → c.issued_at ≡ now
    → c.expires_at ≡ saturating_add now ttl
    → IsIssuable c now ttl
    → (time max_age : ℤ) → IsI64 time
    → IsI64 max_age
    → max_age <ℤ i64_max
    → now ≤ℤ time +ℤ pos 30
    → time ≤ℤ c.expires_at
    → time -ℤ now ≤ℤ max_age
    → validate c time max_age ≡ ok tt
still_valid c now ttl now_typed version issued expiring i time max_age time_typed age_typed finite
      skew alive young =
    (validate_iff c time max_age (rw issued now_typed) time_typed age_typed finite).1 (record {
      version = version;
      source_host = i.source_host;
      claim_key = i.claim_key;
      claim_value = i.claim_value;
      window =
          rw (issued, expiring) ((lt-saturating_add now ttl now_typed).1 (i.lasting, i.in_time));
      unexpired = alive;
      not_future = rw issued skew;
      young = rw issued young;
    })

module _ (json : Json) (b : Borsh) (sha : Sha256) (ed : Ed25519) {E : Type 0} (self : ClaimSigner)
    (verifier : TlsnProofVerifier json E) (artifact : Bytes) (url : Url) (field_name : Bytes)
    (now ttl : ℤ) (nonce : Bytes) (out : SignedClaim) (now_typed : IsI64 now)
    (signed : verify_and_sign json b sha ed self verifier artifact url field_name now ttl nonce
      ≡ ok out) where
  -- A signed claim is bound to its content: its id is the SHA-256 of the bytes that the program
  -- serializes, its signature verifies under the published key for the domain separator of the
  -- program followed by those bytes, and both its provenance hash and the published artifact hash
  -- are the SHA-256 of the artifact that the proof verifier returned.
  pub signed_claim_is_bound :
      (out.claim_id ≡ sha.digest (try_to_vec b (to_program out.claim)))
      × (ed.verify out.verifier_public_key
            (domain ++ try_to_vec b (to_program out.claim))
            out.signature
          ≡ true)
      × (d : VerifiedTlsData json) × (verifier.verify artifact ≡ ok d)
      × (out.claim.provenance_hash ≡ sha.digest d.artifact)
      × (out.tlsn_artifact_hash ≡ sha.digest d.artifact)
  unfolding claim_id signing_message build_claim
  signed_claim_is_bound =
      let (d, verified, s) =
        (verify_and_sign_iff json b sha ed self verifier artifact url field_name now ttl nonce out
            now_typed).0
          signed in
      let bytes = try_to_vec-canonical_bytes b out.claim in
      let c = build_claim json b sha ed d field_name s.value now ttl nonce in
      (
        cc (s.signed_claim, bytes),
        cc (s.signed_claim, bytes, ed.verify-sign self.key (signing_message b c)),
        d,
        verified,
        cc (s.signed_claim),
        cc (s.signed_claim),
      )

  -- The program accepts a signed claim at every time of its life: at any `i64` time at most 30
  -- seconds before it was signed, not after its expiry, and at which it is at most as old as the
  -- configured age, a finite one.
  pub signed_claim_is_accepted :
      (time max_age : ℤ)
      → IsI64 time
      → IsI64 max_age
      → max_age <ℤ i64_max
      → now ≤ℤ time +ℤ pos 30
      → time ≤ℤ out.claim.expires_at
      → time -ℤ now ≤ℤ max_age
      → validate_claim (to_program out.claim) time max_age ≡ ok tt
  unfolding build_claim
  signed_claim_is_accepted time max_age time_typed age_typed finite skew alive young =
      let (d, verified, s) =
        (verify_and_sign_iff json b sha ed self verifier artifact url field_name now ttl nonce out
            now_typed).0
          signed in
      let same : out.claim ≡ build_claim json b sha ed d field_name s.value now ttl nonce =
        cc (s.signed_claim) in
      validate_claim-validate out.claim time max_age
      ∙ ap (map_err to_program_error) (
          still_valid out.claim now ttl now_typed (cc same) (cc same) (cc same) (rw same s.issuable)
            time max_age time_typed age_typed finite skew alive young)
