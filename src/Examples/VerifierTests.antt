-- ===== src/Examples/VerifierTests.antt =====
-- The unit tests of crates/webproof-verifier/src/lib.rs, each as the proposition that its
-- assertions make, and their runs on the model with the toy signature scheme.
use webproof_solana.Prelude.{
  ◌≡◌, refl, Bool, true, false, ok, err, some, codes, replicate, pos, ◌+ℤ◌, Bytes, bytes_eq, Result,
}
use webproof_solana.Borsh.Layout
use webproof_solana.Borsh.Layout.{layout}
use webproof_solana.Core.{ClaimV1, signing_message, canonical_bytes}
use webproof_solana.Verifier.{Url, Error, SignedClaim, sign_verified, verify_and_sign}
use webproof_solana.Examples.{
  toy_json, toy_sha, toy_ed25519, mock_verifier, signer, url, signed_out, fold_bytes,
}
use webproof_solana.Examples.Signatures.{signed_lem}

-- The signer of the tests on a mock, at 100 for 300 seconds.
abbrev attempt : Bool → Bytes → Url → Bytes → Bytes → Result Error SignedClaim
attempt accepting artifact expected field_name nonce =
    verify_and_sign toy_json layout toy_sha toy_ed25519 signer (mock_verifier accepting) artifact
      expected field_name (pos 100) (pos 300) nonce

-- Whether the signature is one of the claim under the signer's public key.
abbrev holds : SignedClaim → ClaimV1 → Bool
holds out claim =
    toy_ed25519.verify (toy_ed25519.verifying_key signer.key) (signing_message layout claim)
      out.signature

abbrev VerifiedProofCanBeSigned : Type 0
VerifiedProofCanBeSigned =
    (out : SignedClaim) × (attempt true (codes "proof") url (codes "/price") (replicate 32 9)
      ≡ ok out)
    × (holds out out.claim ≡ true)

verified_proof_can_be_signed : VerifiedProofCanBeSigned
verified_proof_can_be_signed = (
  signed_out,
  signed_lem,
  toy_ed25519.verify-sign signer.key (signing_message layout signed_out.claim),
)

abbrev FailedProofProducesNoSignature : Type 0
FailedProofProducesNoSignature =
    attempt false (codes "bad") url (codes "/price") (replicate 32 9) ≡ err Error.tlsn

failed_proof_produces_no_signature : FailedProofProducesNoSignature
unfolding verify_and_sign
failed_proof_produces_no_signature = refl

abbrev NonHttpsExpectedUrlFails : Type 0
NonHttpsExpectedUrlFails =
    attempt true (codes "p") (record url { scheme = codes "http" }) (codes "/price")
      (replicate 32 0)
    ≡ err Error.host

non_https_expected_url_fails : NonHttpsExpectedUrlFails
unfolding verify_and_sign sign_verified bytes_eq
non_https_expected_url_fails = refl

abbrev DeceptiveHostAndMissingFieldFail : Type 0
DeceptiveHostAndMissingFieldFail =
    (attempt true (codes "p")
        (record url { host_str = some (codes "api.example.com.attacker.com") }) (codes "/price")
        (replicate 32 0)
      ≡ err Error.host)
    × (attempt true (codes "p") url (codes "/missing") (replicate 32 0) ≡ err Error.field)

deceptive_host_and_missing_field_fail : DeceptiveHostAndMissingFieldFail
unfolding verify_and_sign sign_verified bytes_eq
deceptive_host_and_missing_field_fail = (refl, refl)

-- The claim that was signed verifies; a change of any of these fields makes it fail.
abbrev AnyModifiedClaimFieldBreaksTheSignature : SignedClaim → Type 0
AnyModifiedClaimFieldBreaksTheSignature out =
    (holds out out.claim ≡ true)
    × (holds out (record out.claim { source_host = codes "api.evil.com" }) ≡ false)
    × (holds out (record out.claim { claim_key = codes "/other" }) ≡ false)
    × (holds out (record out.claim { claim_value = codes "99.99" }) ≡ false)
    × (holds out (record out.claim { issued_at = out.claim.issued_at +ℤ pos 1 }) ≡ false)
    × (holds out (record out.claim { expires_at = out.claim.expires_at +ℤ pos 1 }) ≡ false)
    × (holds out (record out.claim { nonce = replicate 32 0xaa }) ≡ false)
    × (holds out (record out.claim { provenance_hash = replicate 32 0xbb }) ≡ false)
    × (holds out (record out.claim { version = 2 }) ≡ false)

any_modified_claim_field_breaks_the_signature : AnyModifiedClaimFieldBreaksTheSignature signed_out
unfolding signing_message canonical_bytes bytes_eq fold_bytes ◌+ℤ◌ Layout.le_bytes Layout.to_u64
any_modified_claim_field_breaks_the_signature =
    (refl, refl, refl, refl, refl, refl, refl, refl, refl)
