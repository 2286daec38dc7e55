-- ===== src/Examples/Signatures.antt =====
-- Tests of crates/webproof-verifier, and the theorems about its signer at concrete inputs.
use webproof_solana.Prelude.{
  Bytes, [], ◌∷◌, inl, inr, some, subst, ok-injective, some-injective, is_utf8, ap, ◌∙◌, ◌≡◌, ◌↔◌,
  refl, arith, true, codes, replicate, pos, ok, err, bytes_eq, saturating_add, saturating_sub, ◌+ℤ◌,
  ◌-ℤ◌, ◌++◌,
}
use webproof_solana.Borsh.Layout.{layout}
use webproof_solana.Core.{validate}
use webproof_solana.Program.State.{try_to_vec}
use webproof_solana.Program.Verification.{domain, validate_claim}
use webproof_solana.Program.Verification.Agreement.{to_program}
use webproof_solana.Verifier.{
  from_verified_presentation, JsonView, Error, VerifiedTlsData, scalar, build_claim, sign_verified,
  verify_and_sign,
}
use webproof_solana.Verifier.Signing.{IsSigned, verify_and_sign_iff}
use webproof_solana.Verifier.Typed.{IsStr, HasStrings, verify_and_sign-IsTyped}
use webproof_solana.Core.{IsTyped, canonical_bytes, from_slice}
use webproof_solana.Verifier.Failures.{Cause, verify_and_sign_errors}
use webproof_solana.Verifier.OnChain.{signed_claim_is_bound, signed_claim_is_accepted}
use webproof_solana.Examples.{toy_json, toy_sha, toy_ed25519, mock, signer, url, signed_out}

-- `verified_proof_can_be_signed`
pub signed_lem :
    verify_and_sign toy_json layout toy_sha toy_ed25519 signer mock
      (codes "proof")
      url
      (codes "/price")
      (pos 100)
      (pos 300)
      (replicate 32 9)
    ≡ ok signed_out
unfolding verify_and_sign sign_verified build_claim scalar bytes_eq validate saturating_add
    saturating_sub
signed_lem = refl

-- `deceptive_host_and_missing_field_fail`
missing_field :
    verify_and_sign toy_json layout toy_sha toy_ed25519 signer mock
      (codes "proof")
      url
      (codes "/missing")
      (pos 100)
      (pos 300)
      (replicate 32 9)
    ≡ err Error.field
unfolding verify_and_sign sign_verified build_claim scalar bytes_eq validate saturating_add
missing_field = refl

verify_and_sign_iff_example :
    (verify_and_sign toy_json layout toy_sha toy_ed25519 signer mock
        (codes "proof")
        url
        (codes "/price")
        (pos 100)
        (pos 300)
        (replicate 32 9)
      ≡ ok signed_out)
    ↔ ((d : VerifiedTlsData toy_json) × (mock.verify (codes "proof") ≡ ok d)
        × IsSigned toy_json layout toy_sha toy_ed25519 signer d url
            (codes "/price")
            (pos 100)
            (pos 300)
            (replicate 32 9)
            signed_out)
verify_and_sign_iff_example =
    verify_and_sign_iff toy_json layout toy_sha toy_ed25519 signer mock (codes "proof") url
      (codes "/price") (pos 100) (pos 300) (replicate 32 9) signed_out (omega arith)

verify_and_sign_errors_example :
    Cause toy_json layout toy_sha toy_ed25519 signer mock
      (codes "proof")
      url
      (codes "/missing")
      (pos 100)
      (pos 300)
      (replicate 32 9)
      Error.field
verify_and_sign_errors_example =
    verify_and_sign_errors toy_json layout toy_sha toy_ed25519 signer mock (codes "proof") url
      (codes "/missing") (pos 100) (pos 300) (replicate 32 9) Error.field (omega arith)
      missing_field

signed_claim_is_bound_example :
    (signed_out.claim_id ≡ toy_sha.digest (try_to_vec layout (to_program signed_out.claim)))
    × (toy_ed25519.verify signed_out.verifier_public_key
          (domain ++ try_to_vec layout (to_program signed_out.claim))
          signed_out.signature
        ≡ true)
    × (d : VerifiedTlsData toy_json) × (mock.verify (codes "proof") ≡ ok d)
    × (signed_out.claim.provenance_hash ≡ toy_sha.digest d.artifact)
    × (signed_out.tlsn_artifact_hash ≡ toy_sha.digest d.artifact)
signed_claim_is_bound_example =
    signed_claim_is_bound toy_json layout toy_sha toy_ed25519 signer mock (codes "proof") url
      (codes "/price") (pos 100) (pos 300) (replicate 32 9) signed_out (omega arith) signed_lem

accepted_while_alive : validate_claim (to_program signed_out.claim) (pos 350) (pos 300) ≡ ok tt
unfolding ◌+ℤ◌ ◌-ℤ◌
accepted_while_alive =
    signed_claim_is_accepted toy_json layout toy_sha toy_ed25519 signer mock (codes "proof") url
      (codes "/price") (pos 100) (pos 300) (replicate 32 9) signed_out (omega arith) signed_lem
      (pos 350) (pos 300) (omega arith) (omega arith) (omega arith) (omega arith) (omega arith)
      (omega arith)

same_string : {s t : Bytes} → JsonView.string s ≡ JsonView.string t → s ≡ t
same_string e = ground arith

price_strings :
    (a : Bytes)
    → HasStrings toy_json
        (from_verified_presentation
          (codes "api.example.com")
          (codes "/data")
          ((codes "/price", JsonView.string (codes "12.34")) ∷ [])
          a)
        (codes "/price")
unfolding bytes_eq is_utf8
price_strings a element s found which =
    let shown : JsonView.string (codes "12.34") ≡ toy_json.view element =
      ap toy_json.view (some-injective _ _ found) in
    elim which [
      | inl e ↦ subst IsStr (same_string (shown ∙ e)) (omega arith, refl)
      | inr e ↦ cc (shown ∙ e)
    ]

strings :
    (d : VerifiedTlsData toy_json)
    → mock.verify (codes "proof") ≡ ok d
    → IsStr d.host × HasStrings toy_json d (codes "/price")
unfolding is_utf8
strings d h =
    subst (λ d. IsStr d.host × HasStrings toy_json d (codes "/price")) (ok-injective h)
      ((omega arith, refl), price_strings (codes "proof"))

verify_and_sign-IsTyped_example :
    IsTyped signed_out.claim
    × (from_slice layout (canonical_bytes layout signed_out.claim) ≡ some signed_out.claim)
unfolding is_utf8
verify_and_sign-IsTyped_example =
    verify_and_sign-IsTyped toy_json layout toy_sha toy_ed25519 signer mock (codes "proof") url
      (codes "/price") (pos 100) (pos 300) (replicate 32 9) signed_out (omega arith)
      (record { are_bytes = omega arith; sized = refl }) (omega arith, refl) strings signed_lem
