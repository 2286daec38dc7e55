-- ===== src/Examples/CoreTests.antt =====
-- The unit tests of crates/webproof-core/src/lib.rs, each as the proposition that its assertions
-- make, and their runs on the model.
use webproof_solana.Prelude.{
  ◌≡◌, refl, some, [], replicate, pos, ok, err, saturating_add, saturating_sub,
}
use webproof_solana.Borsh.Layout.{layout}
use webproof_solana.Crypto.{Sha256}
use webproof_solana.Core.{ClaimV1, ClaimError, canonical_bytes, claim_id, from_slice, validate}
use webproof_solana.Examples.{golden_claim}
use webproof_solana.Examples.Encodings.{golden, golden_vector, golden-IsTyped}
use webproof_solana.Core.Encoding.{from_slice-canonical_bytes}

abbrev HashIsSha256OfBorsh : Sha256 → Type 0
HashIsSha256OfBorsh sha =
    claim_id layout sha golden_claim ≡ sha.digest (canonical_bytes layout golden_claim)

hash_is_sha256_of_borsh : (sha : Sha256) → HashIsSha256OfBorsh sha
unfolding claim_id
hash_is_sha256_of_borsh sha = refl

abbrev long_value : ClaimV1
long_value = record golden_claim { claim_value = replicate 257 120 }

abbrev ValidatesBoundsAndTime : Type 0
ValidatesBoundsAndTime =
    (validate golden_claim (pos 1_700_000_010) (pos 300) ≡ ok tt)
    × (validate long_value (pos 1_700_000_010) (pos 300) ≡ err (ClaimError.length "claim_value"))

validates_bounds_and_time : ValidatesBoundsAndTime
unfolding validate saturating_add saturating_sub
validates_bounds_and_time = (refl, refl)

abbrev later_claim : ClaimV1
later_claim = record golden_claim { issued_at = pos 1_700_000_100; expires_at = pos 1_700_000_400 }

abbrev RejectsExpiredFutureAndBadWindow : Type 0
RejectsExpiredFutureAndBadWindow =
    (validate golden_claim (pos 1_700_000_301) (pos 400) ≡ err ClaimError.expired)
    × (validate later_claim (pos 1_700_000_000) (pos 400) ≡ err ClaimError.future)
    × (validate (record golden_claim { expires_at = golden_claim.issued_at }) (pos 1_700_000_000)
          (pos 400)
        ≡ err ClaimError.time_window)

rejects_expired_future_and_bad_window : RejectsExpiredFutureAndBadWindow
unfolding validate saturating_add saturating_sub
rejects_expired_future_and_bad_window = (refl, refl, refl)

-- Issued 400 seconds ago and not yet expired; and another version.
abbrev RejectsTooOldAndWrongVersion : Type 0
RejectsTooOldAndWrongVersion =
    (validate (record golden_claim { expires_at = pos 1_700_000_500 }) (pos 1_700_000_400) (pos 300)
      ≡ err ClaimError.too_old)
    × (validate (record golden_claim { version = 2 }) (pos 1_700_000_010) (pos 300)
        ≡ err ClaimError.version)

rejects_too_old_and_wrong_version : RejectsTooOldAndWrongVersion
unfolding validate saturating_add saturating_sub
rejects_too_old_and_wrong_version = (refl, refl)

abbrev longest_claim : ClaimV1
longest_claim = record golden_claim {
  source_host = replicate 128 104;
  claim_key = replicate 128 107;
  claim_value = replicate 256 118;
}

abbrev EnforcesExactLengthBoundaries : Type 0
EnforcesExactLengthBoundaries =
    (validate longest_claim (pos 1_700_000_010) (pos 300) ≡ ok tt)
    × (validate (record golden_claim { source_host = replicate 129 104 }) (pos 1_700_000_010)
          (pos 300)
        ≡ err (ClaimError.length "source_host"))
    × (validate (record golden_claim { claim_key = replicate 129 107 }) (pos 1_700_000_010)
          (pos 300)
        ≡ err (ClaimError.length "claim_key"))
    × (validate (record golden_claim { claim_key = [] }) (pos 1_700_000_010) (pos 300)
        ≡ err (ClaimError.length "claim_key"))

enforces_exact_length_boundaries : EnforcesExactLengthBoundaries
unfolding validate saturating_add saturating_sub
enforces_exact_length_boundaries = (refl, refl, refl, refl)

abbrev BorshRoundTrips : Type 0
BorshRoundTrips =
    (back : ClaimV1) × (from_slice layout (canonical_bytes layout golden_claim) ≡ some back)
    × (back ≡ golden_claim)
    × (canonical_bytes layout back ≡ canonical_bytes layout golden_claim)

borsh_round_trips : BorshRoundTrips
borsh_round_trips =
    (golden_claim, from_slice-canonical_bytes layout golden_claim golden-IsTyped, refl, refl)

-- Its first assertion; the second is about the values of SHA-256.
abbrev MatchesRepositoryGoldenVector : Type 0
MatchesRepositoryGoldenVector = canonical_bytes layout golden_claim ≡ golden

matches_repository_golden_vector : MatchesRepositoryGoldenVector
matches_repository_golden_vector = golden_vector
