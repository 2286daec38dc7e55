-- ===== src/Examples/Encodings.antt =====
-- Tests of crates/webproof-core, and the theorems about its claims at concrete inputs.
use webproof_solana.Prelude.{
  ◌≡◌, ◌≤◌, length, saturating_add, saturating_sub, ◌↔◌, refl, arith, some, ◌∷◌, ◌++◌, Bytes, codes,
  replicate, pos, ok, err, is_utf8, map_err,
}
use webproof_solana.Borsh.Layout
use webproof_solana.Borsh.Layout.{layout}
use webproof_solana.Core.{
  signing_message, ClaimError, IsTyped, canonical_bytes, from_slice, validate,
}
use webproof_solana.Core.Encoding.{
  signing_message_bounds, from_slice-canonical_bytes, signing_message-injective,
}
use webproof_solana.Core.Validity.{IsValid, FirstFailure, validate_iff, validate-err_iff}
use webproof_solana.Program.Verification.{validate_claim}
use webproof_solana.Program.Verification.Agreement.{
  to_program, to_program_error, validate_claim-validate,
}
use webproof_solana.Examples.{golden_claim}

abbrev pub golden : Bytes
golden =
    0x01
    ∷ 15
    ∷ 0
    ∷ 0
    ∷ 0
    ∷ (codes "api.example.com"
        ++ (replicate 32 1
            ++ (5
                ∷ 0
                ∷ 0
                ∷ 0
                ∷ (codes "price"
                    ++ (8
                        ∷ 0
                        ∷ 0
                        ∷ 0
                        ∷ (codes "12345.67"
                            ++ (0x00
                                ∷ 0xf1
                                ∷ 0x53
                                ∷ 0x65
                                ∷ 0
                                ∷ 0
                                ∷ 0
                                ∷ 0
                                ∷ 0x2c
                                ∷ 0xf2
                                ∷ 0x53
                                ∷ 0x65
                                ∷ 0
                                ∷ 0
                                ∷ 0
                                ∷ 0
                                ∷ (replicate 32 2 ++ replicate 32 3))))))))

-- test-vectors/claim-v1.hex
pub golden_vector : canonical_bytes layout golden_claim ≡ golden
unfolding canonical_bytes Layout.le_bytes Layout.to_u64
golden_vector = refl

pub golden-IsTyped : IsTyped golden_claim
unfolding is_utf8
golden-IsTyped = record {
  version = omega arith;
  source_host = record { are_bytes = omega arith; utf8 = refl; measured = omega arith };
  request_path_hash = record { are_bytes = omega arith; sized = refl };
  claim_key = record { are_bytes = omega arith; utf8 = refl; measured = omega arith };
  claim_value = record { are_bytes = omega arith; utf8 = refl; measured = omega arith };
  issued_at = omega arith;
  expires_at = omega arith;
  nonce = record { are_bytes = omega arith; sized = refl };
  provenance_hash = record { are_bytes = omega arith; sized = refl };
}

from_slice-canonical_bytes_example :
    from_slice layout (canonical_bytes layout golden_claim) ≡ some golden_claim
from_slice-canonical_bytes_example = from_slice-canonical_bytes layout golden_claim golden-IsTyped

signing_message-injective_example : golden_claim ≡ golden_claim
signing_message-injective_example =
    signing_message-injective layout golden_claim golden_claim golden-IsTyped golden-IsTyped refl

validate_iff_example :
    (validate golden_claim (pos 1_700_000_010) (pos 300) ≡ ok tt)
    ↔ IsValid golden_claim (pos 1_700_000_010) (pos 300)
validate_iff_example =
    validate_iff golden_claim (pos 1_700_000_010) (pos 300) (omega arith) (omega arith)
      (omega arith) (omega arith)

validate-err_iff_example :
    (validate golden_claim (pos 1_700_000_301) (pos 400) ≡ err ClaimError.expired)
    ↔ FirstFailure golden_claim (pos 1_700_000_301) (pos 400) ClaimError.expired
validate-err_iff_example =
    validate-err_iff golden_claim (pos 1_700_000_301) (pos 400) (omega arith) (omega arith)
      (omega arith) (omega arith) ClaimError.expired

validate_claim-validate_example :
    validate_claim (to_program golden_claim) (pos 1_700_000_301) (pos 400)
    ≡ map_err to_program_error (validate golden_claim (pos 1_700_000_301) (pos 400))
validate_claim-validate_example = validate_claim-validate golden_claim (pos 1_700_000_301) (pos 400)

golden_valid : validate golden_claim (pos 1_700_000_100) (pos 300) ≡ ok tt
unfolding validate saturating_add saturating_sub
golden_valid = refl

signing_message_bounds_example :
    (152 ≤ length (signing_message layout golden_claim))
    × (length (signing_message layout golden_claim) ≤ 661)
signing_message_bounds_example =
    signing_message_bounds layout golden_claim (pos 1_700_000_100) (pos 300) refl refl refl
      golden_valid
