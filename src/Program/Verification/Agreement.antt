-- ===== src/Program/Verification/Agreement.antt =====
-- The two validators, that of verification.rs and that of crates/webproof-core, and the two
-- serializations, that of state.rs and that of crates/webproof-core, agree.
use webproof_solana.Prelude.{
  ◌≡◌, refl, arith, Bytes, [], ◌∷◌, ◌++◌, ℤ, is_empty, length, leb, map_err, not, ◌&&◌, ◌||◌, ltb,
  ℕ, ap, sym, ◌∙◌, ok, map_err-eq-ok,
}
use webproof_solana.Borsh.{Borsh}
use webproof_solana.Crypto.{Sha256}
use webproof_solana.Core
use webproof_solana.Core.{ClaimError, validate, canonical_bytes, claim_id, signing_message}
use webproof_solana.Program.Errors.{
  WebProofError, invalid_version, invalid_length, invalid_time_window, expired, future, too_old,
}
use webproof_solana.Program.State
use webproof_solana.Program.State.{try_to_vec}
use webproof_solana.Program.Verification.{domain, validate_claim}

-- The claim of state.rs that has the fields of one of crates/webproof-core.
abbrev pub to_program : Core.ClaimV1 → State.ClaimV1
to_program c = record {
  version = c.version;
  source_host = c.source_host;
  request_path_hash = c.request_path_hash;
  claim_key = c.claim_key;
  claim_value = c.claim_value;
  issued_at = c.issued_at;
  expires_at = c.expires_at;
  nonce = c.nonce;
  provenance_hash = c.provenance_hash;
}

-- And back.
abbrev pub from_program : State.ClaimV1 → Core.ClaimV1
from_program c = record {
  version = c.version;
  source_host = c.source_host;
  request_path_hash = c.request_path_hash;
  claim_key = c.claim_key;
  claim_value = c.claim_value;
  issued_at = c.issued_at;
  expires_at = c.expires_at;
  nonce = c.nonce;
  provenance_hash = c.provenance_hash;
}

abbrev pub to_program_error : ClaimError → WebProofError
to_program_error ClaimError.version = invalid_version
to_program_error (ClaimError.length name) = invalid_length
to_program_error ClaimError.time_window = invalid_time_window
to_program_error ClaimError.expired = expired
to_program_error ClaimError.future = future
to_program_error ClaimError.too_old = too_old

same_bound :
    (s : Bytes) (max : ℕ)
    → (not (is_empty s) && leb (length s) max) ≡ not (is_empty s || ltb max (length s))
same_bound [] max = refl
same_bound (x ∷ xs) max = ground arith

-- On every claim, time and age the program and the core library accept the same claims, and
-- refuse the others for the same reason.
pub validate_claim-validate :
    (c : Core.ClaimV1) (now max_age : ℤ)
    → validate_claim (to_program c) now max_age ≡ map_err to_program_error (validate c now max_age)
unfolding validate_claim validate
validate_claim-validate c now max_age =
    ground (
      arith,
      same_bound c.source_host 128,
      same_bound c.claim_key 128,
      same_bound c.claim_value 256,
    )

-- The bytes that the program hashes and compares are the canonical bytes that were signed.
pub try_to_vec-canonical_bytes :
    (b : Borsh) (c : Core.ClaimV1) → try_to_vec b (to_program c) ≡ canonical_bytes b c
unfolding try_to_vec canonical_bytes
try_to_vec-canonical_bytes b c = refl

pub claim_id-digest :
    (b : Borsh) (sha : Sha256) (c : Core.ClaimV1)
    → claim_id b sha c ≡ sha.digest (try_to_vec b (to_program c))
unfolding claim_id
claim_id-digest b sha c = ap sha.digest (sym (try_to_vec-canonical_bytes b c))

pub signing_message-domain :
    (b : Borsh) (c : Core.ClaimV1) → signing_message b c ≡ domain ++ try_to_vec b (to_program c)
unfolding signing_message
signing_message-domain b c = ap (λ m. domain ++ m) (sym (try_to_vec-canonical_bytes b c))

pub validate→validate_claim :
    (c : Core.ClaimV1) (now max_age : ℤ)
    → validate c now max_age ≡ ok tt
    → validate_claim (to_program c) now max_age ≡ ok tt
validate→validate_claim c now max_age h =
    validate_claim-validate c now max_age ∙ ap (map_err to_program_error) h

pub validate_claim→validate :
    (c : State.ClaimV1) (now max_age : ℤ)
    → validate_claim c now max_age ≡ ok tt
    → validate (from_program c) now max_age ≡ ok tt
validate_claim→validate c now max_age h =
    map_err-eq-ok to_program_error (validate (from_program c) now max_age)
      (sym (validate_claim-validate (from_program c) now max_age) ∙ h)
