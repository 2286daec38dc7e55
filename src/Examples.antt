-- ===== src/Examples.antt =====
-- Concrete values for the parameters of the model (a toy hash, a toy signature scheme, toy program
-- addresses, a flat JSON document), and the data that the tests and the instances of the theorems
-- run on. The claim is that of the tests in crates/webproof-core and crates/webproof-verifier.
mod Encodings
mod Signatures
mod Chain
mod Submissions
mod Rejections
mod Registries
mod Presentations
mod Disclosures
mod Settings
mod Sessions
mod Hex
mod Disks
mod Steps
mod Fixtures
mod CoreTests
mod VerifierTests
use webproof_solana.Prelude.{
  ℕ, zero, suc, ◌+◌, ap, ◌%◌, ◌<◌, ◌≡◌, refl, arith, Bool, true, Option, none, some, List, [], ◌∷◌,
  ◌++◌, map, Bytes, codes, length, take, replicate, IsByte, IsArray, All, bytes_eq, bytes_eq_refl,
  ℤ, pos, if◌then◌else◌, is_empty, ok, err, length-append, length-replicate, length-take_le,
}
use mathlib.Core.List.{flatten}
use webproof_solana.Crypto.{Sha256, Ed25519}
use webproof_solana.Borsh.Layout.{layout}
use webproof_solana.Core.{ClaimV1, claim_id, signing_message}
use webproof_solana.Program.Ledger.{Runtime}
use webproof_solana.Verifier.{
  JsonView, Json, Url, ClaimSigner, SignedClaim, TlsnProofVerifier, from_verified_presentation,
}

-- The first 32 bytes, the last of them the sum of all that follow.
pub fold_bytes : ℕ → ℕ → Bytes → Bytes
fold_bytes zero acc bytes = []
fold_bytes (suc zero) acc [] = (acc % 256) ∷ []
fold_bytes (suc zero) acc (x ∷ xs) = fold_bytes (suc zero) (acc + x) xs
fold_bytes (suc (suc k)) acc [] = 0 ∷ fold_bytes (suc k) acc []
fold_bytes (suc (suc k)) acc (x ∷ xs) = (x % 256) ∷ fold_bytes (suc k) (acc + x) xs

pub fold_bytes-IsArray : (k acc : ℕ) (bytes : Bytes) → IsArray k (fold_bytes k acc bytes)
unfolding fold_bytes
fold_bytes-IsArray zero acc bytes = record { are_bytes = tt; sized = refl }
fold_bytes-IsArray (suc zero) acc [] = record { are_bytes = omega arith; sized = refl }
fold_bytes-IsArray (suc zero) acc (x ∷ xs) = fold_bytes-IsArray (suc zero) (acc + x) xs
fold_bytes-IsArray (suc (suc k)) acc [] =
    let r = fold_bytes-IsArray (suc k) acc [] in
    record { are_bytes = (omega arith, r.are_bytes); sized = ap suc r.sized }
fold_bytes-IsArray (suc (suc k)) acc (x ∷ xs) =
    let r = fold_bytes-IsArray (suc k) (acc + x) xs in
    record { are_bytes = (omega arith, r.are_bytes); sized = ap suc r.sized }

abbrev pub toy_digest : Bytes → Bytes
toy_digest bytes = fold_bytes 32 0 bytes

abbrev pub toy_sha : Sha256
toy_sha = record { digest = toy_digest; digest-IsArray = fold_bytes-IsArray 32 0 }

abbrev pub toy_sign : Bytes → Bytes → Bytes
toy_sign key message = fold_bytes 64 0 (key ++ message)

abbrev pub toy_ed25519 : Ed25519
toy_ed25519 = record {
  verifying_key = toy_digest;
  sign = λ seed message. toy_sign (toy_digest seed) message;
  verify = λ key message signature. bytes_eq signature (toy_sign key message);
  verifying_key-IsArray = fold_bytes-IsArray 32 0;
  sign-IsArray = λ seed message. fold_bytes-IsArray 64 0 (toy_digest seed ++ message);
  verify-sign = λ seed message. bytes_eq_refl (toy_sign (toy_digest seed) message);
}

abbrev pub toy_runtime : Runtime
toy_runtime = record {
  ed25519_program_id = replicate 32 1;
  system_program_id = replicate 32 0;
  instructions_sysvar_id = replicate 32 2;
  find_program_address = λ seeds. (toy_digest (flatten seeds), 255);
  create_program_address = λ seeds bump. some (toy_digest (flatten seeds));
  create-find = λ seeds. refl;
}

-- A flat document: scalars at their pointers.
abbrev pub lookup : Bytes → List (Bytes × JsonView) → Option (List (Bytes × JsonView))
lookup p [] = none
lookup p ((q, v) ∷ r) = if bytes_eq p q then some ((q, v) ∷ []) else lookup p r

abbrev pub view_first : List (Bytes × JsonView) → JsonView
view_first [] = JsonView.object
view_first ((q, v) ∷ r) = v

abbrev pub toy_json : Json
toy_json = record {
  Value = List (Bytes × JsonView);
  pointer = λ doc p. lookup p doc;
  view = view_first;
}

abbrev pub golden_claim : ClaimV1
golden_claim = record {
  version = 1;
  source_host = codes "api.example.com";
  request_path_hash = replicate 32 1;
  claim_key = codes "price";
  claim_value = codes "12345.67";
  issued_at = pos 1_700_000_000;
  expires_at = pos 1_700_000_300;
  nonce = replicate 32 2;
  provenance_hash = replicate 32 3;
}

-- `Mock` of the verifier crate's tests, which accepts or refuses everything.
abbrev pub mock_verifier : Bool → TlsnProofVerifier toy_json (Unit {0})
mock_verifier accepting = record {
  verify = λ a.
      if accepting
      then ok (
          from_verified_presentation (codes "api.example.com") (codes "/data")
            ((codes "/price", JsonView.string (codes "12.34")) ∷ []) a)
      else err tt;
}

abbrev pub mock : TlsnProofVerifier toy_json (Unit {0})
mock = mock_verifier true

abbrev pub signer : ClaimSigner
signer = record { key = replicate 32 7 }

abbrev pub url : Url
url = record {
  scheme = codes "https";
  username = [];
  password = none;
  host_str = some (codes "api.example.com");
  port = none;
  path = codes "/data";
  query = none;
  as_str = codes "https://api.example.com/data";
}

abbrev pub signed_price : ClaimV1
signed_price = record {
  version = 1;
  source_host = codes "api.example.com";
  request_path_hash = toy_digest (codes "/data");
  claim_key = codes "/price";
  claim_value = codes "12.34";
  issued_at = pos 100;
  expires_at = pos 400;
  nonce = replicate 32 9;
  provenance_hash = toy_digest (codes "proof");
}

abbrev pub signed_out : SignedClaim
signed_out = record {
  claim = signed_price;
  claim_id = claim_id layout toy_sha signed_price;
  signature = toy_sign (toy_digest signer.key) (signing_message layout signed_price);
  verifier_public_key = toy_digest signer.key;
  tlsn_artifact_hash = toy_digest (codes "proof");
}
