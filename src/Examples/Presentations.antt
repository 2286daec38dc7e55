-- ===== src/Examples/Presentations.antt =====
-- A toy TLSNotary library over sets of positions as lists, an artifact that it verifies, and the
-- theorems about crates/tlsn-demo/webproof-tlsn at these inputs.
use webproof_solana.Prelude.{
  ℕ, ◌≡◌, ◌↔◌, refl, arith, ◌==◌, ==_iff, ap, not, ◌&&◌, Bool, true, false, Bool-cases, inl, inr,
  if◌then◌else◌, some, none, List, [], ◌∷◌, is_empty, Bytes, codes, replicate, pos, ok, err,
  bytes_eq, saturating_add, saturating_sub,
}
use webproof_solana.Core.{validate}
use webproof_solana.Borsh.Layout.{layout}
use webproof_solana.Verifier.{
  JsonView, VerifiedTlsData, scalar, build_claim, sign_verified, verify_and_sign,
}
use webproof_solana.Tlsn.{
  RangeSets, Tlsn, TlsnPresentationVerifier, verify, proof_verifier, with_mozilla_roots,
  read_transcript, crypto_provider, is_subset, untrusted_notary,
}
use webproof_solana.Tlsn.Verified.{IsVerified, verify_iff}
use webproof_solana.Tlsn.Unverified.{verify-err_iff}
use webproof_solana.Tlsn.Failed.{IsUnverified}
use webproof_solana.Tlsn.Proven.{IsProven, verify_and_sign-IsProven}
use webproof_solana.Examples.{toy_json, toy_sha, toy_ed25519, signer, url, signed_out}

unfoldable pub has : ℕ → List ℕ → Bool
has i [] = false
has i (x ∷ xs) = if x == i then true else has i xs

unfoldable pub minus : List ℕ → List ℕ → List ℕ
unfolding has
minus [] b = []
minus (x ∷ xs) b = let rest = minus xs b in if has x b then rest else x ∷ rest

pub has-minus : (i : ℕ) (a b : List ℕ) → has i (minus a b) ≡ (has i a && not (has i b))
unfolding has minus
has-minus i [] b = refl
has-minus i (x ∷ xs) b = elim (Bool-cases (x == i)) [
  | inl same ↦ ground (arith, has-minus i xs b, ap (λ j. has j b) ((==_iff x i).0 same))
  | inr other ↦ ground (arith, has-minus i xs b)
]

pub empty→none : (a : List ℕ) → is_empty a ≡ true → (i : ℕ) → has i a ≡ false
unfolding has
empty→none [] h i = refl
empty→none (x ∷ xs) h i = cc

pub none→empty : (a : List ℕ) → ((i : ℕ) → has i a ≡ false) → is_empty a ≡ true
unfolding has
none→empty [] h = refl
none→empty (x ∷ xs) h = absurd (ground (arith, h x))

abbrev pub toy_ranges : RangeSets
toy_ranges = record {
  RangeSet = List ℕ;
  member = has;
  difference = minus;
  is_empty = is_empty;
  member-difference = has-minus;
  is_empty_iff = λ a. (empty→none a, none→empty a);
}

abbrev pub notary_key : Bytes
notary_key = replicate 33 4

-- It sees one exchange in any artifact that is not empty, and takes all of it as authenticated.
abbrev pub toy_tlsn : Tlsn toy_json toy_ranges
toy_tlsn = record {
  Presentation = Bytes;
  CryptoProvider = Bool;
  deserialize = λ a. if is_empty a then none else some a;
  verifying_key = λ p. notary_key;
  default_provider = true;
  provider_with_roots = λ roots. ok false;
  verify = λ p provider. ok (record {
    server_name = some (codes "api.example.com");
    transcript = some (record {
      sent_unsafe = codes "GET /data HTTP/1.1";
      sent_authed = 0 ∷ 1 ∷ 2 ∷ 3 ∷ [];
      received_unsafe = codes "{}";
      received_authed = 0 ∷ 1 ∷ [];
    });
  });
  parse_request = λ s. ok (record { indices = 0 ∷ 1 ∷ 2 ∷ []; target = codes "/data" });
  parse_response = λ s. ok (record { indices = 0 ∷ 1 ∷ []; body = some s });
  from_slice = λ s. some ((codes "/price", JsonView.string (codes "12.34")) ∷ []);
}

abbrev trusting : TlsnPresentationVerifier
trusting = with_mozilla_roots (replicate 33 1 ∷ notary_key ∷ [])

abbrev verified_data : VerifiedTlsData toy_json
verified_data = record {
  host = codes "api.example.com";
  path = codes "/data";
  response = (codes "/price", JsonView.string (codes "12.34")) ∷ [];
  artifact = codes "proof";
}

verified_proof : verify toy_json toy_ranges toy_tlsn trusting (codes "proof") ≡ ok verified_data
unfolding verify read_transcript crypto_provider is_subset with_mozilla_roots bytes_eq minus has
verified_proof = refl

untrusted_key :
    verify toy_json toy_ranges toy_tlsn (with_mozilla_roots (replicate 33 1 ∷ [])) (codes "proof")
    ≡ err untrusted_notary
unfolding verify with_mozilla_roots bytes_eq
untrusted_key = refl

verify_iff_example :
    (verify toy_json toy_ranges toy_tlsn trusting (codes "proof") ≡ ok verified_data)
    ↔ IsVerified toy_json toy_ranges toy_tlsn trusting (codes "proof") verified_data
verify_iff_example = verify_iff toy_json toy_ranges toy_tlsn trusting (codes "proof") verified_data

proven_signed :
    verify_and_sign toy_json layout toy_sha toy_ed25519 signer
      (proof_verifier toy_json toy_ranges toy_tlsn trusting)
      (codes "proof")
      url
      (codes "/price")
      (pos 100)
      (pos 300)
      (replicate 32 9)
    ≡ ok signed_out
unfolding verify_and_sign sign_verified build_claim scalar bytes_eq validate saturating_add
    saturating_sub
proven_signed = rw verified_proof refl

verify_and_sign-IsProven_example :
    IsProven toy_json toy_ranges toy_tlsn layout toy_sha toy_ed25519 signer trusting
      (codes "proof")
      url
      (codes "/price")
      signed_out
verify_and_sign-IsProven_example =
    verify_and_sign-IsProven toy_json toy_ranges toy_tlsn layout toy_sha toy_ed25519 signer trusting
      (codes "proof") url (codes "/price") (pos 100) (pos 300) (replicate 32 9) signed_out
      (omega arith) proven_signed

verify-err_iff_example :
    (verify toy_json toy_ranges toy_tlsn (with_mozilla_roots (replicate 33 1 ∷ [])) (codes "proof")
      ≡ err untrusted_notary)
    ↔ IsUnverified toy_json toy_ranges toy_tlsn
        (with_mozilla_roots (replicate 33 1 ∷ []))
        (codes "proof")
        untrusted_notary
verify-err_iff_example =
    verify-err_iff toy_json toy_ranges toy_tlsn (with_mozilla_roots (replicate 33 1 ∷ []))
      (codes "proof") untrusted_notary
