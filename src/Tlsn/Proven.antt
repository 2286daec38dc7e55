-- ===== src/Tlsn/Proven.antt =====
-- What a signed claim proves when the proof verifier of crates/webproof-verifier is that of
-- verify.rs.
use webproof_solana.Prelude.{◌≡◌, sym, ap, ◌∙◌, true, some, Bytes, codes, ℤ, IsI64, ok, ◌++◌}
use webproof_solana.Borsh.{Borsh}
use webproof_solana.Crypto.{Sha256, Ed25519}
use webproof_solana.Core.{ClaimV1}
use webproof_solana.Program.State.{try_to_vec}
use webproof_solana.Program.Verification.{domain}
use webproof_solana.Program.Verification.Agreement.{to_program}
use webproof_solana.Verifier.{
  Json, Url, SignedClaim, ClaimSigner, VerifiedTlsData, scalar, build_claim, verify_and_sign,
}
use webproof_solana.Verifier.Signing.{verify_and_sign_iff}
use webproof_solana.Verifier.OnChain.{signed_claim_is_bound}
use webproof_solana.Tlsn.{RangeSets, Tlsn, TlsnPresentationVerifier, proof_verifier}
use webproof_solana.Tlsn.Verified.{IsVerified, verify_iff}

module _ (json : Json) (ranges : RangeSets) (lib : Tlsn json ranges) (b : Borsh) (sha : Sha256)
    (ed : Ed25519) where
  -- A signed claim with the verified presentation that it comes from.
  pub record IsProven (self : ClaimSigner) (verifier : TlsnPresentationVerifier) (artifact : Bytes)
      (url : Url) (field_name : Bytes) (out : SignedClaim) : Type 0 where
    pub proven : VerifiedTlsData json
    pub element : json.Value
    pub verified : IsVerified json ranges lib verifier artifact proven
    pub https : url.scheme ≡ codes "https"
    pub expected_host : url.host_str ≡ some out.claim.source_host
    pub server_name : out.claim.source_host ≡ proven.host
    pub request_path : out.claim.request_path_hash ≡ sha.digest proven.path
    pub key : out.claim.claim_key ≡ field_name
    pub found : json.pointer proven.response field_name ≡ some element
    pub value : scalar (json.view element) ≡ some out.claim.claim_value
    pub provenance : out.claim.provenance_hash ≡ sha.digest artifact
    pub signer_key : out.verifier_public_key ≡ ed.verifying_key self.key
    pub signed :
        ed.verify out.verifier_public_key
          (domain ++ try_to_vec b (to_program out.claim))
          out.signature
        ≡ true

  -- Behind the proof verifier of verify.rs and for an `i64` clock, a signed claim comes from a
  -- presentation of an allowlisted notary that the library verifies and whose request line and
  -- whole response are covered by its proofs: its host is the proven server name and that of the
  -- expected https URL, its path hash is that of the proven request target, its value is the scalar
  -- that its key points at in the proven JSON body, its provenance hash is that of the artifact as
  -- it was given, and its
  -- signature verifies under the signer's key over the message that the program reconstructs.
  pub verify_and_sign-IsProven :
      (self : ClaimSigner) (verifier : TlsnPresentationVerifier) (artifact : Bytes) (url : Url)
      (field_name : Bytes) (now ttl : ℤ) (nonce : Bytes) (out : SignedClaim)
      → IsI64 now
      → verify_and_sign json b sha ed self
          (proof_verifier json ranges lib verifier)
          artifact
          url
          field_name
          now
          ttl
          nonce
        ≡ ok out
      → IsProven self verifier artifact url field_name out
  unfolding build_claim
  verify_and_sign-IsProven self verifier artifact url field_name now ttl nonce out typed h =
      let tls = proof_verifier json ranges lib verifier in
      let (d, accepted, s) =
        (verify_and_sign_iff json b sha ed self tls artifact url field_name now ttl nonce out
            typed).0
          h in
      let v = (verify_iff json ranges lib verifier artifact d).0 accepted in
      let c = build_claim json b sha ed d field_name s.value now ttl nonce in
      let same : out.claim ≡ c = cc s.signed_claim in
      record {
        proven = d;
        element = s.answer.element;
        verified = v;
        https = s.answer.https;
        expected_host = rw same s.answer.same_host;
        server_name = ap (λ (x : ClaimV1). x.source_host) same;
        request_path = ap (λ (x : ClaimV1). x.request_path_hash) same;
        key = ap (λ (x : ClaimV1). x.claim_key) same;
        found = s.answer.found;
        value = s.answer.is_scalar ∙ ap (λ (x : ClaimV1). some x.claim_value) (sym same);
        provenance = ap (λ (x : ClaimV1). x.provenance_hash) same ∙ ap sha.digest v.same_artifact;
        signer_key = ap (λ (x : SignedClaim). x.verifier_public_key) s.signed_claim;
        signed =
            (signed_claim_is_bound json b sha ed self tls artifact url field_name now ttl nonce out
              typed h).1;
      }
