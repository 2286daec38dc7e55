-- ===== src/Verifier/Signing.antt =====
-- When the signer of crates/webproof-verifier signs, what it signs, and how it fails.
use webproof_solana.Prelude.{
  ◌≡◌, Option-cases, Result-cases, ◌↔◌, ◌⊎◌, inl, inr, refl, arith, some, Bytes, codes,
  bytes_eq_iff, bytes_eq_refl, opt_bytes_eq→eq, ℤ, pos, IsI64, i64_max, ◌<ℤ◌, saturating_add,
  lt-saturating_add, le-saturating_add, saturating_sub_self, ◌∙◌, ok, err, String,
}
use webproof_solana.Borsh.{Borsh}
use webproof_solana.Crypto.{Sha256, Ed25519}
use webproof_solana.Core.{
  ClaimV1, ClaimError, validate, claim_id, signing_message, length, time_window,
}
use webproof_solana.Core.Validity.{IsBounded, validate_times, validate_measured}
use webproof_solana.Verifier.{
  Json, Url, SignedClaim, ClaimSigner, VerifiedTlsData, TlsnProofVerifier, scalar, build_claim,
  sign_verified, verify_and_sign,
}

-- What the signer asks of a claim: bounded texts, a positive lifetime, and a clock that is not at
-- the end of its range.
pub record IsIssuable (c : ClaimV1) (now ttl : ℤ) : Type 0 where
  pub source_host : IsBounded c.source_host 128
  pub claim_key : IsBounded c.claim_key 128
  pub claim_value : IsBounded c.claim_value 256
  pub lasting : pos 0 <ℤ ttl
  pub in_time : now <ℤ i64_max

module _ (c : ClaimV1) (now ttl : ℤ) (now_typed : IsI64 now) (versioned : c.version ≡ 1)
    (issued : c.issued_at ≡ now) (expiring : c.expires_at ≡ saturating_add now ttl) where
  validate→IsIssuable : validate c now ttl ≡ ok tt → IsIssuable c now ttl
  unfolding validate
  validate→IsIssuable h = ground (arith, (lt-saturating_add now ttl now_typed).0)

  IsIssuable→validate : IsIssuable c now ttl → validate c now ttl ≡ ok tt
  unfolding validate_times
  IsIssuable→validate i =
      validate_measured c now ttl (versioned, i.source_host, i.claim_key, i.claim_value)
      ∙ ground (
        arith,
        (lt-saturating_add now ttl now_typed).1 (i.lasting, i.in_time),
        le-saturating_add now 30 now_typed,
        saturating_sub_self now,
      )

  -- The freshness errors cannot occur at signing.
  pub issue_errors :
      (e : ClaimError)
      → validate c now ttl ≡ err e
      → ((name : String) × (e ≡ length name)) ⊎ (e ≡ time_window)
  unfolding validate
  issue_errors (length name) h = inl (name, refl)
  issue_errors time_window h = inr refl
  issue_errors _ h = absurd (
      ground (
        arith,
        (lt-saturating_add now ttl now_typed).0,
        le-saturating_add now 30 now_typed,
        saturating_sub_self now,
      ))

module _ (json : Json) (b : Borsh) (sha : Sha256) (ed : Ed25519) where
  -- The verified data answer the request: https, the exact host, and a scalar at the pointer.
  pub record IsAnswer (d : VerifiedTlsData json) (url : Url) (field_name value : Bytes)
      : Type 0 where
    pub https : url.scheme ≡ codes "https"
    pub same_host : url.host_str ≡ some d.host
    pub element : json.Value
    pub found : json.pointer d.response field_name ≡ some element
    pub is_scalar : scalar (json.view element) ≡ some value

  -- Everything that a signed claim stands for.
  pub record IsSigned (self : ClaimSigner) (d : VerifiedTlsData json) (url : Url)
      (field_name : Bytes) (now ttl : ℤ) (nonce : Bytes) (out : SignedClaim) : Type 0 where
    pub value : Bytes
    pub answer : IsAnswer d url field_name value
    pub issuable : IsIssuable (build_claim json b sha ed d field_name value now ttl nonce) now ttl
    pub signed_claim : out ≡ record {
      claim = build_claim json b sha ed d field_name value now ttl nonce;
      claim_id = claim_id b sha (build_claim json b sha ed d field_name value now ttl nonce);
      signature =
          ed.sign self.key
            (signing_message b (build_claim json b sha ed d field_name value now ttl nonce));
      verifier_public_key = ed.verifying_key self.key;
      tlsn_artifact_hash = sha.digest d.artifact;
    }

  module _ (self : ClaimSigner) (d : VerifiedTlsData json) (url : Url) (field_name : Bytes)
      (now ttl : ℤ) (nonce : Bytes) (now_typed : IsI64 now) (out : SignedClaim) where
    abbrev signed_with : Bytes → SignedClaim
    signed_with value =
        let c = build_claim json b sha ed d field_name value now ttl nonce in
        record {
          claim = c;
          claim_id = claim_id b sha c;
          signature = ed.sign self.key (signing_message b c);
          verifier_public_key = ed.verifying_key self.key;
          tlsn_artifact_hash = sha.digest d.artifact;
        }

    module _ (element : json.Value) (value : Bytes)
        (found : json.pointer d.response field_name ≡ some element)
        (scalar_found : scalar (json.view element) ≡ some value) where
      sign→IsSigned_at :
          sign_verified json b sha ed self d url field_name now ttl nonce ≡ ok out
          → IsSigned self d url field_name now ttl nonce out
      unfolding sign_verified
      sign→IsSigned_at h = record {
        value = value;
        answer = record {
          https = (bytes_eq_iff _ _).0 (ground arith);
          same_host = opt_bytes_eq→eq _ _ (ground arith);
          element = element;
          found = found;
          is_scalar = scalar_found;
        };
        issuable =
            validate→IsIssuable (build_claim json b sha ed d field_name value now ttl nonce) now ttl
              now_typed refl refl refl (ground arith);
        signed_claim = ground arith;
      }

    sign→IsSigned :
        sign_verified json b sha ed self d url field_name now ttl nonce ≡ ok out
        → IsSigned self d url field_name now ttl nonce out
    unfolding sign_verified
    sign→IsSigned h = elim (Option-cases (json.pointer d.response field_name)) [
      | inl e ↦ absurd (ground arith)
      | inr (element, e) ↦ elim (Option-cases (scalar (json.view element))) [
        | inl f ↦ absurd (ground arith)
        | inr (value, f) ↦ sign→IsSigned_at element value e f h
      ]
    ]

    IsSigned→sign :
        IsSigned self d url field_name now ttl nonce out
        → sign_verified json b sha ed self d url field_name now ttl nonce ≡ ok out
    unfolding sign_verified
    IsSigned→sign s = ground (
      arith,
      bytes_eq_refl (codes "https"),
      bytes_eq_refl d.host,
      s.answer.https,
      s.answer.same_host,
      s.answer.found,
      s.answer.is_scalar,
      IsIssuable→validate (build_claim json b sha ed d field_name s.value now ttl nonce) now ttl
          now_typed refl refl refl s.issuable,
      s.signed_claim,
    )

  module _ {E : Type 0} (self : ClaimSigner) (verifier : TlsnProofVerifier json E)
      (artifact : Bytes) (url : Url) (field_name : Bytes) (now ttl : ℤ) (nonce : Bytes) where
    -- Whatever the proof verifier and the request, for an `i64` clock: the signer answers a signed
    -- claim exactly if the proof verifier accepts the artifact, the URL is https and has exactly
    -- the verified host, the pointer finds a scalar in the verified response, the three texts are
    -- within their bounds, the lifetime is positive and the clock is below the largest `i64`; and
    -- the signed claim is the one built from the verified data, with its id, the signature over
    -- its signing message, the signer's public key and the hash of the verified artifact.
    pub verify_and_sign_iff :
        (out : SignedClaim)
        → IsI64 now
        → (verify_and_sign json b sha ed self verifier artifact url field_name now ttl nonce
            ≡ ok out)
          ↔ ((d : VerifiedTlsData json) × (verifier.verify artifact ≡ ok d)
              × IsSigned self d url field_name now ttl nonce out)
    unfolding verify_and_sign
    verify_and_sign_iff out typed = (
      λ h. elim (Result-cases (verifier.verify artifact)) [
        | inl (d, e) ↦
            (d, e, sign→IsSigned self d url field_name now ttl nonce typed out (ground arith))
        | inr (x, e) ↦ absurd (ground arith)
      ],
      λ s. ground (arith, s.1, IsSigned→sign self s.0 url field_name now ttl nonce typed out s.2),
    )
