-- ===== src/Verifier/Failures.antt =====
-- How the signer of crates/webproof-verifier fails.
use webproof_solana.Prelude.{
  ◌≡◌, ◌≢◌, subst, String, ◌⊎◌, inl, inr, refl, arith, none, some, Bytes, codes, bytes_eq_iff,
  bytes_eq_refl, bytes_eq, opt_bytes_eq→eq, ℤ, pos, IsI64, i64_max, ◌≤ℤ◌, saturating_add, ok, err,
  Option-cases, Result-cases, Bool-cases, lt-saturating_add,
}
use webproof_solana.Borsh.{Borsh}
use webproof_solana.Crypto.{Sha256, Ed25519}
use webproof_solana.Core.{
  ClaimV1, ClaimError, validate, version, length, time_window, expired, future, too_old,
}
use webproof_solana.Core.Validity.{IsOutside}
use webproof_solana.Verifier.{
  Json, Url, Error, ClaimSigner, VerifiedTlsData, TlsnProofVerifier, scalar, build_claim,
  sign_verified, verify_and_sign,
}
use webproof_solana.Verifier.Signing.{IsAnswer, issue_errors}

length_cause :
    (c : ClaimV1) (now ttl : ℤ) (name : String)
    → validate c now ttl ≡ err (length name)
    → IsOutside c.source_host 128 ⊎ IsOutside c.claim_key 128 ⊎ IsOutside c.claim_value 256
unfolding validate
length_cause c now ttl name h = ground arith

time_cause :
    (c : ClaimV1) (now ttl : ℤ)
    → IsI64 now
    → c.issued_at ≡ now
    → c.expires_at ≡ saturating_add now ttl
    → validate c now ttl ≡ err time_window
    → (ttl ≤ℤ pos 0) ⊎ (i64_max ≤ℤ now)
unfolding validate
time_cause c now ttl typed issued expiring h = ground (arith, (lt-saturating_add now ttl typed).1)

module _ (json : Json) (b : Borsh) (sha : Sha256) (ed : Ed25519) {E : Type 0} (self : ClaimSigner)
    (verifier : TlsnProofVerifier json E) (artifact : Bytes) (url : Url) (field_name : Bytes)
    (now ttl : ℤ) (nonce : Bytes) where
  -- What each failure of the signer says.
  abbrev pub Cause : Error → Type 0
  Cause Error.tlsn = (x : E) × (verifier.verify artifact ≡ err x)
  Cause Error.host =
      (d : VerifiedTlsData json) × (verifier.verify artifact ≡ ok d)
      × ((url.scheme ≢ codes "https") ⊎ (url.host_str ≢ some d.host))
  Cause Error.field =
      (d : VerifiedTlsData json) × (verifier.verify artifact ≡ ok d)
      × ((json.pointer d.response field_name ≡ none)
          ⊎ ((element : json.Value) × (json.pointer d.response field_name ≡ some element)
              × (scalar (json.view element) ≡ none)))
  Cause (Error.claim (length name)) =
      (d : VerifiedTlsData json) × (value : Bytes) × (verifier.verify artifact ≡ ok d)
      × IsAnswer json b sha ed d url field_name value
      × (IsOutside d.host 128 ⊎ IsOutside field_name 128 ⊎ IsOutside value 256)
  Cause (Error.claim time_window) = (ttl ≤ℤ pos 0) ⊎ (i64_max ≤ℤ now)
  Cause (Error.claim version) = ⊥
  Cause (Error.claim expired) = ⊥
  Cause (Error.claim future) = ⊥
  Cause (Error.claim too_old) = ⊥

  -- A refused claim: it is the one built from an answer.
  refused :
      (d : VerifiedTlsData json) (e : ClaimError)
      → sign_verified json b sha ed self d url field_name now ttl nonce ≡ err (Error.claim e)
      → (value : Bytes) × IsAnswer json b sha ed d url field_name value
        × (validate (build_claim json b sha ed d field_name value now ttl nonce) now ttl ≡ err e)
  unfolding sign_verified
  refused d e h = elim (Option-cases (json.pointer d.response field_name)) [
    | inl p ↦ absurd (ground arith)
    | inr (element, p) ↦ elim (Option-cases (scalar (json.view element))) [
      | inl q ↦ absurd (ground arith)
      | inr (value, q) ↦ (
        value,
        record {
          https = (bytes_eq_iff _ _).0 (ground arith);
          same_host = opt_bytes_eq→eq _ _ (ground arith);
          element = element;
          found = p;
          is_scalar = q;
        },
        ground arith,
      )
    ]
  ]

  module _ (now_typed : IsI64 now) (d : VerifiedTlsData json)
      (verified : verifier.verify artifact ≡ ok d) where
    sign-ne-tlsn : sign_verified json b sha ed self d url field_name now ttl nonce ≢ err Error.tlsn
    unfolding sign_verified
    sign-ne-tlsn h = ground arith

    never :
        (e : ClaimError)
        → ((value : Bytes) × IsAnswer json b sha ed d url field_name value
            × (validate (build_claim json b sha ed d field_name value now ttl nonce) now ttl
                ≡ err e))
        → ((name : String) → e ≢ length name)
        → e ≢ time_window
        → ⊥
    unfolding build_claim
    never e (value, answer, h) p q =
        elim (issue_errors (build_claim json b sha ed d field_name value now ttl nonce) now ttl
          now_typed refl refl refl e h) [ inl (name, r) ↦ p name r | inr r ↦ q r ]

    host-Cause :
        sign_verified json b sha ed self d url field_name now ttl nonce ≡ err Error.host
        → Cause Error.host
    unfolding sign_verified
    host-Cause h = (
      d,
      verified,
      elim (Bool-cases (bytes_eq url.scheme (codes "https"))) [
        | inl same ↦ inr (λ p. absurd (ground (arith, bytes_eq_refl d.host)))
        | inr other ↦
            inl (λ p. absurd (ground (arith, (bytes_eq_iff url.scheme (codes "https")).1 p)))
      ],
    )

    field-Cause :
        sign_verified json b sha ed self d url field_name now ttl nonce ≡ err Error.field
        → Cause Error.field
    unfolding sign_verified
    field-Cause h = (
      d,
      verified,
      elim (Option-cases (json.pointer d.response field_name)) [
        | inl e ↦ inl e
        | inr (element, e) ↦ inr (element, e, ground arith)
      ],
    )

    sign-Cause :
        (e : Error)
        → sign_verified json b sha ed self d url field_name now ttl nonce ≡ err e
        → Cause e
    unfolding build_claim
    sign-Cause Error.tlsn h = absurd (sign-ne-tlsn h)
    sign-Cause Error.host h = host-Cause h
    sign-Cause Error.field h = field-Cause h
    sign-Cause (Error.claim (length name)) h =
        let (value, answer, e) = refused d (length name) h in
        (d, value, verified, answer, length_cause _ now ttl name e)
    sign-Cause (Error.claim time_window) h =
        let (value, answer, e) = refused d time_window h in
        time_cause _ now ttl now_typed refl refl e
    sign-Cause (Error.claim version) h = never version (refused d version h) (λ name. cc) (cc)
    sign-Cause (Error.claim expired) h = never expired (refused d expired h) (λ name. cc) (cc)
    sign-Cause (Error.claim future) h = never future (refused d future h) (λ name. cc) (cc)
    sign-Cause (Error.claim too_old) h = never too_old (refused d too_old h) (λ name. cc) (cc)

  -- For an `i64` clock every failure of the signer has the cause that its error names: the proof
  -- verifier refused the artifact; it accepted it, and the URL is not https or has another host; it
  -- accepted it, and the pointer finds nothing or no scalar; the data answer the request, and one of
  -- the three texts is empty or too long; the lifetime is not positive, or the clock is at the
  -- largest `i64`. The version and freshness errors do not occur.
  pub verify_and_sign_errors :
      (e : Error)
      → IsI64 now
      → verify_and_sign json b sha ed self verifier artifact url field_name now ttl nonce ≡ err e
      → Cause e
  unfolding verify_and_sign
  verify_and_sign_errors e now_typed h = elim (Result-cases (verifier.verify artifact)) [
    | inl (d, p) ↦ sign-Cause now_typed d p e (ground arith)
    | inr (x, p) ↦ subst Cause {x = Error.tlsn} (ground arith) (x, p)
  ]
