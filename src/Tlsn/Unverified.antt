-- ===== src/Tlsn/Unverified.antt =====
-- How `verify` of verify.rs fails.
use webproof_solana.Prelude.{
  Bool-cases, ◌≡◌, ◌≢◌, ◌↔◌, ◌∙◌, refl, false, List, [], ◌>>=◌, inl, inr, Memᴰ, Bytes, any,
  bytes_eq, any-bytes_eq_iff, ok, err, ok_or,
}
use webproof_solana.Verifier.{Json, from_verified_presentation}
use webproof_solana.Tlsn.{
  RangeSets, PresentationOutput, Tlsn, TlsnPresentationVerifier, crypto_provider, read_transcript,
  verify, VerifyError, untrusted_notary, verification, missing_server_name, missing_transcript,
  coverage, http,
}
use webproof_solana.Tlsn.Verified.{IsProvider-iff, roots-cases}
use webproof_solana.Tlsn.Unread.{IsUnread-iff}
use webproof_solana.Tlsn.Failed.{IsRun, IsUnverified, verify→IsUnverified}

module _ (json : Json) (ranges : RangeSets) (lib : Tlsn json ranges) where
  untrusted_any :
      (key : Bytes) (keys : List Bytes)
      → (¬ Memᴰ key keys)
      → any (λ trusted. bytes_eq trusted key) keys ≡ false
  untrusted_any key keys foreign = elim (Bool-cases (any (λ trusted. bytes_eq trusted key) keys)) [
    | inl m ↦ absurd (foreign ((any-bytes_eq_iff key keys).0 m))
    | inr f ↦ f
  ]

  refused_provider :
      (self : TlsnPresentationVerifier) (x : Bytes)
      → self.server_roots ≢ []
      → lib.provider_with_roots self.server_roots ≡ err x
      → crypto_provider json ranges lib self ≡ err (verification x)
  unfolding crypto_provider
  refused_provider self x own f = elim (roots-cases json ranges lib self.server_roots) [
    | inl e ↦ absurd (own e)
    | inr (n, e) ↦ rw (e, f) refl
  ]

  -- What a run of the library leaves of `verify`.
  after_run :
      (self : TlsnPresentationVerifier) (artifact : Bytes) (output : PresentationOutput ranges)
      → IsRun json ranges lib self artifact output
      → verify json ranges lib self artifact ≡ (do
        host ← ok_or output.server_name missing_server_name
        transcript ← ok_or output.transcript missing_transcript
        (path, response_json) ← read_transcript json ranges lib transcript
        ok (from_verified_presentation host path response_json artifact))
  unfolding verify
  after_run self artifact output (p, provider, (deserialized, trusted), provided, verified) =
      rw
        (
          deserialized,
          (any-bytes_eq_iff _ self.trusted_notary_keys).1 trusted,
          (IsProvider-iff json ranges lib self provider).1 provided,
          verified,
        )
        refl

  IsUnverified→verify :
      (self : TlsnPresentationVerifier) (artifact : Bytes) (e : VerifyError)
      → IsUnverified json ranges lib self artifact e
      → verify json ranges lib self artifact ≡ err e
  unfolding verify
  IsUnverified→verify self artifact VerifyError.deserialize u = rw u refl
  IsUnverified→verify self artifact untrusted_notary (p, deserialized, foreign) =
      rw (deserialized, untrusted_any _ self.trusted_notary_keys foreign) refl
  IsUnverified→verify self artifact (verification e)
        (p, (deserialized, trusted), inl (own, refused)) =
      rw
        (
          deserialized,
          (any-bytes_eq_iff _ self.trusted_notary_keys).1 trusted,
          refused_provider self e own refused,
        )
        refl
  IsUnverified→verify self artifact (verification e)
        (p, (deserialized, trusted), inr (provider, provided, refused)) =
      rw
        (
          deserialized,
          (any-bytes_eq_iff _ self.trusted_notary_keys).1 trusted,
          (IsProvider-iff json ranges lib self provider).1 provided,
          refused,
        )
        refl
  IsUnverified→verify self artifact missing_server_name (output, run, gone) =
      after_run self artifact output run ∙ rw gone refl
  IsUnverified→verify self artifact missing_transcript (output, host, run, named, gone) =
      after_run self artifact output run ∙ rw (named, gone) refl
  IsUnverified→verify self artifact (http e) (output, host, t, run, named, disclosed, why) =
      after_run self artifact output run
      ∙ rw (named, disclosed, (IsUnread-iff json ranges lib t (http e)).1 why) refl
  IsUnverified→verify self artifact (coverage part) (output, host, t, run, named, disclosed, why) =
      after_run self artifact output run
      ∙ rw (named, disclosed, (IsUnread-iff json ranges lib t (coverage part)).1 why) refl
  IsUnverified→verify self artifact VerifyError.json (output, host, t, run, named, disclosed, why) =
      after_run self artifact output run
      ∙ rw (named, disclosed, (IsUnread-iff json ranges lib t VerifyError.json).1 why) refl

  -- The proof verifier fails with an error exactly if the error's step is the first that fails, all
  -- the earlier ones having passed, in this order: the artifact is a presentation; its notary key is
  -- allowlisted; the verifier's own roots, if it has any, are accepted, and the library accepts the
  -- presentation; it proves a server name; it proves a transcript; the request parses; every
  -- position of the request line is covered by the proofs; the response parses; every position of it
  -- is covered; it has a body; the body is JSON.
  pub verify-err_iff :
      (self : TlsnPresentationVerifier) (artifact : Bytes) (e : VerifyError)
      → (verify json ranges lib self artifact ≡ err e)
        ↔ IsUnverified json ranges lib self artifact e
  verify-err_iff self artifact e =
      (verify→IsUnverified json ranges lib self artifact e, IsUnverified→verify self artifact e)
