-- ===== src/Tlsn/Verified.antt =====
-- What `verify` of verify.rs accepts, by membership of keys.
use webproof_solana.Prelude.{
  subst, ◌∙◌, ap, ◌∷◌, [], ◌≢◌, ◌⊎◌, ◌≡◌, ◌↔◌, refl, sym, arith, false, inl, inr, some, List, Memᴰ,
  Bytes, any, bytes_eq, any-bytes_eq_iff, is_empty, ok, passed, ok_or-eq-ok, map_err-eq-ok,
  require-eq-ok, map_err, ok_or, require,
}
use webproof_solana.Verifier.{Json, VerifiedTlsData}
use webproof_solana.Tlsn.{
  RangeSets, PartialTranscript, PresentationOutput, Tlsn, TlsnPresentationVerifier, crypto_provider,
  read_transcript, verify, verification, untrusted_notary, missing_server_name, missing_transcript,
  VerifyError,
}
use webproof_solana.Tlsn.Read.{IsRead, read→IsRead, IsRead→read}

module _ (json : Json) (ranges : RangeSets) (lib : Tlsn json ranges) where
  -- The roots that the server's certificate is checked against: the library's default, or the
  -- verifier's own if it has any.
  abbrev pub IsProvider : TlsnPresentationVerifier → lib.CryptoProvider → Type 0
  IsProvider self provider =
      ((self.server_roots ≡ []) × (provider ≡ lib.default_provider))
      ⊎ ((self.server_roots ≢ []) × (lib.provider_with_roots self.server_roots ≡ ok provider))

  pub roots-cases : (roots : List Bytes) → (roots ≡ []) ⊎ ((roots ≢ []) × (is_empty roots ≡ false))
  roots-cases [] = inl refl
  roots-cases (x ∷ xs) = inr (λ e. ground arith, refl)

  pub IsProvider-iff :
      (self : TlsnPresentationVerifier) (provider : lib.CryptoProvider)
      → (crypto_provider json ranges lib self ≡ ok provider) ↔ IsProvider self provider
  unfolding crypto_provider
  IsProvider-iff self provider = (
    λ h. elim (roots-cases self.server_roots) [
      | inl e ↦ inl (e, ground arith)
      | inr (e, f) ↦ inr (e, ground arith)
    ],
    λ p. elim p [
      | inl (e, f) ↦ rw e (ap ok (sym f))
      | inr (e, f) ↦ ground (arith, roots-cases self.server_roots)
    ],
  )

  -- A presentation of an allowlisted notary that the library verifies, with a server name and a
  -- readable transcript.
  pub record IsVerified (self : TlsnPresentationVerifier) (artifact : Bytes)
      (d : VerifiedTlsData json) : Type 0 where
    pub presentation : lib.Presentation
    pub provider : lib.CryptoProvider
    pub output : PresentationOutput ranges
    pub transcript : PartialTranscript ranges
    pub deserialized : lib.deserialize artifact ≡ some presentation
    pub trusted : Memᴰ (lib.verifying_key presentation) self.trusted_notary_keys
    pub provided : IsProvider self provider
    pub verified : lib.verify presentation provider ≡ ok output
    pub named : output.server_name ≡ some d.host
    pub disclosed : output.transcript ≡ some transcript
    pub is_read : IsRead json ranges lib transcript d.path d.response
    pub same_artifact : d.artifact ≡ artifact

  answer_of :
      (self : TlsnPresentationVerifier) (artifact : Bytes) (d : VerifiedTlsData json)
      (presentation : lib.Presentation) (provider : lib.CryptoProvider)
      (output : PresentationOutput ranges) (host : Bytes) (transcript : PartialTranscript ranges)
      (path : Bytes) (value : json.Value)
      → lib.deserialize artifact ≡ some presentation
      → Memᴰ (lib.verifying_key presentation) self.trusted_notary_keys
      → IsProvider self provider
      → lib.verify presentation provider ≡ ok output
      → output.server_name ≡ some host
      → output.transcript ≡ some transcript
      → IsRead json ranges lib transcript path value
      → record { host = host; path = path; response = value; artifact = artifact } ≡ d
      → IsVerified self artifact d
  answer_of self artifact d presentation provider output host transcript path value deserialized
        trusted provided verified named disclosed is_read same =
      record {
        presentation = presentation;
        provider = provider;
        output = output;
        transcript = transcript;
        deserialized = deserialized;
        trusted = trusted;
        provided = provided;
        verified = verified;
        named = named ∙ ap (λ (e : VerifiedTlsData json). some e.host) same;
        disclosed = disclosed;
        is_read =
            subst
              (λ (e : VerifiedTlsData json). IsRead json ranges lib transcript e.path e.response)
              same is_read;
        same_artifact = sym (ap (λ (e : VerifiedTlsData json). e.artifact) same);
      }

  verify→IsVerified :
      (self : TlsnPresentationVerifier) (artifact : Bytes) (d : VerifiedTlsData json)
      → verify json ranges lib self artifact ≡ ok d
      → IsVerified self artifact d
  unfolding verify
  verify→IsVerified self artifact d h =
      let (presentation, e1, h1) =
        passed (ok_or (lib.deserialize artifact) VerifyError.deserialize) _ h in
      let (_, e2, h2) =
        passed
          (require
            (any (λ trusted. bytes_eq trusted (lib.verifying_key presentation))
              self.trusted_notary_keys)
            untrusted_notary)
          _ h1 in
      let (provider, e3, h3) = passed (crypto_provider json ranges lib self) _ h2 in
      let (output, e4, h4) =
        passed (map_err verification (lib.verify presentation provider)) _ h3 in
      let (host, e5, h5) = passed (ok_or output.server_name missing_server_name) _ h4 in
      let (transcript, e6, h6) = passed (ok_or output.transcript missing_transcript) _ h5 in
      let ((path, value), e7, h7) = passed (read_transcript json ranges lib transcript) _ h6 in
      answer_of self artifact d presentation provider output host transcript path value
        (ok_or-eq-ok _ VerifyError.deserialize e1)
        ((any-bytes_eq_iff _ self.trusted_notary_keys).0 (require-eq-ok _ untrusted_notary e2))
        ((IsProvider-iff self provider).0 e3) (map_err-eq-ok verification _ e4)
        (ok_or-eq-ok _ missing_server_name e5) (ok_or-eq-ok _ missing_transcript e6)
        (read→IsRead json ranges lib transcript path value e7) (ground (arith, h7))

  IsVerified→verify :
      (self : TlsnPresentationVerifier) (artifact : Bytes) (d : VerifiedTlsData json)
      → IsVerified self artifact d
      → verify json ranges lib self artifact ≡ ok d
  unfolding verify
  IsVerified→verify self artifact d v = ground (
    arith,
    v.deserialized,
    (any-bytes_eq_iff _ self.trusted_notary_keys).1 v.trusted,
    (IsProvider-iff self v.provider).1 v.provided,
    v.verified,
    v.named,
    v.disclosed,
    IsRead→read json ranges lib v.transcript d.path d.response v.is_read,
    v.same_artifact,
  )

  -- For an artifact and a verifier: the proof verifier answers data exactly if the artifact is a
  -- presentation whose notary key is allowlisted, the library verifies it under the verifier's own
  -- roots or, if there are none, the default ones, it proves a server name and a transcript, every
  -- position of the request line and of the whole response is covered by the proofs, and the body
  -- is JSON; the data are then that server name, the request's target, that JSON and the artifact.
  pub verify_iff :
      (self : TlsnPresentationVerifier) (artifact : Bytes) (d : VerifiedTlsData json)
      → (verify json ranges lib self artifact ≡ ok d) ↔ IsVerified self artifact d
  verify_iff self artifact d =
      (verify→IsVerified self artifact d, IsVerified→verify self artifact d)
