-- ===== src/Tlsn/Failed.antt =====
-- The first step at which `verify` of verify.rs fails.
use webproof_solana.Prelude.{
  Bool-cases, ◌≡◌, ◌≢◌, ap, false, List, [], Result, ◌>>=◌, subst, arith, inl, inr, ◌⊎◌, some, none,
  Memᴰ, Bytes, any, bytes_eq, any-bytes_eq_iff, is_empty, ok, err, failed, ok_or, ok_or-eq-ok,
  ok_or-eq-err, map_err, map_err-eq-ok, map_err-eq-err, require, require-eq-ok, require-eq-err,
}
use webproof_solana.Verifier.{Json, VerifiedTlsData}
use webproof_solana.Tlsn.{
  RangeSets, PartialTranscript, PresentationOutput, Tlsn, TlsnPresentationVerifier, crypto_provider,
  read_transcript, verify, VerifyError, untrusted_notary, verification, missing_server_name,
  missing_transcript, coverage, http,
}
use webproof_solana.Tlsn.Verified.{IsProvider, IsProvider-iff}
use webproof_solana.Tlsn.Unread.{IsUnread, IsUnread-iff}

module _ (json : Json) (ranges : RangeSets) (lib : Tlsn json ranges) where
  -- The artifact is a presentation of an allowlisted notary.
  abbrev pub IsTrusted : TlsnPresentationVerifier → Bytes → lib.Presentation → Type 0
  IsTrusted self artifact p =
      (lib.deserialize artifact ≡ some p) × Memᴰ (lib.verifying_key p) self.trusted_notary_keys

  -- The library has verified such a presentation under the verifier's roots.
  abbrev pub IsRun : TlsnPresentationVerifier → Bytes → PresentationOutput ranges → Type 0
  IsRun self artifact output =
      (p : lib.Presentation) × (provider : lib.CryptoProvider) × IsTrusted self artifact p
      × IsProvider json ranges lib self provider
      × (lib.verify p provider ≡ ok output)

  -- The first step at which an artifact fails; the earlier ones have passed.
  abbrev pub IsUnverified : TlsnPresentationVerifier → Bytes → VerifyError → Type 0
  IsUnverified self artifact VerifyError.deserialize = lib.deserialize artifact ≡ none
  IsUnverified self artifact untrusted_notary =
      (p : lib.Presentation) × (lib.deserialize artifact ≡ some p)
      × ¬ Memᴰ (lib.verifying_key p) self.trusted_notary_keys
  IsUnverified self artifact (verification e) =
      (p : lib.Presentation) × IsTrusted self artifact p
      × (((self.server_roots ≢ []) × (lib.provider_with_roots self.server_roots ≡ err e))
          ⊎ ((provider : lib.CryptoProvider) × IsProvider json ranges lib self provider
              × (lib.verify p provider ≡ err e)))
  IsUnverified self artifact missing_server_name =
      (output : PresentationOutput ranges) × IsRun self artifact output
      × (output.server_name ≡ none)
  IsUnverified self artifact missing_transcript =
      (output : PresentationOutput ranges) × (host : Bytes) × IsRun self artifact output
      × (output.server_name ≡ some host)
      × (output.transcript ≡ none)
  IsUnverified self artifact e =
      (output : PresentationOutput ranges) × (host : Bytes) × (t : PartialTranscript ranges) × IsRun
        self artifact output
      × (output.server_name ≡ some host)
      × (output.transcript ≡ some t)
      × IsUnread json ranges lib t e

  unread :
      (self : TlsnPresentationVerifier) (artifact : Bytes) (e : VerifyError)
      (output : PresentationOutput ranges) (host : Bytes) (t : PartialTranscript ranges)
      → IsRun self artifact output
      → output.server_name ≡ some host
      → output.transcript ≡ some t
      → IsUnread json ranges lib t e
      → IsUnverified self artifact e
  unread self artifact (coverage part) output host t r n d why = (output, host, t, r, n, d, why)
  unread self artifact (http e) output host t r n d why = (output, host, t, r, n, d, why)
  unread self artifact VerifyError.json output host t r n d why = (output, host, t, r, n, d, why)
  unread self artifact VerifyError.deserialize output host t r n d why = absurd why
  unread self artifact untrusted_notary output host t r n d why = absurd why
  unread self artifact (verification e) output host t r n d why = absurd why
  unread self artifact missing_server_name output host t r n d why = absurd why
  unread self artifact missing_transcript output host t r n d why = absurd why

  not_empty : (roots : List Bytes) → is_empty roots ≡ false → roots ≢ []
  not_empty roots h e = ground (arith, h, ap is_empty e)

  no_provider :
      (self : TlsnPresentationVerifier) (e : VerifyError)
      → crypto_provider json ranges lib self ≡ err e
      → (x : Bytes) × (self.server_roots ≢ [])
        × (lib.provider_with_roots self.server_roots ≡ err x)
        × (verification x ≡ e)
  unfolding crypto_provider
  no_provider self e h = elim (Bool-cases (is_empty self.server_roots)) [
    | inl own ↦ absurd (ground arith)
    | inr roots ↦
        let (x, f, same) =
          map_err-eq-err verification (lib.provider_with_roots self.server_roots) (ground arith) in
        (x, not_empty self.server_roots roots, f, same)
  ]

  -- From the library's verification on, as its own function.
  abbrev verify_trusted :
      TlsnPresentationVerifier
      → Bytes
      → lib.Presentation
      → Result VerifyError (VerifiedTlsData json)
  verify_trusted self artifact p = do
    provider ← crypto_provider json ranges lib self
    output ← map_err verification (lib.verify p provider)
    host ← ok_or output.server_name missing_server_name
    transcript ← ok_or output.transcript missing_transcript
    (path, response_json) ← read_transcript json ranges lib transcript
    ok (record { host = host; path = path; response = response_json; artifact = artifact })

  verified_or_not :
      (self : TlsnPresentationVerifier) (artifact : Bytes) (p : lib.Presentation) (e : VerifyError)
      → lib.deserialize artifact ≡ some p
      → Memᴰ (lib.verifying_key p) self.trusted_notary_keys
      → verify_trusted self artifact p ≡ err e
      → IsUnverified self artifact e
  verified_or_not self artifact p e deserialized trusted h =
      elim (failed (crypto_provider json ranges lib self) _ h) [
        | inl f ↦
            let (x, own, refused, same) = no_provider self e f in
            subst (IsUnverified self artifact) same (p, (deserialized, trusted), inl (own, refused))
        | inr (provider, e1, h1) ↦
            let provided = (IsProvider-iff json ranges lib self provider).0 e1 in
            elim (failed (map_err verification (lib.verify p provider)) _ h1) [
              | inl f ↦
                  let (x, refused, same) = map_err-eq-err verification _ f in
                  subst (IsUnverified self artifact) same
                    (p, (deserialized, trusted), inr (provider, provided, refused))
              | inr (output, e2, h2) ↦
                  let run : IsRun self artifact output = (
                    p,
                    provider,
                    (deserialized, trusted),
                    provided,
                    map_err-eq-ok verification _ e2,
                  ) in
                  elim (failed (ok_or output.server_name missing_server_name) _ h2) [
                    | inl f ↦
                        let (gone, same) = ok_or-eq-err _ missing_server_name f in
                        subst (IsUnverified self artifact) same (output, run, gone)
                    | inr (host, e3, h3) ↦
                        elim (failed (ok_or output.transcript missing_transcript) _ h3) [
                          | inl f ↦
                              let (gone, same) = ok_or-eq-err _ missing_transcript f in
                              subst (IsUnverified self artifact) same
                                (output, host, run, ok_or-eq-ok _ missing_server_name e3, gone)
                          | inr (t, e4, h4) ↦
                              elim (failed (read_transcript json ranges lib t) _ h4) [
                                | inl f ↦
                                    unread self artifact e output host t run
                                      (ok_or-eq-ok _ missing_server_name e3)
                                      (ok_or-eq-ok _ missing_transcript e4)
                                      ((IsUnread-iff json ranges lib t e).0 f)
                                | inr ((path, value), e5, h5) ↦ absurd (ground (arith, h5))
                              ]
                        ]
                  ]
            ]
      ]

  pub verify→IsUnverified :
      (self : TlsnPresentationVerifier) (artifact : Bytes) (e : VerifyError)
      → verify json ranges lib self artifact ≡ err e
      → IsUnverified self artifact e
  unfolding verify
  verify→IsUnverified self artifact e h =
      elim (failed (ok_or (lib.deserialize artifact) VerifyError.deserialize) _ h) [
        | inl f ↦
            let (gone, same) = ok_or-eq-err _ VerifyError.deserialize f in
            subst (IsUnverified self artifact) same gone
        | inr (p, e1, h1) ↦
            let deserialized = ok_or-eq-ok _ VerifyError.deserialize e1 in
            elim (failed
              (require
                (any (λ trusted. bytes_eq trusted (lib.verifying_key p)) self.trusted_notary_keys)
                untrusted_notary)
              _ h1) [
                | inl f ↦
                    let (foreign, same) = require-eq-err _ untrusted_notary f in
                    subst (IsUnverified self artifact) same (
                      p,
                      deserialized,
                      λ m.
                          ground
                            (arith, foreign, (any-bytes_eq_iff _ self.trusted_notary_keys).1 m),
                    )
                | inr (_, e2, h2) ↦
                    verified_or_not self artifact p e deserialized
                      ((any-bytes_eq_iff _ self.trusted_notary_keys).0
                        (require-eq-ok _ untrusted_notary e2))
                      h2
              ]
      ]
