-- ===== src/Demo/Spike/Proven.antt =====
-- What spike.rs shows.
use webproof_solana.Prelude.{
  ◌≡◌, ◌⊎◌, inl, inr, refl, subst, Bool, true, false, Option, some, [], ◌∷◌, Memᴰ, Bytes, ok,
  passed, ok_or, ok_or-eq-ok, map_err, map_err-eq-ok, ok-injective, member-singleton,
}
use webproof_solana.Verifier.{Json, VerifiedTlsData}
use webproof_solana.Tlsn.{
  RangeSets, Tlsn, TlsnPresentationVerifier, with_mozilla_roots, with_custom_roots, verify,
}
use webproof_solana.Tlsn.Verified.{IsVerified, verify_iff}
use webproof_solana.Tlsn.Present.{Builders, build_presentation}
use webproof_solana.Tlsn.Present.Disclosed.{IsDisclosure, build_presentation-IsDisclosure}
use webproof_solana.Tlsn.Notarize.{Mpc, NotarizedSession, notarize}
use webproof_solana.Tlsn.Notarize.Attested.{IsNotarized, notarize-IsNotarized}
use webproof_solana.Demo.Settings.{Env, Decoders}
use webproof_solana.Demo.Target.{Network, DemoTarget, resolve_target}
use webproof_solana.Demo.Spike.{
  demo, notarization, presentation, bincode, verification, not_present, Shown, session_verifier,
  main,
}

-- The verifier trusts one notary key; its roots are the certificate of the fixture if this was
-- notarized, and else it has none of its own, so that the public ones apply.
abbrev pub IsSessionVerifier : Bool → Bytes → Bytes → TlsnPresentationVerifier → Type 0
IsSessionVerifier fixture ca_cert_der key verifier =
    (verifier.trusted_notary_keys ≡ key ∷ [])
    × (((fixture ≡ true) × (verifier.server_roots ≡ ca_cert_der ∷ []))
        ⊎ ((fixture ≡ false) × (verifier.server_roots ≡ [])))

session_verifier-IsSessionVerifier :
    (fixture : Bool) (ca_cert_der key : Bytes)
    → IsSessionVerifier fixture ca_cert_der key (session_verifier fixture ca_cert_der key)
unfolding session_verifier with_custom_roots with_mozilla_roots
session_verifier-IsSessionVerifier true ca_cert_der key = (refl, inl (refl, refl))
session_verifier-IsSessionVerifier false ca_cert_der key = (refl, inr (refl, refl))

module _ (decoders : Decoders) (net : Network) (json : Json) (ranges : RangeSets) (lib : Mpc)
    (builders : Builders ranges lib.Attestation lib.Secrets)
    (serialize : builders.Presentation → Option Bytes) (tlsn : Tlsn json ranges) where
  -- The target was notarized, and its presentation verified with the session's notary key.
  pub record IsShown (env : Env) (out : Shown json) : Type 0 where
    pub target : DemoTarget
    pub session : NotarizedSession lib
    pub built : builders.Presentation
    pub artifact : Bytes
    pub data_shown : VerifiedTlsData json
    pub resolved : resolve_target decoders net env ≡ ok target
    pub notarized : IsNotarized lib target.notarize session
    pub disclosure : IsDisclosure ranges builders session.attestation session.secrets built
    pub serialized : serialize built ≡ some artifact
    pub verifier : TlsnPresentationVerifier
    pub verifying :
        IsSessionVerifier target.fixture net.ca_cert_der session.notary_verifying_key verifier
    pub verified : IsVerified json ranges tlsn verifier artifact data_shown
    pub notary : tlsn.verifying_key verified.presentation ≡ session.notary_verifying_key
    pub host : out.host ≡ data_shown.host
    pub field_name : out.field_name ≡ target.field_name
    pub value : json.pointer data_shown.response target.field_name ≡ some out.value

  -- What the spike shows is proven: the target resolved and was notarized, a presentation was built
  -- that discloses what it may, and the proof verifier accepted its bytes under the notary key of
  -- this very session and, for the fixture, under its certificate, else under the public roots; the
  -- shown host is the proven server name, and the shown value is what the target's field points at in
  -- the proven body.
  pub main-IsShown :
      (env : Env) (in_time : Bool) (out : Shown json)
      → main decoders net json ranges lib builders serialize tlsn env in_time ≡ ok out
      → IsShown env out
  unfolding main
  main-IsShown env in_time out h =
      let (target, e1, h1) = passed (map_err demo (resolve_target decoders net env)) _ h in
      let (session, e2, h2) =
        passed (map_err notarization (notarize lib in_time target.notarize)) _ h1 in
      let (built, e3, h3) =
        passed
          (map_err presentation
            (build_presentation ranges builders session.attestation session.secrets))
          _ h2 in
      let (artifact, e4, h4) = passed (ok_or (serialize built) bincode) _ h3 in
      let verifier = session_verifier target.fixture net.ca_cert_der session.notary_verifying_key in
      let (data_shown, e5, h5) =
        passed (map_err verification (verify json ranges tlsn verifier artifact)) _ h4 in
      let (value, e6, h6) =
        passed
          (ok_or (json.pointer data_shown.response target.field_name)
            (not_present target.field_name))
          _ h5 in
      let is_session =
        session_verifier-IsSessionVerifier target.fixture net.ca_cert_der
          session.notary_verifying_key in
      let verified : IsVerified json ranges tlsn verifier artifact data_shown =
        (verify_iff json ranges tlsn verifier artifact data_shown).0
          (map_err-eq-ok verification _ e5) in
      subst (IsShown env) (ok-injective h6) (record {
        target = target;
        session = session;
        built = built;
        artifact = artifact;
        data_shown = data_shown;
        resolved = map_err-eq-ok demo _ e1;
        notarized =
            (notarize-IsNotarized lib in_time target.notarize session
              (map_err-eq-ok notarization _ e2)).1;
        disclosure =
            build_presentation-IsDisclosure ranges builders session.attestation session.secrets
              built (map_err-eq-ok presentation _ e3);
        serialized = ok_or-eq-ok _ bincode e4;
        verifier = verifier;
        verifying = is_session;
        verified = verified;
        notary =
            member-singleton _ session.notary_verifying_key (
              subst (Memᴰ (tlsn.verifying_key verified.presentation)) is_session.0
                verified.trusted);
        host = refl;
        field_name = refl;
        value = ok_or-eq-ok _ (not_present target.field_name) e6;
      })
