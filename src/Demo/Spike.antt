-- ===== src/Demo/Spike.antt =====
-- crates/tlsn-demo/demo/src/bin/spike.rs: notarize the target, verify the presentation under the
-- session's own notary key, and show the field.
pub mod Proven
use webproof_solana.Prelude.{
  Bool, Option, [], ◌∷◌, Bytes, Result, ok, ◌>>=◌, ok_or, map_err, if◌then◌else◌,
}
use webproof_solana.Verifier.{Json}
use webproof_solana.Tlsn.{
  RangeSets, Tlsn, TlsnPresentationVerifier, VerifyError, with_mozilla_roots, with_custom_roots,
  verify,
}
use webproof_solana.Tlsn.Present.{Builders, PresentError, build_presentation}
use webproof_solana.Tlsn.Notarize.{Mpc, NotarizeError, notarize}
use webproof_solana.Demo.Settings.{Env, Decoders, DemoError}
use webproof_solana.Demo.Target.{Network, resolve_target}

pub data SpikeError : Type 0 where
  demo : DemoError → SpikeError
  notarization : NotarizeError → SpikeError
  presentation : PresentError → SpikeError
  bincode : SpikeError
  verification : VerifyError → SpikeError
  not_present : Bytes → SpikeError

-- What is printed at the end.
pub record Shown (json : Json) : Type 0 where
  pub host : Bytes
  pub field_name : Bytes
  pub value : json.Value

unfoldable pub session_verifier : Bool → Bytes → Bytes → TlsnPresentationVerifier
session_verifier fixture ca_cert_der key =
    if fixture
    then with_custom_roots (ca_cert_der ∷ []) (key ∷ [])
    else with_mozilla_roots (key ∷ [])

module _ (decoders : Decoders) (net : Network) (json : Json) (ranges : RangeSets) (lib : Mpc)
    (builders : Builders ranges lib.Attestation lib.Secrets)
    (serialize : builders.Presentation → Option Bytes) (tlsn : Tlsn json ranges) where
  unfoldable pub main : Env → Bool → Result SpikeError (Shown json)
  main env in_time = do
    target ← map_err demo (resolve_target decoders net env)
    session ← map_err notarization (notarize lib in_time target.notarize)
    built ←
        map_err presentation
          (build_presentation ranges builders session.attestation session.secrets)
    artifact ← ok_or (serialize built) bincode
    let verifier = session_verifier target.fixture net.ca_cert_der session.notary_verifying_key
    verified ← map_err verification (verify json ranges tlsn verifier artifact)
    value ← ok_or (json.pointer verified.response target.field_name) (not_present target.field_name)
    ok (record { host = verified.host; field_name = target.field_name; value = value })
