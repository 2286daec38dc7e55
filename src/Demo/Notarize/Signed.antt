-- ===== src/Demo/Notarize/Signed.antt =====
-- The two steps one after the other: webproof_notarize.rs, then webproof_verify_sign.rs on the
-- directory that it leaves.
use webproof_solana.Prelude.{◌≡◌, Option, some, [], ◌∷◌, Bytes, codes, ok}
use webproof_solana.Borsh.{Borsh}
use webproof_solana.Crypto.{Sha256, Ed25519}
use webproof_solana.Verifier.{Json, SignedClaim, ClaimSigner}
use webproof_solana.Tlsn.{RangeSets, Tlsn}
use webproof_solana.Tlsn.Proven.{IsProven}
use webproof_solana.Tlsn.Present.{Builders}
use webproof_solana.Tlsn.Notarize.{Mpc, NotarizedSession}
use webproof_solana.Tlsn.Notarize.Attested.{IsNotarized}
use webproof_solana.Demo.Settings.{Env, Decoders}
use webproof_solana.Demo.Target.{Network, DemoTarget, resolve_target}
use webproof_solana.Demo.VerifySign
use webproof_solana.Demo.VerifySign.{RequestJson, choose_verifier}
use webproof_solana.Demo.VerifySign.Issued.{IsListed}
use webproof_solana.Demo.Notarize.{Disk, Encoders}

module _ (decoders : Decoders) (net : Network) (requests : RequestJson)
    (encoders : Encoders decoders requests net.parse) (ranges : RangeSets) (lib : Mpc)
    (builders : Builders ranges lib.Attestation lib.Secrets)
    (serialize : builders.Presentation → Option Bytes) (disk : Disk) (json : Json)
    (tlsn : Tlsn json ranges) (b : Borsh) (sha : Sha256) (ed : Ed25519) where
  -- The claim is of the notarized target: proven, under the session's notary key, by the bytes that
  -- the first step wrote.
  pub record IsSignedTarget (env next : Env) (out : SignedClaim) : Type 0 where
    pub target : DemoTarget
    pub session : NotarizedSession lib
    pub built : builders.Presentation
    pub artifact : Bytes
    pub signer : ClaimSigner
    pub allowed : Bytes
    pub resolved : resolve_target decoders net env ≡ ok target
    pub notarized : IsNotarized lib target.notarize session
    pub serialized : serialize built ≡ some artifact
    pub allowed_hosts : next (codes "WEBPROOF_ALLOWED_HOSTS") ≡ some allowed
    pub host_listed : IsListed allowed out.claim.source_host
    pub proven :
        IsProven json ranges tlsn b sha ed signer
          (choose_verifier target.fixture net.ca_cert_der (session.notary_verifying_key ∷ []))
          artifact
          target.url
          target.field_name
          out
    pub notary : tlsn.verifying_key proven.verified.presentation ≡ session.notary_verifying_key
