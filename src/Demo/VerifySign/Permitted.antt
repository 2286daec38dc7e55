-- ===== src/Demo/VerifySign/Permitted.antt =====
-- What the step of webproof_verify_sign.rs writes.
use webproof_solana.Prelude.{
  ℕ, ◌≡◌, refl, sym, subst, Option, some, List, Bytes, codes, as_i64, as_i64-IsI64, ok,
  some-injective, ◌∙◌,
}
use webproof_solana.Borsh.{Borsh}
use webproof_solana.Crypto.{Sha256, Ed25519}
use webproof_solana.Verifier.{Json, Url, SignedClaim, ClaimSigner}
use webproof_solana.Tlsn.{RangeSets, Tlsn, TlsnPresentationVerifier}
use webproof_solana.Tlsn.Proven.{IsProven, verify_and_sign-IsProven}
use webproof_solana.Demo.Settings.{Env, Decoders, parse_signing_key}
use webproof_solana.Demo.VerifySign.Trusted.{
  AreTrusted, IsChosen, choose_verifier-IsChosen, trusted_keys-AreTrusted,
}
use webproof_solana.Demo.VerifySign.Issued.{IsListed, main_iff}
use webproof_solana.Demo.VerifySign.{
  Files, RequestJson, Expected, trusted_keys, choose_verifier, read_request, main,
}

module _ (json : Json) (ranges : RangeSets) (lib : Tlsn json ranges) (b : Borsh) (sha : Sha256)
    (ed : Ed25519) (decoders : Decoders) (requests : RequestJson) (parse : Bytes → Option Url)
    (ca_cert_der : Bytes) where
  -- The written claim is of an allowlisted host, and proven by the artifact in the directory under
  -- the trusted keys and by the configured signer.
  pub record IsPermitted (env : Env) (files : Files) (out : SignedClaim) : Type 0 where
    pub artifact : Bytes
    pub expected : Expected
    pub allowed : Bytes
    pub keys : List Bytes
    pub signer_key : Bytes
    pub signer : ClaimSigner
    pub read : files (codes "presentation.tlsn.bin") ≡ some artifact
    pub requested : read_request requests parse files ≡ ok expected
    pub allowed_hosts : env (codes "WEBPROOF_ALLOWED_HOSTS") ≡ some allowed
    pub host_listed : IsListed allowed out.claim.source_host
    pub trusted : trusted_keys decoders files env ≡ ok keys
    pub trusted_from : AreTrusted decoders files env keys
    pub verifier : TlsnPresentationVerifier
    pub chosen : verifier ≡ choose_verifier expected.fixture ca_cert_der keys
    pub trusting : IsChosen expected.fixture ca_cert_der keys verifier
    pub signer_set : env (codes "WEBPROOF_SIGNER_KEY") ≡ some signer_key
    pub signer_parsed : parse_signing_key decoders signer_key ≡ ok signer.key
    pub proven :
        IsProven json ranges lib b sha ed signer
          (choose_verifier expected.fixture ca_cert_der keys)
          artifact
          expected.url
          expected.field_name
          out

  -- The claim that the step writes is of a host in the allowlist that must be set, comes with all
  -- that a signed claim proves (a presentation in the artifact file, of a notary whose key is among
  -- the trusted keys, read for the URL and the field of the request file), and is signed by the
  -- configured key. The trusted keys are the decoded entries of the set list or, if none is set, the
  -- one of the key file; the roots are the fixture's certificate if the request file says that the
  -- fixture was notarized, and else the public ones.
  pub main-IsPermitted :
      (env : Env) (files : Files) (seconds : Option ℕ) (nonce : Bytes) (out : SignedClaim)
      → main json ranges lib b sha ed decoders requests parse ca_cert_der env files seconds nonce
        ≡ ok out
      → IsPermitted env files out
  main-IsPermitted env files seconds nonce out h =
      let i =
        (main_iff json ranges lib b sha ed decoders requests parse ca_cert_der env files seconds
            nonce out).0
          h in
      let signer : ClaimSigner = record { key = i.seed } in
      let proven =
        verify_and_sign-IsProven json ranges lib b sha ed signer
          (choose_verifier i.expected.fixture ca_cert_der i.keys) i.artifact i.expected.url
          i.expected.field_name (as_i64 i.now) i.ttl nonce out (as_i64-IsI64 i.now) i.issued in
      record {
        artifact = i.artifact;
        expected = i.expected;
        allowed = i.allowed;
        keys = i.keys;
        signer_key = i.signer_key;
        signer = signer;
        read = i.read;
        requested = i.requested;
        allowed_hosts = i.allowed_hosts;
        host_listed =
            subst (IsListed i.allowed)
              (some-injective _ _ (sym i.host_expected ∙ proven.expected_host)) i.host_listed;
        trusted = i.trusted;
        trusted_from = trusted_keys-AreTrusted decoders files env i.keys i.trusted;
        verifier = choose_verifier i.expected.fixture ca_cert_der i.keys;
        chosen = refl;
        trusting = choose_verifier-IsChosen i.expected.fixture ca_cert_der i.keys;
        signer_set = i.signer_set;
        signer_parsed = i.signer_parsed;
        proven = proven;
      }
