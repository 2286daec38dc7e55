-- ===== src/Demo/VerifySign/Published.antt =====
-- From the step of webproof_verify_sign.rs to the registry on chain.
use webproof_solana.Prelude.{
  ℕ, ◌≡◌, refl, ap, ◌∙◌, ◌+ℤ◌, ◌-ℤ◌, ◌≤ℤ◌, ◌<ℤ◌, ℤ, pos, IsI64, i64_max, as_i64, as_i64-IsI64,
  Option, some, Bytes, bytes_eq_refl, ok,
}
use webproof_solana.Borsh.{Borsh}
use webproof_solana.Crypto.{Sha256, Ed25519}
use webproof_solana.Program.Verification.{InstructionsSysvar}
use webproof_solana.Program.Verification.Agreement.{to_program}
use webproof_solana.Program.State.{WebProofConfig}
use webproof_solana.Program.Ledger.{Ledger, insert, insert_self, verified_claim, Runtime}
use webproof_solana.Program.Instructions.{SubmitClaim, claim_seeds, submit_claim}
use webproof_solana.Program.Instructions.Submit.{recorded}
use webproof_solana.Program.Registry.{registry, entry, entry_in}
use webproof_solana.Verifier.{
  Json, Url, SignedClaim, ClaimSigner, TlsnProofVerifier, build_claim, verify_and_sign,
}
use webproof_solana.Verifier.Signing.{verify_and_sign_iff}
use webproof_solana.Verifier.Pipeline.{IsSubmittable, signed_claim_is_stored}
use webproof_solana.Tlsn.{RangeSets, Tlsn, proof_verifier}
use webproof_solana.Demo.Settings.{Env, Decoders}
use webproof_solana.Demo.VerifySign.{Files, RequestJson, choose_verifier, main}
use webproof_solana.Demo.VerifySign.Issued.{main_iff}

issued_at_signing :
    (json : Json) (b : Borsh) (sha : Sha256) (ed : Ed25519) {E : Type 0} (self : ClaimSigner)
    (verifier : TlsnProofVerifier json E) (artifact : Bytes) (url : Url) (field_name : Bytes)
    (now ttl : ℤ) (nonce : Bytes) (out : SignedClaim)
    → IsI64 now
    → verify_and_sign json b sha ed self verifier artifact url field_name now ttl nonce ≡ ok out
    → out.claim.issued_at ≡ now
unfolding build_claim
issued_at_signing json b sha ed self verifier artifact url field_name now ttl nonce out typed h =
    let (d, verified, s) =
      (verify_and_sign_iff json b sha ed self verifier artifact url field_name now ttl nonce out
          typed).0
        h in
    ap (λ (o : SignedClaim). o.claim.issued_at) s.signed_claim

module _ (json : Json) (ranges : RangeSets) (lib : Tlsn json ranges) (b : Borsh) (sha : Sha256)
    (ed : Ed25519) (decoders : Decoders) (requests : RequestJson) (parse : Bytes → Option Url)
    (ca_cert_der : Bytes) (rt : Runtime) where
  -- What the signing step writes gets into the registry: at every `i64` time at most 30 seconds
  -- before the claim was issued, not after its expiry and at which it is at most as old as the
  -- configured, finite age, the transaction for the written claim succeeds in a ledger whose
  -- configuration trusts the signer's key and where the address of the claim id is free, and the
  -- registry of the new ledger has the claim's entry under the claim's id.
  pub main_is_published :
      (env : Env) (files : Files) (seconds : Option ℕ) (nonce : Bytes) (out : SignedClaim)
      (sysvar : InstructionsSysvar) (ctx : SubmitClaim) (l : Ledger)
      (configuration : WebProofConfig) (time : ℤ)
      → main json ranges lib b sha ed decoders requests parse ca_cert_der env files seconds nonce
        ≡ ok out
      → IsSubmittable rt b out sysvar ctx l configuration
      → IsI64 time
      → IsI64 configuration.max_claim_age_seconds
      → configuration.max_claim_age_seconds <ℤ i64_max
      → out.claim.issued_at ≤ℤ time +ℤ pos 30
      → time ≤ℤ out.claim.expires_at
      → time -ℤ out.claim.issued_at ≤ℤ configuration.max_claim_age_seconds
      → (l' : Ledger) × (submit_claim rt b sha
            (some time)
            sysvar
            ctx
            (to_program out.claim)
            out.claim_id
            l
          ≡ ok l')
        × ((registry rt l').claims out.claim_id ≡ some (entry out.claim ctx.submitter.key time))
  main_is_published env files seconds nonce out sysvar ctx l configuration time h r time_typed
        age_typed finite skew alive young =
      let i =
        (main_iff json ranges lib b sha ed decoders requests parse ca_cert_der env files seconds
            nonce out).0
          h in
      let self : ClaimSigner = record { key = i.seed } in
      let verifier =
        proof_verifier json ranges lib (choose_verifier i.expected.fixture ca_cert_der i.keys) in
      let at : out.claim.issued_at ≡ as_i64 i.now =
        issued_at_signing json b sha ed self verifier i.artifact i.expected.url
          i.expected.field_name (as_i64 i.now) i.ttl nonce out (as_i64-IsI64 i.now) i.issued in
      let v =
        recorded (to_program out.claim) out.claim_id ctx.submitter.key time
          (rt.find_program_address (claim_seeds out.claim_id)).1 in
      (
        insert ctx.verified_claim (verified_claim v) l,
        signed_claim_is_stored json b sha ed self verifier i.artifact i.expected.url
            i.expected.field_name (as_i64 i.now) i.ttl nonce out (as_i64-IsI64 i.now) i.issued rt
            sysvar ctx l configuration time r time_typed age_typed finite (rw (← at) skew) alive
            (rw (← at) young),
        rw r.claim_derived (
            ap (entry_in out.claim_id) (insert_self _ (verified_claim v) l)
            ∙ rw (bytes_eq_refl out.claim_id) refl),
      )
