-- ===== src/Verifier/Pipeline.antt =====
-- The whole pipeline: what crates/webproof-verifier signs is stored by programs/webproof.
use webproof_solana.Prelude.{
  ℕ, ◌+◌, ◌-◌, ◌≡◌, ◌+ℤ◌, ◌-ℤ◌, ◌≤ℤ◌, ◌<ℤ◌, ◌∙◌, ap, refl, arith, ℤ, pos, IsI64, i64_max, ok, true,
  some, none, Bytes, ◌++◌, length,
}
use webproof_solana.Borsh.{Borsh}
use webproof_solana.Crypto.{Sha256, Ed25519}
use webproof_solana.Program.State.{WebProofConfig, try_to_vec}
use webproof_solana.Program.Verification.{domain, InstructionsSysvar}
use webproof_solana.Program.Verification.Agreement.{to_program}
use webproof_solana.Program.Verification.Standard.{standard_data, standard_data-IsSelfContained}
use webproof_solana.Program.Verification.Attested.{verify_preceding_ed25519_iff}
use webproof_solana.Program.Ledger.{config, verified_claim, Ledger, insert, Runtime}
use webproof_solana.Program.Instructions.{SubmitClaim, config_seeds, claim_seeds, submit_claim}
use webproof_solana.Program.Instructions.Submit.{recorded, submit_claim_iff}
use webproof_solana.Verifier.{
  Json, Url, SignedClaim, ClaimSigner, TlsnProofVerifier, build_claim, verify_and_sign,
}
use webproof_solana.Verifier.Signing.{verify_and_sign_iff}
use webproof_solana.Verifier.OnChain.{signed_claim_is_accepted, signed_claim_is_bound}

-- A transaction as the SDK builds it: the Ed25519 instruction for a signed claim, then the
-- submission, with the right accounts, and a configuration that trusts the signer.
pub record IsSubmittable (rt : Runtime) (b : Borsh) (out : SignedClaim)
    (sysvar : InstructionsSysvar) (ctx : SubmitClaim) (l : Ledger) (configuration : WebProofConfig)
    : Type 0 where
  pub index : ℕ
  pub current : sysvar.load_current_index_checked ≡ some (index + 1)
  pub preceding :
      sysvar.load_instruction_at_checked index
      ≡ some (record {
        program_id = rt.ed25519_program_id;
        ix_data =
            standard_data out.verifier_public_key out.signature
              (domain ++ try_to_vec b (to_program out.claim));
      })
  pub signing : (ctx.submitter.is_signer ≡ true) × (ctx.submitter.is_writable ≡ true)
  pub writable : ctx.verified_claim_is_writable ≡ true
  pub paying : ctx.submitter.is_funded ≡ true
  pub submitter_size : length ctx.submitter.key ≡ 32
  pub system : ctx.system_program ≡ rt.system_program_id
  pub introspecting : ctx.instructions ≡ rt.instructions_sysvar_id
  pub configured : l ctx.config ≡ some (config configuration)
  pub config_derived : rt.create_program_address config_seeds configuration.bump ≡ some ctx.config
  pub claim_derived : ctx.verified_claim ≡ (rt.find_program_address (claim_seeds out.claim_id)).0
  pub fresh : l ctx.verified_claim ≡ none
  pub trusted : configuration.verifier_pubkey ≡ out.verifier_public_key

module _ (json : Json) (b : Borsh) (sha : Sha256) (ed : Ed25519) {E : Type 0} (self : ClaimSigner)
    (verifier : TlsnProofVerifier json E) (artifact : Bytes) (url : Url) (field_name : Bytes)
    (now ttl : ℤ) (nonce : Bytes) (out : SignedClaim) (now_typed : IsI64 now)
    (signed : verify_and_sign json b sha ed self verifier artifact url field_name now ttl nonce
      ≡ ok out) where
  sizes :
      (length out.claim.request_path_hash ≡ 32)
      × (length out.claim.provenance_hash ≡ 32)
      × (length out.verifier_public_key ≡ 32)
      × (length out.signature ≡ 64)
  unfolding build_claim
  sizes =
      let (d, verified, s) =
        (verify_and_sign_iff json b sha ed self verifier artifact url field_name now ttl nonce out
            now_typed).0
          signed in
      let e = s.signed_claim in
      (
        ap (λ (o : SignedClaim). length o.claim.request_path_hash) e
            ∙ (sha.digest-IsArray d.path).sized,
        ap (λ (o : SignedClaim). length o.claim.provenance_hash) e
            ∙ (sha.digest-IsArray d.artifact).sized,
        ap (λ (o : SignedClaim). length o.verifier_public_key) e
            ∙ (ed.verifying_key-IsArray self.key).sized,
        ap (λ (o : SignedClaim). length o.signature) e ∙ (ed.sign-IsArray self.key _).sized,
      )

  -- A claim that the signer has signed is stored: at every `i64` time of its life (at most 30
  -- seconds before it was signed, not after its expiry, and at most as old as the configured, finite
  -- age), in a ledger whose configuration trusts the signer's key and where the address of the claim
  -- id is free, the submission behind an Ed25519 instruction with the signer's key, signature and
  -- message succeeds, and records the signed fields under the signed id.
  pub signed_claim_is_stored :
      (rt : Runtime) (sysvar : InstructionsSysvar) (ctx : SubmitClaim) (l : Ledger)
      (configuration : WebProofConfig) (time : ℤ)
      → IsSubmittable rt b out sysvar ctx l configuration
      → IsI64 time
      → IsI64 configuration.max_claim_age_seconds
      → configuration.max_claim_age_seconds <ℤ i64_max
      → now ≤ℤ time +ℤ pos 30
      → time ≤ℤ out.claim.expires_at
      → time -ℤ now ≤ℤ configuration.max_claim_age_seconds
      → submit_claim rt b sha (some time) sysvar ctx (to_program out.claim) out.claim_id l
        ≡ ok (
            insert ctx.verified_claim
              (verified_claim (
                recorded
                  (to_program out.claim)
                  out.claim_id
                  ctx.submitter.key
                  time
                  (rt.find_program_address (claim_seeds out.claim_id)).1))
              l)
  signed_claim_is_stored rt sysvar ctx l configuration time r time_typed age_typed finite skew alive
        young =
      let (path_size, provenance_size, key_size, signature_size) = sizes in
      let (identified, holds, d, accepted, provenance, published) =
        signed_claim_is_bound json b sha ed self verifier artifact url field_name now ttl nonce out
          now_typed signed in
      let message : Bytes = domain ++ try_to_vec b (to_program out.claim) in
      (submit_claim_iff rt b sha (some time) sysvar ctx (to_program out.claim) out.claim_id l _
          (record {
            request_path_hash = path_size;
            provenance_hash = provenance_size;
            submitter = r.submitter_size;
          })).1
        (record {
          now = time;
          configuration = configuration;
          ticking = refl;
          signing = r.signing;
          writable = r.writable;
          paying = r.paying;
          system = r.system;
          introspecting = r.introspecting;
          configured = r.configured;
          config_derived = r.config_derived;
          claim_derived = r.claim_derived;
          fresh = r.fresh;
          valid =
              signed_claim_is_accepted json b sha ed self verifier artifact url field_name now ttl
                nonce out now_typed signed time configuration.max_claim_age_seconds time_typed
                age_typed finite skew alive young;
          identified = identified;
          signed = rw r.trusted (
              (verify_preceding_ed25519_iff rt.ed25519_program_id sysvar out.verifier_public_key
                  message key_size).1
                (
                  r.index + 1,
                  _,
                  r.current,
                  omega arith,
                  rw at_index r.preceding,
                  refl,
                  standard_data-IsSelfContained out.verifier_public_key out.signature message
                      key_size signature_size,
                ));
          stored = refl;
        })
    where
      at_index : r.index + 1 - 1 ≡ r.index
      at_index = omega arith
