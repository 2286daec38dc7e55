-- ===== src/Program/Registry/Refined.antt =====
-- The instructions of programs/webproof/src/lib.rs refine the registry: what they do to a ledger is,
-- seen through the registry that it stands for, one of the registry's events.
use webproof_solana.Prelude.{
  ◌≡◌, refl, inl, inr, Bool, Option, some, none, ◌++◌, Bytes, length, ℤ, ap, ◌∙◌, sym, bytes_eq,
  bytes_eq_iff, bytes_eq_refl, Bool-cases, if◌then◌else◌,
}
use webproof_solana.Borsh.{Borsh}
use webproof_solana.Crypto.{Sha256}
use webproof_solana.Core.{claim_id}
use webproof_solana.Program.State
use webproof_solana.Program.State.{VerifiedClaim, try_to_vec}
use webproof_solana.Program.Verification.{domain, InstructionsSysvar}
use webproof_solana.Program.Verification.Agreement.{
  from_program, validate_claim→validate, claim_id-digest, signing_message-domain,
}
use webproof_solana.Program.Verification.Attested.{HasRun, verify_preceding_ed25519_sound}
use webproof_solana.Program.Ledger.{
  config, verified_claim, Ledger, empty, insert, insert_keeps, insert_self, Runtime,
}
use webproof_solana.Program.Instructions.{SubmitClaim}
use webproof_solana.Program.Instructions.Submit.{IsAccepted, submit→IsAccepted}
use webproof_solana.Program.Instructions.Initialize.{
  config_address, IsInitialized, initialize→IsInitialized,
}
use webproof_solana.Program.Instructions.History.{
  claim_address, Step, initialize, submit, Reach, here, next,
}
use webproof_solana.Program.Instructions.Authentic.{Reach-IsUsable}
use webproof_solana.Program.Registry.{
  empty_registry, Event, configured, published, Events, start, then_one, entry_in, entry_of,
  policy_in, registry,
}

-- A free address tells nothing, and a configuration tells of no claim.
entry_in-insert_config :
    (l : Ledger) (address a id : Bytes) (c : State.WebProofConfig)
    → l address ≡ none
    → entry_in id (insert address (config c) l a) ≡ entry_in id (l a)
unfolding insert
entry_in-insert_config l address a id c free = elim (Bool-cases (bytes_eq a address)) [
  | inl same ↦ rw (same, (bytes_eq_iff a address).0 same, free) refl
  | inr other ↦ rw other refl
]

-- A claim that is written to the free address of its id adds its entry, and no other: also where
-- the address of another id is the same.
entry_in-insert_claim :
    (address_of : Bytes → Bytes) (l : Ledger) (v : VerifiedClaim) (id : Bytes)
    → l (address_of v.claim_id) ≡ none
    → entry_in id (insert (address_of v.claim_id) (verified_claim v) l (address_of id))
      ≡ (if bytes_eq id v.claim_id then some (entry_of v) else entry_in id (l (address_of id)))
unfolding insert
entry_in-insert_claim address_of l v id free = elim (Bool-cases (bytes_eq id v.claim_id)) [
  | inl same ↦
      rw
        (
          (bytes_eq_iff id v.claim_id).0 same,
          bytes_eq_refl (address_of v.claim_id),
          bytes_eq_refl v.claim_id,
        )
        refl
  | inr other ↦ rw other (elim (Bool-cases (bytes_eq (address_of id) (address_of v.claim_id))) [
    | inl clash ↦ rw (clash, other, (bytes_eq_iff _ _).0 clash, free) refl
    | inr apart ↦ rw apart refl
  ])
]

module _ (rt : Runtime) (b : Borsh) (sha : Sha256) (verify : Bytes → Bytes → Bytes → Bool) where
  initialize-Event :
      (ctx : _) (key : Bytes) (max_age : ℤ) (l l' : Ledger)
      → length key ≡ 32
      → IsInitialized rt ctx key max_age l l'
      → Event b sha verify (registry rt l) (registry rt l')
  initialize-Event ctx key max_age l l' sized i =
      let free : l (config_address rt) ≡ none = ap l (sym i.derived) ∙ i.fresh in
      configured
        (record {
          authority = ctx.authority.key;
          verifier_pubkey = key;
          max_claim_age_seconds = max_age;
        })
        (ap policy_in free) sized i.positive
        (rw (i.stored, i.derived) (ap policy_in (insert_self (config_address rt) _ l)))
        (λ id. rw i.stored (entry_in-insert_config l ctx.config (claim_address rt id) id _ i.fresh))

  submit-Event :
      (clock : Option ℤ) (sysvar : InstructionsSysvar) (ctx : SubmitClaim) (claim : State.ClaimV1)
      (id : Bytes) (l l' : Ledger)
      → HasRun rt.ed25519_program_id sysvar verify
      → Reach rt b sha verify empty l
      → IsAccepted rt b sha clock sysvar ctx claim id l l'
      → Event b sha verify (registry rt l) (registry rt l')
  submit-Event clock sysvar ctx claim id l l' ran r s =
      let usable = Reach-IsUsable rt b sha verify l r ctx.config s.configuration s.configured in
      let (signature, size, checked) =
        verify_preceding_ed25519_sound rt.ed25519_program_id sysvar s.configuration.verifier_pubkey
          (domain ++ try_to_vec b claim) verify ran usable.sized s.signed in
      let same_id : claim_id b sha (from_program claim) ≡ id =
        claim_id-digest b sha (from_program claim) ∙ sym s.identified in
      let free : l (claim_address rt id) ≡ none = ap l (sym s.claim_derived) ∙ s.fresh in
      let held : l (config_address rt) ≡ some (config s.configuration) =
        ap l (sym usable.derived) ∙ s.configured in
      published
        (record {
          authority = s.configuration.authority;
          verifier_pubkey = s.configuration.verifier_pubkey;
          max_claim_age_seconds = s.configuration.max_claim_age_seconds;
        })
        (from_program claim) ctx.submitter.key signature s.now (ap policy_in held)
        (rw (same_id, free) refl) (validate_claim→validate claim s.now _ s.valid)
        (rw (signing_message-domain b (from_program claim)) checked)
        (ap policy_in (
          ap (λ (m : Ledger). m (config_address rt)) s.stored
          ∙ insert_keeps ctx.verified_claim _ l _ s.fresh held
          ∙ sym held))
        λ i.
          rw (s.stored, s.claim_derived, same_id)
            (entry_in-insert_claim (claim_address rt) l _ i free)

  -- Every instruction that succeeds in a reachable ledger is an event of the registry.
  Step-Event :
      {l l' : Ledger}
      → Reach rt b sha verify empty l
      → Step rt b sha verify l l'
      → Event b sha verify (registry rt l) (registry rt l')
  Step-Event r (initialize ctx key max_age l l' sized h) =
      initialize-Event ctx key max_age l l' sized
        (initialize→IsInitialized rt ctx key max_age l l' h)
  Step-Event r (submit clock sysvar ctx claim id l l' ran h) =
      submit-Event clock sysvar ctx claim id l l' ran r
        (submit→IsAccepted rt b sha clock sysvar ctx claim id l l' h)

  -- The program refines the registry: whatever instructions succeed from the empty ledger on, in
  -- transactions whose Ed25519 instructions the runtime has run, the registry that the ledger stands
  -- for comes about from the empty one by events alone: the policy is set at most once, with a key of
  -- 32 bytes and a positive age, and an entry is added only under the id of its claim, where there is
  -- none, for a claim that crates/webproof-core validates at that time for the policy's age and
  -- whose signing message has a signature that verifies under the policy's key.
  pub Reach-Events :
      (l : Ledger)
      → Reach rt b sha verify empty l
      → Events b sha verify empty_registry (registry rt l)
  Reach-Events l here = start
  Reach-Events l (next r s) = then_one (Reach-Events _ r) (Step-Event r s)
