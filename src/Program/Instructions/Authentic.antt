-- ===== src/Program/Instructions/Authentic.antt =====
-- Every account that lib.rs ever creates is authentic: an invariant of the reachable ledgers.
use webproof_solana.Prelude.{
  ◌≡◌, refl, inl, inr, Bool, true, Option, some, ◌++◌, Bytes, length, ◌<ℤ◌, ℤ, pos, ok, ap, ◌∙◌,
  sym, none,
}
use webproof_solana.Borsh.{Borsh}
use webproof_solana.Crypto.{Sha256}
use webproof_solana.Program.State.{WebProofConfig, VerifiedClaim, ClaimV1, try_to_vec}
use webproof_solana.Program.Verification.{domain, validate_claim, InstructionsSysvar}
use webproof_solana.Program.Verification.Attested.{HasRun, verify_preceding_ed25519_sound}
use webproof_solana.Program.Ledger.{
  Account, config, verified_claim, Ledger, empty, insert, insert-cases, Runtime,
}
use webproof_solana.Program.Instructions.{SubmitClaim, config_seeds, claim_seeds}
use webproof_solana.Program.Instructions.Submit.{IsAccepted, recorded, submit→IsAccepted}
use webproof_solana.Program.Instructions.Initialize.{config_address, initialize→IsInitialized}
use webproof_solana.Program.Instructions.History.{
  claim_address, Step, initialize, submit, Reach, here, next, Step-keeps,
}

module _ (rt : Runtime) (b : Borsh) (sha : Sha256) (verify : Bytes → Bytes → Bytes → Bool) where
  -- A configuration has a 32-byte key and a positive age, and its bump derives its address again.
  pub record IsUsable (address : Bytes) (c : WebProofConfig) : Type 0 where
    pub derived : address ≡ config_address rt
    pub sized : length c.verifier_pubkey ≡ 32
    pub rederived : rt.create_program_address config_seeds c.bump ≡ some address
    pub positive : pos 0 <ℤ c.max_claim_age_seconds

  -- A stored claim records a claim that was valid at its creation, under its own id, with a
  -- signature of the configured verifier over exactly its canonical bytes.
  pub record IsAuthentic (l : Ledger) (address : Bytes) (v : VerifiedClaim) : Type 0 where
    pub claim : ClaimV1
    pub configuration : WebProofConfig
    pub signature : Bytes
    pub derived : address ≡ claim_address rt v.claim_id
    pub configured : l (config_address rt) ≡ some (config configuration)
    pub records : v ≡ recorded claim v.claim_id v.submitted_by v.created_at v.bump
    pub identified : v.claim_id ≡ sha.digest (try_to_vec b claim)
    pub valid : validate_claim claim v.created_at configuration.max_claim_age_seconds ≡ ok tt
    pub signed :
        verify configuration.verifier_pubkey (domain ++ try_to_vec b claim) signature ≡ true

  abbrev pub IsGenuine : Ledger → Bytes → Account → Type 0
  IsGenuine l a (config c) = IsUsable a c
  IsGenuine l a (verified_claim v) = IsAuthentic l a v

  abbrev pub AllGenuine : Ledger → Type 0
  AllGenuine l = (a : Bytes) (x : Account) → l a ≡ some x → IsGenuine l a x

  -- What is genuine stays so when the ledger grows.
  IsGenuine-later :
      {l l' : Ledger}
      → ((a : Bytes) (x : Account) → l a ≡ some x → l' a ≡ some x)
      → (a : Bytes) (x : Account) → IsGenuine l a x
      → IsGenuine l' a x
  IsGenuine-later grow a (config c) g = g
  IsGenuine-later grow a (verified_claim v) g = record {
    claim = g.claim;
    configuration = g.configuration;
    signature = g.signature;
    derived = g.derived;
    configured = grow _ _ g.configured;
    records = g.records;
    identified = g.identified;
    valid = g.valid;
    signed = g.signed;
  }

  -- A ledger that grows by one genuine account.
  AllGenuine-insert :
      (l l' : Ledger) (address : Bytes) (x : Account)
      → l' ≡ insert address x l
      → l address ≡ none
      → ((a : Bytes) (y : Account) → l a ≡ some y → l' a ≡ some y)
      → IsGenuine l' address x
      → AllGenuine l
      → AllGenuine l'
  AllGenuine-insert l l' address x e free grow g all a y held =
      elim (insert-cases address x l a {x = y} (sym (ap (λ (m : Ledger). m a) e) ∙ held)) [
        | inl (p, q) ↦ rw (p, ← q) g
        | inr old ↦ IsGenuine-later grow a y (all a y old)
      ]

  submit-IsAuthentic :
      (clock : Option ℤ) (sysvar : InstructionsSysvar) (ctx : SubmitClaim) (claim : ClaimV1)
      (claim_id : Bytes) (l l' : Ledger)
      → HasRun rt.ed25519_program_id sysvar verify
      → AllGenuine l
      → ((a : Bytes) (y : Account) → l a ≡ some y → l' a ≡ some y)
      → (s : IsAccepted rt b sha clock sysvar ctx claim claim_id l l')
      → IsAuthentic l' ctx.verified_claim (
          recorded claim claim_id ctx.submitter.key s.now
            (rt.find_program_address (claim_seeds claim_id)).1)
  submit-IsAuthentic clock sysvar ctx claim claim_id l l' ran all grow s =
      let usable : IsUsable ctx.config s.configuration =
        all ctx.config (config s.configuration) s.configured in
      let (signature, size, checked) =
        verify_preceding_ed25519_sound rt.ed25519_program_id sysvar s.configuration.verifier_pubkey
          (domain ++ try_to_vec b claim) verify ran usable.sized s.signed in
      record {
        claim = claim;
        configuration = s.configuration;
        signature = signature;
        derived = s.claim_derived;
        configured = rw (← usable.derived) (grow ctx.config _ s.configured);
        records = refl;
        identified = s.identified;
        valid = s.valid;
        signed = checked;
      }

  Step-AllGenuine : {l l' : Ledger} → Step rt b sha verify l l' → AllGenuine l → AllGenuine l'
  Step-AllGenuine (initialize ctx key max_age l l' sized h) all =
      let i = initialize→IsInitialized rt ctx key max_age l l' h in
      AllGenuine-insert l l' ctx.config _ i.stored i.fresh
        (Step-keeps rt b sha verify (initialize ctx key max_age l l' sized h))
        (record {
          derived = i.derived;
          sized = sized;
          rederived = rt.create-find config_seeds ∙ ap some (sym i.derived);
          positive = i.positive;
        })
        all
  Step-AllGenuine (submit clock sysvar ctx claim claim_id l l' ran h) all =
      let s = submit→IsAccepted rt b sha clock sysvar ctx claim claim_id l l' h in
      let grow = Step-keeps rt b sha verify (submit clock sysvar ctx claim claim_id l l' ran h) in
      AllGenuine-insert l l' ctx.verified_claim _ s.stored s.fresh grow
        (submit-IsAuthentic clock sysvar ctx claim claim_id l l' ran all grow s) all

  Reach-AllGenuine : {l l' : Ledger} → Reach rt b sha verify l l' → AllGenuine l → AllGenuine l'
  Reach-AllGenuine here all = all
  Reach-AllGenuine (next r st) all = Step-AllGenuine st (Reach-AllGenuine r all)

  -- In every ledger that successful instructions can reach from the empty one, in transactions
  -- whose Ed25519 instructions the runtime has run: a stored claim stands at the address derived
  -- from its id, its id is the SHA-256 of the bytes of a claim with the recorded fields, that claim
  -- was valid at the recorded time of creation for the configured age, and there is a signature
  -- over the domain separator and those bytes that verifies under the configured key.
  pub Reach-IsAuthentic :
      (l : Ledger)
      → Reach rt b sha verify empty l
      → (address : Bytes) (v : VerifiedClaim) → l address ≡ some (verified_claim v)
      → IsAuthentic l address v
  Reach-IsAuthentic l r address v held =
      Reach-AllGenuine r (λ a x h. cc) address (verified_claim v) held

  -- In every ledger that successful instructions can reach from the empty one, a configuration
  -- stands at its derived address, has a key of 32 bytes and a positive age, and its stored bump
  -- derives that address again, as a submission requires it.
  pub Reach-IsUsable :
      (l : Ledger)
      → Reach rt b sha verify empty l
      → (address : Bytes) (c : WebProofConfig) → l address ≡ some (config c)
      → IsUsable address c
  Reach-IsUsable l r address c held = Reach-AllGenuine r (λ a x h. cc) address (config c) held
