-- ===== src/Program/Instructions/History.antt =====
-- The ledger over time: every sequence of instructions of lib.rs, and what stays true of it.
use webproof_solana.Prelude.{◌≡◌, ◌≢◌, Bool, Option, some, Bytes, length, ℤ, ok, ap, sym, ◌∙◌}
use webproof_solana.Borsh.{Borsh}
use webproof_solana.Crypto.{Sha256}
use webproof_solana.Program.State.{VerifiedClaim, ClaimV1}
use webproof_solana.Program.Verification.{InstructionsSysvar}
use webproof_solana.Program.Verification.Attested.{HasRun}
use webproof_solana.Program.Ledger.{
  Account, verified_claim, Ledger, insert_self, insert_keeps, Runtime,
}
use webproof_solana.Program.Instructions.{
  InitializeConfig, SubmitClaim, claim_seeds, initialize_config, submit_claim,
}
use webproof_solana.Program.Instructions.Initialize.{initialize→IsInitialized}
use webproof_solana.Program.Instructions.Submit.{recorded, submit→IsAccepted}

module _ (rt : Runtime) where
  abbrev pub claim_address : Bytes → Bytes
  claim_address claim_id = (rt.find_program_address (claim_seeds claim_id)).0

  module _ (b : Borsh) (sha : Sha256) (verify : Bytes → Bytes → Bytes → Bool) where
    -- One instruction that succeeds, in a transaction of anyone's choice whose Ed25519 instructions
    -- the runtime has run. A failing one changes nothing.
    pub data Step : Ledger → Ledger → Type 0 where
      initialize :
          (ctx : InitializeConfig) (key : Bytes) (max_age : ℤ) (l l' : Ledger)
          → length key ≡ 32
          → initialize_config rt ctx key max_age l ≡ ok l'
          → Step l l'
      submit :
          (clock : Option ℤ) (sysvar : InstructionsSysvar) (ctx : SubmitClaim) (claim : ClaimV1)
          (claim_id : Bytes) (l l' : Ledger)
          → HasRun rt.ed25519_program_id sysvar verify
          → submit_claim rt b sha clock sysvar ctx claim claim_id l ≡ ok l'
          → Step l l'

    pub data Reach (l : Ledger) : Ledger → Type 0 where
      here : Reach l l
      next : {m n : Ledger} → Reach l m → Step m n → Reach l n

    pub Step-keeps :
        {l l' : Ledger} → Step l l' → (a : Bytes) (x : Account) → l a ≡ some x → l' a ≡ some x
    Step-keeps (initialize ctx key max_age l l' sized h) a x held =
        let i = initialize→IsInitialized rt ctx key max_age l l' h in
        rw i.stored (insert_keeps ctx.config _ l a i.fresh held)
    Step-keeps (submit clock sysvar ctx claim claim_id l l' ran h) a x held =
        let s = submit→IsAccepted rt b sha clock sysvar ctx claim claim_id l l' h in
        rw s.stored (insert_keeps ctx.verified_claim _ l a s.fresh held)

    -- Whatever instructions succeed, an account that was created stays as it was: no stored claim
    -- changes or disappears, and neither does the configuration with its verifier key.
    pub Reach-keeps :
        {l l' : Ledger} → Reach l l' → (a : Bytes) (x : Account) → l a ≡ some x → l' a ≡ some x
    Reach-keeps here a x held = held
    Reach-keeps (next r s) a x held = Step-keeps s a x (Reach-keeps r a x held)

    -- The account that a successful submission leaves at the address of its claim id.
    submit_holds :
        (clock : Option ℤ) (sysvar : InstructionsSysvar) (ctx : SubmitClaim) (claim : ClaimV1)
        (claim_id : Bytes) (l l' : Ledger)
        → submit_claim rt b sha clock sysvar ctx claim claim_id l ≡ ok l'
        → (v : VerifiedClaim) × (l' (claim_address claim_id) ≡ some (verified_claim v))
    submit_holds clock sysvar ctx claim claim_id l l' h =
        let s = submit→IsAccepted rt b sha clock sysvar ctx claim claim_id l l' h in
        let v =
          recorded claim claim_id ctx.submitter.key s.now
            (rt.find_program_address (claim_seeds claim_id)).1 in
        let at = insert_self ctx.verified_claim (verified_claim v) l in
        (v, ap l' (sym s.claim_derived) ∙ ap (λ (m : Ledger). m ctx.verified_claim) s.stored ∙ at)

    -- After a claim id has been accepted, no later submission of that id succeeds: whatever happened
    -- in between, and whatever claim, accounts, clock and transaction come with it.
    pub submit_claim_once :
        (clock clock' : Option ℤ) (sysvar sysvar' : InstructionsSysvar) (ctx ctx' : SubmitClaim)
        (claim claim' : ClaimV1) (claim_id : Bytes) (l l' m m' : Ledger)
        → submit_claim rt b sha clock sysvar ctx claim claim_id l ≡ ok l'
        → Reach l' m
        → submit_claim rt b sha clock' sysvar' ctx' claim' claim_id m ≢ ok m'
    submit_claim_once clock clock' sysvar sysvar' ctx ctx' claim claim' claim_id l l' m m' h r h' =
        let (v, held) = submit_holds clock sysvar ctx claim claim_id l l' h in
        let t = submit→IsAccepted rt b sha clock' sysvar' ctx' claim' claim_id m m' h' in
        cc (t.fresh, ap m t.claim_derived, Reach-keeps r (claim_address claim_id) _ held)

    -- The configuration is set once: after an initialization has succeeded, none succeeds, whatever
    -- happened in between and whoever asks.
    pub initialize_config_once :
        (ctx ctx' : InitializeConfig) (key key' : Bytes) (max_age max_age' : ℤ) (l l' m m' : Ledger)
        → initialize_config rt ctx key max_age l ≡ ok l'
        → Reach l' m
        → initialize_config rt ctx' key' max_age' m ≢ ok m'
    initialize_config_once ctx ctx' key key' max_age max_age' l l' m m' h r h' =
        let i = initialize→IsInitialized rt ctx key max_age l l' h in
        let j = initialize→IsInitialized rt ctx' key' max_age' m m' h' in
        let held = ap (λ (n : Ledger). n ctx.config) i.stored ∙ insert_self ctx.config _ l in
        cc (j.fresh, ap m (j.derived ∙ sym i.derived), Reach-keeps r ctx.config _ held)
