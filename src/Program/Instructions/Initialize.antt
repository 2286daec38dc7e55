-- ===== src/Program/Instructions/Initialize.antt =====
-- What a successful `initialize_config` of lib.rs has checked and written.
use webproof_solana.Prelude.{
  ◌≡◌, ◌↔◌, arith, true, none, Bytes, bytes_eq_iff, bytes_eq_refl, ◌<ℤ◌, ℤ, pos, ok,
}
use webproof_solana.Program.Ledger.{config, Ledger, insert, Runtime}
use webproof_solana.Program.Instructions.{InitializeConfig, config_seeds, initialize_config}

module _ (rt : Runtime) where
  abbrev pub config_address : Bytes
  config_address = (rt.find_program_address config_seeds).0

  pub record IsInitialized (ctx : InitializeConfig) (key : Bytes) (max_age : ℤ) (l l' : Ledger)
      : Type 0 where
    pub signing : (ctx.authority.is_signer ≡ true) × (ctx.authority.is_writable ≡ true)
    pub writable : ctx.config_is_writable ≡ true
    pub paying : ctx.authority.is_funded ≡ true
    pub system : ctx.system_program ≡ rt.system_program_id
    pub positive : pos 0 <ℤ max_age
    pub derived : ctx.config ≡ config_address
    pub fresh : l ctx.config ≡ none
    pub stored :
        l'
        ≡ insert ctx.config
            (config (record {
              authority = ctx.authority.key;
              verifier_pubkey = key;
              max_claim_age_seconds = max_age;
              bump = (rt.find_program_address config_seeds).1;
            }))
            l

  module _ (ctx : InitializeConfig) (key : Bytes) (max_age : ℤ) (l l' : Ledger) where
    pub initialize→IsInitialized :
        initialize_config rt ctx key max_age l ≡ ok l' → IsInitialized ctx key max_age l l'
    unfolding initialize_config
    initialize→IsInitialized h = record {
      signing = ground arith;
      writable = ground arith;
      paying = ground arith;
      system = (bytes_eq_iff _ _).0 (ground arith);
      positive = ground arith;
      derived = (bytes_eq_iff _ _).0 (ground arith);
      fresh = ground arith;
      stored = ground arith;
    }

    IsInitialized→initialize :
        IsInitialized ctx key max_age l l' → initialize_config rt ctx key max_age l ≡ ok l'
    unfolding initialize_config
    IsInitialized→initialize i =
        ground (arith, i.signing, bytes_eq_refl rt.system_program_id, bytes_eq_refl config_address)

    -- `initialize_config` succeeds with a new ledger exactly if the authority has signed, is
    -- writable and can pay, the system program is the right one, the config account is passed as
    -- writable, has the derived address and is free, and the age is positive; and the new ledger is the old one with the
    -- authority, the given key and age, and the bump recorded at that address.
    pub initialize_config_iff :
        (initialize_config rt ctx key max_age l ≡ ok l') ↔ IsInitialized ctx key max_age l l'
    initialize_config_iff = (initialize→IsInitialized, IsInitialized→initialize)
