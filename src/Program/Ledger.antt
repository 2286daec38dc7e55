-- ===== src/Program/Ledger.antt =====
-- The accounts that the program owns, and what it takes from the Solana runtime and from Anchor.
use webproof_solana.Prelude.{
  ℕ, ◌≡◌, arith, Bool, true, false, Option, none, some, List, Bytes, bytes_eq, bytes_eq_refl,
  bytes_eq_iff, Bool-cases, inl, inr, ◌⊎◌, if◌then◌else◌,
}
use webproof_solana.Program.State.{WebProofConfig, VerifiedClaim}

-- The discriminator of an account tells its type.
pub data Account : Type 0 where
  config : WebProofConfig → Account
  verified_claim : VerifiedClaim → Account

-- `none` at an address where no account of the program has been created.
abbrev pub Ledger : Type 0
Ledger = Bytes → Option Account

abbrev pub empty : Ledger
empty _ = none

unfoldable pub insert : Bytes → Account → Ledger → Ledger
insert address account l a = if bytes_eq a address then some account else l a

abbrev pub is_free : Option Account → Bool
is_free none = true
is_free (some _) = false

-- Constants of `solana_program`, and the derivation of program addresses from seeds.
pub record Runtime : Type 0 where
  pub ed25519_program_id : Bytes
  pub system_program_id : Bytes
  pub instructions_sysvar_id : Bytes
  pub find_program_address : List Bytes → Bytes × ℕ
  pub create_program_address : List Bytes → ℕ → Option Bytes
  pub create-find :
      (seeds : List Bytes)
      → create_program_address seeds (find_program_address seeds).1
        ≡ some (find_program_address seeds).0

pub insert_self :
    (address : Bytes) (account : Account) (l : Ledger)
    → insert address account l address ≡ some account
unfolding insert
insert_self address account l = rw (bytes_eq_refl address)

-- A write to a free address leaves what other addresses hold.
pub insert_keeps :
    (address : Bytes) (account : Account) (l : Ledger) (a : Bytes) {x : Account}
    → l address ≡ none
    → l a ≡ some x
    → insert address account l a ≡ some x
unfolding insert
insert_keeps address account l a free held = elim (Bool-cases (bytes_eq a address)) [
  | inl same ↦ cc (free, held, (bytes_eq_iff a address).0 same)
  | inr other ↦ rw other held
]

-- What is found after a write is the new account, or was there before.
pub insert-cases :
    (address : Bytes) (account : Account) (l : Ledger) (a : Bytes) {x : Account}
    → insert address account l a ≡ some x
    → ((a ≡ address) × (account ≡ x)) ⊎ (l a ≡ some x)
unfolding insert
insert-cases address account l a h = ground (arith, bytes_eq_iff a address)
