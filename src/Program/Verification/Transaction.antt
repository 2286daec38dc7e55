-- ===== src/Program/Verification/Transaction.antt =====
-- A transaction whose Ed25519 instruction comes right before an instruction of the program, as the
-- SDK builds it.
use webproof_solana.Prelude.{
  ◌≡◌, refl, ap, subst, arith, Bool, true, Option, some, none, some-injective, Bytes, length, ok, ℕ,
  zero, suc,
}
use webproof_solana.Program.Verification.{Instruction, InstructionsSysvar, verify_preceding_ed25519}
use webproof_solana.Program.Verification.Standard.{
  standard_data, standard_data-IsSelfContained, standard_data-NativeSuccess,
}
use webproof_solana.Program.Verification.Attested.{HasRun, NativeSuccess, IsPreceded→verify}

module _ (ed25519_program_id key signature message : Bytes) where
  abbrev pub ed25519_instruction : Instruction
  ed25519_instruction = record {
    program_id = ed25519_program_id;
    ix_data = standard_data key signature message;
  }

  abbrev pub instruction_at : ℕ → Option Instruction
  instruction_at zero = some ed25519_instruction
  instruction_at (suc i) = none

  abbrev pub two_instructions : InstructionsSysvar
  two_instructions = record {
    load_current_index_checked = some 1;
    load_instruction_at_checked = instruction_at;
  }

  module _ (key_size : length key ≡ 32) (signature_size : length signature ≡ 64) where
    pub two_instructions-HasRun :
        (verify : Bytes → Bytes → Bytes → Bool)
        → verify key message signature ≡ true
        → HasRun ed25519_program_id two_instructions verify
    two_instructions-HasRun verify holds zero ix loaded native =
        subst (λ d. NativeSuccess verify d)
          (ap (λ (j : Instruction). j.ix_data) (some-injective _ _ loaded))
          (standard_data-NativeSuccess verify key signature message key_size signature_size holds)
    two_instructions-HasRun verify holds (suc i) ix loaded native = cc

    pub verify-two_instructions :
        verify_preceding_ed25519 ed25519_program_id two_instructions key message ≡ ok tt
    verify-two_instructions =
        IsPreceded→verify ed25519_program_id two_instructions key message key_size (
          1,
          ed25519_instruction,
          refl,
          omega arith,
          refl,
          refl,
          standard_data-IsSelfContained key signature message key_size signature_size,
        )
