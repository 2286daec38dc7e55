-- ===== src/Program/Verification/Unattested.antt =====
-- How the introspection of verification.rs fails.
use webproof_solana.Prelude.{
  ℕ, some-injective, ◌∙◌, ap, Bool-cases, ltb, ◌&&◌, bytes_eq, subst, sym, true, ◌-◌, ◌<◌, ◌≡◌, ◌⊎◌,
  inl, inr, arith, Option-cases, none, some, Bytes, bytes_eq_iff, err,
}
use webproof_solana.Program.Errors.{
  WebProofError, missing_signature, malformed_ed25519, wrong_verifier, message_mismatch,
}
use webproof_solana.Program.Verification.{
  Instruction, InstructionsSysvar, check_ed25519_data, verify_preceding_ed25519,
}
use webproof_solana.Program.Verification.Refusals.{IsRefused, IsRefused-check}

module _ (ed25519_program_id : Bytes) (sysvar : InstructionsSysvar) where
  -- The instruction right before the current one, if it is of the native Ed25519 program.
  abbrev pub IsNative : Instruction → Type 0
  IsNative ix =
      (current : ℕ) × (sysvar.load_current_index_checked ≡ some current)
      × (0 < current)
      × (sysvar.load_instruction_at_checked (current - 1) ≡ some ix)
      × (ix.program_id ≡ ed25519_program_id)

  -- Why a message is not taken as attested.
  abbrev pub IsUnattested : Bytes → Bytes → WebProofError → Type 0
  IsUnattested key message missing_signature = ¬ ((ix : Instruction) × IsNative ix)
  IsUnattested key message e = (ix : Instruction) × IsNative ix × IsRefused ix.ix_data key message e

  module _ (key message : Bytes) where
    unattested :
        (e : WebProofError)
        → (ix : Instruction) × IsNative ix × IsRefused ix.ix_data key message e
        → IsUnattested key message e
    unattested missing_signature (ix, native, why) = absurd why
    unattested malformed_ed25519 s = s
    unattested wrong_verifier s = s
    unattested message_mismatch s = s
    unattested _ (ix, native, why) = absurd why

    IsNative-or_not :
        ((ix : Instruction) × IsNative ix
          × (verify_preceding_ed25519 ed25519_program_id sysvar key message
              ≡ check_ed25519_data ix.ix_data key message))
        ⊎ ((¬ ((ix : Instruction) × IsNative ix))
            × (verify_preceding_ed25519 ed25519_program_id sysvar key message
                ≡ err missing_signature))
    unfolding verify_preceding_ed25519
    IsNative-or_not = elim (Option-cases sysvar.load_current_index_checked) [
      | inl gone ↦ inr (
        λ (ix, (current, at, later, loaded, native)). ground (arith, gone, at),
        ground (arith, gone),
      )
      | inr (n, e) ↦ elim (Option-cases (sysvar.load_instruction_at_checked (n - 1))) [
        | inl gone ↦ inr (
          λ (ix, (current, at, later, loaded, native)).
              let same : n ≡ current = some-injective _ _ (sym e ∙ at) in
              let missing : sysvar.load_instruction_at_checked (current - 1) ≡ none =
                subst (λ k. sysvar.load_instruction_at_checked (k - 1) ≡ none) same gone in
              ground (arith, missing, loaded),
          ground (arith, e, gone),
        )
        | inr (ix, f) ↦ elim (Bool-cases (ltb 0 n && bytes_eq ix.program_id ed25519_program_id)) [
          | inl native ↦ inl (
            ix,
            (n, e, ground arith, f, (bytes_eq_iff _ _).0 (ground arith)),
            ground (arith, e, f),
          )
          | inr foreign ↦ inr (
            λ (ix', (current, at, later, loaded, native)).
                let same : n ≡ current = some-injective _ _ (sym e ∙ at) in
                let found : sysvar.load_instruction_at_checked (n - 1) ≡ some ix' =
                  subst (λ k. sysvar.load_instruction_at_checked (k - 1) ≡ some ix') (sym same)
                    loaded in
                let same_ix : ix ≡ ix' = some-injective _ _ (sym f ∙ found) in
                let own : bytes_eq ix.program_id ed25519_program_id ≡ true =
                  (bytes_eq_iff _ _).1 (ap (λ (j : Instruction). j.program_id) same_ix ∙ native) in
                ground (arith, own, same),
            ground (arith, e, f),
          )
        ]
      ]
    ]

    -- The introspection fails with the code of what is wrong: there is no instruction of the native
    -- Ed25519 program right before the current one; or its data are short, do not count one
    -- signature, use another index than 65535 or leave no room for the signature; or the bytes at
    -- the key's offset are not the key; or those at the message's offset and size are not the
    -- message. It fails with no other code.
    pub verify_preceding_ed25519-IsUnattested :
        (e : WebProofError)
        → verify_preceding_ed25519 ed25519_program_id sysvar key message ≡ err e
        → IsUnattested key message e
    verify_preceding_ed25519-IsUnattested e h = elim IsNative-or_not [
      | inl (ix, native, same) ↦
          unattested e (ix, native, IsRefused-check ix.ix_data key message e (sym same ∙ h))
      | inr (absent, same) ↦
          let missing : missing_signature ≡ e = ground (arith, same, h) in
          subst (IsUnattested key message) missing absent
    ]
