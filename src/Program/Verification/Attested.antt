-- ===== src/Program/Verification/Attested.antt =====
-- What the introspection of verification.rs and the native Ed25519 program establish together.
use webproof_solana.Prelude.{
  ℕ, ◌+◌, ◌-◌, ◌*◌, ◌<◌, ◌≡◌, arith, ◌↔◌, Bool, true, none, some, [], Bytes, length, get_elem?,
  SliceAt, ok, bytes_eq_iff,
}
use webproof_solana.Program.Verification.{Instruction, InstructionsSysvar, verify_preceding_ed25519}
use webproof_solana.Program.Verification.Ed25519.{U16At, IsSelfContained, check_ed25519_data_iff}

-- A successful run of the native Ed25519 program, as Solana documents it: the data begin with the
-- number of signatures and a padding byte, then come 14 bytes for each signature; where its three
-- indices are 65535 its parts are those of the instruction's own data, and the signature holds.
pub record NativeSuccess (verify : Bytes → Bytes → Bytes → Bool) (d : Bytes) : Type 0 where
  pub verified :
      (count i sig_off key_off msg_off : ℕ) (signature key message : Bytes)
      → get_elem? d 0 ≡ some count
      → i < count
      → U16At d (2 + 14 * i) sig_off
      → U16At d (4 + 14 * i) 65535
      → U16At d (6 + 14 * i) key_off
      → U16At d (8 + 14 * i) 65535
      → U16At d (10 + 14 * i) msg_off
      → U16At d (12 + 14 * i) (length message)
      → U16At d (14 + 14 * i) 65535
      → SliceAt d sig_off signature
      → length signature ≡ 64
      → SliceAt d key_off key
      → length key ≡ 32
      → SliceAt d msg_off message
      → verify key message signature ≡ true

-- The instruction right before the current one is an Ed25519 instruction with this key and message.
abbrev pub IsPreceded : Bytes → InstructionsSysvar → Bytes → Bytes → Type 0
IsPreceded ed25519_program_id sysvar key message =
    (current : ℕ) × (ix : Instruction) × (sysvar.load_current_index_checked ≡ some current)
    × (0 < current)
    × (sysvar.load_instruction_at_checked (current - 1) ≡ some ix)
    × (ix.program_id ≡ ed25519_program_id)
    × IsSelfContained ix.ix_data key message

-- The runtime has run the native program on every Ed25519 instruction of the transaction.
abbrev pub HasRun : Bytes → InstructionsSysvar → (Bytes → Bytes → Bytes → Bool) → Type 0
HasRun ed25519_program_id sysvar verify =
    (i : ℕ) (ix : Instruction)
    → sysvar.load_instruction_at_checked i ≡ some ix
    → ix.program_id ≡ ed25519_program_id
    → NativeSuccess verify ix.ix_data

abbrev current_of : InstructionsSysvar → ℕ
current_of sysvar = elim sysvar.load_current_index_checked [ none ↦ 0 | some n ↦ n ]

abbrev preceding : InstructionsSysvar → Instruction
preceding sysvar = elim (sysvar.load_instruction_at_checked (current_of sysvar - 1)) [
  | none ↦ record { program_id = []; ix_data = [] }
  | some ix ↦ ix
]

module _ (ed25519_program_id : Bytes) (sysvar : InstructionsSysvar) (key message : Bytes) where
  verify→IsPreceded :
      length key ≡ 32
      → verify_preceding_ed25519 ed25519_program_id sysvar key message ≡ ok tt
      → IsPreceded ed25519_program_id sysvar key message
  unfolding verify_preceding_ed25519
  verify→IsPreceded sized h = (
    current_of sysvar,
    preceding sysvar,
    ground arith,
    ground arith,
    ground arith,
    (bytes_eq_iff _ _).0 (ground arith),
    (check_ed25519_data_iff _ key message sized).0 (ground arith),
  )

  pub IsPreceded→verify :
      length key ≡ 32
      → IsPreceded ed25519_program_id sysvar key message
      → verify_preceding_ed25519 ed25519_program_id sysvar key message ≡ ok tt
  unfolding verify_preceding_ed25519
  IsPreceded→verify sized (current, ix, at, later, loaded, native, contained) = ground (
    arith,
    (bytes_eq_iff ix.program_id ed25519_program_id).1 native,
    (check_ed25519_data_iff ix.ix_data key message sized).1 contained,
  )

  -- For a key of 32 bytes the check passes exactly if the instruction at the index before the
  -- current one exists, belongs to the native Ed25519 program, and its data hold one signature,
  -- this key and the whole message in themselves.
  pub verify_preceding_ed25519_iff :
      length key ≡ 32
      → (verify_preceding_ed25519 ed25519_program_id sysvar key message ≡ ok tt)
        ↔ IsPreceded ed25519_program_id sysvar key message
  verify_preceding_ed25519_iff sized = (verify→IsPreceded sized, IsPreceded→verify sized)

  -- If the runtime has run the native program on the transaction's Ed25519 instructions and the
  -- check passes, then there is a 64-byte signature that the native program verified, for this very
  -- message and under this very key.
  pub verify_preceding_ed25519_sound :
      (verify : Bytes → Bytes → Bytes → Bool)
      → HasRun ed25519_program_id sysvar verify
      → length key ≡ 32
      → verify_preceding_ed25519 ed25519_program_id sysvar key message ≡ ok tt
      → (signature : Bytes) × (length signature ≡ 64) × (verify key message signature ≡ true)
  verify_preceding_ed25519_sound verify ran sized h =
      let (current, ix, at, later, loaded, native, s) = verify→IsPreceded sized h in
      (
        s.signature,
        s.signature_size,
        (ran (current - 1) ix loaded native).verified 1 0 s.sig_off s.key_off s.msg_off s.signature
            key message s.count (omega arith) s.sig_off_at s.sig_ix_at s.key_off_at s.key_ix_at
            s.msg_off_at s.msg_len_at s.msg_ix_at s.signature_at s.signature_size s.key_at sized
            s.message_at,
      )
