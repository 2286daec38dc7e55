-- ===== src/Program/Verification.antt =====
-- programs/webproof/src/verification.rs: stateless validation, and the introspection of the
-- preceding Ed25519 instruction. The proofs stand in the modules below.
pub mod Agreement
pub mod Ed25519
pub mod Attested
pub mod Standard
pub mod Transaction
pub mod Refusals
pub mod Unattested
use webproof_solana.Prelude.{
  ℕ, ◌+◌, ◌-◌, ◌*◌, ◌^◌, Bool, true, false, not, ◌&&◌, Option, none, some, [], ◌∷◌, Bytes, codes,
  is_empty, length, ltb, leb, ◌==◌, bytes_eq, opt_bytes_eq, get_range, get_elem?, ℤ, pos, ltb_ℤ,
  leb_ℤ, saturating_add, saturating_sub, Result, ok, err, ◌>>=◌, ◌>>◌, require, ok_or,
}
use webproof_solana.Program.Errors.{
  WebProofError, invalid_version, invalid_length, invalid_time_window, expired, future, too_old,
  missing_signature, malformed_ed25519, wrong_verifier, message_mismatch,
}
use webproof_solana.Program.State.{ClaimV1}

abbrev pub domain : Bytes
domain = codes "WEBPROOF_SOLANA_CLAIM_V1"

abbrev pub future_skew : ℤ
future_skew = pos 30

unfoldable pub validate_claim : ClaimV1 → ℤ → ℤ → Result WebProofError (Unit {0})
validate_claim c now max_age = do
  require (c.version == 1) invalid_version
  require (not (is_empty c.source_host) && leb (length c.source_host) 128) invalid_length
  require (not (is_empty c.claim_key) && leb (length c.claim_key) 128) invalid_length
  require (not (is_empty c.claim_value) && leb (length c.claim_value) 256) invalid_length
  require (ltb_ℤ c.issued_at c.expires_at) invalid_time_window
  require (leb_ℤ now c.expires_at) expired
  require (leb_ℤ c.issued_at (saturating_add now future_skew)) future
  require (leb_ℤ (saturating_sub now c.issued_at) max_age) too_old
  ok tt

-- `try_into::<[u8; 2]>` and `u16::from_le_bytes`.
pub from_le_bytes : Bytes → Option ℕ
from_le_bytes (lo ∷ hi ∷ []) = some (lo + 256 * hi)
from_le_bytes _ = none

pub read_u16 : Option Bytes → Result WebProofError ℕ
read_u16 none = err malformed_ed25519
read_u16 (some x) = ok_or (from_le_bytes x) malformed_ed25519

unfoldable pub u16_at : Bytes → ℕ → Result WebProofError ℕ
unfolding read_u16 from_le_bytes
u16_at d i = read_u16 (get_range d i (i + 2))

abbrev pub u16_max : ℕ
u16_max = 2 ^ 16 - 1

-- `d[0] == n`, under the test that `d` has such a byte.
abbrev opt_eq : Option ℕ → ℕ → Bool
opt_eq none n = false
opt_eq (some b) n = b == n

abbrev is_some : Option Bytes → Bool
is_some none = false
is_some (some _) = true

-- An instruction of the transaction, as the instructions sysvar shows it.
pub record Instruction : Type 0 where
  pub program_id : Bytes
  pub ix_data : Bytes

-- The instructions sysvar, by what the two functions of `solana_program` read from it.
pub record InstructionsSysvar : Type 0 where
  pub load_current_index_checked : Option ℕ
  pub load_instruction_at_checked : ℕ → Option Instruction

-- The header of the instruction's data, and the comparisons of the bytes that it points at.
unfoldable pub check_ed25519_data : Bytes → Bytes → Bytes → Result WebProofError (Unit {0})
check_ed25519_data d key message = do
  require (leb 16 (length d) && opt_eq (get_elem? d 0) 1) malformed_ed25519
  sig_off ← u16_at d 2
  sig_ix ← u16_at d 4
  key_off ← u16_at d 6
  key_ix ← u16_at d 8
  msg_off ← u16_at d 10
  msg_len ← u16_at d 12
  msg_ix ← u16_at d 14
  require (sig_ix == u16_max && key_ix == u16_max && msg_ix == u16_max) malformed_ed25519
  require (opt_bytes_eq (get_range d key_off (key_off + 32)) key) wrong_verifier
  require (opt_bytes_eq (get_range d msg_off (msg_off + msg_len)) message) message_mismatch
  require (is_some (get_range d sig_off (sig_off + 64))) malformed_ed25519
  ok tt

-- `ed25519_program::ID` is a constant of `solana_program`.
module _ (ed25519_program_id : Bytes) where
  unfoldable pub verify_preceding_ed25519 :
      InstructionsSysvar → Bytes → Bytes → Result WebProofError (Unit {0})
  verify_preceding_ed25519 sysvar key message = do
    current ← ok_or sysvar.load_current_index_checked missing_signature
    require (ltb 0 current) missing_signature
    ix ← ok_or (sysvar.load_instruction_at_checked (current - 1)) missing_signature
    require (bytes_eq ix.program_id ed25519_program_id) missing_signature
    check_ed25519_data ix.ix_data key message
