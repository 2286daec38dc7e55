-- ===== src/Program/Verification/Ed25519.antt =====
-- What `verify_preceding_ed25519` accepts, by the documented layout of an Ed25519 instruction.
use webproof_solana.Prelude.{
  ℕ, ◌+◌, ◌*◌, ◌≤◌, ◌≡◌, refl, arith, ◌↔◌, true, Option, some, [], ◌∷◌, Bytes, length, get_elem?,
  get_range, SliceAt, get_range→SliceAt, SliceAt→get_range, length-get_range, get_range-bounds, ◌≢◌,
  ap, ◌∙◌, opt_bytes_eq, err, ok, none, opt_bytes_eq→eq, bytes_eq_refl,
}
use webproof_solana.Program.Verification.{read_u16, from_le_bytes, u16_at, check_ed25519_data}

-- A little-endian `u16` at an offset.
abbrev pub U16At : Bytes → ℕ → ℕ → Type 0
U16At d i v = (lo : ℕ) × (hi : ℕ) × SliceAt d i (lo ∷ hi ∷ []) × (v ≡ lo + 256 * hi)

-- One signature, whose parts all lie in the instruction's own data (index 65535), over the whole
-- of `message` and under `key`.
pub record IsSelfContained (d key message : Bytes) : Type 0 where
  pub sig_off : ℕ
  pub key_off : ℕ
  pub msg_off : ℕ
  pub signature : Bytes
  pub count : get_elem? d 0 ≡ some 1
  pub sig_off_at : U16At d 2 sig_off
  pub sig_ix_at : U16At d 4 65535
  pub key_off_at : U16At d 6 key_off
  pub key_ix_at : U16At d 8 65535
  pub msg_off_at : U16At d 10 msg_off
  pub msg_len_at : U16At d 12 (length message)
  pub msg_ix_at : U16At d 14 65535
  pub key_at : SliceAt d key_off key
  pub message_at : SliceAt d msg_off message
  pub signature_at : SliceAt d sig_off signature
  pub signature_size : length signature ≡ 64

read_u16-eq-ok :
    (o : Option Bytes) {v : ℕ}
    → read_u16 o ≡ ok v
    → (lo : ℕ) × (hi : ℕ) × (o ≡ some (lo ∷ hi ∷ [])) × (v ≡ lo + 256 * hi)
unfolding read_u16 from_le_bytes
read_u16-eq-ok none h = cc
read_u16-eq-ok (some []) h = cc
read_u16-eq-ok (some (lo ∷ [])) h = cc
read_u16-eq-ok (some (lo ∷ hi ∷ [])) h = (lo, hi, refl, ground arith)
read_u16-eq-ok (some (lo ∷ hi ∷ x ∷ xs)) h = cc

some_of : (o : Option Bytes) → o ≢ none → (a : Bytes) × (o ≡ some a)
some_of none h = absurd (h refl)
some_of (some a) h = (a, refl)

long_enough : (d : Bytes) {v : ℕ} → U16At d 14 v → 16 ≤ length d
long_enough d (lo, hi, at, val) =
    get_range-bounds d 14 16 (SliceAt→get_range d 14 (lo ∷ hi ∷ []) at)

module _ (d : Bytes) where
  pub u16_at→U16At : (i : ℕ) {v : ℕ} → u16_at d i ≡ ok v → U16At d i v
  unfolding u16_at
  u16_at→U16At i h =
      let (lo, hi, e, val) = read_u16-eq-ok (get_range d i (i + 2)) h in
      (lo, hi, get_range→SliceAt d i (i + 2) e, val)

  pub U16At→u16_at : (i : ℕ) {v : ℕ} → U16At d i v → u16_at d i ≡ ok v
  unfolding u16_at
  U16At→u16_at i (lo, hi, at, val) = rw (SliceAt→get_range d i (lo ∷ hi ∷ []) at, val) refl

abbrev read : Bytes → ℕ → ℕ
read d i = elim (u16_at d i) [ ok v ↦ v | err e ↦ 0 ]

-- The reads and comparisons of a call that succeeds.
module _ (d key message : Bytes) (h : check_ed25519_data d key message ≡ ok tt) where
  checked_index :
      (get_elem? d 0 ≡ some 1)
      × (u16_at d 4 ≡ ok 65535)
      × (u16_at d 8 ≡ ok 65535)
      × (u16_at d 14 ≡ ok 65535)
  unfolding check_ed25519_data
  checked_index = ground arith

  checked_offsets :
      (u16_at d 2 ≡ ok (read d 2))
      × (u16_at d 6 ≡ ok (read d 6))
      × (u16_at d 10 ≡ ok (read d 10))
      × (u16_at d 12 ≡ ok (read d 12))
  unfolding check_ed25519_data
  checked_offsets = ground arith

  checked_key : opt_bytes_eq (get_range d (read d 6) (read d 6 + 32)) key ≡ true
  unfolding check_ed25519_data
  checked_key = ground arith

  checked_message : opt_bytes_eq (get_range d (read d 10) (read d 10 + read d 12)) message ≡ true
  unfolding check_ed25519_data
  checked_message = ground arith

  checked_signature : get_range d (read d 2) (read d 2 + 64) ≢ none
  unfolding check_ed25519_data
  checked_signature = ground arith

  check→IsSelfContained : IsSelfContained d key message
  check→IsSelfContained =
      let (count, sig_ix, key_ix, msg_ix) = checked_index in
      let (sig, key_o, msg, len) = checked_offsets in
      let key_e = opt_bytes_eq→eq _ key checked_key in
      let msg_e = opt_bytes_eq→eq _ message checked_message in
      let (signature, sig_e) = some_of _ checked_signature in
      record {
        sig_off = read d 2;
        key_off = read d 6;
        msg_off = read d 10;
        signature = signature;
        count = count;
        sig_off_at = u16_at→U16At d 2 sig;
        sig_ix_at = u16_at→U16At d 4 sig_ix;
        key_off_at = u16_at→U16At d 6 key_o;
        key_ix_at = u16_at→U16At d 8 key_ix;
        msg_off_at = u16_at→U16At d 10 msg;
        msg_len_at = u16_at→U16At d 12 (
            len
            ∙ ap ok (omega (arith, length-get_range d (read d 10) (read d 10 + read d 12) msg_e)));
        msg_ix_at = u16_at→U16At d 14 msg_ix;
        key_at = get_range→SliceAt d (read d 6) (read d 6 + 32) key_e;
        message_at = get_range→SliceAt d (read d 10) (read d 10 + read d 12) msg_e;
        signature_at = get_range→SliceAt d (read d 2) (read d 2 + 64) sig_e;
        signature_size = omega (arith, length-get_range d (read d 2) (read d 2 + 64) sig_e);
      }

IsSelfContained→check :
    (d key message : Bytes)
    → length key ≡ 32
    → IsSelfContained d key message
    → check_ed25519_data d key message ≡ ok tt
unfolding check_ed25519_data
IsSelfContained→check d key message sized s = ground (
  arith,
  s.count,
  long_enough d s.msg_ix_at,
  U16At→u16_at d 2 s.sig_off_at,
  U16At→u16_at d 4 s.sig_ix_at,
  U16At→u16_at d 6 s.key_off_at,
  U16At→u16_at d 8 s.key_ix_at,
  U16At→u16_at d 10 s.msg_off_at,
  U16At→u16_at d 12 s.msg_len_at,
  U16At→u16_at d 14 s.msg_ix_at,
  SliceAt→get_range d s.key_off key s.key_at,
  SliceAt→get_range d s.msg_off message s.message_at,
  SliceAt→get_range d s.sig_off s.signature s.signature_at,
  s.signature_size,
  bytes_eq_refl key,
  bytes_eq_refl message,
)

-- The header and the comparisons accept the data of an instruction exactly if it holds one
-- signature whose offsets, sizes and indices, by the documented layout, place a 64-byte signature,
-- the 32-byte key and the whole message in that very data.
pub check_ed25519_data_iff :
    (d key message : Bytes)
    → length key ≡ 32
    → (check_ed25519_data d key message ≡ ok tt) ↔ IsSelfContained d key message
check_ed25519_data_iff d key message sized =
    (check→IsSelfContained d key message, IsSelfContained→check d key message sized)
