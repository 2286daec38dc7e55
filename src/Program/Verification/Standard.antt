-- ===== src/Program/Verification/Standard.antt =====
-- A layout that the introspection of verification.rs accepts: the header, then the key at 16, the
-- signature at 48 and the message at 112.
use webproof_solana.Prelude.{
  ℕ, ◌/◌, ◌%◌, ◌≡◌, refl, ap, arith, [], ◌∷◌, ◌++◌, append_assoc, append-nil, Bytes, length,
  length-append, ◌+◌, ◌*◌, ◌∙◌, sym, subst, Bool, true, some, SliceAt-unique,
}
use webproof_solana.Program.Verification.Ed25519.{U16At, IsSelfContained}
use webproof_solana.Program.Verification.Attested.{NativeSuccess}

abbrev pub header : ℕ → Bytes → Bytes
header message_size rest =
    1
    ∷ 0
    ∷ 48
    ∷ 0
    ∷ 255
    ∷ 255
    ∷ 16
    ∷ 0
    ∷ 255
    ∷ 255
    ∷ 112
    ∷ 0
    ∷ (message_size % 256)
    ∷ (message_size / 256)
    ∷ 255
    ∷ 255
    ∷ rest

unfoldable pub standard_data : Bytes → Bytes → Bytes → Bytes
standard_data key signature message = header (length message) (key ++ (signature ++ message))

pub standard_data-IsSelfContained :
    (key signature message : Bytes)
    → length key ≡ 32
    → length signature ≡ 64
    → IsSelfContained (standard_data key signature message) key message
unfolding standard_data
standard_data-IsSelfContained key signature message key_size signature_size =
    let n = length message in
    record {
      sig_off = 48;
      key_off = 16;
      msg_off = 112;
      signature = signature;
      count = refl;
      sig_off_at = (48, 0, (1 ∷ 0 ∷ [], _, refl, refl), refl);
      sig_ix_at = (255, 255, (1 ∷ 0 ∷ 48 ∷ 0 ∷ [], _, refl, refl), refl);
      key_off_at = (16, 0, (1 ∷ 0 ∷ 48 ∷ 0 ∷ 255 ∷ 255 ∷ [], _, refl, refl), refl);
      key_ix_at = (255, 255, (1 ∷ 0 ∷ 48 ∷ 0 ∷ 255 ∷ 255 ∷ 16 ∷ 0 ∷ [], _, refl, refl), refl);
      msg_off_at =
          (112, 0, (1 ∷ 0 ∷ 48 ∷ 0 ∷ 255 ∷ 255 ∷ 16 ∷ 0 ∷ 255 ∷ 255 ∷ [], _, refl, refl), refl);
      msg_len_at = (
        n % 256,
        n / 256,
        (1 ∷ 0 ∷ 48 ∷ 0 ∷ 255 ∷ 255 ∷ 16 ∷ 0 ∷ 255 ∷ 255 ∷ 112 ∷ 0 ∷ [], _, refl, refl),
        omega arith,
      );
      msg_ix_at = (
        255,
        255,
        (
          1 ∷ 0 ∷ 48 ∷ 0 ∷ 255 ∷ 255 ∷ 16 ∷ 0 ∷ 255 ∷ 255 ∷ 112 ∷ 0 ∷ (n % 256) ∷ (n / 256) ∷ [],
          _,
          refl,
          refl,
        ),
        refl,
      );
      key_at = (header n [], signature ++ message, refl, refl);
      message_at = (
        header n (key ++ signature),
        [],
        ap (header n) (rw (append-nil, append_assoc) refl),
        omega (arith, length-append key signature),
      );
      signature_at = (header n key, message, refl, omega arith);
      signature_size = signature_size;
    }

U16At-unique : (d : Bytes) (i : ℕ) {v w : ℕ} → U16At d i v → U16At d i w → v ≡ w
U16At-unique d i (lo, hi, at, val) (lo', hi', at', val') =
    ground (arith, SliceAt-unique d i (lo ∷ hi ∷ []) (lo' ∷ hi' ∷ []) refl at at')

-- Two readings of the same data as one self-contained signature agree.
IsSelfContained-unique :
    (d key message key' message' : Bytes) (s : IsSelfContained d key message)
    (t : IsSelfContained d key' message')
    → length key ≡ length key'
    → (s.signature ≡ t.signature) × (key ≡ key') × (message ≡ message')
IsSelfContained-unique d key message key' message' s t sized =
    let so = U16At-unique d 2 s.sig_off_at t.sig_off_at in
    let ko = U16At-unique d 6 s.key_off_at t.key_off_at in
    let mo = U16At-unique d 10 s.msg_off_at t.msg_off_at in
    let ml = U16At-unique d 12 s.msg_len_at t.msg_len_at in
    (
      SliceAt-unique d s.sig_off s.signature t.signature (s.signature_size ∙ sym t.signature_size)
          s.signature_at (rw so t.signature_at),
      SliceAt-unique d s.key_off key key' sized s.key_at (rw ko t.key_at),
      SliceAt-unique d s.msg_off message message' ml s.message_at (rw mo t.message_at),
    )

-- The native program succeeds on one self-contained signature that verifies.
IsSelfContained-NativeSuccess :
    (verify : Bytes → Bytes → Bytes → Bool) (d key message : Bytes)
    (s : IsSelfContained d key message)
    → length key ≡ 32
    → verify key message s.signature ≡ true
    → NativeSuccess verify d
IsSelfContained-NativeSuccess verify d key message s key_size holds = record {
  verified =
      λ count i sig_off key_off msg_off signature' key' message' n lt so si ko ki mo ml mi sig
          sig_size k k_size m.
        let counted : some 1 ≡ some count = sym s.count ∙ n in
        let one : i ≡ 0 = ground arith in
        let t : IsSelfContained d key' message' = record {
          sig_off = sig_off;
          key_off = key_off;
          msg_off = msg_off;
          signature = signature';
          count = s.count;
          sig_off_at = subst (λ j. U16At d (2 + 14 * j) sig_off) one so;
          sig_ix_at = s.sig_ix_at;
          key_off_at = subst (λ j. U16At d (6 + 14 * j) key_off) one ko;
          key_ix_at = s.key_ix_at;
          msg_off_at = subst (λ j. U16At d (10 + 14 * j) msg_off) one mo;
          msg_len_at = subst (λ j. U16At d (12 + 14 * j) (length message')) one ml;
          msg_ix_at = s.msg_ix_at;
          key_at = k;
          message_at = m;
          signature_at = sig;
          signature_size = sig_size;
        } in
        let (same_signature, same_key, same_message) =
          IsSelfContained-unique d key message key' message' s t (key_size ∙ sym k_size) in
        cc (holds, same_signature, same_key, same_message);
}

pub standard_data-NativeSuccess :
    (verify : Bytes → Bytes → Bytes → Bool) (key signature message : Bytes)
    → length key ≡ 32
    → length signature ≡ 64
    → verify key message signature ≡ true
    → NativeSuccess verify (standard_data key signature message)
unfolding standard_data-IsSelfContained
standard_data-NativeSuccess verify key signature message key_size signature_size holds =
    IsSelfContained-NativeSuccess verify (standard_data key signature message) key message
      (standard_data-IsSelfContained key signature message key_size signature_size) key_size holds
