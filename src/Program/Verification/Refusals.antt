-- ===== src/Program/Verification/Refusals.antt =====
-- How the data of an Ed25519 instruction are refused by verification.rs.
use webproof_solana.Prelude.{
  ℕ, subst, sym, take, drop, true, get_range_total, length-get_range, ◌+◌, ◌-◌, ◌*◌, ◌≤◌, ◌<◌, ◌≡◌,
  ◌≢◌, ◌⊎◌, inl, inr, refl, arith, Option, none, some, [], ◌∷◌, Bytes, length, get_elem?, get_range,
  bytes_eq_refl, err, ok, opt_bytes_eq,
}
use webproof_solana.Program.Errors.{
  WebProofError, malformed_ed25519, wrong_verifier, message_mismatch,
}
use webproof_solana.Program.Verification.{read_u16, from_le_bytes, u16_at, check_ed25519_data}
use webproof_solana.Program.Verification.Ed25519.{U16At, u16_at→U16At}

two_bytes : (s : Bytes) → length s ≡ 2 → (v : ℕ) × (read_u16 (some s) ≡ ok v)
unfolding read_u16 from_le_bytes
two_bytes [] h = absurd (omega arith)
two_bytes (lo ∷ []) h = absurd (omega arith)
two_bytes (lo ∷ hi ∷ []) h = (lo + 256 * hi, refl)
two_bytes (lo ∷ hi ∷ x ∷ xs) h = absurd (omega arith)

-- Two bytes within the data are a number.
u16_at-defined : (d : Bytes) (i : ℕ) → i + 2 ≤ length d → (v : ℕ) × (u16_at d i ≡ ok v)
unfolding u16_at
u16_at-defined d i h =
    let there = get_range_total d i (i + 2) (omega arith) h in
    let (v, e) =
      two_bytes (take (i + 2 - i) (drop i d)) (omega (arith, length-get_range d i (i + 2) there)) in
    (v, rw there e)

-- Why the data of an Ed25519 instruction are refused.
abbrev pub IsRefused : Bytes → Bytes → Bytes → WebProofError → Type 0
IsRefused d key message malformed_ed25519 =
    (length d < 16)
    ⊎ (get_elem? d 0 ≢ some 1)
    ⊎ ((i : ℕ) × (v : ℕ) × ((i ≡ 4) ⊎ (i ≡ 8) ⊎ (i ≡ 14)) × U16At d i v × (v ≢ 65535))
    ⊎ ((offset : ℕ) × U16At d 2 offset × (get_range d offset (offset + 64) ≡ none))
IsRefused d key message wrong_verifier =
    (offset : ℕ) × U16At d 6 offset × (get_range d offset (offset + 32) ≢ some key)
IsRefused d key message message_mismatch =
    (offset : ℕ) × (size : ℕ) × U16At d 10 offset
    × U16At d 12 size
    × (get_range d offset (offset + size) ≢ some message)
IsRefused d key message _ = ⊥

-- The seven numbers of the header, where the data are long enough.
record Header (d : Bytes) : Type 0 where
  v2 : ℕ
  v4 : ℕ
  v6 : ℕ
  v8 : ℕ
  v10 : ℕ
  v12 : ℕ
  v14 : ℕ
  at2 : u16_at d 2 ≡ ok v2
  at4 : u16_at d 4 ≡ ok v4
  at6 : u16_at d 6 ≡ ok v6
  at8 : u16_at d 8 ≡ ok v8
  at10 : u16_at d 10 ≡ ok v10
  at12 : u16_at d 12 ≡ ok v12
  at14 : u16_at d 14 ≡ ok v14

header_of : (d : Bytes) → 16 ≤ length d → Header d
header_of d h =
    let (v2, at2) = u16_at-defined d 2 (omega arith) in
    let (v4, at4) = u16_at-defined d 4 (omega arith) in
    let (v6, at6) = u16_at-defined d 6 (omega arith) in
    let (v8, at8) = u16_at-defined d 8 (omega arith) in
    let (v10, at10) = u16_at-defined d 10 (omega arith) in
    let (v12, at12) = u16_at-defined d 12 (omega arith) in
    let (v14, at14) = u16_at-defined d 14 (omega arith) in
    record {
      v2 = v2;
      v4 = v4;
      v6 = v6;
      v8 = v8;
      v10 = v10;
      v12 = v12;
      v14 = v14;
      at2 = at2;
      at4 = at4;
      at6 = at6;
      at8 = at8;
      at10 = at10;
      at12 = at12;
      at14 = at14;
    }

opt_bytes_eq_refl : (o : Option Bytes) (b : Bytes) → o ≡ some b → opt_bytes_eq o b ≡ true
opt_bytes_eq_refl o b e = rw e (bytes_eq_refl b)

module _ (d key message : Bytes) (long : 16 ≤ length d) (head : Header d) where
  -- The comparisons, once the header is read.
  refused_by :
      (e : WebProofError)
      → check_ed25519_data d key message ≡ err e
      → ((e ≡ malformed_ed25519)
          × ((get_elem? d 0 ≢ some 1)
              ⊎ (head.v4 ≢ 65535)
              ⊎ (head.v8 ≢ 65535)
              ⊎ (head.v14 ≢ 65535)
              ⊎ (get_range d head.v2 (head.v2 + 64) ≡ none)))
        ⊎ ((e ≡ wrong_verifier) × (get_range d head.v6 (head.v6 + 32) ≢ some key))
        ⊎ ((e ≡ message_mismatch) × (get_range d head.v10 (head.v10 + head.v12) ≢ some message))
  unfolding check_ed25519_data
  refused_by e h = ground (
    arith,
    head.at2,
    head.at4,
    head.at6,
    head.at8,
    head.at10,
    head.at12,
    head.at14,
    opt_bytes_eq_refl (get_range d head.v6 (head.v6 + 32)) key,
    opt_bytes_eq_refl (get_range d head.v10 (head.v10 + head.v12)) message,
  )

IsRefused-by :
    (d key message : Bytes) (head : Header d) (e : WebProofError)
    → ((e ≡ malformed_ed25519)
        × ((get_elem? d 0 ≢ some 1)
            ⊎ (head.v4 ≢ 65535)
            ⊎ (head.v8 ≢ 65535)
            ⊎ (head.v14 ≢ 65535)
            ⊎ (get_range d head.v2 (head.v2 + 64) ≡ none)))
      ⊎ ((e ≡ wrong_verifier) × (get_range d head.v6 (head.v6 + 32) ≢ some key))
      ⊎ ((e ≡ message_mismatch) × (get_range d head.v10 (head.v10 + head.v12) ≢ some message))
    → IsRefused d key message e
IsRefused-by d key message head e (inl (same, why)) =
    subst (IsRefused d key message) (sym same) (elim why [
      | inl count ↦ inr (inl count)
      | inr (inl ix) ↦ inr (inr (inl (4, head.v4, inl refl, u16_at→U16At d 4 head.at4, ix)))
      | inr (inr (inl ix)) ↦
          inr (inr (inl (8, head.v8, inr (inl refl), u16_at→U16At d 8 head.at8, ix)))
      | inr (inr (inr (inl ix))) ↦
          inr (inr (inl (14, head.v14, inr (inr refl), u16_at→U16At d 14 head.at14, ix)))
      | inr (inr (inr (inr gone))) ↦ inr (inr (inr (head.v2, u16_at→U16At d 2 head.at2, gone)))
    ])
IsRefused-by d key message head e (inr (inl (same, why))) =
    subst (IsRefused d key message) (sym same) (head.v6, u16_at→U16At d 6 head.at6, why)
IsRefused-by d key message head e (inr (inr (same, why))) =
    subst (IsRefused d key message) (sym same)
      (head.v10, head.v12, u16_at→U16At d 10 head.at10, u16_at→U16At d 12 head.at12, why)

short_or_long : (d : Bytes) → (length d < 16) ⊎ (16 ≤ length d)
short_or_long d = ground arith

pub IsRefused-check :
    (d key message : Bytes) (e : WebProofError)
    → check_ed25519_data d key message ≡ err e
    → IsRefused d key message e
unfolding check_ed25519_data
IsRefused-check d key message e h = elim (short_or_long d) [
  | inl short ↦
      (let malformed : malformed_ed25519 ≡ e = ground arith in
        subst (IsRefused d key message) malformed (inl short))
  | inr long ↦
      let head = header_of d long in
      IsRefused-by d key message head e (refused_by d key message long head e h)
]
