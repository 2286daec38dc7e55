-- ===== src/Examples/Hex.antt =====
-- Hexadecimal texts, as an instance of the `hex` crate.
use webproof_solana.Prelude.{
  ℕ, ◌+◌, ◌-◌, ◌*◌, ◌/◌, ◌%◌, ◌<◌, ◌≡◌, refl, ap, arith, true, ltb, if◌then◌else◌, Option, none,
  some, [], ◌∷◌, Bytes, All, IsByte, all,
}
use webproof_solana.Demo.Settings.{is_ascii_hexdigit}

digit : ℕ → ℕ
digit n = if ltb n 10 then 48 + n else 87 + n

digit_value : ℕ → ℕ
digit_value c = if ltb c 58 then c - 48 else c - 87

unfoldable pub hex_encode : Bytes → Bytes
unfolding digit
hex_encode [] = []
hex_encode (b ∷ bs) = digit (b / 16) ∷ digit (b % 16) ∷ hex_encode bs

prepend : ℕ → Option Bytes → Option Bytes
prepend b none = none
prepend b (some bs) = some (b ∷ bs)

unfoldable pub hex_decode : Bytes → Option Bytes
unfolding digit_value prepend
hex_decode [] = some []
hex_decode (h ∷ []) = none
hex_decode (h ∷ l ∷ rest) = prepend (16 * digit_value h + digit_value l) (hex_decode rest)

digit_value-digit : (n : ℕ) → n < 16 → digit_value (digit n) ≡ n
unfolding digit digit_value
digit_value-digit n h = ground arith

digit-IsHexdigit : (n : ℕ) → n < 16 → is_ascii_hexdigit (digit n) ≡ true
unfolding digit
digit-IsHexdigit n h = ground arith

pub hex_decode-hex_encode :
    (bytes : Bytes) → All IsByte bytes → hex_decode (hex_encode bytes) ≡ some bytes
unfolding hex_encode hex_decode prepend
hex_decode-hex_encode [] are = refl
hex_decode-hex_encode (b ∷ bs) (is, are) =
    rw
      (
        digit_value-digit (b / 16) (omega arith),
        digit_value-digit (b % 16) (omega arith),
        hex_decode-hex_encode bs are,
      )
      (ap (λ x. some (x ∷ bs)) (omega arith))

pub hex_encode-digits :
    (bytes : Bytes) → All IsByte bytes → all is_ascii_hexdigit (hex_encode bytes) ≡ true
unfolding hex_encode
hex_encode-digits [] are = refl
hex_encode-digits (b ∷ bs) (is, are) = ground (
  arith,
  digit-IsHexdigit (b / 16) (omega arith),
  digit-IsHexdigit (b % 16) (omega arith),
  hex_encode-digits bs are,
)
