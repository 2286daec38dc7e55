-- ===== src/Borsh.antt =====
-- The borsh crate as its users see it: the encodings of the field types, with the documented facts
-- that a decoder reads back what the encoder wrote, and the documented sizes. The derived
-- implementations, which go through a struct's fields in their order, stand with the structs.
pub mod Layout
use webproof_solana.Prelude.{
  ℕ, suc, ◌+◌, ◌<◌, ◌≡◌, Option, none, some, ◌++◌, Bytes, length, IsByte, IsText, IsArray, ℤ, IsI64,
}

-- A decoder takes its value from the front of the input.
abbrev pub Decoder : Type 0 → Type 0
Decoder A = Bytes → Option (A × Bytes)

pub record Borsh : Type 0 where
  pub put_u8 : ℕ → Bytes
  pub put_i64 : ℤ → Bytes
  pub put_string : Bytes → Bytes
  pub put_array : Bytes → Bytes
  pub get_u8 : Decoder ℕ
  pub get_i64 : Decoder ℤ
  pub get_string : Decoder Bytes
  pub get_array : ℕ → Decoder Bytes
  pub get-put_u8 : (v : ℕ) (rest : Bytes) → IsByte v → get_u8 (put_u8 v ++ rest) ≡ some (v, rest)
  pub get-put_i64 : (v : ℤ) (rest : Bytes) → IsI64 v → get_i64 (put_i64 v ++ rest) ≡ some (v, rest)
  pub get-put_string :
      (s rest : Bytes) → IsText s → get_string (put_string s ++ rest) ≡ some (s, rest)
  pub get-put_array :
      (n : ℕ) (s rest : Bytes) → IsArray n s → get_array n (put_array s ++ rest) ≡ some (s, rest)
  pub length-put_u8 : (v : ℕ) → length (put_u8 v) ≡ 1
  pub length-put_i64 : (v : ℤ) → length (put_i64 v) ≡ 8
  pub length-put_string : (s : Bytes) → length (put_string s) ≡ 4 + length s
  pub length-put_array : (s : Bytes) → length (put_array s) ≡ length s

infixl 5 ◌>>=◌
abbrev pub ◌>>=◌ : {A B : Type 0} → Decoder A → (A → Decoder B) → Decoder B
◌>>=◌ m f bytes = elim (m bytes) [ none ↦ none | some (a, rest) ↦ f a rest ]

abbrev pub pure : {A : Type 0} → A → Decoder A
pure a bytes = some (a, bytes)

-- One field decoded, the rest of the struct to come.
pub bind-eq :
    {A B : Type 0} (m : Decoder A) (f : A → Decoder B) {bytes : Bytes} {a : A} {rest : Bytes}
    → m bytes ≡ some (a, rest)
    → (m >>= f) bytes ≡ f a rest
bind-eq m f h = rw (h, ◌>>=◌)
