-- ===== src/Prelude/ByteStrings.antt =====
-- Byte strings. A byte is a number below 256; a Rust `String` is the list of its UTF-8 bytes, so
-- that `len` is `length`, `as_bytes` is the identity and `==` compares bytes.
use Prim.Native.Nat.{ℕ, ◌-◌, ◌<◌, ◌^◌}
use Prim.Native.Char.{code}
use Prim.Native.String.{String}
use mathlib.Core.Path.{◌≡◌, refl, ap}
use mathlib.Core.Logic.{◌↔◌}
use mathlib.Core.Bool.{Bool, true, false, ◌&&◌}
use mathlib.Core.Option.{Option, none, some}
use mathlib.Core.List.{List, [], ◌∷◌}
use native.Mathlib.Omega.{arith}
use webproof_solana.Prelude.Tests.{ltb, leb, ◌==◌, if◌then◌else◌}
use webproof_solana.Prelude.Lists.{length, All}

abbrev pub Bytes : Type 0
Bytes = List ℕ

abbrev pub IsByte : ℕ → Type 0
IsByte b = b < 256

-- The bytes of an ASCII literal.
abbrev pub codes : String → Bytes
codes String.[] = []
codes (String.◌∷◌ c s) = code c ∷ codes s

-- `a == b` on byte strings.
unfoldable pub bytes_eq : Bytes → Bytes → Bool
bytes_eq [] [] = true
bytes_eq [] (b ∷ bs) = false
bytes_eq (a ∷ as_) [] = false
bytes_eq (a ∷ as_) (b ∷ bs) = a == b && bytes_eq as_ bs

bytes_eq→eq : (a b : Bytes) → bytes_eq a b ≡ true → a ≡ b
unfolding bytes_eq
bytes_eq→eq [] [] h = refl
bytes_eq→eq [] (y ∷ ys) h = cc
bytes_eq→eq (x ∷ xs) [] h = cc
bytes_eq→eq (x ∷ xs) (y ∷ ys) h = ground (arith, bytes_eq→eq xs ys)

pub bytes_eq_refl : (a : Bytes) → bytes_eq a a ≡ true
unfolding bytes_eq
bytes_eq_refl [] = refl
bytes_eq_refl (x ∷ xs) = ground (arith, bytes_eq_refl xs)

pub bytes_eq_iff : (a b : Bytes) → (bytes_eq a b ≡ true) ↔ (a ≡ b)
bytes_eq_iff a b = (bytes_eq→eq a b, λ e. e_to e)
  where
    e_to : a ≡ b → bytes_eq a b ≡ true
    e_to e = rw e (bytes_eq_refl b)

-- `o == Some(b)` on an optional slice.
abbrev pub opt_bytes_eq : Option Bytes → Bytes → Bool
opt_bytes_eq none b = false
opt_bytes_eq (some a) b = bytes_eq a b

pub opt_bytes_eq→eq : (o : Option Bytes) (b : Bytes) → opt_bytes_eq o b ≡ true → o ≡ some b
opt_bytes_eq→eq none b h = cc
opt_bytes_eq→eq (some a) b h = ap some (bytes_eq→eq a b h)

-- What the UTF-8 decoder still expects: nothing, or so many continuation bytes, the first of them
-- in a range.
pub data Utf8State : Type 0 where
  start : Utf8State
  expect : ℕ → ℕ → ℕ → Utf8State

within : ℕ → ℕ → ℕ → Bool
within lo hi b = leb lo b && leb b hi

utf8_lead : ℕ → Option Utf8State
unfolding within
utf8_lead b =
    if ltb b 0x80
    then some start
    else if within 0xc2 0xdf b
    then some (expect 1 0x80 0xbf)
    else if b == 0xe0
    then some (expect 2 0xa0 0xbf)
    else if b == 0xed
    then some (expect 2 0x80 0x9f)
    else if within 0xe1 0xef b
    then some (expect 2 0x80 0xbf)
    else if b == 0xf0
    then some (expect 3 0x90 0xbf)
    else if b == 0xf4
    then some (expect 3 0x80 0x8f)
    else if within 0xf1 0xf3 b
    then some (expect 3 0x80 0xbf)
    else none

utf8_step : Utf8State → ℕ → Option Utf8State
unfolding utf8_lead
utf8_step start b = utf8_lead b
utf8_step (expect n lo hi) b =
    if within lo hi b
    then (if leb n 1 then some start else some (expect (n - 1) 0x80 0xbf))
    else none

utf8_run : Utf8State → Bytes → Bool
utf8_run start [] = true
utf8_run (expect n lo hi) [] = false
utf8_run s (b ∷ bs) = elim (utf8_step s b) [ none ↦ false | some s' ↦ utf8_run s' bs ]

-- `str::from_utf8(bytes).is_ok()`
unfoldable pub is_utf8 : Bytes → Bool
unfolding utf8_run utf8_step
is_utf8 = utf8_run start

-- A value that a Rust `String` can hold and that a `u32` can measure.
pub record IsText (s : Bytes) : Type 0 where
  pub are_bytes : All IsByte s
  pub utf8 : is_utf8 s ≡ true
  pub measured : length s < 2 ^ 32

-- A value of `[u8; n]`.
pub record IsArray (n : ℕ) (s : Bytes) : Type 0 where
  pub are_bytes : All IsByte s
  pub sized : length s ≡ n
