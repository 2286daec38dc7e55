-- ===== src/Borsh/Layout.antt =====
-- The documented layout of borsh, as a value of the interface: little-endian integers in two's
-- complement, texts behind a 32-bit length, arrays as they are.
use webproof_solana.Prelude.{
  ℕ, zero, suc, ◌+◌, ◌-◌, ◌*◌, ◌/◌, ◌%◌, ◌^◌, ◌<◌, ◌≡◌, refl, ap, ◌∙◌, arith, none, some, [], ◌∷◌,
  ◌++◌, append_assoc, Bytes, length, take, drop, length-append, take-append, drop-append, leb, ltb,
  is_utf8, IsByte, IsText, IsArray, ℤ, pos, negsuc, IsI64, if◌then◌else◌,
}
use webproof_solana.Borsh.{Borsh, Decoder}

unfoldable pub le_bytes : ℕ → ℕ → Bytes
le_bytes zero n = []
le_bytes (suc k) n = (n % 256) ∷ le_bytes k (n / 256)

unfoldable pub from_le : Bytes → ℕ
from_le [] = 0
from_le (x ∷ xs) = x + 256 * from_le xs

from_le-le_bytes : (k n : ℕ) → n < 256 ^ k → from_le (le_bytes k n) ≡ n
unfolding from_le le_bytes
from_le-le_bytes zero n h = omega arith
from_le-le_bytes (suc k) n h = omega (arith, from_le-le_bytes k (n / 256) (below k n h))
  where
    below : (k n : ℕ) → n < 256 ^ suc k → n / 256 < 256 ^ k
    below k n h = grind arith

pub length-le_bytes : (k n : ℕ) → length (le_bytes k n) ≡ k
unfolding le_bytes
length-le_bytes zero n = refl
length-le_bytes (suc k) n = ap suc (length-le_bytes k (n / 256))

unfoldable pub to_u64 : ℤ → ℕ
to_u64 (pos n) = n
to_u64 (negsuc n) = 2 ^ 64 - 1 - n

unfoldable pub from_u64 : ℕ → ℤ
from_u64 n = if ltb n (2 ^ 63) then pos n else negsuc (2 ^ 64 - 1 - n)

from_u64-to_u64 : (a : ℤ) → IsI64 a → (to_u64 a < 2 ^ 64) × (from_u64 (to_u64 a) ≡ a)
unfolding from_u64 to_u64
from_u64-to_u64 (pos n) h = ground arith
from_u64-to_u64 (negsuc n) h = ground arith

unfoldable pub get_array : ℕ → Decoder Bytes
get_array n bytes = if leb n (length bytes) then some (take n bytes, drop n bytes) else none

get_array-append : (s rest : Bytes) → get_array (length s) (s ++ rest) ≡ some (s, rest)
unfolding get_array
get_array-append s rest =
    ground (arith, length-append s rest, take-append s rest, drop-append s rest)

unfoldable pub get_u8 : Decoder ℕ
get_u8 [] = none
get_u8 (x ∷ rest) = some (x, rest)

unfoldable pub get_i64 : Decoder ℤ
unfolding from_u64
get_i64 bytes = elim (get_array 8 bytes) [
  | none ↦ none
  | some (x, rest) ↦ some (from_u64 (from_le x), rest)
]

unfoldable pub get_string : Decoder Bytes
get_string bytes = elim (get_array 4 bytes) [
  | none ↦ none
  | some (n, more) ↦ elim (get_array (from_le n) more) [
    | none ↦ none
    | some (s, rest) ↦ if is_utf8 s then some (s, rest) else none
  ]
]

pub get-put_u8 : (v : ℕ) (rest : Bytes) → IsByte v → get_u8 ((v ∷ []) ++ rest) ≡ some (v, rest)
unfolding get_u8
get-put_u8 v rest h = refl

pub get-put_array :
    (n : ℕ) (s rest : Bytes) → IsArray n s → get_array n (s ++ rest) ≡ some (s, rest)
get-put_array n s rest h = rw (← h.sized) (get_array-append s rest)

get_array-le_bytes :
    (k n : ℕ) (rest : Bytes) → get_array k (le_bytes k n ++ rest) ≡ some (le_bytes k n, rest)
get_array-le_bytes k n rest = rw (length-le_bytes k n) at (get_array-append (le_bytes k n) rest)

pub get-put_i64 :
    (a : ℤ) (rest : Bytes) → IsI64 a → get_i64 (le_bytes 8 (to_u64 a) ++ rest) ≡ some (a, rest)
unfolding get_i64
get-put_i64 a rest h =
    let (below, same) = from_u64-to_u64 a h in
    rw (get_i64, get_array-le_bytes 8 (to_u64 a) rest)
      (ap (λ n. some (from_u64 n, rest)) (from_le-le_bytes 8 (to_u64 a) below)
        ∙ ap (λ x. some (x, rest)) same)

pub get-put_string :
    (s rest : Bytes) → IsText s → get_string ((le_bytes 4 (length s) ++ s) ++ rest) ≡ some (s, rest)
unfolding get_string
get-put_string s rest h = rw append_assoc (
    ground (
      arith,
      get_array-le_bytes 4 (length s) (s ++ rest),
      from_le-le_bytes 4 (length s) h.measured,
      get_array-append s rest,
      h.utf8,
    ))

pub length-put_string : (s : Bytes) → length (le_bytes 4 (length s) ++ s) ≡ 4 + length s
length-put_string s = rw (length-append (le_bytes 4 (length s)) s, length-le_bytes 4 (length s))

abbrev pub layout : Borsh
layout = record {
  put_u8 = λ v. v ∷ [];
  put_i64 = λ a. le_bytes 8 (to_u64 a);
  put_string = λ s. le_bytes 4 (length s) ++ s;
  put_array = λ s. s;
  get_u8 = get_u8;
  get_i64 = get_i64;
  get_string = get_string;
  get_array = get_array;
  get-put_u8 = get-put_u8;
  get-put_i64 = get-put_i64;
  get-put_string = get-put_string;
  get-put_array = get-put_array;
  length-put_u8 = λ v. refl;
  length-put_i64 = λ a. length-le_bytes 8 (to_u64 a);
  length-put_string = length-put_string;
  length-put_array = λ s. refl;
}
