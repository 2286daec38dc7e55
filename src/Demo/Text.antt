-- ===== src/Demo/Text.antt =====
-- What the demo uses of Rust's `str`, on UTF-8 bytes: `trim`, `split`, `replace`,
-- `eq_ignore_ascii_case` and the integer parsers.
pub mod Trimmed
pub mod Numerals
use webproof_solana.Prelude.{
  ℕ, zero, suc, ◌+◌, ◌-◌, ◌*◌, ◌^◌, Bool, false, ◌&&◌, ◌||◌, Option, none, some, List, [], ◌∷◌, map,
  is_empty, Bytes, ltb, leb, ◌==◌, if◌then◌else◌, ℤ, pos, negsuc,
}
use mathlib.Core.List.{reverse}

-- The bytes of a white space character of Unicode, of 1, 2 and 3 bytes.
white1 : ℕ → Bool
white1 a = (leb 9 a && leb a 13) || a == 0x20

white2 : ℕ → ℕ → Bool
white2 a b = a == 0xc2 && (b == 0x85 || b == 0xa0)

white3 : ℕ → ℕ → ℕ → Bool
white3 a b c =
    (a == 0xe1 && (b == 0x9a && c == 0x80))
    || ((a == 0xe2
          && (b == 0x80 && ((leb 0x80 c && leb c 0x8a) || (c == 0xa8 || (c == 0xa9 || c == 0xaf)))))
        || ((a == 0xe2 && (b == 0x81 && c == 0x9f)) || (a == 0xe3 && (b == 0x80 && c == 0x80))))

-- The number of bytes of the white space that a text begins with, else 0.
white_size : Bytes → ℕ
unfolding white1 white2 white3
white_size [] = 0
white_size (a ∷ []) = if white1 a then 1 else 0
white_size (a ∷ b ∷ []) = if white1 a then 1 else if white2 a b then 2 else 0
white_size (a ∷ b ∷ c ∷ rest) =
    if white1 a then 1 else if white2 a b then 2 else if white3 a b c then 3 else 0

-- The same for the white space that a reversed text begins with.
white_size_end : Bytes → ℕ
unfolding white1 white2 white3
white_size_end [] = 0
white_size_end (a ∷ []) = if white1 a then 1 else 0
white_size_end (b ∷ a ∷ []) = if white1 b then 1 else if white2 a b then 2 else 0
white_size_end (c ∷ b ∷ a ∷ rest) =
    if white1 c then 1 else if white2 b c then 2 else if white3 a b c then 3 else 0

-- Drop a number of bytes, then white space by its sizes.
skip : (Bytes → ℕ) → ℕ → Bytes → Bytes
skip size n [] = []
skip size (suc n) (x ∷ xs) = skip size n xs
skip size zero (x ∷ xs) =
    let n = size (x ∷ xs) in let rest = skip size (n - 1) xs in if n == 0 then x ∷ xs else rest

unfoldable pub trim : Bytes → Bytes
unfolding skip white_size white_size_end
trim s = reverse (skip white_size_end 0 (reverse (skip white_size 0 s)))

-- A byte before the first part.
abbrev pub extend : ℕ → List Bytes → List Bytes
extend y [] = (y ∷ []) ∷ []
extend y (part ∷ parts) = (y ∷ part) ∷ parts

-- `s.split(c)` for an ASCII character.
unfoldable pub split : ℕ → Bytes → List Bytes
split c [] = [] ∷ []
split c (x ∷ xs) = let rest = split c xs in if x == c then [] ∷ rest else extend x rest

-- `s.replace(from, to)` for ASCII characters.
unfoldable pub replace : ℕ → ℕ → Bytes → Bytes
replace from to s = map (λ c. if c == from then to else c) s

-- `s.starts_with(c)`
unfoldable pub starts_with : ℕ → Bytes → Bool
starts_with c [] = false
starts_with c (x ∷ xs) = x == c

abbrev is_digit : ℕ → Bool
is_digit c = leb 48 c && leb c 57

-- A run of decimal digits to the end, after a value.
digits : ℕ → Bytes → Option ℕ
digits acc [] = some acc
digits acc (c ∷ cs) =
    let rest = digits (10 * acc + (c - 48)) cs in if is_digit c then rest else none

number : Bytes → Option ℕ
number s = if is_empty s then none else digits 0 s

-- A plus sign, if any, is dropped.
unsigned : Bytes → Option ℕ
unfolding number digits
unsigned [] = none
unsigned (c ∷ cs) = if c == 43 then number cs else number (c ∷ cs)

below : ℕ → Option ℕ → Option ℕ
below bound none = none
below bound (some n) = if ltb n bound then some n else none

-- `s.parse::<usize>()`, for 64 bits.
unfoldable pub parse_usize : Bytes → Option ℕ
unfolding unsigned below
parse_usize s = below (2 ^ 64) (unsigned s)

negative : Option ℕ → Option ℤ
negative none = none
negative (some zero) = some (pos 0)
negative (some (suc n)) = some (negsuc n)

positive : Option ℕ → Option ℤ
positive none = none
positive (some n) = some (pos n)

-- `s.parse::<i64>()`
unfoldable pub parse_i64 : Bytes → Option ℤ
unfolding unsigned below positive negative number
parse_i64 [] = none
parse_i64 (c ∷ cs) =
    if c == 45
    then negative (below (2 ^ 63 + 1) (number cs))
    else positive (below (2 ^ 63) (unsigned (c ∷ cs)))
