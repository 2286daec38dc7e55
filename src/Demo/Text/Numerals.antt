-- ===== src/Demo/Text/Numerals.antt =====
-- What the integer parsers read: decimal numerals by the weights of their digits.
use webproof_solana.Prelude.{
  ℕ, zero, suc, ◌+◌, ◌-◌, ◌*◌, ◌^◌, ◌<◌, ◌≡◌, ◌⊎◌, ◌↔◌, refl, sym, ap, ◌∙◌, arith, inl, inr, true,
  false, Bool-cases, ◌==◌, ==_iff, Option, none, some, some-injective, [], ◌∷◌, all, is_empty,
  Bytes, ℤ, pos, negsuc, length,
}
use native.Mathlib.Nat.{add-mul, mul_comm, mul_assoc, pow-succ'}
use webproof_solana.Demo.Text.{
  is_digit, digits, number, unsigned, below, parse_usize, negative, positive, parse_i64,
}

-- The number that a text of digits denotes: each digit times its power of ten.
abbrev pub decimal : Bytes → ℕ
decimal [] = 0
decimal (c ∷ cs) = (c - 48) * 10 ^ length cs + decimal cs

next_digit : (acc d k : ℕ) → (10 * acc + d) * 10 ^ k ≡ acc * 10 ^ suc k + d * 10 ^ k
next_digit acc d k =
    add-mul (10 * acc) d (10 ^ k)
    ∙ ap (λ x. x + d * 10 ^ k)
        (ap (λ y. y * 10 ^ k) (mul_comm 10 acc)
          ∙ mul_assoc acc 10 (10 ^ k)
          ∙ ap (λ y. acc * y) (sym (pow-succ' 10 k)))

digits→decimal :
    (acc : ℕ) (s : Bytes) (n : ℕ)
    → digits acc s ≡ some n
    → (all is_digit s ≡ true) × (n ≡ acc * 10 ^ length s + decimal s)
unfolding digits
digits→decimal acc [] n h = (refl, omega (arith, some-injective _ _ h))
digits→decimal acc (c ∷ cs) n h =
    let digit : is_digit c ≡ true = ground arith in
    let (rest, same) = digits→decimal (10 * acc + (c - 48)) cs n (ground arith) in
    (ground arith, omega (arith, next_digit acc (c - 48) (length cs)))

decimal→digits :
    (acc : ℕ) (s : Bytes)
    → all is_digit s ≡ true
    → digits acc s ≡ some (acc * 10 ^ length s + decimal s)
unfolding digits
decimal→digits acc [] h = ap some (omega arith)
decimal→digits acc (c ∷ cs) h =
    let rest = decimal→digits (10 * acc + (c - 48)) cs (ground arith) in
    let same : (10 * acc + (c - 48)) * 10 ^ length cs + decimal cs
        ≡ acc * 10 ^ length (c ∷ cs) + decimal (c ∷ cs) =
      omega (arith, next_digit acc (c - 48) (length cs)) in
    ground (arith, rest, same)

-- A text of digits, at least one, that denotes the number.
abbrev pub IsNumber : Bytes → ℕ → Type 0
IsNumber s n = (is_empty s ≡ false) × (all is_digit s ≡ true) × (n ≡ decimal s)

number_iff : (s : Bytes) (n : ℕ) → (number s ≡ some n) ↔ IsNumber s n
unfolding number
number_iff [] n = (λ h. cc, λ (e, d, v). cc)
number_iff (c ∷ cs) n = (
  λ h. let (d, v) = digits→decimal 0 (c ∷ cs) n h in (refl, d, omega arith),
  λ (e, d, v). decimal→digits 0 (c ∷ cs) d ∙ ap some (omega arith),
)

-- With a plus sign, if any.
abbrev pub IsUnsigned : Bytes → ℕ → Type 0
IsUnsigned s n = IsNumber s n ⊎ ((t : Bytes) × (s ≡ 43 ∷ t) × IsNumber t n)

unsigned→IsUnsigned : (s : Bytes) (n : ℕ) → unsigned s ≡ some n → IsUnsigned s n
unfolding unsigned
unsigned→IsUnsigned [] n h = cc
unsigned→IsUnsigned (c ∷ cs) n h = elim (Bool-cases (c == 43)) [
  | inl plus ↦
      inr (cs, ap (λ x. x ∷ cs) ((==_iff c 43).0 plus), (number_iff cs n).0 (ground (arith, plus)))
  | inr other ↦ inl ((number_iff (c ∷ cs) n).0 (ground (arith, other)))
]

IsUnsigned→unsigned : (s : Bytes) (n : ℕ) → IsUnsigned s n → unsigned s ≡ some n
unfolding unsigned
IsUnsigned→unsigned [] n (inl (e, d, v)) = cc
IsUnsigned→unsigned (c ∷ cs) n (inl h) =
    let digit : is_digit c ≡ true = ground (arith, h.1) in
    ground (arith, (number_iff (c ∷ cs) n).1 h)
IsUnsigned→unsigned s n (inr (t, e, h)) = rw e ((number_iff t n).1 h)

below_iff :
    (bound : ℕ) (r : Option ℕ) (n : ℕ) → (below bound r ≡ some n) ↔ ((r ≡ some n) × (n < bound))
unfolding below
below_iff bound none n = (λ h. cc, λ (e, s). cc)
below_iff bound (some m) n = (λ h. (ground arith, ground arith), λ (e, small). ground arith)

-- `parse::<usize>` reads the decimal numerals, with or without a plus sign, of numbers below 2^64.
pub parse_usize_iff :
    (s : Bytes) (n : ℕ) → (parse_usize s ≡ some n) ↔ (IsUnsigned s n × (n < 2 ^ 64))
unfolding parse_usize
parse_usize_iff s n = (
  λ h.
      let (read, small) = (below_iff (2 ^ 64) (unsigned s) n).0 h in
      (unsigned→IsUnsigned s n read, small),
  λ (u, small). (below_iff (2 ^ 64) (unsigned s) n).1 (IsUnsigned→unsigned s n u, small),
)

abbrev minus : ℕ → ℤ
minus zero = pos 0
minus (suc n) = negsuc n

-- A minus sign and digits, or a numeral without it; within the range of `i64`.
abbrev pub IsSigned : Bytes → ℤ → Type 0
IsSigned s z =
    ((t : Bytes) × (n : ℕ) × (s ≡ 45 ∷ t) × IsNumber t n × (n < 2 ^ 63 + 1) × (z ≡ minus n))
    ⊎ ((n : ℕ) × IsUnsigned s n × (n < 2 ^ 63) × (z ≡ pos n))

negative-eq-some :
    (r : Option ℕ) (z : ℤ) → negative r ≡ some z → (n : ℕ) × (r ≡ some n) × (z ≡ minus n)
unfolding negative
negative-eq-some none z h = cc
negative-eq-some (some zero) z h = (0, refl, sym (some-injective _ _ h))
negative-eq-some (some (suc n)) z h = (suc n, refl, sym (some-injective _ _ h))

some-negative : (n : ℕ) → negative (some n) ≡ some (minus n)
unfolding negative
some-negative zero = refl
some-negative (suc n) = refl

positive-eq-some :
    (r : Option ℕ) (z : ℤ) → positive r ≡ some z → (n : ℕ) × (r ≡ some n) × (z ≡ pos n)
unfolding positive
positive-eq-some none z h = cc
positive-eq-some (some n) z h = (n, refl, sym (some-injective _ _ h))

parse_i64→IsSigned : (s : Bytes) (z : ℤ) → parse_i64 s ≡ some z → IsSigned s z
unfolding parse_i64
parse_i64→IsSigned [] z h = cc
parse_i64→IsSigned (c ∷ cs) z h = elim (Bool-cases (c == 45)) [
  | inl dash ↦
      let (n, read, same) = negative-eq-some (below (2 ^ 63 + 1) (number cs)) z (rw dash at h) in
      let (parsed, small) = (below_iff (2 ^ 63 + 1) (number cs) n).0 read in
      inl (cs, n, ap (λ x. x ∷ cs) ((==_iff c 45).0 dash), (number_iff cs n).0 parsed, small, same)
  | inr other ↦
      let (n, read, same) =
        positive-eq-some (below (2 ^ 63) (unsigned (c ∷ cs))) z (rw other at h) in
      let (parsed, small) = (below_iff (2 ^ 63) (unsigned (c ∷ cs)) n).0 read in
      inr (n, unsigned→IsUnsigned (c ∷ cs) n parsed, small, same)
]

no_dash : (c : ℕ) (cs : Bytes) (n : ℕ) → IsUnsigned (c ∷ cs) n → (c == 45) ≡ false
no_dash c cs n (inl (e, d, v)) = ground (arith, d)
no_dash c cs n (inr (t, e, h)) = let same : c ≡ 43 = cc e in ground (arith, same)

IsSigned→parse_i64 : (s : Bytes) (z : ℤ) → IsSigned s z → parse_i64 s ≡ some z
unfolding parse_i64 positive unsigned
IsSigned→parse_i64 s z (inl (t, n, e, h, small, same)) =
    rw
      (
        e,
        (below_iff (2 ^ 63 + 1) (number t) n).1 ((number_iff t n).1 h, small),
        some-negative n,
        same,
      )
      refl
IsSigned→parse_i64 [] z (inr (n, u, small, same)) = absurd (cc (IsUnsigned→unsigned [] n u))
IsSigned→parse_i64 (c ∷ cs) z (inr (n, u, small, same)) =
    rw
      (
        no_dash c cs n u,
        (below_iff (2 ^ 63) (unsigned (c ∷ cs)) n).1 (IsUnsigned→unsigned (c ∷ cs) n u, small),
        same,
      )
      refl

-- `parse::<i64>` reads the decimal numerals, signed or not, of numbers from -2^63 to 2^63 - 1.
pub parse_i64_iff : (s : Bytes) (z : ℤ) → (parse_i64 s ≡ some z) ↔ IsSigned s z
parse_i64_iff s z = (parse_i64→IsSigned s z, IsSigned→parse_i64 s z)
