-- ===== src/Demo/Text/Trimmed.antt =====
-- `trim` on texts without white space.
use webproof_solana.Prelude.{
  ℕ, ◌≡◌, ◌≤◌, ◌<◌, refl, arith, Bool, true, ◌&&◌, leb, ltb, [], ◌∷◌, ◌++◌, all, Bytes,
}
use mathlib.Core.List.{reverse, reverse-cons, reverse-reverse}
use webproof_solana.Demo.Text.{white_size, white_size_end, skip, trim}

-- A visible character of ASCII.
abbrev pub IsVisible : ℕ → Type 0
IsVisible c = (33 ≤ c) × (c < 128)

visible-white_size : (c : ℕ) (rest : Bytes) → IsVisible c → white_size (c ∷ rest) ≡ 0
unfolding white_size
visible-white_size c [] v = ground arith
visible-white_size c (x ∷ []) v = ground arith
visible-white_size c (x ∷ y ∷ rest) v = ground arith

visible-white_size_end : (c : ℕ) (rest : Bytes) → IsVisible c → white_size_end (c ∷ rest) ≡ 0
unfolding white_size_end
visible-white_size_end c [] v = ground arith
visible-white_size_end c (x ∷ []) v = ground arith
visible-white_size_end c (x ∷ y ∷ rest) v = ground arith

abbrev pub is_visible : ℕ → Bool
is_visible c = leb 33 c && ltb c 128

visible→IsVisible : (c : ℕ) → is_visible c ≡ true → IsVisible c
visible→IsVisible c h = ground arith

all-append :
    (test : ℕ → Bool) (a b : Bytes)
    → all test a ≡ true
    → all test b ≡ true
    → all test (a ++ b) ≡ true
all-append test [] b ha hb = hb
all-append test (x ∷ xs) b ha hb = ground (arith, all-append test xs b)

all-reverse : (test : ℕ → Bool) (a : Bytes) → all test a ≡ true → all test (reverse a) ≡ true
all-reverse test [] h = h
all-reverse test (x ∷ xs) h =
    rw (reverse-cons x xs)
      (all-append test (reverse xs) (x ∷ []) (all-reverse test xs (ground arith)) (ground arith))

skip-visible : (s : Bytes) → all is_visible s ≡ true → skip white_size 0 s ≡ s
unfolding skip
skip-visible [] h = refl
skip-visible (x ∷ xs) h =
    ground (arith, visible-white_size x xs (visible→IsVisible x (ground arith)))

skip_end-visible : (s : Bytes) → all is_visible s ≡ true → skip white_size_end 0 s ≡ s
unfolding skip
skip_end-visible [] h = refl
skip_end-visible (x ∷ xs) h =
    ground (arith, visible-white_size_end x xs (visible→IsVisible x (ground arith)))

-- Trimming leaves a text of visible ASCII characters as it is.
pub trim-visible : (s : Bytes) → all is_visible s ≡ true → trim s ≡ s
unfolding trim
trim-visible s h =
    rw (skip-visible s h, skip_end-visible (reverse s) (all-reverse is_visible s h))
      (reverse-reverse s)

pub all-weaken :
    (test test' : ℕ → Bool) (s : Bytes)
    → ((c : ℕ) → test c ≡ true → test' c ≡ true)
    → all test s ≡ true
    → all test' s ≡ true
all-weaken test test' [] weaker h = refl
all-weaken test test' (x ∷ xs) weaker h = ground (arith, weaker x, all-weaken test test' xs weaker)
