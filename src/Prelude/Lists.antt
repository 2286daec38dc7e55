-- ===== src/Prelude/Lists.antt =====
-- Lists measured, cut and indexed by native numbers, under the library's names.
use Prim.Native.Nat.{ℕ, zero, suc, ◌+◌, ◌-◌, ◌≤◌}
use mathlib.Core.Path.{◌≡◌, refl, sym, ap, ◌∙◌}
use mathlib.Core.Bool.{Bool, true, false, ◌&&◌, ◌||◌}
use mathlib.Core.List.{List, [], ◌∷◌, ◌++◌}
use mathlib.Core.Option.{Option, none, some, some-injective}
use native.Mathlib.Omega.{arith}
use webproof_solana.Prelude.Tests.{leb, if◌then◌else◌}

module _ {ℓ} {A : Type ℓ} where
  abbrev pub length : List A → ℕ
  length [] = 0
  length (x ∷ xs) = suc (length xs)

  abbrev pub is_empty : List A → Bool
  is_empty [] = true
  is_empty (x ∷ xs) = false

  abbrev pub get_elem? : List A → ℕ → Option A
  get_elem? [] i = none
  get_elem? (x ∷ xs) zero = some x
  get_elem? (x ∷ xs) (suc i) = get_elem? xs i

  abbrev pub take : ℕ → List A → List A
  take zero xs = []
  take (suc n) [] = []
  take (suc n) (x ∷ xs) = x ∷ take n xs

  abbrev pub drop : ℕ → List A → List A
  drop zero xs = xs
  drop (suc n) [] = []
  drop (suc n) (x ∷ xs) = drop n xs

  abbrev pub replicate : ℕ → A → List A
  replicate zero a = []
  replicate (suc n) a = a ∷ replicate n a

  -- `xs.iter().any(test)`
  abbrev pub any : (A → Bool) → List A → Bool
  any test [] = false
  any test (x ∷ xs) = test x || any test xs

  -- `xs.iter().all(test)`
  abbrev pub all : (A → Bool) → List A → Bool
  all test [] = true
  all test (x ∷ xs) = test x && all test xs

  -- `xs.iter().filter(test)`
  abbrev pub filter : (A → Bool) → List A → List A
  filter test [] = []
  filter test (x ∷ xs) = let rest = filter test xs in if test x then x ∷ rest else rest

  pub length-append : (xs ys : List A) → length (xs ++ ys) ≡ length xs + length ys
  length-append [] ys = omega arith
  length-append (x ∷ xs) ys = omega (arith, length-append xs ys)

  pub take-append : (xs ys : List A) → take (length xs) (xs ++ ys) ≡ xs
  take-append [] ys = refl
  take-append (x ∷ xs) ys = ap (λ l. x ∷ l) (take-append xs ys)

  pub drop-append : (xs ys : List A) → drop (length xs) (xs ++ ys) ≡ ys
  drop-append [] ys = refl
  drop-append (x ∷ xs) ys = drop-append xs ys

  pub take-append-drop : (n : ℕ) (xs : List A) → take n xs ++ drop n xs ≡ xs
  take-append-drop zero xs = refl
  take-append-drop (suc n) [] = refl
  take-append-drop (suc n) (x ∷ xs) = ap (λ l. x ∷ l) (take-append-drop n xs)

  pub length-take_le : (n : ℕ) (xs : List A) → n ≤ length xs → length (take n xs) ≡ n
  length-take_le zero xs h = refl
  length-take_le (suc n) [] h = absurd (omega arith)
  length-take_le (suc n) (x ∷ xs) h = ap suc (length-take_le n xs (omega arith))

  pub length-drop : (n : ℕ) (xs : List A) → length (drop n xs) ≡ length xs - n
  length-drop zero xs = omega arith
  length-drop (suc n) [] = omega arith
  length-drop (suc n) (x ∷ xs) = omega (arith, length-drop n xs)

  pub length-replicate : (n : ℕ) (a : A) → length (replicate n a) ≡ n
  length-replicate zero a = refl
  length-replicate (suc n) a = ap suc (length-replicate n a)

  abbrev pub All {κ} : (A → Type κ) → List A → Type κ
  All P [] = Unit {κ}
  All P (x ∷ xs) = P x × All P xs

module _ {A : Type 0} where
  -- `xs.get(lo..hi)`: the slice, if it lies within the bounds.
  unfoldable pub get_range : List A → ℕ → ℕ → Option (List A)
  get_range xs lo hi =
      if leb lo hi && leb hi (length xs) then some (take (hi - lo) (drop lo xs)) else none

  pub length-get_range :
      (xs : List A) (lo hi : ℕ) {s : List A} → get_range xs lo hi ≡ some s → lo + length s ≡ hi
  unfolding get_range
  length-get_range xs lo hi h =
      ground (arith, length-take_le (hi - lo) (drop lo xs), length-drop lo xs)

  pub get_range-bounds :
      (xs : List A) (lo hi : ℕ) {s : List A} → get_range xs lo hi ≡ some s → hi ≤ length xs
  unfolding get_range
  get_range-bounds xs lo hi h = ground arith

  -- A slice that is in range is there.
  pub get_range_total :
      (xs : List A) (lo hi : ℕ)
      → lo ≤ hi
      → hi ≤ length xs
      → get_range xs lo hi ≡ some (take (hi - lo) (drop lo xs))
  unfolding get_range
  get_range_total xs lo hi p q = ground arith

  -- The part between a prefix and a suffix is the slice at its bounds.
  pub get_range-append :
      (front part back : List A)
      → get_range (front ++ (part ++ back)) (length front) (length front + length part) ≡ some part
  unfolding get_range
  get_range-append front part back = ground (
    arith,
    length-append front (part ++ back),
    length-append part back,
    drop-append front (part ++ back),
    take-append part back,
    minus (length front) (length part),
  )
    where
      minus : (a b : ℕ) → a + b - a ≡ b
      minus a b = omega arith

  -- `part` stands in `xs` at the offset `at`.
  abbrev pub SliceAt : List A → ℕ → List A → Type 0
  SliceAt xs at part =
      (front : List A) × (back : List A) × (xs ≡ front ++ (part ++ back)) × (length front ≡ at)

  pub get_range→SliceAt :
      (xs : List A) (lo hi : ℕ) {s : List A} → get_range xs lo hi ≡ some s → SliceAt xs lo s
  unfolding get_range
  get_range→SliceAt xs lo hi h = (
    take lo xs,
    drop (hi - lo) (drop lo xs),
    ground (arith, take-append-drop lo xs, take-append-drop (hi - lo) (drop lo xs)),
    ground (arith, length-take_le lo xs),
  )

  pub SliceAt→get_range :
      (xs : List A) (lo : ℕ) (s : List A)
      → SliceAt xs lo s
      → get_range xs lo (lo + length s) ≡ some s
  SliceAt→get_range xs lo s (front, back, e, n) = rw (e, ← n) (get_range-append front s back)

  -- Two slices of one length at one offset are equal.
  pub SliceAt-unique :
      (xs : List A) (lo : ℕ) (s t : List A)
      → length s ≡ length t
      → SliceAt xs lo s
      → SliceAt xs lo t
      → s ≡ t
  SliceAt-unique xs lo s t e p q =
      let from_s = SliceAt→get_range xs lo s p in
      let from_t = SliceAt→get_range xs lo t q in some-injective s t (sym from_s ∙ rw e from_t)
