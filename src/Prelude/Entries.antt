-- ===== src/Prelude/Entries.antt =====
-- Lists of numbers whose entries are related one by one.
use Prim.Native.Nat.{ℕ}
use mathlib.Core.Path.{◌≡◌, refl, ap₂, subst}
use mathlib.Core.Logic.{◌↔◌}
use mathlib.Core.List.{List, [], ◌∷◌, map}

abbrev pub Pointwise : (ℕ → ℕ → Type 0) → List ℕ → List ℕ → Type 0
Pointwise R [] [] = Unit {0}
Pointwise R [] (y ∷ ys) = ⊥
Pointwise R (x ∷ xs) [] = ⊥
Pointwise R (x ∷ xs) (y ∷ ys) = R x y × Pointwise R xs ys

module _ (R : ℕ → ℕ → Type 0) (f : ℕ → ℕ) (graph : (x y : ℕ) → (f x ≡ y) ↔ R x y) where
  Pointwise→map : (xs ys : List ℕ) → Pointwise R xs ys → map f xs ≡ ys
  Pointwise→map [] [] h = refl
  Pointwise→map [] (y ∷ ys) h = absurd h
  Pointwise→map (x ∷ xs) [] h = absurd h
  Pointwise→map (x ∷ xs) (y ∷ ys) (h, rest) =
      ap₂ (λ a b. a ∷ b) ((graph x y).1 h) (Pointwise→map xs ys rest)

  map-Pointwise : (xs : List ℕ) → Pointwise R xs (map f xs)
  map-Pointwise [] = tt
  map-Pointwise (x ∷ xs) = ((graph x (f x)).0 refl, map-Pointwise xs)

  -- A function's graph, entry by entry, is the graph of its map.
  pub map_iff : (xs ys : List ℕ) → (map f xs ≡ ys) ↔ Pointwise R xs ys
  map_iff xs ys = (λ e. subst (Pointwise R xs) e (map-Pointwise xs), Pointwise→map xs ys)
