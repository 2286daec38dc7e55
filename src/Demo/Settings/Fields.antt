-- ===== src/Demo/Settings/Fields.antt =====
-- JSON pointers from field names.
use webproof_solana.Prelude.{
  ℕ, ◌≡◌, ◌≢◌, refl, arith, false, ◌==◌, any, if◌then◌else◌, [], ◌∷◌, map, Bytes, ◌++◌, ◌⊎◌, ◌↔◌,
  inl, inr, ap, codes, Pointwise, map_iff, Bool-cases,
}
use webproof_solana.Demo.Text.{split, replace, starts_with}
use webproof_solana.Demo.Settings.{normalize_field}

-- A text without a certain byte.
abbrev pub IsFree : ℕ → Bytes → Type 0
IsFree c s = any (λ x. x == c) s ≡ false

-- The replaced separator separates the same parts, if it was not there before.
split-replace :
    (from to : ℕ) (s : Bytes)
    → from ≢ to
    → IsFree to s
    → split to (replace from to s) ≡ split from s
unfolding split replace
split-replace from to [] apart free = refl
split-replace from to (x ∷ xs) apart free =
    let below : split to (map (λ c. if c == from then to else c) xs) ≡ split from xs =
      split-replace from to xs apart (ground arith) in
    ground (arith, below)

starts_free : (c : ℕ) (s : Bytes) → IsFree c s → starts_with c s ≡ false
unfolding starts_with
starts_free c [] free = refl
starts_free c (x ∷ xs) free = ground arith

-- A bare key without slashes becomes, once and for all, a JSON pointer: after the empty text before
-- its first slash, its segments are the dotted parts of the key.
pub normalize_field-segments :
    (field_name : Bytes)
    → IsFree 47 field_name
    → (split 47 (normalize_field field_name) ≡ [] ∷ split 46 field_name)
      × (normalize_field (normalize_field field_name) ≡ normalize_field field_name)
unfolding normalize_field starts_with split
normalize_field-segments field_name free = (
  ground (
    arith,
    starts_free 47 field_name free,
    split-replace 46 47 field_name (λ e. omega arith) free,
  ),
  ground arith,
)

-- The second character is the first, a full stop made a slash.
abbrev pub IsSlashOf : ℕ → ℕ → Type 0
IsSlashOf a b = ((a ≡ 46) × (b ≡ 47)) ⊎ ((a ≢ 46) × (b ≡ a))

-- A text that starts with a slash stands for itself, another one for a slash and the text with its
-- full stops made slashes.
abbrev pub IsPointer : Bytes → Bytes → Type 0
IsPointer s pointer =
    ((rest : Bytes) × (s ≡ codes "/" ++ rest) × (pointer ≡ s))
    ⊎ (((rest : Bytes) → s ≢ codes "/" ++ rest)
        × (rest : Bytes) × (pointer ≡ codes "/" ++ rest)
        × Pointwise IsSlashOf s rest)

slash_iff : (a b : ℕ) → ((if a == 46 then 47 else a) ≡ b) ↔ IsSlashOf a b
slash_iff a b = ground arith

-- The field that the code makes of a text is its pointer.
pub normalize_field-IsPointer : (s : Bytes) → IsPointer s (normalize_field s)
unfolding normalize_field starts_with replace
normalize_field-IsPointer [] = inr (λ rest e. ground (arith, ap (starts_with 47) e), [], refl, tt)
normalize_field-IsPointer (c ∷ cs) = elim (Bool-cases (c == 47)) [
  | inl slash ↦ inl (cs, ap (λ x. x ∷ cs) (ground arith), ground arith)
  | inr other ↦ inr (
    λ rest e. ground (arith, other, ap (starts_with 47) e),
    map (λ a. if a == 46 then 47 else a) (c ∷ cs),
    rw other refl,
    (map_iff IsSlashOf (λ a. if a == 46 then 47 else a) slash_iff (c ∷ cs) _).0 refl,
  )
]
