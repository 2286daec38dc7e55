-- ===== src/Prelude/Members.antt =====
-- Membership of byte strings, as the library has it, decided by the test that the code runs.
use mathlib.Core.Path.{◌≡◌, refl, sym}
use mathlib.Core.Logic.{◌↔◌, inl, inr}
use mathlib.Core.Bool.{Bool, true}
use mathlib.Core.List.{List, [], ◌∷◌, Memᴰ}
use native.Mathlib.Omega.{arith}
use webproof_solana.Prelude.Tests.{Bool-cases}
use webproof_solana.Prelude.Lists.{any}
use webproof_solana.Prelude.ByteStrings.{Bytes, bytes_eq, bytes_eq_iff, bytes_eq_refl}

any→Memᴰ : (a : Bytes) (l : List Bytes) → any (λ x. bytes_eq x a) l ≡ true → Memᴰ a l
any→Memᴰ a [] h = cc
any→Memᴰ a (x ∷ xs) h = elim (Bool-cases (bytes_eq x a)) [
  | inl same ↦ Memᴰ.head (sym ((bytes_eq_iff x a).0 same))
  | inr other ↦ Memᴰ.tail (any→Memᴰ a xs (ground arith))
]

Memᴰ→any : (a : Bytes) (l : List Bytes) → Memᴰ a l → any (λ x. bytes_eq x a) l ≡ true
Memᴰ→any a [] m = elim m [ ]
Memᴰ→any a (x ∷ xs) (Memᴰ.head e) = rw (e, bytes_eq_refl x) refl
Memᴰ→any a (x ∷ xs) (Memᴰ.tail m) = ground (arith, Memᴰ→any a xs m)

pub any-bytes_eq_iff : (a : Bytes) (l : List Bytes) → (any (λ x. bytes_eq x a) l ≡ true) ↔ Memᴰ a l
any-bytes_eq_iff a l = (any→Memᴰ a l, Memᴰ→any a l)

-- A test that holds of some member.
pub any→member {ℓ} :
    {A : Type ℓ} (test : A → Bool) (l : List A)
    → any test l ≡ true
    → (a : A) × Memᴰ a l × (test a ≡ true)
any→member test [] h = cc
any→member test (x ∷ xs) h = elim (Bool-cases (test x)) [
  | inl holds ↦ (x, Memᴰ.head refl, holds)
  | inr fails ↦ let (a, m, e) = any→member test xs (rw fails at h) in (a, Memᴰ.tail m, e)
]

pub member-singleton {ℓ} : {A : Type ℓ} (a b : A) → Memᴰ a (b ∷ []) → a ≡ b
member-singleton a b (Memᴰ.head e) = e
member-singleton a b (Memᴰ.tail m) = elim m [ ]

pub member→any {ℓ} :
    {A : Type ℓ} (test : A → Bool) (l : List A) (a : A)
    → Memᴰ a l
    → test a ≡ true
    → any test l ≡ true
member→any test [] a m h = elim m [ ]
member→any test (x ∷ xs) a (Memᴰ.head e) h = rw (← e, h) refl
member→any test (x ∷ xs) a (Memᴰ.tail m) h = ground (arith, member→any test xs a m h)
