-- ===== src/Prelude/Outcome.antt =====
-- Rust's `Result`, its `?` operator as a bind, and the guard that `require!` and an early
-- `return Err(…)` stand for.
use mathlib.Core.Path.{◌≡◌, refl}
use mathlib.Core.Logic.{◌⊎◌, inl, inr}
use mathlib.Core.Bool.{Bool, true, false}
use mathlib.Core.Option.{Option, none, some}
use native.Mathlib.Omega.{arith}

pub data Result {ℓ} (E A : Type ℓ) : Type ℓ where
  err : E → Result E A
  ok : A → Result E A

-- `require!(test, e)`
abbrev pub require : {E : Type 0} → Bool → E → Result E (Unit {0})
require true e = ok tt
require false e = err e

-- `r?`, then the rest of the function.
infixl 5 ◌>>=◌
abbrev pub ◌>>=◌ {ℓ} : {E A B : Type ℓ} → Result E A → (A → Result E B) → Result E B
err failure >>= rest = err failure
ok value >>= rest = rest value

-- `o.ok_or(e)`
abbrev pub ok_or : {E A : Type 0} → Option A → E → Result E A
ok_or none e = err e
ok_or (some a) e = ok a

-- The same for a value that nothing uses.
infixl 5 ◌>>◌
abbrev pub ◌>>◌ : {E A : Type 0} → Result E (Unit {0}) → Result E A → Result E A
first >> second = first >>= λ done. second

-- `r.map_err(f)`
abbrev pub map_err : {E F A : Type 0} → (E → F) → Result E A → Result F A
map_err f (ok a) = ok a
map_err f (err e) = err (f e)

module _ {ℓ} {E A : Type ℓ} where
  pub Result-cases : (r : Result E A) → ((a : A) × (r ≡ ok a)) ⊎ ((e : E) × (r ≡ err e))
  Result-cases (ok a) = inl (a, refl)
  Result-cases (err e) = inr (e, refl)

-- A function that returns `ok` has passed each `?`.
pub passed :
    {E A B : Type 0} (m : Result E A) (rest : A → Result E B) {result : B}
    → m >>= rest ≡ ok result
    → (value : A) × (m ≡ ok value) × (rest value ≡ ok result)
passed (err failure) rest h = cc
passed (ok value) rest h = (value, refl, h)

pub ok_or-eq-ok : {E A : Type 0} (o : Option A) (e : E) {a : A} → ok_or o e ≡ ok a → o ≡ some a
ok_or-eq-ok none e h = cc
ok_or-eq-ok (some a) e h = ground arith

pub map_err-eq-ok :
    {E F A : Type 0} (f : E → F) (r : Result E A) {a : A} → map_err f r ≡ ok a → r ≡ ok a
map_err-eq-ok f (err e) h = cc
map_err-eq-ok f (ok a) h = ground arith

pub require-eq-ok : {E : Type 0} (test : Bool) (e : E) → require test e ≡ ok tt → test ≡ true
require-eq-ok false e h = cc
require-eq-ok true e h = refl

abbrev returned : {E A : Type 0} → A → Result E A
returned a = ok a

pub ok-injective : {E A : Type 0} {a b : A} → returned {E = E} a ≡ ok b → a ≡ b
ok-injective h = ground arith

-- A function that returns `err` has failed at a `?`, or behind it.
pub failed :
    {E A B : Type 0} (m : Result E A) (rest : A → Result E B) {e : E}
    → m >>= rest ≡ err e
    → (m ≡ err e) ⊎ ((value : A) × (m ≡ ok value) × (rest value ≡ err e))
failed (err e) rest h = inl (ground arith)
failed (ok value) rest h = inr (value, refl, h)

pub ok_or-eq-err :
    {E A : Type 0} (o : Option A) (e : E) {f : E} → ok_or o e ≡ err f → (o ≡ none) × (e ≡ f)
ok_or-eq-err none e h = (refl, ground arith)
ok_or-eq-err (some a) e h = cc

pub map_err-eq-err :
    {E F A : Type 0} (f : E → F) (r : Result E A) {g : F}
    → map_err f r ≡ err g
    → (e : E) × (r ≡ err e) × (f e ≡ g)
map_err-eq-err f (err e) h = (e, refl, ground arith)
map_err-eq-err f (ok a) h = cc

pub require-eq-err :
    {E : Type 0} (test : Bool) (e : E) {f : E} → require test e ≡ err f → (test ≡ false) × (e ≡ f)
require-eq-err false e h = (refl, ground arith)
require-eq-err true e h = cc
