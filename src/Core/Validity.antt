-- ===== src/Core/Validity.antt =====
-- What `ClaimV1::validate` of crates/webproof-core/src/lib.rs accepts, in exact integer arithmetic.
use webproof_solana.Prelude.{
  ℕ, ◌<◌, ◌≤◌, ◌≡◌, ◌≢◌, arith, ◌⊎◌, ◌↔◌, String, [], ◌∷◌, Bytes, length as len, ℤ, pos, IsI64,
  i64_max, ◌+ℤ◌, ◌-ℤ◌, ◌≤ℤ◌, ◌<ℤ◌, saturating_add, saturating_sub, ltb_ℤ, Result, ok, err, ◌>>◌,
  true, false, ◌∙◌, refl, is_empty, ◌||◌, ltb, leb_ℤ,
}
use webproof_solana.Core.{
  ClaimV1, ClaimError, version, length, time_window, expired, future, too_old, bounded, reject_if,
  validate,
}

-- Within the bounds of a field: not empty, and at most `max` bytes.
abbrev pub IsBounded : Bytes → ℕ → Type 0
IsBounded value max = (1 ≤ len value) × (len value ≤ max)

-- The documented conditions, in integers that do not saturate.
pub record IsValid (c : ClaimV1) (now max_age : ℤ) : Type 0 where
  pub version : c.version ≡ 1
  pub source_host : IsBounded c.source_host 128
  pub claim_key : IsBounded c.claim_key 128
  pub claim_value : IsBounded c.claim_value 256
  pub window : c.issued_at <ℤ c.expires_at
  pub unexpired : now ≤ℤ c.expires_at
  pub not_future : c.issued_at ≤ℤ now +ℤ pos 30
  pub young : now -ℤ c.issued_at ≤ℤ max_age

module _ (a : ℤ) where
  skew_exact :
      (now : ℤ)
      → IsI64 a
      → IsI64 now
      → ltb_ℤ (saturating_add now (pos 30)) a ≡ ltb_ℤ (now +ℤ pos 30) a
  unfolding saturating_add
  skew_exact now ha hn = ground arith

  age_exact :
      (now max_age : ℤ)
      → IsI64 a
      → IsI64 now
      → IsI64 max_age
      → max_age <ℤ i64_max
      → ltb_ℤ max_age (saturating_sub now a) ≡ ltb_ℤ max_age (now -ℤ a)
  unfolding saturating_sub
  age_exact now max_age ha hn hm h = ground arith

pub bounded-eq-ok :
    (value : Bytes) (max : ℕ) (name : String)
    → (bounded value max name ≡ ok tt) ↔ IsBounded value max
unfolding bounded
bounded-eq-ok [] max name = (λ h. cc, λ h. absurd (omega arith))
bounded-eq-ok (x ∷ xs) max name = (λ h. ground arith, λ h. ground arith)

module _ (c : ClaimV1) (now max_age : ℤ) (typed : IsI64 c.issued_at) (now_typed : IsI64 now)
    (age_typed : IsI64 max_age) (finite : max_age <ℤ i64_max) where
  validate→IsValid : validate c now max_age ≡ ok tt → IsValid c now max_age
  unfolding validate
  validate→IsValid h = ground (
    arith,
    skew_exact c.issued_at now,
    age_exact c.issued_at now max_age,
    (bounded-eq-ok c.source_host 128 "source_host").0,
    (bounded-eq-ok c.claim_key 128 "claim_key").0,
    (bounded-eq-ok c.claim_value 256 "claim_value").0,
  )

  IsValid→validate : IsValid c now max_age → validate c now max_age ≡ ok tt
  unfolding validate
  IsValid→validate v = ground (
    arith,
    skew_exact c.issued_at now,
    age_exact c.issued_at now max_age,
    (bounded-eq-ok c.source_host 128 "source_host").1,
    (bounded-eq-ok c.claim_key 128 "claim_key").1,
    (bounded-eq-ok c.claim_value 256 "claim_value").1,
  )

abbrev pub IsOutside : Bytes → ℕ → Type 0
IsOutside value max = (len value ≡ 0) ⊎ (max < len value)

-- What an error of `validate` says: its own check fails, and the checks before it pass.
module _ (c : ClaimV1) (now max_age : ℤ) where
  abbrev pub IsMeasured : Type 0
  IsMeasured =
      (c.version ≡ 1)
      × IsBounded c.source_host 128
      × IsBounded c.claim_key 128
      × IsBounded c.claim_value 256

  abbrev pub FirstFailure : ClaimError → Type 0
  FirstFailure version = c.version ≢ 1
  FirstFailure (length name) =
      (c.version ≡ 1)
      × (((name ≡ "source_host") × IsOutside c.source_host 128)
          ⊎ ((name ≡ "claim_key") × IsBounded c.source_host 128 × IsOutside c.claim_key 128)
          ⊎ ((name ≡ "claim_value")
              × IsBounded c.source_host 128
              × IsBounded c.claim_key 128
              × IsOutside c.claim_value 256))
  FirstFailure time_window = IsMeasured × (c.expires_at ≤ℤ c.issued_at)
  FirstFailure expired = IsMeasured × (c.issued_at <ℤ c.expires_at) × (c.expires_at <ℤ now)
  FirstFailure future =
      IsMeasured
      × (c.issued_at <ℤ c.expires_at)
      × (now ≤ℤ c.expires_at)
      × (now +ℤ pos 30 <ℤ c.issued_at)
  FirstFailure too_old =
      IsMeasured
      × (c.issued_at <ℤ c.expires_at)
      × (now ≤ℤ c.expires_at)
      × (c.issued_at ≤ℤ now +ℤ pos 30)
      × (max_age <ℤ now -ℤ c.issued_at)

outside_test :
    (value : Bytes) (max : ℕ) → IsOutside value max → (is_empty value || ltb max (len value)) ≡ true
outside_test [] max h = refl
outside_test (x ∷ xs) max h = ground arith

pub inside_test :
    (value : Bytes) (max : ℕ)
    → IsBounded value max
    → (is_empty value || ltb max (len value)) ≡ false
inside_test [] max h = absurd (omega arith)
inside_test (x ∷ xs) max h = ground arith

-- The checks of time, which come after those of the fields.
unfoldable pub validate_times : ClaimV1 → ℤ → ℤ → Result ClaimError (Unit {0})
validate_times c now max_age = do
  reject_if (leb_ℤ c.expires_at c.issued_at) time_window
  reject_if (ltb_ℤ c.expires_at now) expired
  reject_if (ltb_ℤ (saturating_add now (pos 30)) c.issued_at) future
  reject_if (ltb_ℤ max_age (saturating_sub now c.issued_at)) too_old
  ok tt

pub validate_measured :
    (c : ClaimV1) (now max_age : ℤ)
    → IsMeasured c now max_age
    → validate c now max_age ≡ validate_times c now max_age
unfolding validate validate_times
validate_measured c now max_age h =
    rw
      (
        inside_test c.source_host 128 h.1,
        inside_test c.claim_key 128 h.2,
        inside_test c.claim_value 256 h.3,
      )
      (ground arith)

module _ (c : ClaimV1) (now max_age : ℤ) (typed : IsI64 c.issued_at) (now_typed : IsI64 now)
    (age_typed : IsI64 max_age) (finite : max_age <ℤ i64_max) where
  validate→FirstFailure :
      (e : ClaimError) → validate c now max_age ≡ err e → FirstFailure c now max_age e
  unfolding validate
  validate→FirstFailure version h = ground arith
  validate→FirstFailure (length name) h = ground arith
  validate→FirstFailure time_window h = ground arith
  validate→FirstFailure expired h = ground arith
  validate→FirstFailure future h = ground (arith, skew_exact c.issued_at now)
  validate→FirstFailure too_old h =
      ground (arith, skew_exact c.issued_at now, age_exact c.issued_at now max_age)

  FirstFailure→validate :
      (e : ClaimError) → FirstFailure c now max_age e → validate c now max_age ≡ err e
  unfolding validate validate_times
  FirstFailure→validate version h = ground arith
  FirstFailure→validate (length name) h = ground (
    arith,
    outside_test c.source_host 128,
    inside_test c.source_host 128,
    outside_test c.claim_key 128,
    inside_test c.claim_key 128,
    outside_test c.claim_value 256,
  )
  FirstFailure→validate time_window h = validate_measured c now max_age h.0 ∙ ground arith
  FirstFailure→validate expired h = validate_measured c now max_age h.0 ∙ ground arith
  FirstFailure→validate future h =
      validate_measured c now max_age h.0 ∙ ground (arith, skew_exact c.issued_at now)
  FirstFailure→validate too_old h =
      validate_measured c now max_age h.0
      ∙ ground (arith, skew_exact c.issued_at now, age_exact c.issued_at now max_age)

  -- For `i64` times and a maximum age below the largest `i64`, a claim is accepted exactly if its
  -- version is 1, its three texts are within their bounds, its window is not empty, it has not
  -- expired, it is issued at most 30 seconds ahead of `now` and it is at most `max_age` old; the
  -- sum and the difference are those of the integers, so saturation never changes the answer.
  pub validate_iff : (validate c now max_age ≡ ok tt) ↔ IsValid c now max_age
  validate_iff = (
    validate→IsValid c now max_age typed now_typed age_typed finite,
    IsValid→validate c now max_age typed now_typed age_typed finite,
  )

  -- For the same arguments, `validate` answers an error exactly if the check that the error names
  -- fails (for a length, that of the field it names) and all the checks before it pass.
  pub validate-err_iff :
      (e : ClaimError) → (validate c now max_age ≡ err e) ↔ FirstFailure c now max_age e
  validate-err_iff e = (validate→FirstFailure e, FirstFailure→validate e)
