-- ===== src/Tlsn/Present/Open.antt =====
-- Which positions of a request present.rs leaves open.
use webproof_solana.Prelude.{
  ℕ, inl, inr, ◌⊎◌, ◌≡◌, refl, arith, ◌||◌, Bool, true, false, List, Memᴰ, any, subst, sym,
  Bool-cases, ◌↔◌, any→member, member→any,
}
use webproof_solana.Tlsn.{RangeSets}
use webproof_solana.Tlsn.Present.Secrets.{IsSecretName, is_secret_iff}
use webproof_solana.Tlsn.Present.{Header, HttpRequest, is_secret, disclosed_part}

module _ (ranges : RangeSets) where
  -- Whether a header's disclosed part has a position.
  abbrev pub in_headers : ℕ → List (Header ranges) → Bool
  in_headers i headers = any (λ header. ranges.member i (disclosed_part ranges header)) headers

  -- Whether a position is sent in the open: one of the structure or of the target, of the whole of an
  -- ordinary header, or of a secret header without its value.
  abbrev pub IsOpen : HttpRequest ranges → ℕ → Type 0
  IsOpen request i =
      (ranges.member i request.without_data ≡ true)
      ⊎ ((ranges.member i request.target ≡ true)
          ⊎ ((header : Header ranges) × Memᴰ header request.headers
              × (((¬ IsSecretName header.name) × (ranges.member i header.indices ≡ true))
                  ⊎ (IsSecretName header.name × (ranges.member i header.without_value ≡ true)))))

  -- No two parts of a request share a position, and a header without its value is a part of it.
  pub record IsSeparate (request : HttpRequest ranges) : Type 0 where
    pub within :
        (header : Header ranges) (i : ℕ)
        → Memᴰ header request.headers
        → ranges.member i header.without_value ≡ true
        → ranges.member i header.indices ≡ true
    pub apart_structure :
        (header : Header ranges) (i : ℕ)
        → Memᴰ header request.headers
        → ranges.member i header.indices ≡ true
        → ranges.member i request.without_data ≡ false
    pub apart_target :
        (header : Header ranges) (i : ℕ)
        → Memᴰ header request.headers
        → ranges.member i header.indices ≡ true
        → ranges.member i request.target ≡ false
    pub apart_headers :
        (header other : Header ranges) (i : ℕ)
        → Memᴰ header request.headers
        → Memᴰ other request.headers
        → ranges.member i header.indices ≡ true
        → ranges.member i other.indices ≡ true
        → other ≡ header

  disclosed_iff :
      (header : Header ranges) (i : ℕ)
      → (ranges.member i (disclosed_part ranges header) ≡ true) ↔ (
          ((¬ IsSecretName header.name) × (ranges.member i header.indices ≡ true))
          ⊎ (IsSecretName header.name × (ranges.member i header.without_value ≡ true)))
  unfolding disclosed_part
  disclosed_iff header i = elim (Bool-cases (is_secret header.name)) [
    | inl secret ↦ (
      λ h. inr ((is_secret_iff header.name).0 secret, rw secret at h),
      λ o. elim o [
        | inl (plain, m) ↦ absurd (plain ((is_secret_iff header.name).0 secret))
        | inr (_, m) ↦ rw secret m
      ],
    )
    | inr plain ↦ (
      λ h. inl (λ t. ground (arith, plain, (is_secret_iff header.name).1 t), rw plain at h),
      λ o. elim o [
        | inl (_, m) ↦ rw plain m
        | inr (t, m) ↦ absurd (ground (arith, plain, (is_secret_iff header.name).1 t))
      ],
    )
  ]

  pub IsOpen-iff :
      (request : HttpRequest ranges) (i : ℕ)
      → ((ranges.member i request.without_data
            || (ranges.member i request.target || in_headers i request.headers))
          ≡ true)
        ↔ IsOpen request i
  IsOpen-iff request i = (
    λ h. elim (Bool-cases (ranges.member i request.without_data)) [
      | inl e ↦ inl e
      | inr f ↦ elim (Bool-cases (ranges.member i request.target)) [
        | inl e ↦ inr (inl e)
        | inr g ↦
            let (header, m, e) =
              any→member (λ header. ranges.member i (disclosed_part ranges header)) request.headers
                (ground (arith, h, f, g)) in
            inr (inr (header, m, (disclosed_iff header i).0 e))
      ]
    ],
    λ o. elim o [
      | inl e ↦ rw e refl
      | inr (inl e) ↦ ground arith
      | inr (inr (header, m, e)) ↦
          let shown =
            member→any (λ header. ranges.member i (disclosed_part ranges header)) request.headers
              header m ((disclosed_iff header i).1 e) in
          ground (arith, shown)
    ],
  )

  pub value_hidden :
      (request : HttpRequest ranges) (header : Header ranges) (i : ℕ)
      → IsSeparate request
      → Memᴰ header request.headers
      → IsSecretName header.name
      → ranges.member i header.indices ≡ true
      → ranges.member i header.without_value ≡ false
      → ¬ IsOpen request i
  value_hidden request header i separate m secret within hidden o =
      let part =
        λ (other : Header ranges) (n : Memᴰ other request.headers)
            (shown : ranges.member i other.indices ≡ true).
          separate.apart_headers header other i m n within shown in
      elim o [
        | inl e ↦ ground (arith, e, separate.apart_structure header i m within)
        | inr (inl e) ↦ ground (arith, e, separate.apart_target header i m within)
        | inr (inr (other, n, inl (plain, shown))) ↦
            plain (subst (λ h. IsSecretName h.name) (sym (part other n shown)) secret)
        | inr (inr (other, n, inr (_, shown))) ↦
            let same = part other n (separate.within other i n shown) in
            ground (arith, hidden, rw same at shown)
      ]
