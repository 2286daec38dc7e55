-- ===== src/Tlsn/Present/Secrets.antt =====
-- The headers whose values present.rs keeps back.
use webproof_solana.Prelude.{
  ℕ, ◌+◌, ◌≤◌, ◌≡◌, ◌⊎◌, ◌↔◌, inl, inr, sym, arith, Bool-cases, true, Bytes, codes, bytes_eq,
  bytes_eq_iff, Pointwise, map_iff, ◌&&◌, leb, if◌then◌else◌,
}
use webproof_solana.Tlsn.Present.{to_ascii_lowercase, is_secret}

-- The second character is the first, an upper case letter of ASCII made a lower case one.
abbrev pub IsLowerOf : ℕ → ℕ → Type 0
IsLowerOf a b = ((65 ≤ a) × (a ≤ 90) × (b ≡ a + 32)) ⊎ ((¬ ((65 ≤ a) × (a ≤ 90))) × (b ≡ a))

lower_iff : (a b : ℕ) → ((if leb 65 a && leb a 90 then a + 32 else a) ≡ b) ↔ IsLowerOf a b
lower_iff a b = ground arith

pub to_ascii_lowercase_iff : (s t : Bytes) → (to_ascii_lowercase s ≡ t) ↔ Pointwise IsLowerOf s t
unfolding to_ascii_lowercase
to_ascii_lowercase_iff s t =
    map_iff IsLowerOf (λ a. if leb 65 a && leb a 90 then a + 32 else a) lower_iff s t

-- `authorization`, `cookie` or `proxy-authorization`, in any case.
abbrev pub IsSecretName : Bytes → Type 0
IsSecretName name =
    Pointwise IsLowerOf name (codes "authorization")
    ⊎ (Pointwise IsLowerOf name (codes "cookie")
        ⊎ Pointwise IsLowerOf name (codes "proxy-authorization"))

is_secret→IsSecretName : (name : Bytes) → is_secret name ≡ true → IsSecretName name
unfolding is_secret
is_secret→IsSecretName name h =
    let spelled = λ (t : Bytes) (e : bytes_eq t (to_ascii_lowercase name) ≡ true).
      (to_ascii_lowercase_iff name t).0 (sym ((bytes_eq_iff t (to_ascii_lowercase name)).0 e)) in
    elim (Bool-cases (bytes_eq (codes "authorization") (to_ascii_lowercase name))) [
      | inl e ↦ inl (spelled (codes "authorization") e)
      | inr f ↦ elim (Bool-cases (bytes_eq (codes "cookie") (to_ascii_lowercase name))) [
        | inl e ↦ inr (inl (spelled (codes "cookie") e))
        | inr g ↦ inr (inr (spelled (codes "proxy-authorization") (ground (arith, h, f, g))))
      ]
    ]

IsSecretName→is_secret : (name : Bytes) → IsSecretName name → is_secret name ≡ true
unfolding is_secret
IsSecretName→is_secret name s =
    let same = λ (t : Bytes) (p : Pointwise IsLowerOf name t).
      (bytes_eq_iff t (to_ascii_lowercase name)).1 (sym ((to_ascii_lowercase_iff name t).1 p)) in
    elim s [
      | inl p ↦ ground (arith, same (codes "authorization") p)
      | inr (inl p) ↦ ground (arith, same (codes "cookie") p)
      | inr (inr p) ↦ ground (arith, same (codes "proxy-authorization") p)
    ]

-- The code's test tells the three names, in any case.
pub is_secret_iff : (name : Bytes) → (is_secret name ≡ true) ↔ IsSecretName name
is_secret_iff name = (is_secret→IsSecretName name, IsSecretName→is_secret name)
