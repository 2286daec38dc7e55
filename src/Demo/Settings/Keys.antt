-- ===== src/Demo/Settings/Keys.antt =====
-- The keys that lib.rs of the demo makes of the environment.
use webproof_solana.Prelude.{
  ℕ, Bool-cases, ◌==◌, ◌∷◌, ap, ◌∙◌, ◌≡◌, ◌↔◌, ◌⊎◌, inl, inr, refl, sym, arith, ◌++◌, [],
  Option-cases, none, replicate, ok_or, ◌≢◌, ◌≤◌, All, all, codes, true, false, some, ◌&&◌,
  ok_or-eq-ok, append-nil, length, take, drop, take-append-drop, take-append, length-append, Bytes,
  ok, passed, length-take_le,
}
use webproof_solana.Demo.Text.{trim, starts_with}
use webproof_solana.Demo.Settings.{
  Env, notary_key, not_hex, Decoders, key_bytes, seed_of, parse_signing_key, is_ascii_hexdigit,
  invalid_json, invalid_hex, invalid_base58,
}

-- The seed is all of the bytes, or the first half of 64.
abbrev pub IsSeedOf : Bytes → Bytes → Type 0
IsSeedOf seed bytes =
    (length seed ≡ 32)
    × (rest : Bytes) × (bytes ≡ seed ++ rest)
    × ((length rest ≡ 0) ⊎ (length rest ≡ 32))

seed_of→IsSeedOf : (bytes seed : Bytes) → seed_of bytes ≡ ok seed → IsSeedOf seed bytes
unfolding seed_of
seed_of→IsSeedOf bytes seed h = elim (Bool-cases (length bytes == 32)) [
  | inl whole ↦
      let same : bytes ≡ seed = ground arith in
      (ground (arith, whole, ap length same), [], same ∙ sym (append-nil seed), inl refl)
  | inr other ↦
      let half : take 32 bytes ≡ seed = ground arith in
      let size : length bytes ≡ 64 = ground arith in
      let pieces = take-append-drop 32 bytes in
      let front = length-take_le 32 bytes (omega arith) in
      (
        sym (ap length half) ∙ front,
        drop 32 bytes,
        sym pieces ∙ ap (λ a. a ++ drop 32 bytes) half,
        inr (omega (arith, ap length pieces, length-append (take 32 bytes) (drop 32 bytes))),
      )
]

seed_rest :
    (x : ℕ) (rest : Bytes) → (length (x ∷ rest) ≡ 0) ⊎ (length (x ∷ rest) ≡ 32) → length rest ≡ 31
seed_rest x rest (inl h) = absurd (omega arith)
seed_rest x rest (inr h) = omega arith

IsSeedOf→seed_of : (bytes seed : Bytes) → IsSeedOf seed bytes → seed_of bytes ≡ ok seed
unfolding seed_of
IsSeedOf→seed_of bytes seed (size, [], e, sizes) =
    let same : bytes ≡ seed = e ∙ append-nil seed in ground (arith, same)
IsSeedOf→seed_of bytes seed (size, x ∷ rest, e, sizes) =
    let half : take 32 bytes ≡ seed = rw (e, ← size) (take-append seed (x ∷ rest)) in
    let whole : length bytes ≡ 64 =
      omega (arith, ap length e, length-append seed (x ∷ rest), seed_rest x rest sizes) in
    ground (arith, half, whole)

-- A digit, or one of the letters a to f in either case.
abbrev pub IsHexDigit : ℕ → Type 0
IsHexDigit c = ((48 ≤ c) × (c ≤ 57)) ⊎ (((65 ≤ c) × (c ≤ 70)) ⊎ ((97 ≤ c) × (c ≤ 102)))

abbrev pub IsHexKey : Bytes → Type 0
IsHexKey s = (length s ≡ 64) × All IsHexDigit s

-- The bytes that a text stands for: if it starts with a bracket, as a JSON array; otherwise, if it
-- is 64 hexadecimal digits, as these; otherwise in base 58.
abbrev pub IsKeyText : Decoders → Bytes → Bytes → Type 0
IsKeyText lib s bytes =
    ((rest : Bytes) × (s ≡ codes "[" ++ rest) × (lib.json_bytes s ≡ some bytes))
    ⊎ (((rest : Bytes) → s ≢ codes "[" ++ rest)
        × ((IsHexKey s × (lib.hex s ≡ some bytes))
            ⊎ ((¬ IsHexKey s) × (lib.base58 s ≡ some bytes))))

all→All : (s : Bytes) → all is_ascii_hexdigit s ≡ true → All IsHexDigit s
all→All [] h = tt
all→All (c ∷ cs) h = (ground arith, all→All cs (ground arith))

All→all : (s : Bytes) → All IsHexDigit s → all is_ascii_hexdigit s ≡ true
All→all [] h = refl
All→all (c ∷ cs) (h, rest) =
    let below = All→all cs rest in
    let here : is_ascii_hexdigit c ≡ true = ground arith in ground (arith, below, here)

bracket_first : (s : Bytes) → starts_with 91 s ≡ true → (rest : Bytes) × (s ≡ codes "[" ++ rest)
unfolding starts_with
bracket_first [] h = cc
bracket_first (c ∷ cs) h = (cs, ap (λ x. x ∷ cs) (ground arith))

starts_bracket : (rest : Bytes) → starts_with 91 (codes "[" ++ rest) ≡ true
unfolding starts_with
starts_bracket rest = refl

no_bracket : (s rest : Bytes) → starts_with 91 s ≡ false → s ≢ codes "[" ++ rest
unfolding starts_with
no_bracket s rest h e = ground (arith, h, ap (starts_with 91) e)

IsHexKey-iff : (s : Bytes) → ((length s == 64 && all is_ascii_hexdigit s) ≡ true) ↔ IsHexKey s
IsHexKey-iff s = (
  λ h. (ground (arith, h), all→All s (ground (arith, h))),
  λ (size, digits). ground (arith, size, All→all s digits),
)

not_hex_key : (s : Bytes) → (¬ IsHexKey s) → (length s == 64 && all is_ascii_hexdigit s) ≡ false
not_hex_key s n = elim (Bool-cases (length s == 64 && all is_ascii_hexdigit s)) [
  | inl h ↦ absurd (n ((IsHexKey-iff s).0 h))
  | inr f ↦ f
]

key_bytes→IsKeyText :
    (lib : Decoders) (s bytes : Bytes) → key_bytes lib s ≡ ok bytes → IsKeyText lib s bytes
unfolding key_bytes
key_bytes→IsKeyText lib s bytes h = elim (Bool-cases (starts_with 91 s)) [
  | inl first ↦
      let (rest, e) = bracket_first s first in
      inl (rest, e, ok_or-eq-ok _ invalid_json (rw first at h))
  | inr other ↦ inr (
    λ rest. no_bracket s rest other,
    elim (Bool-cases (length s == 64 && all is_ascii_hexdigit s)) [
      | inl digits ↦
          inl ((IsHexKey-iff s).0 digits, ok_or-eq-ok _ invalid_hex (rw (other, digits) at h))
      | inr none_such ↦ inr (
        λ k. ground (arith, none_such, (IsHexKey-iff s).1 k),
        ok_or-eq-ok _ invalid_base58 (rw (other, none_such) at h),
      )
    ],
  )
]

IsKeyText→key_bytes :
    (lib : Decoders) (s bytes : Bytes) → IsKeyText lib s bytes → key_bytes lib s ≡ ok bytes
unfolding key_bytes
IsKeyText→key_bytes lib s bytes (inl (rest, e, decoded)) =
    let first : starts_with 91 s ≡ true = ap (starts_with 91) e ∙ starts_bracket rest in
    rw (first, decoded) refl
IsKeyText→key_bytes lib s bytes (inr (other, how)) = elim (Bool-cases (starts_with 91 s)) [
  | inl first ↦ let (rest, e) = bracket_first s first in absurd (other rest e)
  | inr plain ↦ elim how [
    | inl (digits, decoded) ↦ rw (plain, (IsHexKey-iff s).1 digits, decoded) refl
    | inr (none_such, decoded) ↦ rw (plain, not_hex_key s none_such, decoded) refl
  ]
]

-- A signing key is read exactly if its trimmed text decodes to 32 bytes, which are the seed, or to
-- 64, of which the seed is the first half; so a seed has 32 bytes. The text decodes as a JSON array
-- if it starts with a bracket, otherwise, if it is 64 characters long and all of them are
-- hexadecimal digits, as these, and otherwise in base 58.
pub parse_signing_key_iff :
    (lib : Decoders) (raw seed : Bytes)
    → (parse_signing_key lib raw ≡ ok seed)
      ↔ ((bytes : Bytes) × IsKeyText lib (trim raw) bytes × IsSeedOf seed bytes)
unfolding parse_signing_key
parse_signing_key_iff lib raw seed = (
  λ h.
      let (bytes, e, f) = passed (key_bytes lib (trim raw)) seed_of h in
      (bytes, key_bytes→IsKeyText lib (trim raw) bytes e, seed_of→IsSeedOf bytes seed f),
  λ (bytes, e, s).
      ground (arith, IsKeyText→key_bytes lib (trim raw) bytes e, IsSeedOf→seed_of bytes seed s),
)

-- The notary's key: the development key if none is set, and else the 32 bytes that the trimmed text
-- stands for in hexadecimal digits.
abbrev pub IsNotaryKey : Decoders → Env → Bytes → Type 0
IsNotaryKey lib env key =
    ((env (codes "WEBPROOF_NOTARY_KEY") ≡ none) × (key ≡ replicate 32 1))
    ⊎ ((raw : Bytes) × (env (codes "WEBPROOF_NOTARY_KEY") ≡ some raw)
        × (lib.hex (trim raw) ≡ some key)
        × (length key ≡ 32))

pub notary_key→IsNotaryKey :
    (lib : Decoders) (env : Env) (key : Bytes)
    → notary_key lib env ≡ ok key
    → IsNotaryKey lib env key
unfolding notary_key
notary_key→IsNotaryKey lib env key h = elim (Option-cases (env (codes "WEBPROOF_NOTARY_KEY"))) [
  | inl unset ↦ inl (unset, ground (arith, rw unset at h))
  | inr (raw, set) ↦
      let (bytes, e, f) =
        passed (ok_or (lib.hex (trim raw)) (not_hex "WEBPROOF_NOTARY_KEY")) _ (rw set at h) in
      let decoded : lib.hex (trim raw) ≡ some bytes =
        ok_or-eq-ok _ (not_hex "WEBPROOF_NOTARY_KEY") e in
      let same : bytes ≡ key = ground arith in inr (raw, set, decoded ∙ ap some same, ground arith)
]
