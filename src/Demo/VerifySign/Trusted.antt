-- ===== src/Demo/VerifySign/Trusted.antt =====
-- The keys and the roots that webproof_verify_sign.rs trusts.
use webproof_solana.Prelude.{
  ℕ, ◌≡◌, ◌≢◌, ◌⊎◌, inl, inr, refl, sym, arith, Bool, true, false, not, Option, Option-cases, some,
  none, List, [], ◌∷◌, map, filter, is_empty, Bytes, codes, ok, passed, ok_or, ok_or-eq-ok,
  ok-injective, some-injective,
}
use webproof_solana.Tlsn.{TlsnPresentationVerifier, with_mozilla_roots, with_custom_roots}
use webproof_solana.Demo.Text.{trim, split}
use webproof_solana.Demo.Settings.{Env, Decoders}
use webproof_solana.Demo.VerifySign.{
  Files, collect, trusted_keys, choose_verifier, no_file, invalid_hex,
}

-- The keys are the entries that are not empty, each decoded, in their order.
abbrev pub AreDecoded : Decoders → List Bytes → List Bytes → Type 0
AreDecoded decoders [] keys = keys ≡ []
AreDecoded decoders (entry ∷ entries) keys =
    ((entry ≡ []) × AreDecoded decoders entries keys)
    ⊎ ((entry ≢ [])
        × (key : Bytes) × (rest : List Bytes) × (keys ≡ key ∷ rest)
        × (decoders.hex entry ≡ some key)
        × AreDecoded decoders entries rest)

-- The keys of the set list, whose entries are separated by commas and trimmed; or, if none is set,
-- the one key of the file that the notarizing step has left.
abbrev pub AreTrusted : Decoders → Files → Env → List Bytes → Type 0
AreTrusted decoders files env keys =
    ((list : Bytes) × (env (codes "WEBPROOF_TRUSTED_NOTARY_KEYS") ≡ some list)
      × AreDecoded decoders (map trim (split 44 list)) keys)
    ⊎ ((env (codes "WEBPROOF_TRUSTED_NOTARY_KEYS") ≡ none)
        × (text : Bytes) × (key : Bytes) × (files (codes "notary-key.hex") ≡ some text)
        × (decoders.hex (trim text) ≡ some key)
        × (keys ≡ key ∷ []))

-- The verifier trusts these keys; its roots are the certificate of the fixture if the request says
-- that this was notarized, and else it has none of its own, so that the public ones apply.
abbrev pub IsChosen : Bool → Bytes → List Bytes → TlsnPresentationVerifier → Type 0
IsChosen fixture ca_cert_der keys verifier =
    (verifier.trusted_notary_keys ≡ keys)
    × (((fixture ≡ true) × (verifier.server_roots ≡ ca_cert_der ∷ []))
        ⊎ ((fixture ≡ false) × (verifier.server_roots ≡ [])))

pub choose_verifier-IsChosen :
    (fixture : Bool) (ca_cert_der : Bytes) (keys : List Bytes)
    → IsChosen fixture ca_cert_der keys (choose_verifier fixture ca_cert_der keys)
unfolding choose_verifier with_mozilla_roots with_custom_roots
choose_verifier-IsChosen true ca_cert_der keys = (refl, inl (refl, refl))
choose_verifier-IsChosen false ca_cert_der keys = (refl, inr (refl, refl))

abbrev decode : Decoders → List Bytes → Option (List Bytes)
decode decoders entries = collect (map decoders.hex (filter (λ s. not (is_empty s)) entries))

decode-skip :
    (decoders : Decoders) (entries keys : List Bytes)
    → decode decoders ([] ∷ entries) ≡ some keys
    → decode decoders entries ≡ some keys
decode-skip decoders entries keys h = h

-- A first entry that is not empty was decoded, and so were the others.
decode-first :
    (decoders : Decoders) (c : ℕ) (cs : Bytes) (entries keys : List Bytes)
    → decode decoders ((c ∷ cs) ∷ entries) ≡ some keys
    → (key : Bytes) × (rest : List Bytes) × (keys ≡ key ∷ rest)
      × (decoders.hex (c ∷ cs) ≡ some key)
      × (decode decoders entries ≡ some rest)
unfolding collect
decode-first decoders c cs entries keys h = elim (Option-cases (decoders.hex (c ∷ cs))) [
  | inl e ↦ absurd (ground (arith, rw e at h))
  | inr (key, e) ↦ elim (Option-cases (decode decoders entries)) [
    | inl f ↦ absurd (ground (arith, rw (e, f) at h))
    | inr (rest, f) ↦ (key, rest, sym (some-injective _ _ (rw (e, f) at h)), e, f)
  ]
]

decode-AreDecoded :
    (decoders : Decoders) (entries keys : List Bytes)
    → decode decoders entries ≡ some keys
    → AreDecoded decoders entries keys
unfolding collect
decode-AreDecoded decoders [] keys h = sym (some-injective _ _ h)
decode-AreDecoded decoders ([] ∷ entries) keys h =
    inl (refl, decode-AreDecoded decoders entries keys (decode-skip decoders entries keys h))
decode-AreDecoded decoders ((c ∷ cs) ∷ entries) keys h =
    let (key, rest, same, e, f) = decode-first decoders c cs entries keys h in
    inr (λ e. ground arith, key, rest, same, e, decode-AreDecoded decoders entries rest f)

pub trusted_keys-AreTrusted :
    (decoders : Decoders) (files : Files) (env : Env) (keys : List Bytes)
    → trusted_keys decoders files env ≡ ok keys
    → AreTrusted decoders files env keys
unfolding trusted_keys
trusted_keys-AreTrusted decoders files env keys h =
    elim (Option-cases (env (codes "WEBPROOF_TRUSTED_NOTARY_KEYS"))) [
      | inl unset ↦
          let (text, e1, h1) =
            passed (ok_or (files (codes "notary-key.hex")) (no_file (codes "notary-key.hex"))) _
              (rw unset at h) in
          let (key, e2, h2) = passed (ok_or (decoders.hex (trim text)) invalid_hex) _ h1 in
          inr (
            unset,
            text,
            key,
            ok_or-eq-ok _ (no_file (codes "notary-key.hex")) e1,
            ok_or-eq-ok _ invalid_hex e2,
            sym (ok-injective h2),
          )
      | inr (list, set) ↦ inl (
        list,
        set,
        decode-AreDecoded decoders (map trim (split 44 list)) keys
            (ok_or-eq-ok _ invalid_hex (rw set at h)),
      )
    ]
