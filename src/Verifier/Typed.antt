-- ===== src/Verifier/Typed.antt =====
-- The claim that crates/webproof-verifier signs is one of the Rust type, and is read back.
use webproof_solana.Prelude.{
  ◌≡◌, ◌⊎◌, inl, inr, refl, arith, subst, sym, ℕ, ◌≤◌, true, false, some, Bytes, All, IsByte,
  is_utf8, IsText, IsArray, ℤ, codes, some-injective, IsI64, saturating_add-IsI64, ok, ap,
}
use webproof_solana.Borsh.{Borsh}
use webproof_solana.Crypto.{Sha256, Ed25519}
use webproof_solana.Core.{IsTyped, canonical_bytes, from_slice}
use webproof_solana.Core.Validity.{IsBounded}
use webproof_solana.Core.Encoding.{from_slice-canonical_bytes}
use webproof_solana.Verifier.{
  JsonView, Json, Url, VerifiedTlsData, TlsnProofVerifier, SignedClaim, ClaimSigner, scalar,
  build_claim, verify_and_sign,
}
use webproof_solana.Verifier.Signing.{verify_and_sign_iff}

-- A Rust string.
abbrev pub IsStr : Bytes → Type 0
IsStr s = All IsByte s × (is_utf8 s ≡ true)

bounded-IsText : (s : Bytes) (max : ℕ) → max ≤ 256 → IsStr s → IsBounded s max → IsText s
bounded-IsText s max small (are, utf8) (some_text, fits) = record {
  are_bytes = are;
  utf8 = utf8;
  measured = omega arith;
}

-- The texts of a document that a pointer finds are strings.
abbrev pub HasStrings : (json : Json) → VerifiedTlsData json → Bytes → Type 0
HasStrings json d field_name =
    (element : json.Value) (s : Bytes)
    → json.pointer d.response field_name ≡ some element
    → ((json.view element ≡ JsonView.string s) ⊎ (json.view element ≡ JsonView.number s))
    → IsStr s

same_text : (t s : Bytes) → some t ≡ some s → t ≡ s
same_text t s h = some-injective t s h

scalar-IsStr :
    (v : JsonView) (s : Bytes)
    → ((t : Bytes) → (v ≡ JsonView.string t) ⊎ (v ≡ JsonView.number t) → IsStr t)
    → scalar v ≡ some s
    → IsStr s
unfolding scalar is_utf8
scalar-IsStr (JsonView.string t) s strings h = subst IsStr (ground arith) (strings t (inl refl))
scalar-IsStr (JsonView.number t) s strings h = subst IsStr (ground arith) (strings t (inr refl))
scalar-IsStr (JsonView.bool true) s strings h =
    subst IsStr (same_text (codes "true") s h) (omega arith, refl)
scalar-IsStr (JsonView.bool false) s strings h =
    subst IsStr (same_text (codes "false") s h) (omega arith, refl)
scalar-IsStr JsonView.null s strings h =
    subst IsStr (same_text (codes "null") s h) (omega arith, refl)
scalar-IsStr JsonView.array s strings h = cc
scalar-IsStr JsonView.object s strings h = cc

module _ (json : Json) (b : Borsh) (sha : Sha256) (ed : Ed25519) {E : Type 0} (self : ClaimSigner)
    (verifier : TlsnProofVerifier json E) (artifact : Bytes) (url : Url) (field_name : Bytes)
    (now ttl : ℤ) (nonce : Bytes) (out : SignedClaim) where
  -- The signed claim is one of the Rust type, with texts and arrays of bytes and `i64` times, and its
  -- canonical bytes are read back as that claim: for an `i64` clock, a nonce of 32 bytes and a field
  -- that is a string, if the host and the texts that the proof verifier passes are strings.
  pub verify_and_sign-IsTyped :
      IsI64 now
      → IsArray 32 nonce
      → IsStr field_name
      → ((d : VerifiedTlsData json)
          → verifier.verify artifact ≡ ok d
          → IsStr d.host × HasStrings json d field_name)
      → verify_and_sign json b sha ed self verifier artifact url field_name now ttl nonce ≡ ok out
      → IsTyped out.claim × (from_slice b (canonical_bytes b out.claim) ≡ some out.claim)
  unfolding build_claim
  verify_and_sign-IsTyped now_typed nonce_typed field_typed strings h =
      let (d, verified, s) =
        (verify_and_sign_iff json b sha ed self verifier artifact url field_name now ttl nonce out
            now_typed).0
          h in
      let (host, texts) = strings d verified in
      let value =
        scalar-IsStr (json.view s.answer.element) s.value
          (λ t. texts s.answer.element t s.answer.found) s.answer.is_scalar in
      let typed : IsTyped (build_claim json b sha ed d field_name s.value now ttl nonce) = record {
        version = omega arith;
        source_host = bounded-IsText d.host 128 (omega arith) host s.issuable.source_host;
        request_path_hash = sha.digest-IsArray d.path;
        claim_key = bounded-IsText field_name 128 (omega arith) field_typed s.issuable.claim_key;
        claim_value = bounded-IsText s.value 256 (omega arith) value s.issuable.claim_value;
        issued_at = now_typed;
        expires_at = saturating_add-IsI64 now ttl;
        nonce = nonce_typed;
        provenance_hash = sha.digest-IsArray d.artifact;
      } in
      let claimed : IsTyped out.claim =
        subst IsTyped (sym (ap (λ (o : SignedClaim). o.claim) s.signed_claim)) typed in
      (claimed, from_slice-canonical_bytes b out.claim claimed)
