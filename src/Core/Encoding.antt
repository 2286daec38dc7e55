-- ===== src/Core/Encoding.antt =====
-- The canonical bytes of crates/webproof-core/src/lib.rs: read back, told apart and measured.
use webproof_solana.Prelude.{
  ◌+◌, ◌≤◌, ◌≡◌, ℤ, ok, ap, ◌∙◌, sym, arith, some, some-injective, [], ◌++◌, append_assoc,
  append-nil, append_cancel_left, Bytes, length, length-append,
}
use webproof_solana.Borsh.{Borsh, bind-eq}
use webproof_solana.Core.Validity.{IsBounded, bounded-eq-ok}
use webproof_solana.Core.{
  validate, ClaimV1, IsTyped, canonical_bytes, deserialize, from_slice, signing_message,
  domain_separator,
}

validate-bounds :
    (c : ClaimV1) (now max_age : ℤ)
    → validate c now max_age ≡ ok tt
    → IsBounded c.source_host 128 × IsBounded c.claim_key 128 × IsBounded c.claim_value 256
unfolding validate
validate-bounds c now max_age h = (
  (bounded-eq-ok c.source_host 128 "source_host").0 (ground arith),
  (bounded-eq-ok c.claim_key 128 "claim_key").0 (ground arith),
  (bounded-eq-ok c.claim_value 256 "claim_value").0 (ground arith),
)

module _ (b : Borsh) where
  -- The derived decoder takes exactly the bytes of the claim from the front of the input.
  pub deserialize-canonical_bytes :
      (c : ClaimV1) (rest : Bytes)
      → IsTyped c
      → deserialize b (canonical_bytes b c ++ rest) ≡ some (c, rest)
  unfolding deserialize canonical_bytes
  deserialize-canonical_bytes c rest t = simp append_assoc (
      bind-eq b.get_u8 _ (b.get-put_u8 _ _ t.version)
      ∙ bind-eq b.get_string _ (b.get-put_string _ _ t.source_host)
      ∙ bind-eq (b.get_array 32) _ (b.get-put_array 32 _ _ t.request_path_hash)
      ∙ bind-eq b.get_string _ (b.get-put_string _ _ t.claim_key)
      ∙ bind-eq b.get_string _ (b.get-put_string _ _ t.claim_value)
      ∙ bind-eq b.get_i64 _ (b.get-put_i64 _ _ t.issued_at)
      ∙ bind-eq b.get_i64 _ (b.get-put_i64 _ _ t.expires_at)
      ∙ bind-eq (b.get_array 32) _ (b.get-put_array 32 _ _ t.nonce)
      ∙ bind-eq (b.get_array 32) _ (b.get-put_array 32 _ _ t.provenance_hash))

  -- Reading back the canonical bytes of a claim gives the claim, for every claim of the Rust type.
  pub from_slice-canonical_bytes :
      (c : ClaimV1) → IsTyped c → from_slice b (canonical_bytes b c) ≡ some c
  unfolding from_slice
  from_slice-canonical_bytes c t =
      rw (from_slice, rw (append-nil (canonical_bytes b c)) at (deserialize-canonical_bytes c [] t))

  -- The message to be signed determines the claim: two claims of the Rust type with one signing
  -- message are equal in every field.
  pub signing_message-injective :
      (c d : ClaimV1) → IsTyped c → IsTyped d → signing_message b c ≡ signing_message b d → c ≡ d
  unfolding signing_message
  signing_message-injective c d tc td e = some-injective c d (
      sym (from_slice-canonical_bytes c tc)
      ∙ ap (from_slice b) (append_cancel_left domain_separator _ _ e)
      ∙ from_slice-canonical_bytes d td)

  pub length-canonical_bytes :
      (c : ClaimV1)
      → length c.request_path_hash ≡ 32
      → length c.nonce ≡ 32
      → length c.provenance_hash ≡ 32
      → length (canonical_bytes b c)
        ≡ length c.source_host + length c.claim_key + length c.claim_value + 125
  unfolding canonical_bytes
  length-canonical_bytes c path nonce provenance =
      simp
        (
          length-append, b.length-put_u8, b.length-put_string, b.length-put_array, b.length-put_i64,
          path, nonce, provenance,
        )
        (omega arith)

  -- The signing message of a claim that validates at some time and age, with hashes and nonce of 32
  -- bytes, has between 152 and 661 bytes, so that a `u16` measures it.
  pub signing_message_bounds :
      (c : ClaimV1) (now max_age : ℤ)
      → length c.request_path_hash ≡ 32
      → length c.nonce ≡ 32
      → length c.provenance_hash ≡ 32
      → validate c now max_age ≡ ok tt
      → (152 ≤ length (signing_message b c)) × (length (signing_message b c) ≤ 661)
  unfolding signing_message
  signing_message_bounds c now max_age path nonce provenance h =
      let size = length-canonical_bytes c path nonce provenance in
      rw (length-append domain_separator (canonical_bytes b c), size)
        (omega (arith, validate-bounds c now max_age h))
