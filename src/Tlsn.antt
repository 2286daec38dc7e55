-- ===== src/Tlsn.antt =====
-- crates/tlsn-demo/webproof-tlsn/src/verify.rs: the proof verifier over a persisted TLSNotary
-- presentation. The pinned `tlsn` release, `tlsn_formats`, `bincode` and `serde_json::from_slice`
-- are parameters; the laws stand in the modules below.
pub mod Read
pub mod Verified
pub mod Proven
pub mod Unread
pub mod Failed
pub mod Unverified
pub mod Present
pub mod Notarize
pub mod Fixture
use webproof_solana.Prelude.{
  ℕ, String, ◌&&◌, Bool, true, false, not, ◌≡◌, ◌↔◌, Option, List, [], Bytes, any, bytes_eq, Result,
  ok, err, ◌>>=◌, ◌>>◌, require, ok_or, map_err, is_empty, if◌then◌else◌,
}
use webproof_solana.Verifier.{Json, VerifiedTlsData, TlsnProofVerifier, from_verified_presentation}

-- `rangeset::RangeSet<usize>`: a set of positions.
pub record RangeSets : Type 1 where
  pub RangeSet : Type 0
  pub member : ℕ → RangeSet → Bool
  pub difference : RangeSet → RangeSet → RangeSet
  pub is_empty : RangeSet → Bool
  pub member-difference :
      (i : ℕ) (a b : RangeSet) → member i (difference a b) ≡ (member i a && not (member i b))
  pub is_empty_iff : (a : RangeSet) → (is_empty a ≡ true) ↔ ((i : ℕ) → member i a ≡ false)

-- What a presentation discloses of the two directions, and which positions its proofs cover.
pub record PartialTranscript (ranges : RangeSets) : Type 0 where
  pub sent_unsafe : Bytes
  pub sent_authed : ranges.RangeSet
  pub received_unsafe : Bytes
  pub received_authed : ranges.RangeSet

pub record PresentationOutput (ranges : RangeSets) : Type 0 where
  pub server_name : Option Bytes
  pub transcript : Option (PartialTranscript ranges)

-- A parsed request, by the positions of its request line and its target.
pub record Request (ranges : RangeSets) : Type 0 where
  pub indices : ranges.RangeSet
  pub target : Bytes

-- A parsed response, by its positions and the content of its body.
pub record Response (ranges : RangeSets) : Type 0 where
  pub indices : ranges.RangeSet
  pub body : Option Bytes

-- What the code takes from the libraries. An error is its text.
pub record Tlsn (json : Json) (ranges : RangeSets) : Type 1 where
  pub Presentation : Type 0
  pub CryptoProvider : Type 0
  pub deserialize : Bytes → Option Presentation
  pub verifying_key : Presentation → Bytes
  pub default_provider : CryptoProvider
  pub provider_with_roots : List Bytes → Result Bytes CryptoProvider
  pub verify : Presentation → CryptoProvider → Result Bytes (PresentationOutput ranges)
  pub parse_request : Bytes → Result Bytes (Request ranges)
  pub parse_response : Bytes → Result Bytes (Response ranges)
  pub from_slice : Bytes → Option json.Value

pub data VerifyError : Type 0 where
  deserialize untrusted_notary : VerifyError
  verification : Bytes → VerifyError
  missing_server_name missing_transcript : VerifyError
  coverage : String → VerifyError
  http : Bytes → VerifyError
  json : VerifyError

pub record TlsnPresentationVerifier : Type 0 where
  pub server_roots : List Bytes
  pub trusted_notary_keys : List Bytes

unfoldable pub with_mozilla_roots : List Bytes → TlsnPresentationVerifier
with_mozilla_roots trusted_notary_keys = record {
  server_roots = [];
  trusted_notary_keys = trusted_notary_keys;
}

unfoldable pub with_custom_roots : List Bytes → List Bytes → TlsnPresentationVerifier
with_custom_roots roots trusted_notary_keys = record {
  server_roots = roots;
  trusted_notary_keys = trusted_notary_keys;
}

module _ (ranges : RangeSets) where
  unfoldable pub is_subset : ranges.RangeSet → ranges.RangeSet → Bool
  is_subset candidate authed =
      let remainder = ranges.difference candidate authed in ranges.is_empty remainder

module _ (json : Json) (ranges : RangeSets) (lib : Tlsn json ranges) where
  unfoldable pub crypto_provider : TlsnPresentationVerifier → Result VerifyError lib.CryptoProvider
  crypto_provider self =
      if is_empty self.server_roots
      then ok lib.default_provider
      else map_err verification (lib.provider_with_roots self.server_roots)

  -- The part of `verify` on the disclosed transcript: the path, and the response as JSON.
  unfoldable pub read_transcript :
      PartialTranscript ranges → Result VerifyError (Bytes × json.Value)
  read_transcript transcript = do
    request ← map_err http (lib.parse_request transcript.sent_unsafe)
    require (is_subset ranges request.indices transcript.sent_authed) (coverage "request line")
    let path = request.target
    response ← map_err http (lib.parse_response transcript.received_unsafe)
    require (is_subset ranges response.indices transcript.received_authed)
        (coverage "full response")
    body_bytes ← ok_or response.body (coverage "response body")
    response_json ← ok_or (lib.from_slice body_bytes) VerifyError.json
    ok (path, response_json)

  unfoldable pub verify :
      TlsnPresentationVerifier → Bytes → Result VerifyError (VerifiedTlsData json)
  verify self artifact = do
    presentation ← ok_or (lib.deserialize artifact) VerifyError.deserialize
    let key_data = lib.verifying_key presentation
    require (any (λ trusted. bytes_eq trusted key_data) self.trusted_notary_keys) untrusted_notary
    provider ← crypto_provider self
    output ← map_err verification (lib.verify presentation provider)
    host ← ok_or output.server_name missing_server_name
    transcript ← ok_or output.transcript missing_transcript
    (path, response_json) ← read_transcript transcript
    ok (from_verified_presentation host path response_json artifact)

  -- `impl TlsnProofVerifier for TlsnPresentationVerifier`
  abbrev pub proof_verifier : TlsnPresentationVerifier → TlsnProofVerifier json VerifyError
  proof_verifier self = record { verify = verify self }
