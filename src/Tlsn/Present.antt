-- ===== src/Tlsn/Present.antt =====
-- crates/tlsn-demo/webproof-tlsn/src/present.rs: the presentation that discloses a transcript but
-- for the values of secret headers. The builders of `tlsn` and the parser are parameters.
pub mod Secrets
pub mod Open
pub mod Disclosed
use webproof_solana.Prelude.{
  ℕ, ◌+◌, ◌≡◌, ◌&&◌, ◌||◌, Bool, true, false, List, [], ◌∷◌, map, Bytes, codes, any, bytes_eq, leb,
  get_elem?, Result, ok, err, ◌>>=◌, ok_or, map_err, if◌then◌else◌,
}
use webproof_solana.Tlsn.{RangeSets}

-- A header by its name, its positions, and these without its value.
pub record Header (ranges : RangeSets) : Type 0 where
  pub name : Bytes
  pub indices : ranges.RangeSet
  pub without_value : ranges.RangeSet

-- A request by the positions of its structure and of its target, and its headers.
pub record HttpRequest (ranges : RangeSets) : Type 0 where
  pub without_data : ranges.RangeSet
  pub target : ranges.RangeSet
  pub headers : List (Header ranges)

-- A response by its positions.
pub record HttpTranscript (ranges : RangeSets) : Type 0 where
  pub requests : List (HttpRequest ranges)
  pub responses : List ranges.RangeSet

-- The builders of `tlsn`: a transcript proof builder collects positions to reveal, and may refuse
-- some. An error is its text.
pub record Builders (ranges : RangeSets) (Attestation Secrets : Type 0) : Type 1 where
  pub TranscriptProof : Type 0
  pub Presentation : Type 0
  pub ProofBuilder : Type 0
  pub parse : Secrets → Result Bytes (HttpTranscript ranges)
  pub transcript_proof_builder : Secrets → ProofBuilder
  pub reveal_sent : ranges.RangeSet → ProofBuilder → Result Bytes ProofBuilder
  pub reveal_recv : ranges.RangeSet → ProofBuilder → Result Bytes ProofBuilder
  pub build_proof : ProofBuilder → Result Bytes TranscriptProof
  pub build : Attestation → Secrets → TranscriptProof → Result Bytes Presentation
  -- Whether a position is to be revealed.
  pub sent : ProofBuilder → ℕ → Bool
  pub recv : ProofBuilder → ℕ → Bool
  pub sent-new : (secrets : Secrets) (i : ℕ) → sent (transcript_proof_builder secrets) i ≡ false
  pub recv-new : (secrets : Secrets) (i : ℕ) → recv (transcript_proof_builder secrets) i ≡ false
  pub sent-reveal_sent :
      (part : ranges.RangeSet) (p q : ProofBuilder) (i : ℕ)
      → reveal_sent part p ≡ ok q
      → sent q i ≡ (sent p i || ranges.member i part)
  pub recv-reveal_sent :
      (part : ranges.RangeSet) (p q : ProofBuilder) (i : ℕ)
      → reveal_sent part p ≡ ok q
      → recv q i ≡ recv p i
  pub sent-reveal_recv :
      (part : ranges.RangeSet) (p q : ProofBuilder) (i : ℕ)
      → reveal_recv part p ≡ ok q
      → sent q i ≡ sent p i
  pub recv-reveal_recv :
      (part : ranges.RangeSet) (p q : ProofBuilder) (i : ℕ)
      → reveal_recv part p ≡ ok q
      → recv q i ≡ (recv p i || ranges.member i part)

-- Errors that `?` passes on, and the panic of `requests[0]` on an empty list.
pub data PresentError : Type 0 where
  library : Bytes → PresentError
  panic : PresentError

abbrev pub secret_headers : List Bytes
secret_headers = codes "authorization" ∷ codes "cookie" ∷ codes "proxy-authorization" ∷ []

unfoldable pub to_ascii_lowercase : Bytes → Bytes
to_ascii_lowercase s = map (λ c. if leb 65 c && leb c 90 then c + 32 else c) s

-- `SECRET_HEADERS.contains(&name)`
unfoldable pub is_secret : Bytes → Bool
is_secret header_name =
    any (λ secret. bytes_eq secret (to_ascii_lowercase header_name)) secret_headers

module _ (ranges : RangeSets) where
  unfoldable pub disclosed_part : Header ranges → ranges.RangeSet
  disclosed_part header = if is_secret header.name then header.without_value else header.indices

module _ (ranges : RangeSets) {Attestation Secrets : Type 0}
    (lib : Builders ranges Attestation Secrets) where
  unfoldable pub reveal_headers :
      List (Header ranges) → lib.ProofBuilder → Result PresentError lib.ProofBuilder
  reveal_headers [] builder = ok builder
  reveal_headers (header ∷ headers) builder = do
    builder ← map_err library (lib.reveal_sent (disclosed_part ranges header) builder)
    reveal_headers headers builder

  -- The calls of the transcript proof builder.
  unfoldable pub reveal :
      HttpTranscript ranges → lib.ProofBuilder → Result PresentError lib.ProofBuilder
  reveal transcript builder = do
    request ← ok_or (get_elem? transcript.requests 0) panic
    builder ← map_err library (lib.reveal_sent request.without_data builder)
    builder ← map_err library (lib.reveal_sent request.target builder)
    builder ← reveal_headers request.headers builder
    response ← ok_or (get_elem? transcript.responses 0) panic
    map_err library (lib.reveal_recv response builder)

  unfoldable pub build_presentation : Attestation → Secrets → Result PresentError lib.Presentation
  build_presentation attestation secrets = do
    transcript ← map_err library (lib.parse secrets)
    builder ← reveal transcript (lib.transcript_proof_builder secrets)
    transcript_proof ← map_err library (lib.build_proof builder)
    map_err library (lib.build attestation secrets transcript_proof)
