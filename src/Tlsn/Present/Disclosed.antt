-- ===== src/Tlsn/Present/Disclosed.antt =====
-- What a presentation built by present.rs discloses.
use webproof_solana.Prelude.{
  ℕ, inl, inr, ◌⊎◌, ◌∙◌, ◌≡◌, arith, ◌||◌, true, false, List, [], ◌∷◌, Memᴰ, some, get_elem?, subst,
  sym, Bool-cases, ◌↔◌, codes, Pointwise, ok, passed, map_err, ok_or, ok_or-eq-ok, map_err-eq-ok,
}
use webproof_solana.Tlsn.{RangeSets}
use webproof_solana.Tlsn.Present.Secrets.{IsLowerOf}
use webproof_solana.Tlsn.Present.{
  Header, HttpRequest, HttpTranscript, Builders, library, panic, disclosed_part, reveal_headers,
  reveal, build_presentation,
}
use webproof_solana.Tlsn.Present.Open.{in_headers, IsOpen, IsSeparate, IsOpen-iff, value_hidden}

module _ (ranges : RangeSets) {Attestation Secrets : Type 0}
    (lib : Builders ranges Attestation Secrets) where
  sent-reveal_headers :
      (headers : List (Header ranges)) (p q : lib.ProofBuilder) (i : ℕ)
      → reveal_headers ranges lib headers p ≡ ok q
      → (lib.sent q i ≡ (lib.sent p i || in_headers ranges i headers))
        × (lib.recv q i ≡ lib.recv p i)
  unfolding reveal_headers
  sent-reveal_headers [] p q i h = ground arith
  sent-reveal_headers (header ∷ headers) p q i h =
      let (r, e, rest) =
        passed (map_err library (lib.reveal_sent (disclosed_part ranges header) p)) _ h in
      let (sent_rest, recv_rest) = sent-reveal_headers headers r q i rest in
      let revealed : lib.reveal_sent (disclosed_part ranges header) p ≡ ok r =
        map_err-eq-ok library _ e in
      ground (
        arith,
        sent_rest,
        recv_rest,
        lib.sent-reveal_sent (disclosed_part ranges header) p r i revealed,
        lib.recv-reveal_sent (disclosed_part ranges header) p r i revealed,
      )

  -- The presentation comes from a builder that reveals exactly the sent positions that are open in
  -- the first request, and the received ones of the first response.
  pub record IsDisclosure (attestation : Attestation) (secrets : Secrets)
      (presentation : lib.Presentation) : Type 0 where
    pub transcript : HttpTranscript ranges
    pub request : HttpRequest ranges
    pub response : ranges.RangeSet
    pub builder : lib.ProofBuilder
    pub transcript_proof : lib.TranscriptProof
    pub parsed : lib.parse secrets ≡ ok transcript
    pub first_request : get_elem? transcript.requests 0 ≡ some request
    pub first_response : get_elem? transcript.responses 0 ≡ some response
    pub sent_exactly : (i : ℕ) → (lib.sent builder i ≡ true) ↔ IsOpen ranges request i
    pub recv_exactly : (i : ℕ) → lib.recv builder i ≡ ranges.member i response
    pub proved : lib.build_proof builder ≡ ok transcript_proof
    pub built : lib.build attestation secrets transcript_proof ≡ ok presentation

  collected :
      (secrets : Secrets) (request : HttpRequest ranges) (response : ranges.RangeSet)
      (p1 p2 p3 q : lib.ProofBuilder) (i : ℕ)
      → lib.reveal_sent request.without_data (lib.transcript_proof_builder secrets) ≡ ok p1
      → lib.reveal_sent request.target p1 ≡ ok p2
      → reveal_headers ranges lib request.headers p2 ≡ ok p3
      → lib.reveal_recv response p3 ≡ ok q
      → (lib.sent q i ≡ (
          ranges.member i request.without_data
          || (ranges.member i request.target || in_headers ranges i request.headers)))
        × (lib.recv q i ≡ ranges.member i response)
  collected secrets request response p1 p2 p3 q i e1 e2 e3 e4 =
      let (sent3, recv3) = sent-reveal_headers request.headers p2 p3 i e3 in
      ground (
        arith,
        lib.sent-new secrets i,
        lib.recv-new secrets i,
        lib.sent-reveal_sent request.without_data (lib.transcript_proof_builder secrets) p1 i e1,
        lib.recv-reveal_sent request.without_data (lib.transcript_proof_builder secrets) p1 i e1,
        lib.sent-reveal_sent request.target p1 p2 i e2,
        lib.recv-reveal_sent request.target p1 p2 i e2,
        sent3,
        recv3,
        lib.sent-reveal_recv response p3 q i e4,
        lib.recv-reveal_recv response p3 q i e4,
      )

  reveal_exactly :
      (secrets : Secrets) (transcript : HttpTranscript ranges) (q : lib.ProofBuilder)
      → reveal ranges lib transcript (lib.transcript_proof_builder secrets) ≡ ok q
      → (request : HttpRequest ranges) × (response : ranges.RangeSet) × (get_elem?
            transcript.requests 0
          ≡ some request)
        × (get_elem? transcript.responses 0 ≡ some response)
        × ((i : ℕ)
            → (lib.sent q i ≡ (
                ranges.member i request.without_data
                || (ranges.member i request.target || in_headers ranges i request.headers)))
              × (lib.recv q i ≡ ranges.member i response))
  unfolding reveal
  reveal_exactly secrets transcript q h =
      let p = lib.transcript_proof_builder secrets in
      let (request, e1, h1) = passed (ok_or (get_elem? transcript.requests 0) panic) _ h in
      let (p1, e2, h2) = passed (map_err library (lib.reveal_sent request.without_data p)) _ h1 in
      let (p2, e3, h3) = passed (map_err library (lib.reveal_sent request.target p1)) _ h2 in
      let (p3, e4, h4) = passed (reveal_headers ranges lib request.headers p2) _ h3 in
      let (response, e5, h5) = passed (ok_or (get_elem? transcript.responses 0) panic) _ h4 in
      (
        request,
        response,
        ok_or-eq-ok _ panic e1,
        ok_or-eq-ok _ panic e5,
        λ i.
            collected secrets request response p1 p2 p3 q i (map_err-eq-ok library _ e2)
              (map_err-eq-ok library _ e3) e4 (map_err-eq-ok library _ h5),
      )

  -- If a presentation is built, then from a builder that reveals exactly this: of what was sent,
  -- the structure and the target of the first request, the whole of each of its headers whose name
  -- is not, in any case, `authorization`, `cookie` or `proxy-authorization`, and of those three all
  -- but the value; of what was received, the first response.
  pub build_presentation-IsDisclosure :
      (attestation : Attestation) (secrets : Secrets) (presentation : lib.Presentation)
      → build_presentation ranges lib attestation secrets ≡ ok presentation
      → IsDisclosure attestation secrets presentation
  unfolding build_presentation
  build_presentation-IsDisclosure attestation secrets presentation h =
      let (transcript, e1, h1) = passed (map_err library (lib.parse secrets)) _ h in
      let (q, e2, h2) =
        passed (reveal ranges lib transcript (lib.transcript_proof_builder secrets)) _ h1 in
      let (transcript_proof, e3, h3) = passed (map_err library (lib.build_proof q)) _ h2 in
      let (request, response, first, second, exactly) = reveal_exactly secrets transcript q e2 in
      record {
        transcript = transcript;
        request = request;
        response = response;
        builder = q;
        transcript_proof = transcript_proof;
        parsed = map_err-eq-ok library _ e1;
        first_request = first;
        first_response = second;
        sent_exactly = λ i. (
          λ h. (IsOpen-iff ranges request i).0 (sym (exactly i).0 ∙ h),
          λ o. (exactly i).0 ∙ (IsOpen-iff ranges request i).1 o,
        );
        recv_exactly = λ i. (exactly i).1;
        proved = map_err-eq-ok library _ e3;
        built = map_err-eq-ok library _ h3;
      }

  -- The value of a header whose name is, in any case, `authorization`, `cookie` or
  -- `proxy-authorization` is not disclosed: if the parts of the first request do not overlap and a
  -- presentation is built, it comes from a builder that does not reveal any position of the header
  -- that is not one of the header without its value.
  pub build_presentation-hides :
      (attestation : Attestation) (secrets : Secrets) (presentation : lib.Presentation)
      (transcript : HttpTranscript ranges) (request : HttpRequest ranges) (header : Header ranges)
      → lib.parse secrets ≡ ok transcript
      → get_elem? transcript.requests 0 ≡ some request
      → IsSeparate ranges request
      → Memᴰ header request.headers
      → Pointwise IsLowerOf header.name (codes "authorization")
        ⊎ (Pointwise IsLowerOf header.name (codes "cookie")
            ⊎ Pointwise IsLowerOf header.name (codes "proxy-authorization"))
      → build_presentation ranges lib attestation secrets ≡ ok presentation
      → (d : IsDisclosure attestation secrets presentation) × ((i : ℕ)
          → ranges.member i header.indices ≡ true
          → ranges.member i header.without_value ≡ false
          → lib.sent d.builder i ≡ false)
  build_presentation-hides attestation secrets presentation transcript request header parsed first
        separate m secret h =
      let d = build_presentation-IsDisclosure attestation secrets presentation h in
      let same : d.request ≡ request = ground (arith, d.parsed, d.first_request) in
      (
        d,
        λ i within hidden. elim (Bool-cases (lib.sent d.builder i)) [
          | inl shown ↦ absurd (
              value_hidden ranges request header i separate m secret within hidden
                (subst (λ r. IsOpen ranges r i) same ((d.sent_exactly i).0 shown)))
          | inr kept ↦ kept
        ],
      )
