-- ===== src/Tlsn/Read.antt =====
-- What `read_transcript` of verify.rs accepts, by membership of positions.
use webproof_solana.Prelude.{
  ℕ, ◌≡◌, ◌↔◌, arith, true, some, Bytes, ok, passed, ok_or-eq-ok, map_err-eq-ok, require-eq-ok,
  map_err, ok_or, require,
}
use webproof_solana.Verifier.{Json}
use webproof_solana.Tlsn.{
  RangeSets, PartialTranscript, Request, Response, Tlsn, is_subset, read_transcript, http, coverage,
  VerifyError,
}

-- Every position of the first set is one of the second.
abbrev pub IsWithin : (ranges : RangeSets) → ranges.RangeSet → ranges.RangeSet → Type 0
IsWithin ranges a b = (i : ℕ) → ranges.member i a ≡ true → ranges.member i b ≡ true

module _ (ranges : RangeSets) (a b : ranges.RangeSet) where
  is_subset→IsWithin : is_subset ranges a b ≡ true → IsWithin ranges a b
  unfolding is_subset
  is_subset→IsWithin h i within =
      let none_left = (ranges.is_empty_iff (ranges.difference a b)).0 h i in
      ground (arith, none_left, ranges.member-difference i a b)

  IsWithin→is_subset : IsWithin ranges a b → is_subset ranges a b ≡ true
  unfolding is_subset
  IsWithin→is_subset within =
      (ranges.is_empty_iff (ranges.difference a b)).1
        (λ i. ground (arith, within i, ranges.member-difference i a b))

  pub is_subset_iff : (is_subset ranges a b ≡ true) ↔ IsWithin ranges a b
  is_subset_iff = (is_subset→IsWithin, IsWithin→is_subset)

module _ (json : Json) (ranges : RangeSets) (lib : Tlsn json ranges) where
  -- The disclosed bytes parse, the request line and the whole response lie in the positions that
  -- the proofs cover, and the body is JSON.
  pub record IsRead (t : PartialTranscript ranges) (path : Bytes) (value : json.Value)
      : Type 0 where
    pub request : Request ranges
    pub response : Response ranges
    pub body : Bytes
    pub parsed_request : lib.parse_request t.sent_unsafe ≡ ok request
    pub request_line : IsWithin ranges request.indices t.sent_authed
    pub target : path ≡ request.target
    pub parsed_response : lib.parse_response t.received_unsafe ≡ ok response
    pub full_response : IsWithin ranges response.indices t.received_authed
    pub has_body : response.body ≡ some body
    pub parsed_body : lib.from_slice body ≡ some value

  pub read→IsRead :
      (t : PartialTranscript ranges) (path : Bytes) (value : json.Value)
      → read_transcript json ranges lib t ≡ ok (path, value)
      → IsRead t path value
  unfolding read_transcript
  read→IsRead t path value h =
      let (request, request_e, h1) = passed (map_err http (lib.parse_request t.sent_unsafe)) _ h in
      let (_, line_e, h2) =
        passed (require (is_subset ranges request.indices t.sent_authed) (coverage "request line"))
          _ h1 in
      let (response, response_e, h3) =
        passed (map_err http (lib.parse_response t.received_unsafe)) _ h2 in
      let (_, full_e, h4) =
        passed
          (require (is_subset ranges response.indices t.received_authed) (coverage "full response"))
          _ h3 in
      let (body, body_e, h5) = passed (ok_or response.body (coverage "response body")) _ h4 in
      let (found, json_e, h6) = passed (ok_or (lib.from_slice body) VerifyError.json) _ h5 in
      record {
        request = request;
        response = response;
        body = body;
        parsed_request = map_err-eq-ok http _ request_e;
        request_line =
            (is_subset_iff ranges _ _).0 (require-eq-ok _ (coverage "request line") line_e);
        target = ground (arith, h6);
        parsed_response = map_err-eq-ok http _ response_e;
        full_response =
            (is_subset_iff ranges _ _).0 (require-eq-ok _ (coverage "full response") full_e);
        has_body = ok_or-eq-ok _ (coverage "response body") body_e;
        parsed_body = ground (arith, h6, ok_or-eq-ok _ VerifyError.json json_e);
      }

  pub IsRead→read :
      (t : PartialTranscript ranges) (path : Bytes) (value : json.Value)
      → IsRead t path value
      → read_transcript json ranges lib t ≡ ok (path, value)
  unfolding read_transcript
  IsRead→read t path value r = ground (
    arith,
    r.parsed_request,
    r.parsed_response,
    r.has_body,
    r.parsed_body,
    r.target,
    (is_subset_iff ranges r.request.indices t.sent_authed).1 r.request_line,
    (is_subset_iff ranges r.response.indices t.received_authed).1 r.full_response,
  )
