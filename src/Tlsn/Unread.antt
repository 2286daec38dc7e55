-- ===== src/Tlsn/Unread.antt =====
-- How a disclosed transcript is refused by verify.rs.
use webproof_solana.Prelude.{
  ◌≡◌, ◌↔◌, refl, Bool-cases, require-eq-ok, Result, ◌>>=◌, ◌>>◌, subst, arith, false, inl, inr,
  ◌⊎◌, some, none, Bytes, ok, err, failed, ok_or, ok_or-eq-ok, ok_or-eq-err, map_err, map_err-eq-ok,
  map_err-eq-err, require, require-eq-err,
}
use webproof_solana.Verifier.{Json}
use webproof_solana.Tlsn.{
  RangeSets, PartialTranscript, Request, Response, Tlsn, is_subset, read_transcript, VerifyError,
  coverage, http, untrusted_notary, verification, missing_server_name, missing_transcript,
}
use webproof_solana.Tlsn.Read.{IsWithin, is_subset_iff}

module _ (json : Json) (ranges : RangeSets) (lib : Tlsn json ranges) where
  -- The request parses, and its line is covered.
  abbrev pub IsLine : PartialTranscript ranges → Request ranges → Type 0
  IsLine t request =
      (lib.parse_request t.sent_unsafe ≡ ok request) × IsWithin ranges request.indices t.sent_authed

  -- The first step at which a disclosed transcript is refused; the earlier ones have passed.
  abbrev pub IsUnread : PartialTranscript ranges → VerifyError → Type 0
  IsUnread t (http e) =
      (lib.parse_request t.sent_unsafe ≡ err e)
      ⊎ ((request : Request ranges) × IsLine t request
          × (lib.parse_response t.received_unsafe ≡ err e))
  IsUnread t (coverage part) =
      ((request : Request ranges) × (lib.parse_request t.sent_unsafe ≡ ok request)
        × (¬ IsWithin ranges request.indices t.sent_authed)
        × (part ≡ "request line"))
      ⊎ ((request : Request ranges) × (response : Response ranges) × IsLine t request
          × (lib.parse_response t.received_unsafe ≡ ok response)
          × (((¬ IsWithin ranges response.indices t.received_authed) × (part ≡ "full response"))
              ⊎ (IsWithin ranges response.indices t.received_authed
                  × (response.body ≡ none)
                  × (part ≡ "response body"))))
  IsUnread t VerifyError.json =
      (request : Request ranges) × (response : Response ranges) × (body : Bytes) × IsLine t request
      × (lib.parse_response t.received_unsafe ≡ ok response)
      × IsWithin ranges response.indices t.received_authed
      × (response.body ≡ some body)
      × (lib.from_slice body ≡ none)
  IsUnread t _ = ⊥

  not-IsWithin : (a b : ranges.RangeSet) → is_subset ranges a b ≡ false → ¬ IsWithin ranges a b
  not-IsWithin a b h w = ground (arith, h, (is_subset_iff ranges a b).1 w)

  -- The part on the response, as its own function of the response.
  abbrev read_response :
      PartialTranscript ranges → Bytes → Response ranges → Result VerifyError (Bytes × json.Value)
  read_response t path response = do
    require (is_subset ranges response.indices t.received_authed) (coverage "full response")
    body_bytes ← ok_or response.body (coverage "response body")
    response_json ← ok_or (lib.from_slice body_bytes) VerifyError.json
    ok (path, response_json)

  IsUnread-response :
      (t : PartialTranscript ranges) (request : Request ranges) (r : Response ranges)
      (e : VerifyError)
      → IsLine t request
      → lib.parse_response t.received_unsafe ≡ ok r
      → read_response t request.target r ≡ err e
      → IsUnread t e
  IsUnread-response t request r e line parsed h =
      elim (failed
        (require (is_subset ranges r.indices t.received_authed) (coverage "full response")) _ h) [
          | inl f ↦
              let (outside, same) = require-eq-err _ (coverage "full response") f in
              subst (IsUnread t) same (
                inr (
                  request,
                  r,
                  line,
                  parsed,
                  inl (not-IsWithin r.indices t.received_authed outside, refl),
                ))
          | inr (_, full_e, h1) ↦
              let full =
                (is_subset_iff ranges r.indices t.received_authed).0
                  (require-eq-ok _ (coverage "full response") full_e) in
              elim (failed (ok_or r.body (coverage "response body")) _ h1) [
                | inl f ↦
                    let (gone, same) = ok_or-eq-err _ (coverage "response body") f in
                    subst (IsUnread t) same (inr (request, r, line, parsed, inr (full, gone, refl)))
                | inr (body, body_e, h2) ↦
                    elim (failed (ok_or (lib.from_slice body) VerifyError.json) _ h2) [
                      | inl f ↦
                          let (gone, same) = ok_or-eq-err _ VerifyError.json f in
                          subst (IsUnread t) same (
                            request,
                            r,
                            body,
                            line,
                            parsed,
                            full,
                            ok_or-eq-ok _ (coverage "response body") body_e,
                            gone,
                          )
                      | inr (v, json_e, h3) ↦ absurd (ground (arith, h3))
                    ]
              ]
        ]

  read→IsUnread :
      (t : PartialTranscript ranges) (e : VerifyError)
      → read_transcript json ranges lib t ≡ err e
      → IsUnread t e
  unfolding read_transcript
  read→IsUnread t e h = elim (failed (map_err http (lib.parse_request t.sent_unsafe)) _ h) [
    | inl f ↦ let (why, g, same) = map_err-eq-err http _ f in subst (IsUnread t) same (inl g)
    | inr (request, request_e, h1) ↦
        let sent = map_err-eq-ok http _ request_e in
        elim (failed
          (require (is_subset ranges request.indices t.sent_authed) (coverage "request line")) _
          h1) [
            | inl f ↦
                let (outside, same) = require-eq-err _ (coverage "request line") f in
                subst (IsUnread t) same
                  (inl (request, sent, not-IsWithin request.indices t.sent_authed outside, refl))
            | inr (_, line_e, h2) ↦
                let covered =
                  (is_subset_iff ranges request.indices t.sent_authed).0
                    (require-eq-ok _ (coverage "request line") line_e) in
                elim (failed (map_err http (lib.parse_response t.received_unsafe)) _ h2) [
                  | inl f ↦
                      let (why, g, same) = map_err-eq-err http _ f in
                      subst (IsUnread t) same (inr (request, (sent, covered), g))
                  | inr (response, response_e, h3) ↦
                      IsUnread-response t request response e (sent, covered)
                        (map_err-eq-ok http _ response_e) h3
                ]
          ]
  ]

  not_within : (a b : ranges.RangeSet) → (¬ IsWithin ranges a b) → is_subset ranges a b ≡ false
  not_within a b n = elim (Bool-cases (is_subset ranges a b)) [
    | inl w ↦ absurd (n ((is_subset_iff ranges a b).0 w))
    | inr f ↦ f
  ]

  IsUnread→read :
      (t : PartialTranscript ranges) (e : VerifyError)
      → IsUnread t e
      → read_transcript json ranges lib t ≡ err e
  unfolding read_transcript
  IsUnread→read t (http e) (inl f) = rw f refl
  IsUnread→read t (http e) (inr (request, (sent, covered), f)) =
      rw (sent, (is_subset_iff ranges _ _).1 covered, f) refl
  IsUnread→read t (coverage part) (inl (request, sent, outside, same)) =
      rw (sent, not_within _ _ outside, same) refl
  IsUnread→read t (coverage part) (inr (request, r, (sent, covered), parsed, inl (outside, same))) =
      rw (sent, (is_subset_iff ranges _ _).1 covered, parsed, not_within _ _ outside, same) refl
  IsUnread→read t (coverage part)
        (inr (request, r, (sent, covered), parsed, inr (full, gone, same))) =
      rw
        (
          sent,
          (is_subset_iff ranges _ _).1 covered,
          parsed,
          (is_subset_iff ranges _ _).1 full,
          gone,
          same,
        )
        refl
  IsUnread→read t VerifyError.json (request, r, body, (sent, covered), parsed, full, has, f) =
      rw
        (
          sent,
          (is_subset_iff ranges _ _).1 covered,
          parsed,
          (is_subset_iff ranges _ _).1 full,
          has,
          f,
        )
        refl
  IsUnread→read t VerifyError.deserialize u = absurd u
  IsUnread→read t untrusted_notary u = absurd u
  IsUnread→read t (verification e) u = absurd u
  IsUnread→read t missing_server_name u = absurd u
  IsUnread→read t missing_transcript u = absurd u

  pub IsUnread-iff :
      (t : PartialTranscript ranges) (e : VerifyError)
      → (read_transcript json ranges lib t ≡ err e) ↔ IsUnread t e
  IsUnread-iff t e = (read→IsUnread t e, IsUnread→read t e)
