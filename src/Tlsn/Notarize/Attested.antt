-- ===== src/Tlsn/Notarize/Attested.antt =====
-- What a notarization by notarize.rs attests.
use webproof_solana.Prelude.{
  ◌∙◌, ◌%◌, ◌^◌, ◌≡◌, refl, ap, subst, arith, Bool, true, ◌==◌, ==_iff, some, List, [], ◌∷◌, ◌++◌,
  Bytes, codes, length, length-append, Result, ok, err, passed, ok_or, ok_or-eq-ok, map_err,
  map_err-eq-ok, require, require-eq-ok, ok-injective,
}
use webproof_solana.Tlsn.Notarize.{
  NotarizeConfig, ContentType, VerifierCommitStart, proxy, other_binding, application_data,
  other_type, TlsRecord, CertBinding, v1_2, TlsTranscript, ConnectionInfo, mpc, Mpc, NotarizeError,
  library, notary_failed, notary_view, attest, prover_request, accept_attestation, server_status,
  invalid_key, no_attestation, no_cert_chain, no_signature, HttpGet, attestation_request, timed_out,
  NotarizedSession, request_for, record_len, application_data_len, as_u32, connection_info,
  expect_mpc, expect_v1_2, root_store, notary, prover, answered, notarize_inner, notarize,
}

abbrev kept : ContentType → Bytes → Bytes
kept application_data ciphertext = ciphertext
kept other_type ciphertext = []

-- The encrypted application data of a direction, in their order.
abbrev pub application_bytes : List TlsRecord → Bytes
application_bytes [] = []
application_bytes (r ∷ rest) = kept r.typ r.ciphertext ++ application_bytes rest

record_len-kept : (t : ContentType) (s : Bytes) → record_len t s ≡ length (kept t s)
record_len-kept application_data s = refl
record_len-kept other_type s = refl

length-application_bytes :
    (records : List TlsRecord) → application_data_len records ≡ length (application_bytes records)
unfolding application_data_len
length-application_bytes [] = refl
length-application_bytes (r ∷ rest) = omega (
  arith,
  record_len-kept r.typ r.ciphertext,
  length-append (kept r.typ r.ciphertext) (application_bytes rest),
  length-application_bytes rest,
)

module _ (lib : Mpc) where
  -- The notary ran MPC-TLS, saw a session, and signed what it saw.
  pub record IsAttested (config : NotarizeConfig) (request : lib.Request)
      (attestation : lib.Attestation) : Type 0 where
    pub commitments : lib.Commitments
    pub tls : TlsTranscript
    pub signing_key : Bytes
    pub server_ephemeral_key : Bytes
    pub info : ConnectionInfo
    pub mpc_only : lib.commit (root_store lib config.server_trust) ≡ ok mpc
    pub seen : lib.run ≡ ok (commitments, tls)
    pub keyed : lib.from_bytes config.notary_key ≡ some signing_key
    pub bound : tls.certificate_binding ≡ v1_2 server_ephemeral_key
    pub built :
        lib.build_attestation signing_key request info server_ephemeral_key commitments
        ≡ ok attestation
    pub timed : (info.time ≡ tls.time) × (info.version ≡ tls.version)
    pub sent_length : info.sent_length ≡ length (application_bytes tls.sent) % 2 ^ 32
    pub received_length : info.received_length ≡ length (application_bytes tls.recv) % 2 ^ 32

  -- The prover proved its commitment to the notary, closed its side, and asks for an attestation of
  -- the commitment, the server's name, and its certificates, signature and binding in the handshake.
  pub record IsRequested (config : NotarizeConfig) (request : lib.Request) (secrets : lib.Secrets)
      : Type 0 where
    pub session : lib.ProverSession
    pub transcript_commit : lib.TranscriptCommit
    pub request_config : lib.RequestConfig
    pub disclosure_config : lib.ProveConfig
    pub output : lib.ProverOutput
    pub certs : List Bytes
    pub sig : Bytes
    pub ended : lib.prover_task ≡ ok session
    pub committed : lib.commit_transcript session ≡ ok transcript_commit
    pub configured : lib.request_config transcript_commit ≡ ok request_config
    pub disclosed :
        lib.prove_config session (lib.transcript_commit request_config) ≡ ok disclosure_config
    pub proved : lib.prove session disclosure_config ≡ ok output
    pub prover_closed : lib.close_prover session ≡ ok tt
    pub chained : lib.server_cert_chain session ≡ some certs
    pub signed : lib.server_signature session ≡ some sig
    pub requested :
        lib.build_request request_config config.server_name
          (certs, sig, lib.certificate_binding session)
          session
          output
        ≡ ok (request, secrets)

  -- The server answered the configured request with status 200, and the attestation over that
  -- session passed the prover's own validation.
  pub record IsNotarized (config : NotarizeConfig) (session : NotarizedSession lib) : Type 0 where
    pub request : lib.Request
    pub get : HttpGet
    pub get_uri : get.uri ≡ config.uri
    pub get_headers : get.headers ≡ (
        (codes "Host", config.server_name)
        ∷ (codes "Accept", codes "*/*")
        ∷ (codes "Accept-Encoding", codes "identity")
        ∷ (codes "Connection", codes "close")
        ∷ (codes "User-Agent", codes "webproof-tlsn/0.1")
        ∷ config.extra_headers)
    pub answered_ok : lib.send_request get ≡ ok 200
    pub is_requested : IsRequested config request session.secrets
    pub attested : IsAttested config request session.attestation
    pub closed : lib.close ≡ ok tt
    pub validated : lib.validate request session.attestation ≡ ok tt
    pub notary_key : session.notary_verifying_key ≡ lib.verifying_key session.attestation

  request→IsRequested :
      (config : NotarizeConfig) (session : lib.ProverSession) (request : lib.Request)
      (secrets : lib.Secrets)
      → lib.prover_task ≡ ok session
      → attestation_request lib config session ≡ ok (request, secrets)
      → IsRequested config request secrets
  unfolding attestation_request
  request→IsRequested config session request secrets ended h =
      let (transcript_commit, e1, h1) =
        passed (map_err library (lib.commit_transcript session)) _ h in
      let (request_config, e2, h2) =
        passed (map_err library (lib.request_config transcript_commit)) _ h1 in
      let (disclosure_config, e3, h3) =
        passed (map_err library (lib.prove_config session (lib.transcript_commit request_config))) _
          h2 in
      let (output, e4, h4) = passed (map_err library (lib.prove session disclosure_config)) _ h3 in
      let (_, e5, h5) = passed (map_err library (lib.close_prover session)) _ h4 in
      let (certs, e6, h6) = passed (ok_or (lib.server_cert_chain session) no_cert_chain) _ h5 in
      let (sig, e7, h7) = passed (ok_or (lib.server_signature session) no_signature) _ h6 in
      record {
        session = session;
        transcript_commit = transcript_commit;
        request_config = request_config;
        disclosure_config = disclosure_config;
        output = output;
        certs = certs;
        sig = sig;
        ended = ended;
        committed = map_err-eq-ok library _ e1;
        configured = map_err-eq-ok library _ e2;
        disclosed = map_err-eq-ok library _ e3;
        proved = map_err-eq-ok library _ e4;
        prover_closed = map_err-eq-ok library _ e5;
        chained = ok_or-eq-ok _ no_cert_chain e6;
        signed = ok_or-eq-ok _ no_signature e7;
        requested = map_err-eq-ok library _ h7;
      }

  mpc_if_expected : (s : VerifierCommitStart) → expect_mpc s ≡ ok tt → s ≡ mpc
  mpc_if_expected mpc h = refl
  mpc_if_expected proxy h = cc

  v1_2_if_expected : (c : CertBinding) {key : Bytes} → expect_v1_2 c ≡ ok key → c ≡ v1_2 key
  v1_2_if_expected (v1_2 k) h = ground arith
  v1_2_if_expected other_binding h = cc

  notary→IsAttested :
      (config : NotarizeConfig) (request : lib.Request) (attestation : lib.Attestation)
      → notary lib config request ≡ ok attestation
      → IsAttested config request attestation
  unfolding notary notary_view attest connection_info
  notary→IsAttested config request attestation h =
      let ((commitments, tls), e0, h0) = passed (notary_view lib config) _ h in
      let (start, e1, h1) =
        passed (map_err library (lib.commit (root_store lib config.server_trust))) _ e0 in
      let (_, e2, h2) = passed (expect_mpc start) _ h1 in
      let (signing_key, e4, h4) =
        passed (ok_or (lib.from_bytes config.notary_key) invalid_key) _ h0 in
      let (binding, e5, h5) = passed (expect_v1_2 tls.certificate_binding) _ h4 in
      record {
        commitments = commitments;
        tls = tls;
        signing_key = signing_key;
        server_ephemeral_key = binding;
        info = connection_info tls;
        mpc_only = map_err-eq-ok library _ e1 ∙ ap ok (mpc_if_expected start e2);
        seen = map_err-eq-ok library _ h2;
        keyed = ok_or-eq-ok _ invalid_key e4;
        bound = v1_2_if_expected _ e5;
        built = map_err-eq-ok library _ h5;
        timed = (refl, refl);
        sent_length = ap as_u32 (length-application_bytes tls.sent);
        received_length = ap as_u32 (length-application_bytes tls.recv);
      }

  answered-eq-some :
      (r : Result NotarizeError lib.Attestation) {a : lib.Attestation}
      → answered lib r ≡ some a
      → r ≡ ok a
  answered-eq-some (ok a) h = ground arith
  answered-eq-some (err e) h = cc

  -- A notarization that succeeds ended in time; the server answered the GET request of the configured
  -- URI, with the server's name and the fixed headers and then the configured ones, with status 200;
  -- the prover committed to that session, proved the commitment and saw a certificate chain and a
  -- signature of the server; the notary had accepted MPC-TLS and no proxy, had a
  -- TLS 1.2 binding, and signed with the configured key the time and version of the session it saw
  -- and, modulo 2^32, the total lengths of the encrypted application data of both directions; the
  -- prover validated that attestation against its request, the notary closed its socket, and reports its verifying key.
  pub notarize-IsNotarized :
      (in_time : Bool) (config : NotarizeConfig) (session : NotarizedSession lib)
      → notarize lib in_time config ≡ ok session
      → (in_time ≡ true) × IsNotarized config session
  unfolding notarize notarize_inner prover prover_request accept_attestation request_for
  notarize-IsNotarized in_time config session h =
      let (_, e0, h0) = passed (require in_time timed_out) _ h in
      let (output, p, h') =
        passed (prover lib config (λ request. answered lib (notary lib config request))) _ h0 in
      let (_, c, h'') = passed (map_err notary_failed lib.close) _ h' in
      let ((request, secrets), r, a) = passed (prover_request lib config) _ p in
      let (_, e1, h1) =
        passed
          (map_err library (
            lib.connect config.max_sent_data config.max_recv_data config.server_addr
              config.server_name (root_store lib config.server_trust)))
          _ r in
      let (status, e2, h2) =
        passed (map_err library (lib.send_request (request_for config))) _ h1 in
      let (_, e3, h3) = passed (require (status == 200) (server_status status)) _ h2 in
      let (mpc_session, e4, h4) = passed (map_err library lib.prover_task) _ h3 in
      let (attestation, e5, h5) =
        passed (ok_or (answered lib (notary lib config request)) no_attestation) _ a in
      let (_, e6, h6) = passed (map_err library (lib.validate request attestation)) _ h5 in
      let found : status ≡ 200 =
        (==_iff status 200).0 (require-eq-ok _ (server_status status) e3) in
      (
        require-eq-ok _ timed_out e0,
        subst (IsNotarized config) (ok-injective h6 ∙ ok-injective h'') (record {
          request = request;
          get = request_for config;
          get_uri = refl;
          get_headers = refl;
          answered_ok = map_err-eq-ok library _ e2 ∙ ap ok found;
          is_requested =
              request→IsRequested config mpc_session request secrets (map_err-eq-ok library _ e4)
                h4;
          attested =
              notary→IsAttested config request attestation
                (answered-eq-some _ (ok_or-eq-ok _ no_attestation e5));
          closed = map_err-eq-ok notary_failed _ c;
          validated = map_err-eq-ok library _ e6;
          notary_key = refl;
        }),
      )
