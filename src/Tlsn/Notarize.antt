-- ===== src/Tlsn/Notarize.antt =====
-- crates/tlsn-demo/webproof-tlsn/src/notarize.rs: the notarization of one HTTPS GET request, by the
-- decisions that the prover and the in-process notary take between the calls of the `tlsn` release,
-- which is a parameter. The notary answers the request that the prover sends it; a run that does not
-- end, such as a deadlock of the two sessions, is the timeout.
pub mod Attested
use webproof_solana.Prelude.{
  ℕ, ◌+◌, ◌%◌, ◌^◌, Bool, true, false, ◌==◌, Option, none, some, List, [], ◌∷◌, ◌++◌, Bytes, codes,
  length, Result, ok, err, ◌>>=◌, ◌>>◌, require, ok_or, map_err, All, IsByte,
}

pub data ServerTrust : Type 0 where
  mozilla : ServerTrust
  custom : List Bytes → ServerTrust

pub record NotarizeConfig : Type 0 where
  pub server_addr : Bytes × ℕ
  pub server_name : Bytes
  pub uri : Bytes
  pub extra_headers : List (Bytes × Bytes)
  pub server_trust : ServerTrust
  pub max_sent_data : ℕ
  pub max_recv_data : ℕ
  pub notary_key : Bytes

-- The content types of TLS records, as far as the code tells them apart.
pub data ContentType : Type 0 where
  application_data other_type : ContentType

pub record TlsRecord : Type 0 where
  pub typ : ContentType
  pub ciphertext : Bytes

-- `V1_2` holds the ephemeral key of the server.
pub data CertBinding : Type 0 where
  v1_2 : Bytes → CertBinding
  other_binding : CertBinding

pub record TlsTranscript : Type 0 where
  pub time : ℕ
  pub version : Bytes
  pub sent : List TlsRecord
  pub recv : List TlsRecord
  pub certificate_binding : CertBinding

pub record ConnectionInfo : Type 0 where
  pub time : ℕ
  pub version : Bytes
  pub sent_length : ℕ
  pub received_length : ℕ

pub data VerifierCommitStart : Type 0 where
  mpc proxy : VerifierCommitStart

pub record HttpGet : Type 0 where
  pub uri : Bytes
  pub headers : List (Bytes × Bytes)

-- What the code takes from the `tlsn` release, hyper and the network. An error is its text.
pub record Mpc : Type 1 where
  pub Request : Type 0
  pub Attestation : Type 0
  pub Secrets : Type 0
  pub Commitments : Type 0
  pub mozilla_roots : List Bytes
  -- The notary's side: up to its view of the session, the attestation, and the end of its socket.
  pub commit : List Bytes → Result Bytes VerifierCommitStart
  pub run : Result Bytes (Commitments × TlsTranscript)
  pub from_bytes : Bytes → Option Bytes
  pub build_attestation :
      Bytes → Request → ConnectionInfo → Bytes → Commitments → Result Bytes Attestation
  pub close : Result Bytes (Unit {0})
  -- The prover's side: the connection with its limits and the answer's status.
  pub connect : ℕ → ℕ → Bytes × ℕ → Bytes → List Bytes → Result Bytes (Unit {0})
  pub send_request : HttpGet → Result Bytes ℕ
  -- Its session when the connection has ended, what it commits to (by the default strategy over the
  -- parsed transcript), the two configurations, and the proof to the notary.
  pub ProverSession : Type 0
  pub TranscriptCommit : Type 0
  pub RequestConfig : Type 0
  pub ProveConfig : Type 0
  pub ProverOutput : Type 0
  pub prover_task : Result Bytes ProverSession
  pub commit_transcript : ProverSession → Result Bytes TranscriptCommit
  pub request_config : TranscriptCommit → Result Bytes RequestConfig
  pub transcript_commit : RequestConfig → Option TranscriptCommit
  pub prove_config : ProverSession → Option TranscriptCommit → Result Bytes ProveConfig
  pub prove : ProverSession → ProveConfig → Result Bytes ProverOutput
  pub close_prover : ProverSession → Result Bytes (Unit {0})
  -- What its session saw of the handshake, and the request over all of it.
  pub server_cert_chain : ProverSession → Option (List Bytes)
  pub server_signature : ProverSession → Option Bytes
  pub certificate_binding : ProverSession → CertBinding
  pub build_request :
      RequestConfig
      → Bytes
      → List Bytes × Bytes × CertBinding
      → ProverSession
      → ProverOutput
      → Result Bytes (Request × Secrets)
  pub validate : Request → Attestation → Result Bytes (Unit {0})
  pub verifying_key : Attestation → Bytes
  pub verifying_key-bytes : (attestation : Attestation) → All IsByte (verifying_key attestation)

pub data NotarizeError : Type 0 where
  library notary_failed : Bytes → NotarizeError
  server_status : ℕ → NotarizeError
  proxy_rejected unsupported_binding invalid_key no_cert_chain no_signature no_attestation
        timed_out :
      NotarizeError

pub record NotarizedSession (lib : Mpc) : Type 0 where
  pub attestation : lib.Attestation
  pub secrets : lib.Secrets
  pub notary_verifying_key : Bytes

abbrev pub user_agent : Bytes
user_agent = codes "webproof-tlsn/0.1"

-- The headers in the order in which they are added.
unfoldable pub request_for : NotarizeConfig → HttpGet
request_for config = record {
  uri = config.uri;
  headers =
      (codes "Host", config.server_name)
      ∷ (codes "Accept", codes "*/*")
      ∷ (codes "Accept-Encoding", codes "identity")
      ∷ (codes "Connection", codes "close")
      ∷ (codes "User-Agent", user_agent)
      ∷ config.extra_headers;
}

-- What `filter_map` keeps of a record.
abbrev pub record_len : ContentType → Bytes → ℕ
record_len application_data ciphertext = length ciphertext
record_len other_type ciphertext = 0

-- The lengths that are kept, summed.
unfoldable pub application_data_len : List TlsRecord → ℕ
application_data_len [] = 0
application_data_len (r ∷ rest) = record_len r.typ r.ciphertext + application_data_len rest

-- `n as u32`
abbrev pub as_u32 : ℕ → ℕ
as_u32 n = n % 2 ^ 32

unfoldable pub connection_info : TlsTranscript → ConnectionInfo
connection_info t = record {
  time = t.time;
  version = t.version;
  sent_length = as_u32 (application_data_len t.sent);
  received_length = as_u32 (application_data_len t.recv);
}

abbrev pub expect_mpc : VerifierCommitStart → Result NotarizeError (Unit {0})
expect_mpc mpc = ok tt
expect_mpc proxy = err proxy_rejected

abbrev pub expect_v1_2 : CertBinding → Result NotarizeError Bytes
expect_v1_2 (v1_2 server_ephemeral_key) = ok server_ephemeral_key
expect_v1_2 other_binding = err unsupported_binding

module _ (lib : Mpc) where
  unfoldable pub root_store : ServerTrust → List Bytes
  root_store mozilla = lib.mozilla_roots
  root_store (custom roots) = roots

  -- The notary's part up to its view of the session, before it reads a request.
  unfoldable pub notary_view :
      NotarizeConfig → Result NotarizeError (lib.Commitments × TlsTranscript)
  notary_view config = do
    start ← map_err library (lib.commit (root_store config.server_trust))
    expect_mpc start
    map_err library lib.run

  -- The attestation that it builds for a request.
  unfoldable pub attest :
      NotarizeConfig
      → lib.Request
      → lib.Commitments × TlsTranscript
      → Result NotarizeError lib.Attestation
  attest config request (commitments, tls) = do
    signing_key ← ok_or (lib.from_bytes config.notary_key) invalid_key
    binding ← expect_v1_2 tls.certificate_binding
    map_err library
        (lib.build_attestation signing_key request (connection_info tls) binding commitments)

  -- The attestation that the notary sends back, before it closes the socket.
  unfoldable pub notary : NotarizeConfig → lib.Request → Result NotarizeError lib.Attestation
  notary config request = do view ← notary_view config; attest config request view

  -- The request over the session that the prover proves to the notary.
  unfoldable pub attestation_request :
      NotarizeConfig → lib.ProverSession → Result NotarizeError (lib.Request × lib.Secrets)
  attestation_request config session = do
    transcript_commit ← map_err library (lib.commit_transcript session)
    request_config ← map_err library (lib.request_config transcript_commit)
    disclosure_config ←
        map_err library (lib.prove_config session (lib.transcript_commit request_config))
    output ← map_err library (lib.prove session disclosure_config)
    map_err library (lib.close_prover session)
    certs ← ok_or (lib.server_cert_chain session) no_cert_chain
    sig ← ok_or (lib.server_signature session) no_signature
    map_err library (
        lib.build_request request_config config.server_name
          (certs, sig, lib.certificate_binding session) session output)

  -- The prover's part up to the request that it sends.
  unfoldable pub prover_request : NotarizeConfig → Result NotarizeError (lib.Request × lib.Secrets)
  prover_request config = do
    map_err library (
        lib.connect config.max_sent_data config.max_recv_data config.server_addr config.server_name
          (root_store config.server_trust))
    status ← map_err library (lib.send_request (request_for config))
    require (status == 200) (server_status status)
    session ← map_err library lib.prover_task
    attestation_request config session

  -- What it makes of the answer, which is missing if the notary has failed.
  unfoldable pub accept_attestation :
      lib.Request × lib.Secrets
      → Option lib.Attestation
      → Result NotarizeError (NotarizedSession lib)
  accept_attestation (request, secrets) answer = do
    attestation ← ok_or answer no_attestation
    map_err library (lib.validate request attestation)
    ok (record {
      attestation = attestation;
      secrets = secrets;
      notary_verifying_key = lib.verifying_key attestation;
    })

  -- The exchange with the notary is the function that answers a request.
  unfoldable pub prover :
      NotarizeConfig
      → (lib.Request → Option lib.Attestation)
      → Result NotarizeError (NotarizedSession lib)
  prover config exchange = do
    sent ← prover_request config
    accept_attestation sent (exchange sent.0)

  abbrev pub answered : Result NotarizeError lib.Attestation → Option lib.Attestation
  answered (ok attestation) = some attestation
  answered (err e) = none

  -- The prover's result, then the end of the notary's task, which has closed its socket.
  unfoldable pub notarize_inner : NotarizeConfig → Result NotarizeError (NotarizedSession lib)
  notarize_inner config = do
    output ← prover config (λ request. answered (notary config request))
    map_err notary_failed lib.close
    ok output

  -- Whether it ends within 120 seconds is an argument.
  unfoldable pub notarize : Bool → NotarizeConfig → Result NotarizeError (NotarizedSession lib)
  notarize in_time config = do require in_time timed_out; notarize_inner config
