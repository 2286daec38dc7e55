-- ===== src/Examples/Sessions.antt =====
-- A toy MPC-TLS library, one session over it, and the theorem about notarize.rs at this session.
use webproof_solana.Prelude.{
  ℕ, ◌≡◌, refl, true, some, [], ◌∷◌, Bytes, codes, replicate, ok, err, arith,
}
use webproof_solana.Tlsn.Present.{HttpTranscript}
use webproof_solana.Examples.Presentations.{toy_ranges}
use webproof_solana.Examples.Disclosures.{exchange}
use webproof_solana.Tlsn.Notarize.{
  mozilla, NotarizeConfig, application_data, other_type, v1_2, TlsTranscript, ConnectionInfo, mpc,
  Mpc, NotarizedSession, server_status, application_data_len, connection_info, notary, notary_view,
  attest, prover, prover_request, attestation_request, accept_attestation, notarize_inner, notarize,
}
use webproof_solana.Tlsn.Notarize.Attested.{IsNotarized, notarize-IsNotarized}

abbrev seen : TlsTranscript
seen = record {
  time = 1700000000;
  version = codes "1.2";
  sent =
      record { typ = other_type; ciphertext = replicate 5 0 }
      ∷ record { typ = application_data; ciphertext = replicate 3 1 }
      ∷ record { typ = application_data; ciphertext = replicate 4 2 }
      ∷ [];
  recv = record { typ = application_data; ciphertext = replicate 9 3 } ∷ [];
  certificate_binding = v1_2 (replicate 32 6);
}

-- The server answers with a given status; an attestation is its connection information.
abbrev pub toy_mpc : ℕ → Mpc
toy_mpc status = record {
  Request = Bytes;
  Attestation = ConnectionInfo;
  Secrets = HttpTranscript toy_ranges;
  Commitments = Unit {0};
  mozilla_roots = replicate 32 8 ∷ [];
  commit = λ roots. ok mpc;
  run = ok (tt, seen);
  from_bytes = λ key. some key;
  build_attestation = λ key request info binding commitments. ok info;
  close = ok tt;
  connect = λ max_sent max_recv addr name roots. ok tt;
  send_request = λ get. ok status;
  ProverSession = Unit {0};
  TranscriptCommit = Unit {0};
  RequestConfig = Unit {0};
  ProveConfig = Unit {0};
  ProverOutput = Unit {0};
  prover_task = ok tt;
  commit_transcript = λ session. ok tt;
  request_config = λ transcript_commit. ok transcript_commit;
  transcript_commit = λ request_config. some request_config;
  prove_config = λ session transcript_commit. ok tt;
  prove = λ session disclosure_config. ok tt;
  close_prover = λ session. ok tt;
  server_cert_chain = λ session. some (replicate 10 7 ∷ []);
  server_signature = λ session. some (replicate 64 5);
  certificate_binding = λ session. v1_2 (replicate 32 6);
  build_request = λ config name handshake session output. ok (name, exchange);
  validate = λ request attestation. ok tt;
  verifying_key = λ attestation. replicate 33 4;
  verifying_key-bytes = λ attestation. omega arith;
}

abbrev pub get_price : NotarizeConfig
get_price = record {
  server_addr = (codes "api.example.com", 443);
  server_name = codes "api.example.com";
  uri = codes "/data";
  extra_headers = [];
  server_trust = mozilla;
  max_sent_data = 4096;
  max_recv_data = 16384;
  notary_key = replicate 32 1;
}

abbrev pub session : NotarizedSession (toy_mpc 200)
session = record {
  attestation = record {
    time = 1700000000;
    version = codes "1.2";
    sent_length = 7;
    received_length = 9;
  };
  secrets = exchange;
  notary_verifying_key = replicate 33 4;
}

notarized : notarize (toy_mpc 200) true get_price ≡ ok session
unfolding notarize notarize_inner prover prover_request attestation_request accept_attestation
    notary notary_view attest connection_info application_data_len
notarized = refl

not_found : notarize (toy_mpc 404) true get_price ≡ err (server_status 404)
unfolding notarize notarize_inner prover prover_request
not_found = refl

notarize-IsNotarized_example : (true ≡ true) × IsNotarized (toy_mpc 200) get_price session
notarize-IsNotarized_example = notarize-IsNotarized (toy_mpc 200) true get_price session notarized
