-- ===== src/Examples/Steps.antt =====
-- The two steps of crates/tlsn-demo/demo and its spike on one target, and the theorems about them.
use webproof_solana.Prelude.{
  pos, ◌+ℤ◌, ◌-ℤ◌, ℕ, ◌≡◌, refl, arith, true, false, Option, some, none, List, [], ◌∷◌, Bytes,
  codes, replicate, bytes_eq, ok, as_i64, saturating_add, saturating_sub,
}
use webproof_solana.Borsh.Layout.{layout}
use webproof_solana.Core.{validate}
use webproof_solana.Verifier.{JsonView, scalar, build_claim, sign_verified, verify_and_sign}
use webproof_solana.Tlsn.{verify, read_transcript, crypto_provider, is_subset, with_mozilla_roots}
use webproof_solana.Tlsn.Present.{
  build_presentation, is_secret, reveal, reveal_headers, disclosed_part, to_ascii_lowercase,
}
use webproof_solana.Tlsn.Notarize.{
  application_data_len, connection_info, notary, notary_view, attest, prover, prover_request,
  attestation_request, accept_attestation, notarize_inner, notarize,
}
use webproof_solana.Demo.Text.{trim, split, replace, starts_with, parse_i64}
use webproof_solana.Demo.Settings.{
  normalize_field, notary_key, env_usize, key_bytes, seed_of, parse_signing_key,
}
use webproof_solana.Demo.Target.{public_target, resolve_target}
use webproof_solana.Demo.VerifySign
use webproof_solana.Demo.VerifySign.{
  Files, RequestJson, eq_ignore_ascii_case, is_allowed, collect, trusted_keys, choose_verifier,
  read_request,
}
use webproof_solana.Demo.Notarize
use webproof_solana.Demo.Notarize.{Disk, Encoders, write_files}
use webproof_solana.Demo.Notarize.HandedOver.{IsHandedOver, main-IsHandedOver}
use webproof_solana.Demo.Spike
use webproof_solana.Demo.Spike.{Shown, session_verifier}
use webproof_solana.Demo.Spike.Proven.{IsShown, main-IsShown}
use webproof_solana.Examples.{toy_runtime, toy_json, toy_sha, toy_ed25519, url, signed_out}
use webproof_solana.Demo.VerifySign.Published.{main_is_published}
use webproof_solana.Program.Ledger.{Ledger}
use webproof_solana.Program.Instructions.{submit_claim}
use webproof_solana.Program.Registry.{registry, entry}
use webproof_solana.Examples.Chain.{
  submitter, configuration, sysvar, submit_accounts, claim, configured, submittable,
}
use webproof_solana.Examples.Hex.{hex_encode, hex_decode}
use webproof_solana.Examples.Presentations.{toy_ranges, toy_tlsn, has, minus}
use webproof_solana.Examples.Disclosures.{toy_builders}
use webproof_solana.Examples.Sessions.{toy_mpc}
use webproof_solana.Examples.Settings.{toy_net, target_env, sign_env}
use webproof_solana.Examples.Disks.{hex_decoders, print, flat_requests, flat_encoders, put, memory}

abbrev bincode : List ℕ × List ℕ → Option Bytes
bincode p = some (codes "proof")

abbrev left : Files
left = put (codes "request.json") (print (url.as_str, codes "/price", false)) (
    put (codes "notary-key.hex") (hex_encode (replicate 33 4))
      (put (codes "presentation.tlsn.bin") (codes "proof") (λ a. none)))

first_step :
    Notarize.main hex_decoders toy_net flat_requests flat_encoders toy_ranges
      (toy_mpc 200)
      toy_builders
      bincode
      memory
      target_env
      true
      (λ a. none)
    ≡ ok left
unfolding Notarize.main write_files resolve_target public_target notary_key env_usize
    normalize_field trim starts_with replace bytes_eq build_presentation reveal reveal_headers
    disclosed_part is_secret to_ascii_lowercase application_data_len connection_info notary prover
    notarize_inner notarize prover_request attestation_request accept_attestation notary_view attest
first_step = refl

second_step :
    VerifySign.main toy_json toy_ranges toy_tlsn layout toy_sha toy_ed25519 hex_decoders
      flat_requests toy_net.parse toy_net.ca_cert_der sign_env left
      (some 100)
      (replicate 32 9)
    ≡ ok signed_out
unfolding VerifySign.main read_request is_allowed eq_ignore_ascii_case collect trusted_keys
    choose_verifier to_ascii_lowercase trim split parse_i64 as_i64 parse_signing_key key_bytes
    seed_of starts_with verify_and_sign sign_verified build_claim scalar bytes_eq validate
    saturating_add saturating_sub verify read_transcript crypto_provider is_subset
    with_mozilla_roots minus has hex_encode hex_decode
second_step = refl

no_keys_set : sign_env (codes "WEBPROOF_TRUSTED_NOTARY_KEYS") ≡ none
unfolding bytes_eq
no_keys_set = refl

main-IsHandedOver_example :
    IsHandedOver hex_decoders toy_net flat_requests flat_encoders toy_ranges
      (toy_mpc 200)
      toy_builders
      bincode
      memory
      target_env
      sign_env
      left
main-IsHandedOver_example =
    main-IsHandedOver hex_decoders toy_net flat_requests flat_encoders toy_ranges (toy_mpc 200)
      toy_builders bincode memory target_env sign_env true (λ a. none) left no_keys_set first_step

abbrev shown : Shown toy_json
shown = record {
  host = codes "api.example.com";
  field_name = codes "/price";
  value = (codes "/price", JsonView.string (codes "12.34")) ∷ [];
}

spiked :
    Spike.main hex_decoders toy_net toy_json toy_ranges
      (toy_mpc 200)
      toy_builders
      bincode
      toy_tlsn
      target_env
      true
    ≡ ok shown
unfolding Spike.main session_verifier resolve_target public_target notary_key env_usize
    normalize_field trim starts_with replace bytes_eq build_presentation reveal reveal_headers
    disclosed_part is_secret to_ascii_lowercase application_data_len connection_info notary prover
    notarize_inner notarize prover_request attestation_request accept_attestation notary_view attest
    verify read_transcript crypto_provider is_subset with_mozilla_roots minus has
spiked = refl

main-IsShown_example :
    IsShown hex_decoders toy_net toy_json toy_ranges
      (toy_mpc 200)
      toy_builders
      bincode
      toy_tlsn
      target_env
      shown
main-IsShown_example =
    main-IsShown hex_decoders toy_net toy_json toy_ranges (toy_mpc 200) toy_builders bincode
      toy_tlsn target_env true shown spiked

main_is_published_example :
    (l' : Ledger) × (submit_claim toy_runtime layout toy_sha
        (some (pos 350))
        sysvar
        submit_accounts
        claim
        signed_out.claim_id
        configured
      ≡ ok l')
    × ((registry toy_runtime l').claims signed_out.claim_id
        ≡ some (entry signed_out.claim submitter.key (pos 350)))
unfolding ◌+ℤ◌ ◌-ℤ◌
main_is_published_example =
    main_is_published toy_json toy_ranges toy_tlsn layout toy_sha toy_ed25519 hex_decoders
      flat_requests toy_net.parse toy_net.ca_cert_der toy_runtime sign_env left (some 100)
      (replicate 32 9) signed_out sysvar submit_accounts configured configuration (pos 350)
      second_step submittable (omega arith) (omega arith) (omega arith) (omega arith) (omega arith)
      (omega arith)
