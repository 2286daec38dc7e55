-- ===== src/Examples/Settings.antt =====
-- Environments and files for crates/tlsn-demo/demo, and the theorems about it at these inputs.
use webproof_solana.Prelude.{
  ℕ, ◌+◌, ltb, ◌≡◌, ◌↔◌, ◌⊎◌, refl, true, false, Option, some, none, List, [], ◌∷◌, ◌++◌, Bytes,
  codes, replicate, length, bytes_eq, if◌then◌else◌, ok, negsuc, as_i64, saturating_add,
  saturating_sub,
}
use webproof_solana.Borsh.Layout.{layout}
use webproof_solana.Core.{validate}
use webproof_solana.Verifier.{scalar, build_claim, sign_verified, verify_and_sign}
use webproof_solana.Tlsn.{verify, read_transcript, crypto_provider, is_subset, with_mozilla_roots}
use webproof_solana.Tlsn.Present.{to_ascii_lowercase}
use webproof_solana.Demo.Text.{trim, split, replace, starts_with, parse_i64}
use webproof_solana.Demo.Settings.{
  Env, Decoders, normalize_field, notary_key, env_usize, key_bytes, seed_of, parse_signing_key,
}
use webproof_solana.Demo.Settings.Fields.{normalize_field-segments}
use webproof_solana.Demo.Settings.Numbers.{IsSetting, env_usize_iff}
use webproof_solana.Demo.Settings.Keys.{IsSeedOf, IsKeyText, IsNotaryKey, parse_signing_key_iff}
use webproof_solana.Tlsn.Fixture.{Tcp}
use webproof_solana.Tlsn.Notarize.{mozilla}
use webproof_solana.Demo.Target.{DemoTarget, Network, public_target, resolve_target}
use webproof_solana.Demo.Target.Public.{IsPublic}
use webproof_solana.Demo.Target.Resolved.{IsFixture, resolve_target-IsResolved}
use webproof_solana.Demo.VerifySign.{
  Files, RequestJson, eq_ignore_ascii_case, is_allowed, collect, trusted_keys, choose_verifier,
  read_request, main,
}
use webproof_solana.Demo.VerifySign.Permitted.{IsPermitted, main-IsPermitted}
use webproof_solana.Examples.{toy_json, toy_sha, toy_ed25519, url, signed_out}
use webproof_solana.Examples.Presentations.{toy_ranges, toy_tlsn, notary_key as toy_key, has, minus}

trimmed : trim (codes "  a b\n") ≡ codes "a b"
unfolding trim
trimmed = refl

parsed : parse_i64 (codes "-9223372036854775808") ≡ some (negsuc 9223372036854775807)
unfolding parse_i64
parsed = refl

too_large : parse_i64 (codes "9223372036854775808") ≡ none
unfolding parse_i64
too_large = refl

dotted : normalize_field (codes "meta.version") ≡ codes "/meta/version"
unfolding normalize_field starts_with replace
dotted = refl

dotted_segments :
    (split 47 (normalize_field (codes "meta.version")) ≡ [] ∷ split 46 (codes "meta.version"))
    × (normalize_field (normalize_field (codes "meta.version"))
        ≡ normalize_field (codes "meta.version"))
dotted_segments = normalize_field-segments (codes "meta.version") refl

abbrev toy_decoders : Decoders
toy_decoders = record { hex = λ s. some s; base58 = λ s. some s; json_bytes = λ s. none }

parse_signing_key_iff_example :
    (parse_signing_key toy_decoders (replicate 32 7 ++ replicate 32 8) ≡ ok (replicate 32 7)) ↔ (
      (bytes : Bytes) × IsKeyText toy_decoders (trim (replicate 32 7 ++ replicate 32 8)) bytes
      × IsSeedOf (replicate 32 7) bytes)
parse_signing_key_iff_example =
    parse_signing_key_iff toy_decoders (replicate 32 7 ++ replicate 32 8) (replicate 32 7)

keypair : parse_signing_key toy_decoders (replicate 32 7 ++ replicate 32 8) ≡ ok (replicate 32 7)
unfolding parse_signing_key key_bytes seed_of trim starts_with
keypair = refl

abbrev pub find : List (Bytes × Bytes) → Bytes → Option Bytes
find [] name = none
find ((key, value) ∷ rest) name = if bytes_eq key name then some value else find rest name

-- Three connections, then a failure.
abbrev pub toy_tcp : Tcp
toy_tcp = record {
  Listener = Bytes × ℕ;
  Socket = ℕ;
  bind = λ addr. ok addr;
  local_port = λ addr. ok 4000;
  accept = λ addr i. if ltb i 3 then some (100 + i) else none;
}

env_usize_iff_example :
    (env_usize (find ((codes "DEMO_MAX_SENT", codes " 8192\n") ∷ [])) "DEMO_MAX_SENT" 4096
      ≡ ok 8192)
    ↔ IsSetting (find ((codes "DEMO_MAX_SENT", codes " 8192\n") ∷ [])) "DEMO_MAX_SENT" 4096 8192
env_usize_iff_example =
    env_usize_iff (find ((codes "DEMO_MAX_SENT", codes " 8192\n") ∷ [])) "DEMO_MAX_SENT" 4096 8192

abbrev pub toy_net : Network
toy_net = record {
  parse = λ raw. some url;
  tcp = toy_tcp;
  server_domain = codes "test-server.io";
  ca_cert_der = 9 ∷ [];
}

abbrev pub target_env : Env
target_env = find (
    (codes "DEMO_URL", codes " https://api.example.com/data ")
    ∷ (codes "DEMO_FIELD", codes "price")
    ∷ [])

abbrev pub target : DemoTarget
target = record {
  url = url;
  field_name = codes "/price";
  notarize = record {
    server_addr = (codes "api.example.com", 443);
    server_name = codes "api.example.com";
    uri = codes "/data";
    extra_headers = [];
    server_trust = mozilla;
    max_sent_data = 4096;
    max_recv_data = 16384;
    notary_key = replicate 32 1;
  };
  fixture = false;
}

resolved : resolve_target toy_decoders toy_net target_env ≡ ok target
unfolding resolve_target public_target notary_key env_usize normalize_field trim bytes_eq
    starts_with replace
resolved = refl

resolve_target-IsResolved_example :
    (starts_with 47 target.field_name ≡ true)
    × (length target.notarize.notary_key ≡ 32)
    × IsNotaryKey toy_decoders target_env target.notarize.notary_key
    × IsSetting target_env "DEMO_MAX_SENT" 4096 4096
    × IsSetting target_env "DEMO_MAX_RECV" 16384 16384
    × (IsPublic toy_decoders toy_net target_env target
        ⊎ IsFixture toy_decoders toy_net target_env target)
resolve_target-IsResolved_example =
    resolve_target-IsResolved toy_decoders toy_net target_env target resolved

abbrev toy_requests : RequestJson
toy_requests = record {
  Value = Unit {0};
  from_str = λ text. some tt;
  get_str = λ v name.
      if bytes_eq name (codes "url")
      then some (codes "https://api.example.com/data")
      else some (codes "/price");
  get_bool = λ v name. none;
}

abbrev files : Files
files = find (
    (codes "presentation.tlsn.bin", codes "proof")
    ∷ (codes "request.json", codes "{}")
    ∷ (codes "notary-key.hex", toy_key)
    ∷ [])

abbrev pub sign_env : Env
sign_env = find (
    (codes "WEBPROOF_ALLOWED_HOSTS", codes "other.example.com, API.example.com")
    ∷ (codes "WEBPROOF_SIGNER_KEY", replicate 32 7)
    ∷ [])

written :
    main toy_json toy_ranges toy_tlsn layout toy_sha toy_ed25519 toy_decoders toy_requests
      (λ raw. some url)
      (9 ∷ [])
      sign_env
      files
      (some 100)
      (replicate 32 9)
    ≡ ok signed_out
unfolding main read_request is_allowed eq_ignore_ascii_case collect trusted_keys choose_verifier
    to_ascii_lowercase trim split parse_i64 as_i64 parse_signing_key key_bytes seed_of starts_with
    verify_and_sign sign_verified build_claim scalar bytes_eq validate saturating_add saturating_sub
    verify read_transcript crypto_provider is_subset with_mozilla_roots minus has
written = refl

main-IsPermitted_example :
    IsPermitted toy_json toy_ranges toy_tlsn layout toy_sha toy_ed25519 toy_decoders toy_requests
      (λ raw. some url)
      (9 ∷ [])
      sign_env
      files
      signed_out
main-IsPermitted_example =
    main-IsPermitted toy_json toy_ranges toy_tlsn layout toy_sha toy_ed25519 toy_decoders
      toy_requests (λ raw. some url) (9 ∷ []) sign_env files (some 100) (replicate 32 9) signed_out
      written
