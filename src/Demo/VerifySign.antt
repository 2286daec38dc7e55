-- ===== src/Demo/VerifySign.antt =====
-- crates/tlsn-demo/demo/src/bin/webproof_verify_sign.rs: verify a persisted presentation, and only
-- then sign. The files, the environment, the clock and the random nonce are arguments.
pub mod Trusted
pub mod Issued
pub mod Permitted
pub mod Published
use webproof_solana.Prelude.{
  ℕ, ◌&&◌, Bool, true, false, not, Option, none, some, List, [], ◌∷◌, map, any, filter, is_empty,
  Bytes, codes, bytes_eq, ℤ, as_i64, if◌then◌else◌, Result, ok, err, ◌>>=◌, ◌>>◌, require, ok_or,
  map_err,
}
use webproof_solana.Borsh.{Borsh}
use webproof_solana.Crypto.{Sha256, Ed25519}
use webproof_solana.Verifier.{Json, Url, Error, SignedClaim, ClaimSigner, verify_and_sign}
use webproof_solana.Tlsn.{
  RangeSets, Tlsn, TlsnPresentationVerifier, with_mozilla_roots, with_custom_roots, proof_verifier,
}
use webproof_solana.Tlsn.Present.{to_ascii_lowercase}
use webproof_solana.Demo.Text.{trim, split, parse_i64}
use webproof_solana.Demo.Settings.{Env, Decoders, DemoError, parse_signing_key}

-- The files of the artifact directory, by their names.
abbrev pub Files : Type 0
Files = Bytes → Option Bytes

-- What the code takes from `serde_json` for the request.
pub record RequestJson : Type 1 where
  pub Value : Type 0
  pub from_str : Bytes → Option Value
  pub get_str : Value → Bytes → Option Bytes
  pub get_bool : Value → Bytes → Option Bool

pub data MainError : Type 0 where
  no_file no_variable : Bytes → MainError
  invalid_request : MainError
  missing : Bytes → MainError
  invalid_url no_host invalid_hex not_an_integer clock : MainError
  not_allowed : Bytes → MainError
  demo : DemoError → MainError
  refusing : Error → MainError

unfoldable pub eq_ignore_ascii_case : Bytes → Bytes → Bool
eq_ignore_ascii_case a b = bytes_eq (to_ascii_lowercase a) (to_ascii_lowercase b)

-- The list has the host, up to the case of ASCII letters.
unfoldable pub is_allowed : Bytes → Bytes → Bool
is_allowed allowed expected_host =
    any (λ h. not (is_empty h) && eq_ignore_ascii_case h expected_host)
      (map trim (split 44 allowed))

-- `collect::<Result<Vec<_>, _>>()`
unfoldable pub collect : List (Option Bytes) → Option (List Bytes)
collect [] = some []
collect (none ∷ rest) = none
collect (some a ∷ rest) = elim (collect rest) [ none ↦ none | some l ↦ some (a ∷ l) ]

abbrev unwrap_or {ℓ} : {A : Type ℓ} → Option A → A → A
unwrap_or none a = a
unwrap_or (some x) a = x

module _ (decoders : Decoders) where
  abbrev keys_from : Files → Option Bytes → Result MainError (List Bytes)
  keys_from files (some list) =
      ok_or (collect (map decoders.hex (filter (λ s. not (is_empty s)) (map trim (split 44 list)))))
        invalid_hex
  keys_from files none = do
    text ← ok_or (files (codes "notary-key.hex")) (no_file (codes "notary-key.hex"))
    key ← ok_or (decoders.hex (trim text)) invalid_hex
    ok (key ∷ [])

  unfoldable pub trusted_keys : Files → Env → Result MainError (List Bytes)
  trusted_keys files env = keys_from files (env (codes "WEBPROOF_TRUSTED_NOTARY_KEYS"))

unfoldable pub choose_verifier : Bool → Bytes → List Bytes → TlsnPresentationVerifier
choose_verifier fixture ca_cert_der keys =
    if fixture then with_custom_roots (ca_cert_der ∷ []) keys else with_mozilla_roots keys

-- What the request asks for: the URL, the field, and whether the fixture was notarized.
pub record Expected : Type 0 where
  pub url : Url
  pub field_name : Bytes
  pub fixture : Bool

module _ (requests : RequestJson) (parse : Bytes → Option Url) where
  unfoldable pub read_request : Files → Result MainError Expected
  read_request files = do
    text ← ok_or (files (codes "request.json")) (no_file (codes "request.json"))
    request ← ok_or (requests.from_str text) invalid_request
    raw ← ok_or (requests.get_str request (codes "url")) (missing (codes "url"))
    url ← ok_or (parse raw) invalid_url
    field_name ← ok_or (requests.get_str request (codes "field")) (missing (codes "field"))
    let fixture = unwrap_or (requests.get_bool request (codes "fixture")) false
    ok (record { url = url; field_name = field_name; fixture = fixture })

module _ (json : Json) (ranges : RangeSets) (lib : Tlsn json ranges) (b : Borsh) (sha : Sha256)
    (ed : Ed25519) (decoders : Decoders) (requests : RequestJson) (parse : Bytes → Option Url)
    (ca_cert_der : Bytes) where
  -- The result is the claim that is written to `signed-claim.json`; an error writes nothing.
  unfoldable pub main : Env → Files → Option ℕ → Bytes → Result MainError SignedClaim
  main env files seconds nonce = do
    artifact ←
        ok_or (files (codes "presentation.tlsn.bin")) (no_file (codes "presentation.tlsn.bin"))
    expected ← read_request requests parse files
    allowed ←
        ok_or (env (codes "WEBPROOF_ALLOWED_HOSTS")) (no_variable (codes "WEBPROOF_ALLOWED_HOSTS"))
    expected_host ← ok_or expected.url.host_str no_host
    require (is_allowed allowed expected_host) (not_allowed expected_host)
    keys ← trusted_keys decoders files env
    let verifier = choose_verifier expected.fixture ca_cert_der keys
    signer_key ←
        ok_or (env (codes "WEBPROOF_SIGNER_KEY")) (no_variable (codes "WEBPROOF_SIGNER_KEY"))
    seed ← map_err demo (parse_signing_key decoders signer_key)
    ttl ←
        ok_or (parse_i64 (trim (unwrap_or (env (codes "CLAIM_TTL_SECONDS")) (codes "300"))))
          not_an_integer
    now ← ok_or seconds clock
    map_err refusing (
        verify_and_sign json b sha ed (record { key = seed })
          (proof_verifier json ranges lib verifier) artifact expected.url expected.field_name
          (as_i64 now) ttl nonce)
