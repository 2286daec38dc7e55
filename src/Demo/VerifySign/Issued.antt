-- ===== src/Demo/VerifySign/Issued.antt =====
-- When the step of webproof_verify_sign.rs writes a claim, and which.
use webproof_solana.Prelude.{
  ℕ, ◌≡◌, ◌↔◌, refl, arith, ◌&&◌, Bool, true, false, not, Option, some, List, Memᴰ, map, any→member,
  member→any, is_empty, Bytes, codes, bytes_eq_iff, ℤ, as_i64, ok, passed, ok_or, ok_or-eq-ok,
  map_err, map_err-eq-ok, require, require-eq-ok,
}
use webproof_solana.Borsh.{Borsh}
use webproof_solana.Crypto.{Sha256, Ed25519}
use webproof_solana.Verifier.{Json, Url, SignedClaim, verify_and_sign}
use webproof_solana.Tlsn.{RangeSets, Tlsn, proof_verifier}
use webproof_solana.Tlsn.Present.{to_ascii_lowercase}
use webproof_solana.Demo.Text.{trim, split, parse_i64}
use webproof_solana.Demo.Settings.{Env, Decoders, parse_signing_key}
use webproof_solana.Demo.VerifySign.{
  Files, RequestJson, Expected, no_file, no_variable, no_host, not_allowed, demo, not_an_integer,
  clock, refusing, eq_ignore_ascii_case, is_allowed, trusted_keys, choose_verifier, read_request,
  main, unwrap_or,
}

-- A non-empty entry of the comma-separated list that is the host, up to the case of ASCII letters.
pub record IsListed (allowed host : Bytes) : Type 0 where
  pub entry : Bytes
  pub listed : Memᴰ entry (map trim (split 44 allowed))
  pub not_empty : is_empty entry ≡ false
  pub same_host : to_ascii_lowercase entry ≡ to_ascii_lowercase host

abbrev matches : Bytes → Bytes → Bool
matches host s = not (is_empty s) && eq_ignore_ascii_case s host

is_allowed→IsListed :
    (allowed host : Bytes) → is_allowed allowed host ≡ true → IsListed allowed host
unfolding is_allowed eq_ignore_ascii_case
is_allowed→IsListed allowed host h =
    let (entry, m, e) = any→member (matches host) (map trim (split 44 allowed)) h in
    record {
      entry = entry;
      listed = m;
      not_empty = ground (arith, e);
      same_host = (bytes_eq_iff _ _).0 (ground (arith, e));
    }

IsListed→is_allowed :
    (allowed host : Bytes) → IsListed allowed host → is_allowed allowed host ≡ true
unfolding is_allowed eq_ignore_ascii_case
IsListed→is_allowed allowed host l =
    member→any (matches host) (map trim (split 44 allowed)) l.entry l.listed
      (ground (arith, l.not_empty, (bytes_eq_iff _ _).1 l.same_host))

-- The host is in the list exactly if the code's test says so.
pub is_allowed_iff :
    (allowed host : Bytes) → (is_allowed allowed host ≡ true) ↔ IsListed allowed host
is_allowed_iff allowed host = (is_allowed→IsListed allowed host, IsListed→is_allowed allowed host)

module _ (json : Json) (ranges : RangeSets) (lib : Tlsn json ranges) (b : Borsh) (sha : Sha256)
    (ed : Ed25519) (decoders : Decoders) (requests : RequestJson) (parse : Bytes → Option Url)
    (ca_cert_der : Bytes) (env : Env) (files : Files) (seconds : Option ℕ) (nonce : Bytes)
    (out : SignedClaim) where
  -- All that the step reads, and the signer's answer to it.
  pub record IsIssued : Type 0 where
    pub artifact : Bytes
    pub expected : Expected
    pub allowed : Bytes
    pub host : Bytes
    pub keys : List Bytes
    pub signer_key : Bytes
    pub seed : Bytes
    pub ttl : ℤ
    pub now : ℕ
    pub read : files (codes "presentation.tlsn.bin") ≡ some artifact
    pub requested : read_request requests parse files ≡ ok expected
    pub allowed_hosts : env (codes "WEBPROOF_ALLOWED_HOSTS") ≡ some allowed
    pub host_expected : expected.url.host_str ≡ some host
    pub host_listed : IsListed allowed host
    pub trusted : trusted_keys decoders files env ≡ ok keys
    pub signer_set : env (codes "WEBPROOF_SIGNER_KEY") ≡ some signer_key
    pub signer_parsed : parse_signing_key decoders signer_key ≡ ok seed
    pub ttl_parsed :
        parse_i64 (trim (unwrap_or (env (codes "CLAIM_TTL_SECONDS")) (codes "300"))) ≡ some ttl
    pub ticking : seconds ≡ some now
    pub issued :
        verify_and_sign json b sha ed
          (record { key = seed })
          (proof_verifier json ranges lib (choose_verifier expected.fixture ca_cert_der keys))
          artifact
          expected.url
          expected.field_name
          (as_i64 now)
          ttl
          nonce
        ≡ ok out

  main→IsIssued :
      main json ranges lib b sha ed decoders requests parse ca_cert_der env files seconds nonce
        ≡ ok out
      → IsIssued
  unfolding main
  main→IsIssued h =
      let (artifact, e1, h1) =
        passed
          (ok_or (files (codes "presentation.tlsn.bin")) (no_file (codes "presentation.tlsn.bin")))
          _ h in
      let (expected, e2, h2) = passed (read_request requests parse files) _ h1 in
      let (allowed, e3, h3) =
        passed
          (ok_or (env (codes "WEBPROOF_ALLOWED_HOSTS"))
            (no_variable (codes "WEBPROOF_ALLOWED_HOSTS")))
          _ h2 in
      let (host, e4, h4) = passed (ok_or expected.url.host_str no_host) _ h3 in
      let (_, e5, h5) = passed (require (is_allowed allowed host) (not_allowed host)) _ h4 in
      let (keys, e6, h6) = passed (trusted_keys decoders files env) _ h5 in
      let (signer_key, e7, h7) =
        passed
          (ok_or (env (codes "WEBPROOF_SIGNER_KEY")) (no_variable (codes "WEBPROOF_SIGNER_KEY"))) _
          h6 in
      let (seed, e8, h8) = passed (map_err demo (parse_signing_key decoders signer_key)) _ h7 in
      let (ttl, e9, h9) =
        passed
          (ok_or (parse_i64 (trim (unwrap_or (env (codes "CLAIM_TTL_SECONDS")) (codes "300"))))
            not_an_integer)
          _ h8 in
      let (now, e10, h10) = passed (ok_or seconds clock) _ h9 in
      record {
        artifact = artifact;
        expected = expected;
        allowed = allowed;
        host = host;
        keys = keys;
        signer_key = signer_key;
        seed = seed;
        ttl = ttl;
        now = now;
        read = ok_or-eq-ok _ (no_file (codes "presentation.tlsn.bin")) e1;
        requested = e2;
        allowed_hosts = ok_or-eq-ok _ (no_variable (codes "WEBPROOF_ALLOWED_HOSTS")) e3;
        host_expected = ok_or-eq-ok _ no_host e4;
        host_listed = is_allowed→IsListed allowed host (require-eq-ok _ (not_allowed host) e5);
        trusted = e6;
        signer_set = ok_or-eq-ok _ (no_variable (codes "WEBPROOF_SIGNER_KEY")) e7;
        signer_parsed = map_err-eq-ok demo _ e8;
        ttl_parsed = ok_or-eq-ok _ not_an_integer e9;
        ticking = ok_or-eq-ok _ clock e10;
        issued = map_err-eq-ok refusing _ h10;
      }

  IsIssued→main :
      IsIssued
      → main json ranges lib b sha ed decoders requests parse ca_cert_der env files seconds nonce
        ≡ ok out
  unfolding main
  IsIssued→main i =
      rw
        (
          i.read,
          i.requested,
          i.allowed_hosts,
          i.trusted,
          i.signer_set,
          i.signer_parsed,
          i.ttl_parsed,
          i.ticking,
          i.issued,
          i.host_expected,
          IsListed→is_allowed i.allowed i.host i.host_listed,
        )
        refl

  -- The step writes a claim exactly if: the artifact and a request with a URL, a field and perhaps a
  -- fixture mark are there; the URL's host is in the allowlist that must be set; the trusted keys, the
  -- signing key and the lifetime parse and the clock answers; and the signer, behind the verifier for
  -- these keys, signs that claim for that URL, field, time and lifetime.
  pub main_iff :
      (main json ranges lib b sha ed decoders requests parse ca_cert_der env files seconds nonce
        ≡ ok out)
      ↔ IsIssued
  main_iff = (main→IsIssued, IsIssued→main)
