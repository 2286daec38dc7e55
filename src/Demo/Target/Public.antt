-- ===== src/Demo/Target/Public.antt =====
-- The target that a set URL of the demo resolves to.
use webproof_solana.Prelude.{
  ℕ, ◌∙◌, ok-injective, subst, ◌&&◌, not, ◌≡◌, ◌≢◌, sym, ◌⊎◌, inl, inr, refl, ap, arith, true,
  false, Option, Option-cases, none, some, [], ◌∷◌, ◌++◌, Bytes, codes, is_empty, bytes_eq_iff,
  bytes_eq, ok, passed, ok_or, ok_or-eq-ok, require, require-eq-ok,
}
use webproof_solana.Demo.Text.{trim, starts_with}
use webproof_solana.Demo.Settings.{
  Env, Decoders, normalize_field, invalid_url, not_https, no_host, credentials, not_set,
}
use webproof_solana.Verifier.{Url}
use webproof_solana.Demo.Settings.Fields.{IsPointer, normalize_field-IsPointer}
use webproof_solana.Tlsn.Notarize.{mozilla}
use webproof_solana.Demo.Target.{DemoTarget, Network, uri_of, unwrap_or, is_some, public_target}

module _ (lib : Decoders) (net : Network) (env : Env) where
  -- The path, followed by the query if there is one.
  abbrev pub IsUri : Url → Bytes → Type 0
  IsUri url uri =
      ((url.query ≡ none) × (uri ≡ url.path))
      ⊎ ((query : Bytes) × (url.query ≡ some query) × (uri ≡ url.path ++ (codes "?" ++ query)))

  abbrev pub IsPort : Url → ℕ → Type 0
  IsPort url port = ((url.port ≡ none) × (port ≡ 443)) ⊎ (url.port ≡ some port)

  -- The set URL is notarized: https without credentials, its own host as the server name, the
  -- public roots.
  pub record IsPublic (t : DemoTarget) : Type 0 where
    pub raw : Bytes
    pub url_set : env (codes "DEMO_URL") ≡ some raw
    pub not_blank : trim raw ≢ []
    pub parsed : net.parse (trim raw) ≡ some t.url
    pub https : t.url.scheme ≡ codes "https"
    pub no_credentials : (t.url.username ≡ []) × (t.url.password ≡ none)
    pub server_name : t.url.host_str ≡ some t.notarize.server_name
    pub port : ℕ
    pub url_port : IsPort t.url port
    pub server_addr : t.notarize.server_addr ≡ (t.notarize.server_name, port)
    pub uri : IsUri t.url t.notarize.uri
    pub extra_headers : t.notarize.extra_headers ≡ []
    pub field_set : Bytes
    pub field_given : env (codes "DEMO_FIELD") ≡ some field_set
    pub pointer : IsPointer field_set t.field_name
    pub server_trust : t.notarize.server_trust ≡ mozilla
    pub fixture : t.fixture ≡ false

  pub starts-normalize_field : (s : Bytes) → starts_with 47 (normalize_field s) ≡ true
  unfolding normalize_field starts_with
  starts-normalize_field s = ground arith

  no_password : (o : Option Bytes) → is_some o ≡ false → o ≡ none
  no_password none h = refl
  no_password (some s) h = cc

  pub empty_text : (s : Bytes) → is_empty s ≡ true → s ≡ []
  empty_text [] h = refl
  empty_text (x ∷ xs) h = cc

  uri_of-IsUri : (url : Url) → IsUri url (uri_of url.path url.query)
  uri_of-IsUri url = elim (Option-cases url.query) [
    | inl e ↦ inl (e, ap (uri_of url.path) e)
    | inr (query, e) ↦ inr (query, e, ap (uri_of url.path) e)
  ]

  port-IsPort : (url : Url) → IsPort url (unwrap_or url.port 443)
  port-IsPort url = elim (Option-cases url.port) [
    | inl e ↦ inl (e, ap (λ p. unwrap_or p 443) e)
    | inr (port, e) ↦ inr (e ∙ ap some (sym (ap (λ p. unwrap_or p 443) e)))
  ]

  pub public→IsPublic :
      (raw : Bytes) (max_sent max_recv : ℕ) (key : Bytes) (t : DemoTarget)
      → env (codes "DEMO_URL") ≡ some raw
      → trim raw ≢ []
      → public_target lib net env (trim raw) max_sent max_recv key ≡ ok t
      → IsPublic t
        × (starts_with 47 t.field_name ≡ true)
        × (t.notarize.notary_key ≡ key)
        × (t.notarize.max_sent_data ≡ max_sent)
        × (t.notarize.max_recv_data ≡ max_recv)
  unfolding public_target
  public→IsPublic raw max_sent max_recv key t set text h =
      let (url, e1, h1) = passed (ok_or (net.parse (trim raw)) invalid_url) _ h in
      let (_, e2, h2) = passed (require (bytes_eq url.scheme (codes "https")) not_https) _ h1 in
      let (host, e3, h3) = passed (ok_or url.host_str no_host) _ h2 in
      let (_, e4, h4) =
        passed (require (is_empty url.username && not (is_some url.password)) credentials) _ h3 in
      let (field_name, e5, h5) =
        passed (ok_or (env (codes "DEMO_FIELD")) (not_set "DEMO_FIELD")) _ h4 in
      let checked = require-eq-ok _ credentials e4 in
      subst
        (λ (t : DemoTarget).
          IsPublic t
          × (starts_with 47 t.field_name ≡ true)
          × (t.notarize.notary_key ≡ key)
          × (t.notarize.max_sent_data ≡ max_sent)
          × (t.notarize.max_recv_data ≡ max_recv))
        (ok-injective h5)
        (
          record {
            raw = raw;
            url_set = set;
            not_blank = text;
            parsed = ok_or-eq-ok _ invalid_url e1;
            https = (bytes_eq_iff _ _).0 (require-eq-ok _ not_https e2);
            no_credentials = (empty_text _ (ground arith), no_password _ (ground arith));
            server_name = ok_or-eq-ok _ no_host e3;
            port = unwrap_or url.port 443;
            url_port = port-IsPort url;
            server_addr = refl;
            uri = uri_of-IsUri url;
            extra_headers = refl;
            field_set = field_name;
            field_given = ok_or-eq-ok _ (not_set "DEMO_FIELD") e5;
            pointer = normalize_field-IsPointer field_name;
            server_trust = refl;
            fixture = refl;
          },
          starts-normalize_field field_name,
          refl,
          refl,
          refl,
        )
