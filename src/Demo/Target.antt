-- ===== src/Demo/Target.antt =====
-- crates/tlsn-demo/demo/src/lib.rs: the target of the demo, from the environment. The URL parser
-- is a parameter.
pub mod Public
pub mod Resolved
use webproof_solana.Prelude.{
  ℕ, ◌^◌, Bool, true, false, not, Option, none, some, List, [], ◌∷◌, ◌++◌, ◌&&◌, if◌then◌else◌,
  Bytes, codes, bytes_eq, is_empty, Result, ok, err, ◌>>=◌, ◌>>◌, require, ok_or, map_err,
}
use webproof_solana.Verifier.{Url}
use webproof_solana.Tlsn.Fixture.{Tcp, start, fixture_json_path}
use webproof_solana.Tlsn.Notarize.{ServerTrust, mozilla, custom, NotarizeConfig}
use webproof_solana.Demo.Text.{trim}
use webproof_solana.Demo.Settings.{
  Env, Decoders, DemoError, not_set, invalid_url, not_https, no_host, credentials, normalize_field,
  notary_key, env_usize, other,
}

pub record DemoTarget : Type 0 where
  pub url : Url
  pub field_name : Bytes
  pub notarize : NotarizeConfig
  pub fixture : Bool

abbrev pub default_max_sent_data : ℕ
default_max_sent_data = 2 ^ 12

abbrev pub default_max_recv_data : ℕ
default_max_recv_data = 2 ^ 14

-- `Url::parse`, and the fixture: the sockets of its server, its name and certificate.
pub record Network : Type 1 where
  pub parse : Bytes → Option Url
  pub tcp : Tcp
  pub server_domain : Bytes
  pub ca_cert_der : Bytes

abbrev has_text : Option Bytes → Bool
has_text none = false
has_text (some s) = not (is_empty s)

abbrev unwrap_or {ℓ} : {A : Type ℓ} → Option A → A → A
unwrap_or none a = a
unwrap_or (some x) a = x

-- The path with its query.
abbrev pub uri_of : Bytes → Option Bytes → Bytes
uri_of path none = path
uri_of path (some query) = path ++ (codes "?" ++ query)

abbrev is_some : Option Bytes → Bool
is_some none = false
is_some (some s) = true

module _ (lib : Decoders) (net : Network) (env : Env) where
  -- `DEMO_URL` is set to a text.
  unfoldable pub public_target : Bytes → ℕ → ℕ → Bytes → Result DemoError DemoTarget
  public_target raw max_sent max_recv key = do
    url ← ok_or (net.parse raw) invalid_url
    require (bytes_eq url.scheme (codes "https")) not_https
    host ← ok_or url.host_str no_host
    require (is_empty url.username && not (is_some url.password)) credentials
    let port = unwrap_or url.port 443
    let uri = uri_of url.path url.query
    field_name ← ok_or (env (codes "DEMO_FIELD")) (not_set "DEMO_FIELD")
    ok (record {
      url = url;
      field_name = normalize_field field_name;
      notarize = record {
        server_addr = (host, port);
        server_name = host;
        uri = uri;
        extra_headers = [];
        server_trust = mozilla;
        max_sent_data = max_sent;
        max_recv_data = max_recv;
        notary_key = key;
      };
      fixture = false;
    })

  unfoldable pub fixture_target : ℕ → ℕ → Bytes → Result DemoError DemoTarget
  fixture_target max_sent max_recv key = do
    port ← map_err other (start net.tcp)
    let field_name = unwrap_or (env (codes "DEMO_FIELD")) (codes "/meta/version")
    url ←
        ok_or (net.parse (codes "https://" ++ (net.server_domain ++ fixture_json_path))) invalid_url
    ok (record {
      url = url;
      field_name = normalize_field field_name;
      notarize = record {
        server_addr = (codes "127.0.0.1", port);
        server_name = net.server_domain;
        uri = fixture_json_path;
        extra_headers = [];
        server_trust = custom (net.ca_cert_der ∷ []);
        max_sent_data = max_sent;
        max_recv_data = max_recv;
        notary_key = key;
      };
      fixture = true;
    })

  abbrev target_for : Option Bytes → ℕ → ℕ → Bytes → Result DemoError DemoTarget
  target_for none max_sent max_recv key = fixture_target max_sent max_recv key
  target_for (some raw) max_sent max_recv key =
      let text = trim raw in
      if is_empty text
      then fixture_target max_sent max_recv key
      else public_target text max_sent max_recv key

  unfoldable pub resolve_target : Result DemoError DemoTarget
  resolve_target = do
    key ← notary_key lib env
    max_sent ← env_usize env "DEMO_MAX_SENT" default_max_sent_data
    max_recv ← env_usize env "DEMO_MAX_RECV" default_max_recv_data
    target_for (env (codes "DEMO_URL")) max_sent max_recv key
