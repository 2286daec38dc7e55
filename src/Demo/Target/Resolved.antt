-- ===== src/Demo/Target/Resolved.antt =====
-- What a resolved target of the demo asks for.
use webproof_solana.Prelude.{
  ℕ, ◌∙◌, ok-injective, subst, ◌≡◌, ◌≢◌, sym, ◌⊎◌, inl, inr, refl, ap, arith, Bool-cases, true,
  false, Option-cases, none, some, [], ◌∷◌, ◌++◌, Bytes, codes, is_empty, length, ok, passed, ok_or,
  ok_or-eq-ok, map_err, map_err-eq-ok,
}
use webproof_solana.Demo.Text.{trim, starts_with}
use webproof_solana.Demo.Settings.{
  Env, Decoders, normalize_field, notary_key, env_usize, invalid_url, other,
}
use webproof_solana.Demo.Settings.Fields.{IsPointer, normalize_field-IsPointer}
use webproof_solana.Demo.Settings.Keys.{IsNotaryKey, notary_key→IsNotaryKey}
use webproof_solana.Demo.Settings.Numbers.{IsSetting, env_usize_iff}
use webproof_solana.Tlsn.Fixture.{start, fixture_json_path}
use webproof_solana.Tlsn.Notarize.{custom}
use webproof_solana.Demo.Target.{
  DemoTarget, Network, unwrap_or, fixture_target, resolve_target, default_max_sent_data,
  default_max_recv_data,
}
use webproof_solana.Demo.Target.Public.{
  IsPublic, starts-normalize_field, empty_text, public→IsPublic,
}

module _ (lib : Decoders) (net : Network) (env : Env) where
  -- The fixture is notarized under its own name and certificate, at the local address.
  pub record IsFixture (t : DemoTarget) : Type 0 where
    pub no_url :
        (env (codes "DEMO_URL") ≡ none)
        ⊎ ((raw : Bytes) × (env (codes "DEMO_URL") ≡ some raw) × (trim raw ≡ []))
    pub port : ℕ
    pub started : start net.tcp ≡ ok port
    pub parsed :
        net.parse (codes "https://" ++ (net.server_domain ++ fixture_json_path)) ≡ some t.url
    pub server_name : t.notarize.server_name ≡ net.server_domain
    pub server_addr : t.notarize.server_addr ≡ (codes "127.0.0.1", port)
    pub uri : t.notarize.uri ≡ fixture_json_path
    pub extra_headers : t.notarize.extra_headers ≡ []
    pub pointer :
        ((env (codes "DEMO_FIELD") ≡ none) × (t.field_name ≡ codes "/meta/version"))
        ⊎ ((field : Bytes) × (env (codes "DEMO_FIELD") ≡ some field) × IsPointer field t.field_name)
    pub server_trust : t.notarize.server_trust ≡ custom (net.ca_cert_der ∷ [])
    pub fixture : t.fixture ≡ true

  length-notary_key : (key : Bytes) → notary_key lib env ≡ ok key → length key ≡ 32
  unfolding notary_key
  length-notary_key key h = ground arith

  -- What the fixture is asked for: the set field or that of the fixture's own document.
  fixture_field :
      (fixture_name : Bytes)
      → normalize_field (unwrap_or (env (codes "DEMO_FIELD")) (codes "/meta/version"))
        ≡ fixture_name
      → ((env (codes "DEMO_FIELD") ≡ none) × (fixture_name ≡ codes "/meta/version"))
        ⊎ ((field : Bytes) × (env (codes "DEMO_FIELD") ≡ some field) × IsPointer field fixture_name)
  unfolding normalize_field starts_with
  fixture_field fixture_name h = elim (Option-cases (env (codes "DEMO_FIELD"))) [
    | inl e ↦ inl (e, sym (rw e at h))
    | inr (field, e) ↦
        inr (field, e, subst (IsPointer field) (rw e at h) (normalize_field-IsPointer field))
  ]

  fixture→IsFixture :
      (max_sent max_recv : ℕ) (key : Bytes) (t : DemoTarget)
      → (env (codes "DEMO_URL") ≡ none)
        ⊎ ((raw : Bytes) × (env (codes "DEMO_URL") ≡ some raw) × (trim raw ≡ []))
      → fixture_target lib net env max_sent max_recv key ≡ ok t
      → IsFixture t
        × (starts_with 47 t.field_name ≡ true)
        × (t.notarize.notary_key ≡ key)
        × (t.notarize.max_sent_data ≡ max_sent)
        × (t.notarize.max_recv_data ≡ max_recv)
  unfolding fixture_target
  fixture→IsFixture max_sent max_recv key t no_url h =
      let (port, e1, h1) = passed (map_err other (start net.tcp)) _ h in
      let (url, e2, h2) =
        passed
          (ok_or (net.parse (codes "https://" ++ (net.server_domain ++ fixture_json_path)))
            invalid_url)
          _ h1 in
      subst
        (λ (t : DemoTarget).
          IsFixture t
          × (starts_with 47 t.field_name ≡ true)
          × (t.notarize.notary_key ≡ key)
          × (t.notarize.max_sent_data ≡ max_sent)
          × (t.notarize.max_recv_data ≡ max_recv))
        (ok-injective h2)
        (
          record {
            no_url = no_url;
            port = port;
            started = map_err-eq-ok other _ e1;
            parsed = ok_or-eq-ok _ invalid_url e2;
            server_name = refl;
            server_addr = refl;
            uri = refl;
            extra_headers = refl;
            pointer = fixture_field _ refl;
            server_trust = refl;
            fixture = refl;
          },
          starts-normalize_field lib net env _,
          refl,
          refl,
          refl,
        )

  blank : (raw : Bytes) → is_empty (trim raw) ≡ false → trim raw ≢ []
  blank raw text e = ground (arith, text, ap is_empty e)

  -- A target that resolves has a JSON pointer as its field and a notary key of 32 bytes, which is the
  -- development key or, if one is set, decoded from its hexadecimal digits; the limits that the
  -- environment sets, or 4096 and 16384; and is one of two. Either the environment sets a URL that is
  -- not blank: it is https, has no credentials, its own host is the server name, reached at the URL's
  -- port or 443, with its path and query, the public roots, and the field that must be set. Or it sets
  -- none, or a blank one: the target is the started fixture with its own name, path and certificate at
  -- the local address, with the set field or else `/meta/version`. A set field that starts with a
  -- slash is the pointer itself; of another one the pointer is a slash and the field with its full
  -- stops made slashes.
  pub resolve_target-IsResolved :
      (t : DemoTarget)
      → resolve_target lib net env ≡ ok t
      → (starts_with 47 t.field_name ≡ true)
        × (length t.notarize.notary_key ≡ 32)
        × IsNotaryKey lib env t.notarize.notary_key
        × IsSetting env "DEMO_MAX_SENT" 4096 t.notarize.max_sent_data
        × IsSetting env "DEMO_MAX_RECV" 16384 t.notarize.max_recv_data
        × (IsPublic lib net env t ⊎ IsFixture t)
  unfolding resolve_target
  resolve_target-IsResolved t h =
      let (key, e1, h1) = passed (notary_key lib env) _ h in
      let (max_sent, e2, h2) = passed (env_usize env "DEMO_MAX_SENT" default_max_sent_data) _ h1 in
      let (max_recv, e3, h3) = passed (env_usize env "DEMO_MAX_RECV" default_max_recv_data) _ h2 in
      let size = length-notary_key key e1 in
      let notary = notary_key→IsNotaryKey lib env key e1 in
      let sent = (env_usize_iff env "DEMO_MAX_SENT" default_max_sent_data max_sent).0 e2 in
      let recv = (env_usize_iff env "DEMO_MAX_RECV" default_max_recv_data max_recv).0 e3 in
      elim (Option-cases (env (codes "DEMO_URL"))) [
        | inl unset ↦
            let (f, s, k, m, r) =
              fixture→IsFixture max_sent max_recv key t (inl unset) (ground (arith, h3, unset)) in
            (s, ap length k ∙ size, rw k notary, rw m sent, rw r recv, inr f)
        | inr (raw, set) ↦ elim (Bool-cases (is_empty (trim raw))) [
          | inl empty ↦
              let (f, s, k, m, r) =
                fixture→IsFixture max_sent max_recv key t
                  (inr (raw, set, empty_text lib net env (trim raw) empty))
                  (ground (arith, h3, set, empty)) in
              (s, ap length k ∙ size, rw k notary, rw m sent, rw r recv, inr f)
          | inr text ↦
              let (p, s, k, m, r) =
                public→IsPublic lib net env raw max_sent max_recv key t set (blank raw text)
                  (ground (arith, h3, set, text)) in
              (s, ap length k ∙ size, rw k notary, rw m sent, rw r recv, inl p)
        ]
      ]
