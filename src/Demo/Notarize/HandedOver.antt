-- ===== src/Demo/Notarize/HandedOver.antt =====
-- What the step of webproof_notarize.rs leaves for that of webproof_verify_sign.rs.
use webproof_solana.Prelude.{
  All, IsByte, ◌≡◌, ◌≢◌, refl, ap, ◌∙◌, arith, Bool, true, false, Option, some, none, [], ◌∷◌, all,
  Bytes, codes, bytes_eq, bytes_eq_refl, ok, passed, ok_or, ok_or-eq-ok, map_err, map_err-eq-ok,
  inl, inr,
}
use webproof_solana.Verifier.{Url}
use webproof_solana.Tlsn.{RangeSets}
use webproof_solana.Tlsn.Present.{Builders, build_presentation}
use webproof_solana.Tlsn.Present.Disclosed.{IsDisclosure, build_presentation-IsDisclosure}
use webproof_solana.Tlsn.Notarize.{Mpc, NotarizedSession, notarize}
use webproof_solana.Tlsn.Notarize.Attested.{IsNotarized, notarize-IsNotarized}
use webproof_solana.Demo.Text.{trim}
use webproof_solana.Demo.Text.Trimmed.{is_visible, trim-visible, all-weaken}
use webproof_solana.Demo.Settings.{Env, Decoders, is_ascii_hexdigit}
use webproof_solana.Demo.Target.{Network, DemoTarget, resolve_target}
use webproof_solana.Demo.Target.Resolved.{resolve_target-IsResolved}
use webproof_solana.Demo.VerifySign.{Files, RequestJson, read_request, trusted_keys}
use webproof_solana.Demo.Notarize.{
  Disk, Encoders, demo, notarization, presentation, bincode, json, io, write_files, main,
}

bytes_ne : (a b : Bytes) → bytes_eq a b ≡ false → a ≢ b
bytes_ne a b h e = cc (h, ap (bytes_eq a) e, bytes_eq_refl a)

artifact_apart_key : codes "presentation.tlsn.bin" ≢ codes "notary-key.hex"
unfolding bytes_eq
artifact_apart_key = bytes_ne _ _ refl

artifact_apart_request : codes "presentation.tlsn.bin" ≢ codes "request.json"
unfolding bytes_eq
artifact_apart_request = bytes_ne _ _ refl

key_apart_request : codes "notary-key.hex" ≢ codes "request.json"
unfolding bytes_eq
key_apart_request = bytes_ne _ _ refl

trim-digits : (s : Bytes) → all is_ascii_hexdigit s ≡ true → trim s ≡ s
trim-digits s h = trim-visible s (all-weaken is_ascii_hexdigit is_visible s (λ c d. ground arith) h)

module _ (decoders : Decoders) (net : Network) (requests : RequestJson)
    (encoders : Encoders decoders requests net.parse) where
  -- The file of the request is read back as what was written.
  read_request-json :
      (files : Files) (raw text field_name : Bytes) (url : Url) (fixture : Bool)
      → net.parse raw ≡ some url
      → encoders.to_string_pretty (encoders.json url.as_str field_name fixture) ≡ some text
      → files (codes "request.json") ≡ some text
      → read_request requests net.parse files
        ≡ ok (record { url = url; field_name = field_name; fixture = fixture })
  unfolding read_request
  read_request-json files raw text field_name url fixture parsed printed held =
      rw
        (
          held,
          encoders.from_str-to_string _ text printed,
          encoders.get-url url.as_str field_name fixture,
          encoders.parse-as_str raw url parsed,
          encoders.get-field url.as_str field_name fixture,
          encoders.get-fixture url.as_str field_name fixture,
        )
        refl

  -- And the file of the key, when no keys are set.
  trusted_keys-hex :
      (files : Files) (env : Env) (key : Bytes)
      → All IsByte key
      → files (codes "notary-key.hex") ≡ some (encoders.hex_encode key)
      → env (codes "WEBPROOF_TRUSTED_NOTARY_KEYS") ≡ none
      → trusted_keys decoders files env ≡ ok (key ∷ [])
  unfolding trusted_keys
  trusted_keys-hex files env key are_bytes held unset =
      rw
        (
          unset,
          held,
          trim-digits (encoders.hex_encode key) (encoders.hex_encode-digits key are_bytes),
          encoders.hex-hex_encode key are_bytes,
        )
        refl

  parsed_target :
      (env : Env) (target : DemoTarget)
      → resolve_target decoders net env ≡ ok target
      → (raw : Bytes) × (net.parse raw ≡ some target.url)
  parsed_target env target h =
      let (pointer, size, key, sent, recv, either) =
        resolve_target-IsResolved decoders net env target h in
      elim either [ inl p ↦ (trim p.raw, p.parsed) | inr f ↦ (_, f.parsed) ]

  module _ (ranges : RangeSets) (lib : Mpc) (builders : Builders ranges lib.Attestation lib.Secrets)
      (serialize : builders.Presentation → Option Bytes) (disk : Disk) where
    -- The directory holds the notarized presentation of the target, and all that the next step
    -- expects of it.
    pub record IsHandedOver (env next : Env) (files : Files) : Type 0 where
      pub target : DemoTarget
      pub session : NotarizedSession lib
      pub built : builders.Presentation
      pub artifact : Bytes
      pub resolved : resolve_target decoders net env ≡ ok target
      pub notarized : IsNotarized lib target.notarize session
      pub disclosure : IsDisclosure ranges builders session.attestation session.secrets built
      pub serialized : serialize built ≡ some artifact
      pub held : files (codes "presentation.tlsn.bin") ≡ some artifact
      pub requested :
          read_request requests net.parse files
          ≡ ok (record {
            url = target.url;
            field_name = target.field_name;
            fixture = target.fixture;
          })
      pub trusted : trusted_keys decoders files next ≡ ok (session.notary_verifying_key ∷ [])

    write_files-held :
        (target : DemoTarget) (raw key artifact : Bytes) (files files' : Files)
        → net.parse raw ≡ some target.url
        → write_files decoders net requests encoders ranges lib builders serialize disk target key
            artifact files
          ≡ ok files'
        → (files' (codes "presentation.tlsn.bin") ≡ some artifact)
          × (read_request requests net.parse files'
              ≡ ok (record {
                url = target.url;
                field_name = target.field_name;
                fixture = target.fixture;
              }))
          × (files' (codes "notary-key.hex") ≡ some (encoders.hex_encode key))
    unfolding write_files
    write_files-held target raw key artifact files files' parsed h =
        let (files1, e1, h1) =
          passed (map_err io (disk.write (codes "presentation.tlsn.bin") artifact files)) _ h in
        let (files2, e2, h2) =
          passed (map_err io (disk.write (codes "notary-key.hex") (encoders.hex_encode key) files1))
            _ h1 in
        let (text, e3, h3) =
          passed
            (ok_or
              (encoders.to_string_pretty
                (encoders.json target.url.as_str target.field_name target.fixture))
              json)
            _ h2 in
        let w1 = map_err-eq-ok io _ e1 in
        let w2 = map_err-eq-ok io _ e2 in
        let w3 = map_err-eq-ok io _ h3 in
        (
          disk.write-keeps _ _ _ _ w3 (codes "presentation.tlsn.bin") artifact_apart_request
              ∙ disk.write-keeps _ _ _ _ w2 (codes "presentation.tlsn.bin") artifact_apart_key
              ∙ disk.write-self _ _ _ _ w1,
          read_request-json files' raw text target.field_name target.url target.fixture parsed
              (ok_or-eq-ok _ json e3) (disk.write-self _ _ _ _ w3),
          disk.write-keeps _ _ _ _ w3 (codes "notary-key.hex") key_apart_request
              ∙ disk.write-self _ _ _ _ w2,
        )

    -- The notarizing step hands over to the signing step: if it succeeds, then the target resolved
    -- and was notarized, and a presentation was built that discloses what it may; and the directory
    -- holds that presentation, a request that is read back as the target's URL, field and fixture
    -- mark, and, for a next step that is given no trusted keys, exactly the session's notary key.
    pub main-IsHandedOver :
        (env next : Env) (in_time : Bool) (files files' : Files)
        → next (codes "WEBPROOF_TRUSTED_NOTARY_KEYS") ≡ none
        → main decoders net requests encoders ranges lib builders serialize disk env in_time files
          ≡ ok files'
        → IsHandedOver env next files'
    unfolding main
    main-IsHandedOver env next in_time files files' unset h =
        let (target, e1, h1) = passed (map_err demo (resolve_target decoders net env)) _ h in
        let (_, e2, h2) = passed (map_err io disk.create_dir_all) _ h1 in
        let (session, e3, h3) =
          passed (map_err notarization (notarize lib in_time target.notarize)) _ h2 in
        let (built, e4, h4) =
          passed
            (map_err presentation
              (build_presentation ranges builders session.attestation session.secrets))
            _ h3 in
        let (artifact, e5, h5) = passed (ok_or (serialize built) bincode) _ h4 in
        let resolved = map_err-eq-ok demo _ e1 in
        let notarized =
          (notarize-IsNotarized lib in_time target.notarize session
            (map_err-eq-ok notarization _ e3)).1 in
        let (raw, parsed) = parsed_target env target resolved in
        let (held, requested, key_held) =
          write_files-held target raw session.notary_verifying_key artifact files files' parsed
            h5 in
        record {
          target = target;
          session = session;
          built = built;
          artifact = artifact;
          resolved = resolved;
          notarized = notarized;
          disclosure =
              build_presentation-IsDisclosure ranges builders session.attestation session.secrets
                built (map_err-eq-ok presentation _ e4);
          serialized = ok_or-eq-ok _ bincode e5;
          held = held;
          requested = requested;
          trusted =
              trusted_keys-hex files' next session.notary_verifying_key
                (rw notarized.notary_key (lib.verifying_key-bytes session.attestation)) key_held
                unset;
        }
