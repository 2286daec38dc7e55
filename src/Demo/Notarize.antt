-- ===== src/Demo/Notarize.antt =====
-- crates/tlsn-demo/demo/src/bin/webproof_notarize.rs: notarize the target, and write the files that
-- the step of webproof_verify_sign.rs reads.
pub mod Signed
pub mod HandedOver
use webproof_solana.Prelude.{
  ◌≡◌, ◌≢◌, Bool, true, Option, some, Bytes, codes, all, Result, ok, ◌>>=◌, ◌>>◌, ok_or, map_err,
  All, IsByte,
}
use webproof_solana.Verifier.{Url}
use webproof_solana.Tlsn.{RangeSets}
use webproof_solana.Tlsn.Present.{Builders, PresentError, build_presentation}
use webproof_solana.Tlsn.Notarize.{Mpc, NotarizeError, notarize}
use webproof_solana.Demo.Settings.{Env, Decoders, DemoError, is_ascii_hexdigit}
use webproof_solana.Demo.Target.{Network, DemoTarget, resolve_target}
use webproof_solana.Demo.VerifySign.{Files, RequestJson}

-- The artifact directory of the file system: a write that succeeds puts the text under the name and
-- leaves the other files.
pub record Disk : Type 0 where
  pub create_dir_all : Result Bytes (Unit {0})
  pub write : Bytes → Bytes → Files → Result Bytes Files
  pub write-self :
      (name contents : Bytes) (files files' : Files)
      → write name contents files ≡ ok files'
      → files' name ≡ some contents
  pub write-keeps :
      (name contents : Bytes) (files files' : Files)
      → write name contents files ≡ ok files'
      → (other : Bytes) → other ≢ name
      → files' other ≡ files other

-- What is written is read back: `json!` with the three members, printed and parsed; `hex`, whose
-- text is hexadecimal digits; and the text of a URL.
pub record Encoders (decoders : Decoders) (requests : RequestJson) (parse : Bytes → Option Url)
    : Type 0 where
  pub json : Bytes → Bytes → Bool → requests.Value
  pub to_string_pretty : requests.Value → Option Bytes
  pub hex_encode : Bytes → Bytes
  pub get-url :
      (url field_name : Bytes) (fixture : Bool)
      → requests.get_str (json url field_name fixture) (codes "url") ≡ some url
  pub get-field :
      (url field_name : Bytes) (fixture : Bool)
      → requests.get_str (json url field_name fixture) (codes "field") ≡ some field_name
  pub get-fixture :
      (url field_name : Bytes) (fixture : Bool)
      → requests.get_bool (json url field_name fixture) (codes "fixture") ≡ some fixture
  pub from_str-to_string :
      (value : requests.Value) (text : Bytes)
      → to_string_pretty value ≡ some text
      → requests.from_str text ≡ some value
  pub hex-hex_encode :
      (bytes : Bytes) → All IsByte bytes → decoders.hex (hex_encode bytes) ≡ some bytes
  pub hex_encode-digits :
      (bytes : Bytes) → All IsByte bytes → all is_ascii_hexdigit (hex_encode bytes) ≡ true
  pub parse-as_str : (raw : Bytes) (url : Url) → parse raw ≡ some url → parse url.as_str ≡ some url

pub data StepError : Type 0 where
  demo : DemoError → StepError
  notarization : NotarizeError → StepError
  presentation : PresentError → StepError
  bincode json : StepError
  io : Bytes → StepError

module _ (decoders : Decoders) (net : Network) (requests : RequestJson)
    (encoders : Encoders decoders requests net.parse) (ranges : RangeSets) (lib : Mpc)
    (builders : Builders ranges lib.Attestation lib.Secrets)
    (serialize : builders.Presentation → Option Bytes) (disk : Disk) where
  -- The writes, in their order.
  unfoldable pub write_files : DemoTarget → Bytes → Bytes → Files → Result StepError Files
  write_files target key artifact files = do
    files ← map_err io (disk.write (codes "presentation.tlsn.bin") artifact files)
    files ← map_err io (disk.write (codes "notary-key.hex") (encoders.hex_encode key) files)
    text ←
        ok_or
          (encoders.to_string_pretty
            (encoders.json target.url.as_str target.field_name target.fixture))
          json
    map_err io (disk.write (codes "request.json") text files)

  -- The result is the artifact directory afterwards.
  unfoldable pub main : Env → Bool → Files → Result StepError Files
  main env in_time files = do
    target ← map_err demo (resolve_target decoders net env)
    map_err io disk.create_dir_all
    session ← map_err notarization (notarize lib in_time target.notarize)
    built ←
        map_err presentation
          (build_presentation ranges builders session.attestation session.secrets)
    artifact ← ok_or (serialize built) bincode
    write_files target session.notary_verifying_key artifact files
