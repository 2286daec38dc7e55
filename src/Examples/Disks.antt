-- ===== src/Examples/Disks.antt =====
-- A directory in memory, and a flat layout of request.json, for the demo of crates/tlsn-demo/demo.
use webproof_solana.Prelude.{
  ◌≡◌, ◌≢◌, refl, ap, sym, ◌∙◌, arith, Bool, true, false, Bool-cases, inl, inr, ◌==◌, Option, some,
  none, some-injective, [], ◌∷◌, ◌++◌, Bytes, codes, length, take, drop, take-append, drop-append,
  bytes_eq, bytes_eq_iff, bytes_eq_refl, if◌then◌else◌, Result, ok,
}
use webproof_solana.Demo.Settings.{Decoders}
use webproof_solana.Demo.VerifySign.{Files, RequestJson}
use webproof_solana.Demo.Notarize.{Disk, Encoders}
use webproof_solana.Examples.Hex.{hex_encode, hex_decode, hex_decode-hex_encode, hex_encode-digits}
use webproof_solana.Examples.Settings.{toy_net}

abbrev pub hex_decoders : Decoders
hex_decoders = record { hex = hex_decode; base58 = λ s. some s; json_bytes = λ s. none }

-- A request's text holds the lengths of its parts.
abbrev pub Parts : Type 0
Parts = Bytes × Bytes × Bool

abbrev pub print : Parts → Bytes
print (raw, field_name, fixture) =
    length raw ∷ (raw ++ (length field_name ∷ (field_name ++ ((if fixture then 1 else 0) ∷ []))))

abbrev read_mark : Bytes → Bytes → Bytes → Option Parts
read_mark raw field_name (mark ∷ []) = some (raw, field_name, mark == 1)
read_mark raw field_name _ = none

abbrev read_field : Bytes → Bytes → Option Parts
read_field raw [] = none
read_field raw (n ∷ rest) = read_mark raw (take n rest) (drop n rest)

abbrev read : Bytes → Option Parts
read [] = none
read (n ∷ rest) = read_field (take n rest) (drop n rest)

pub read-print : (p : Parts) → read (print p) ≡ some p
read-print (raw, field_name, true) =
    rw (take-append raw _, drop-append raw _, take-append field_name _, drop-append field_name _)
      refl
read-print (raw, field_name, false) =
    rw (take-append raw _, drop-append raw _, take-append field_name _, drop-append field_name _)
      refl

abbrev text_of : Parts → Bytes → Option Bytes
text_of (raw, field_name, fixture) key =
    if bytes_eq key (codes "url")
    then some raw
    else if bytes_eq key (codes "field")
    then some field_name
    else none

abbrev pub flat_requests : RequestJson
flat_requests = record {
  Value = Parts;
  from_str = read;
  get_str = text_of;
  get_bool = λ (raw, field_name, fixture) key.
      if bytes_eq key (codes "fixture") then some fixture else none;
}

pub text_of-url :
    (raw field_name : Bytes) (fixture : Bool)
    → text_of (raw, field_name, fixture) (codes "url") ≡ some raw
unfolding bytes_eq
text_of-url raw field_name fixture = refl

pub text_of-field :
    (raw field_name : Bytes) (fixture : Bool)
    → text_of (raw, field_name, fixture) (codes "field") ≡ some field_name
unfolding bytes_eq
text_of-field raw field_name fixture = refl

abbrev pub flat_encoders : Encoders hex_decoders flat_requests toy_net.parse
flat_encoders = record {
  json = λ raw field_name fixture. (raw, field_name, fixture);
  to_string_pretty = λ p. some (print p);
  hex_encode = hex_encode;
  get-url = text_of-url;
  get-field = text_of-field;
  get-fixture = λ raw field_name fixture. rw (bytes_eq_refl (codes "fixture")) refl;
  from_str-to_string = λ p text h. ap read (sym (some-injective _ _ h)) ∙ read-print p;
  hex-hex_encode = hex_decode-hex_encode;
  hex_encode-digits = hex_encode-digits;
  parse-as_str = λ raw u h. h;
}

abbrev pub put : Bytes → Bytes → Files → Files
put name contents files a = if bytes_eq a name then some contents else files a

abbrev written : Files → Result Bytes Files
written files = ok files

pub same_files : {f g : Files} → written f ≡ ok g → f ≡ g
same_files h = ground arith

pub put_self :
    (name contents : Bytes) (files : Files) → put name contents files name ≡ some contents
put_self name contents files = rw (bytes_eq_refl name) refl

pub put_other :
    (name contents : Bytes) (files : Files) (a : Bytes)
    → a ≢ name
    → put name contents files a ≡ files a
put_other name contents files a apart = elim (Bool-cases (bytes_eq a name)) [
  | inl same ↦ absurd (apart ((bytes_eq_iff a name).0 same))
  | inr other ↦ rw other refl
]

abbrev pub memory : Disk
memory = record {
  create_dir_all = ok tt;
  write = λ name contents files. ok (put name contents files);
  write-self = λ name contents files files' h.
      ap (λ (g : Files). g name) (sym (same_files h)) ∙ put_self name contents files;
  write-keeps = λ name contents files files' h a apart.
      ap (λ (g : Files). g a) (sym (same_files h)) ∙ put_other name contents files a apart;
}
