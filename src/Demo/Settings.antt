-- ===== src/Demo/Settings.antt =====
-- crates/tlsn-demo/demo/src/lib.rs: the fields, keys and numbers that the environment sets. `hex`,
-- `bs58` and `serde_json` are parameters.
pub mod Fields
pub mod Keys
pub mod Numbers
use webproof_solana.Prelude.{
  ℕ, String, ◌&&◌, ◌||◌, Bool, Option, none, some, [], ◌∷◌, ◌++◌, List, Bytes, codes, replicate,
  all, length, take, leb, ◌==◌, if◌then◌else◌, Result, ok, err, ◌>>=◌, ok_or,
}
use webproof_solana.Demo.Text.{trim, replace, starts_with, parse_usize}

-- `std::env::var(name).ok()`: nothing if the variable is not set, or is no Unicode.
abbrev pub Env : Type 0
Env = Bytes → Option Bytes

-- What the code takes from `hex`, `bs58` and `serde_json`.
pub record Decoders : Type 0 where
  pub hex : Bytes → Option Bytes
  pub base58 : Bytes → Option Bytes
  pub json_bytes : Bytes → Option Bytes

-- The contexts of the errors of the demo's functions.
pub data DemoError : Type 0 where
  not_hex not_32_bytes not_an_integer : String → DemoError
  not_set : String → DemoError
  invalid_json invalid_hex invalid_base58 : DemoError
  signing_key_size : ℕ → DemoError
  invalid_url not_https no_host credentials : DemoError
  other : Bytes → DemoError

abbrev pub dev_notary_key : Bytes
dev_notary_key = replicate 32 1

unfoldable pub normalize_field : Bytes → Bytes
normalize_field field_name =
    if starts_with 47 field_name then field_name else 47 ∷ replace 46 47 field_name

-- `as_slice().try_into().ok()` for `[u8; 32]`.
abbrev pub try_into_32 : Bytes → Option Bytes
try_into_32 bytes = if length bytes == 32 then some bytes else none

abbrev notary_key_from : Decoders → Option Bytes → Result DemoError Bytes
notary_key_from lib none = ok dev_notary_key
notary_key_from lib (some raw) = do
  bytes ← ok_or (lib.hex (trim raw)) (not_hex "WEBPROOF_NOTARY_KEY")
  ok_or (try_into_32 bytes) (not_32_bytes "WEBPROOF_NOTARY_KEY")

unfoldable pub notary_key : Decoders → Env → Result DemoError Bytes
notary_key lib env = notary_key_from lib (env (codes "WEBPROOF_NOTARY_KEY"))

abbrev usize_from : String → ℕ → Option Bytes → Result DemoError ℕ
usize_from name default none = ok default
usize_from name default (some raw) = ok_or (parse_usize (trim raw)) (not_an_integer name)

unfoldable pub env_usize : Env → String → ℕ → Result DemoError ℕ
env_usize env name default = usize_from name default (env (codes name))

abbrev pub is_ascii_hexdigit : ℕ → Bool
is_ascii_hexdigit c = (leb 48 c && leb c 57) || ((leb 65 c && leb c 70) || (leb 97 c && leb c 102))

-- The bytes that a trimmed text stands for: a JSON array, 64 hexadecimal digits, or base 58.
unfoldable pub key_bytes : Decoders → Bytes → Result DemoError Bytes
key_bytes lib raw =
    if starts_with 91 raw
    then ok_or (lib.json_bytes raw) invalid_json
    else if length raw == 64 && all is_ascii_hexdigit raw
    then ok_or (lib.hex raw) invalid_hex
    else ok_or (lib.base58 raw) invalid_base58

-- A key of 32 bytes, or the first half of an expanded one of 64.
unfoldable pub seed_of : Bytes → Result DemoError Bytes
seed_of bytes =
    if length bytes == 32
    then ok bytes
    else if length bytes == 64
    then ok (take 32 bytes)
    else err (signing_key_size (length bytes))

-- The result is the seed of the signing key.
unfoldable pub parse_signing_key : Decoders → Bytes → Result DemoError Bytes
parse_signing_key lib raw = do bytes ← key_bytes lib (trim raw); seed_of bytes
