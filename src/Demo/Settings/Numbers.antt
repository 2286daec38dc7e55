-- ===== src/Demo/Settings/Numbers.antt =====
-- The numbers that lib.rs of the demo makes of the environment.
use webproof_solana.Prelude.{
  ℕ, String, ◌^◌, ◌<◌, ◌≡◌, ◌⊎◌, ◌↔◌, inl, inr, refl, sym, Option-cases, none, some, Bytes, codes,
  ok, ok-injective, ok_or-eq-ok,
}
use webproof_solana.Demo.Text.{trim, parse_usize}
use webproof_solana.Demo.Text.Numerals.{IsUnsigned, parse_usize_iff}
use webproof_solana.Demo.Settings.{Env, not_an_integer, env_usize}

-- The default of a variable that is not set, or the number below 2^64 that its trimmed text denotes.
abbrev pub IsSetting : Env → String → ℕ → ℕ → Type 0
IsSetting env name default n =
    ((env (codes name) ≡ none) × (n ≡ default))
    ⊎ ((raw : Bytes) × (env (codes name) ≡ some raw) × IsUnsigned (trim raw) n × (n < 2 ^ 64))

env_usize→IsSetting :
    (env : Env) (name : String) (default n : ℕ)
    → env_usize env name default ≡ ok n
    → IsSetting env name default n
unfolding env_usize
env_usize→IsSetting env name default n h = elim (Option-cases (env (codes name))) [
  | inl unset ↦ inl (unset, sym (ok-injective (rw unset at h)))
  | inr (raw, set) ↦
      let (numeral, small) =
        (parse_usize_iff (trim raw) n).0
          (ok_or-eq-ok (parse_usize (trim raw)) (not_an_integer name) (rw set at h)) in
      inr (raw, set, numeral, small)
]

IsSetting→env_usize :
    (env : Env) (name : String) (default n : ℕ)
    → IsSetting env name default n
    → env_usize env name default ≡ ok n
unfolding env_usize
IsSetting→env_usize env name default n (inl (unset, same)) = rw (unset, same) refl
IsSetting→env_usize env name default n (inr (raw, set, numeral, small)) =
    rw (set, (parse_usize_iff (trim raw) n).1 (numeral, small)) refl

-- A limit is read exactly so: of a variable that is not set it is the default, and of one that is
-- set the number that its trimmed text denotes as a decimal numeral (one digit at least, each digit
-- times its power of ten, a plus sign allowed), if that is below 2^64.
pub env_usize_iff :
    (env : Env) (name : String) (default n : ℕ)
    → (env_usize env name default ≡ ok n) ↔ IsSetting env name default n
env_usize_iff env name default n =
    (env_usize→IsSetting env name default n, IsSetting→env_usize env name default n)
