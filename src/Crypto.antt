-- ===== src/Crypto.antt =====
-- The hash and signature crates (`sha2`, `ed25519-dalek`) and Solana's `hash`, as parameters.
use webproof_solana.Prelude.{◌≡◌, Bool, true, Bytes, IsArray}

pub record Sha256 : Type 0 where
  pub digest : Bytes → Bytes
  pub digest-IsArray : (bytes : Bytes) → IsArray 32 (digest bytes)

-- A signing key is its 32-byte seed.
pub record Ed25519 : Type 0 where
  pub verifying_key : Bytes → Bytes
  pub sign : Bytes → Bytes → Bytes
  pub verify : Bytes → Bytes → Bytes → Bool
  pub verifying_key-IsArray : (seed : Bytes) → IsArray 32 (verifying_key seed)
  pub sign-IsArray : (seed message : Bytes) → IsArray 64 (sign seed message)
  -- Arguments: verifying key, message, signature.
  pub verify-sign :
      (seed message : Bytes) → verify (verifying_key seed) message (sign seed message) ≡ true
