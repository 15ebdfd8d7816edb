-- ===== src/Session/Types.antt =====
-- The data of src/lib/security/session_guard.ts, and what it asks of the platform's cryptography.
use biofire.Base.{ℕ, ◌≡◌, Option, some, List, Text, nat_eq, list_eq}

pub record Tokens : Type 0 where
  pub jwt_token : Text
  pub cookie_fingerprint : Text
  pub session_id : Text
  pub expires_at : ℕ

pub record BoundShare : Type 0 where
  pub share_id : Text
  pub wrapped_data : Text
  pub iv : Text
  pub salt : Text
  pub auth_tag : Text
  pub binding_hash : Text
  pub algorithm : Text

-- The errors that unwrapping throws; `malformed_hex` is the error of hexToBytes.
pub data UnwrapError : Type 0 where
  session_expired session_mismatch session_tampered malformed_hex decryption_failed : UnwrapError

pub data Unwrapped : Type 0 where
  plaintext : List ℕ → Unwrapped
  refused_with : UnwrapError → Unwrapped

pub data AuthError : Type 0 where
  missing_bearer missing_cookie token_mismatch token_expired : AuthError

-- The tokens of a request, or the reason why it is not valid.
pub data AuthResult : Type 0 where
  accepted_as : Text → Text → AuthResult
  rejected_for : AuthError → AuthResult

-- hmac and sha256, bytesToHex and hexToBytes of @noble/hashes, and AES-GCM of Web Crypto, whose
-- result ends in a tag of 16 bytes. What they document of each other are the laws.
pub record Ciphers : Type 0 where
  pub hash_hex : Text → Text
  pub mac : List ℕ → Text → List ℕ
  pub to_hex : List ℕ → Text
  pub from_hex : Text → Option (List ℕ)
  pub seal : List ℕ → List ℕ → List ℕ → List ℕ
  pub unseal : List ℕ → List ℕ → List ℕ → Option (List ℕ)
  pub from_hex-to_hex : (bs : List ℕ) → from_hex (to_hex bs) ≡ some bs
  pub unseal-seal : (key iv bs : List ℕ) → unseal key iv (seal key iv bs) ≡ some bs
