-- ===== src/Session.antt =====
-- src/lib/security/session_guard.ts: sessions bound to a token and a cookie, and the key shares that
-- are encrypted under them. The random bytes and the times are arguments.
pub mod Types
pub mod Shares
pub mod Requests
mod Tests
use biofire.Base.{
  ℕ, suc, ◌+◌, ◌-◌, ◌*◌, Bool, not, ◌&&◌, ◌||◌, Option, none, some, List, [], ◌∷◌, ◌++◌, ltb,
  if◌then◌else◌, Text, codes, length, take, drop, ◌==◌, take_while, trim, starts_with, has_part,
  without_prefix, Assoc, lookup, has, insert, erase, nat_eq, list_eq,
}
use biofire.Session.Types.{
  Tokens, BoundShare, UnwrapError, Unwrapped, plaintext, refused_with, AuthError, AuthResult,
  accepted_as, rejected_for, Ciphers,
}

abbrev pub session_ttl_ms : ℕ
session_ttl_ms = 3600 * 1000

-- The map of the active sessions.
abbrev pub Sessions : Type 0
Sessions = Assoc Text Tokens

abbrev pub revoke_session : Text → Sessions → Bool × Sessions
revoke_session id m = (has id m, erase id m)

-- The loop over the map: how many sessions it deletes, and what it leaves.
unfoldable pub cleanup_expired_sessions : ℕ → Sessions → ℕ × Sessions
cleanup_expired_sessions now [] = (0, [])
cleanup_expired_sessions now ((id, t) ∷ m) =
    let rest = cleanup_expired_sessions now m in
    if ltb t.expires_at now then (suc rest.0, rest.1) else (rest.0, (id, t) ∷ rest.1)

abbrev pub auth_cookie : Text
auth_cookie = codes "biofire_session_auth="

abbrev pub no_semicolon : ℕ → Bool
no_semicolon c = not (c == 59)

-- `match(/biofire_session_auth=([^;]+)/)`: the first place where a character follows that ends no
-- cookie; without one, the empty text.
unfoldable pub cookie_value : Text → Text
cookie_value [] = []
cookie_value (c ∷ cs) =
    let value = take_while no_semicolon (drop (length auth_cookie) (c ∷ cs)) in
    let later = cookie_value cs in
    if starts_with (c ∷ cs) auth_cookie && not (value == []) then value else later

abbrev pub or_missing : Option Text → Text
or_missing none = []
or_missing (some t) = t

abbrev pub bearer : Text
bearer = codes "Bearer "

-- The session that the request names; an empty name is none.
unfoldable pub check_session : ℕ → Text → Text → Text → Sessions → AuthResult
check_session now jwt cookie [] m = accepted_as jwt cookie
check_session now jwt cookie (c ∷ cs) m = elim (lookup (c ∷ cs) m) [
  | none ↦ rejected_for AuthError.token_mismatch
  | some t ↦
      if not (t.jwt_token == jwt) || not (t.cookie_fingerprint == cookie)
      then rejected_for AuthError.token_mismatch
      else (if ltb t.expires_at now
          then rejected_for AuthError.token_expired
          else accepted_as jwt cookie)
]

-- An absent header is an empty one, and so is an absent session.
unfoldable pub validate_request_auth_tokens :
    ℕ → Option Text → Option Text → Option Text → Sessions → AuthResult
validate_request_auth_tokens now auth cookies session m =
    if not (starts_with (or_missing auth) bearer)
    then rejected_for AuthError.missing_bearer
    else (if not (has_part (or_missing cookies) auth_cookie)
        then rejected_for AuthError.missing_cookie
        else check_session now (trim (drop (length bearer) (or_missing auth)))
            (trim (cookie_value (or_missing cookies))) (or_missing session) m)

module _ (c : Ciphers) where
  -- createSessionBinding with the two draws of 32 random bytes.
  unfoldable pub create_session_binding : ℕ → List ℕ → List ℕ → Text → Sessions → Tokens × Sessions
  create_session_binding now jwt_draw cookie_draw id m =
      let t : Tokens = record {
        jwt_token = codes "bf_jwt_" ++ c.to_hex jwt_draw;
        cookie_fingerprint = codes "bf_cookie_" ++ c.to_hex cookie_draw;
        session_id = id;
        expires_at = now + session_ttl_ms;
      } in
      (t, insert id t m)

  unfoldable pub derive_key : Text → Text → List ℕ → List ℕ
  derive_key jwt cookie salt = c.mac salt (jwt ++ codes ":" ++ cookie)

  unfoldable pub binding_hash_of : Text → Text → Text → Text
  binding_hash_of session jwt cookie =
      codes "0x" ++ c.hash_hex (session ++ codes ":" ++ jwt ++ codes ":" ++ cookie)

  abbrev pub printed_hex : List ℕ → Text
  printed_hex bs = codes "0x" ++ c.to_hex bs

  -- wrapShareWithSessionTokens with its two draws. The last 16 bytes of the ciphertext are its tag.
  unfoldable pub wrap_share : List ℕ → List ℕ → Text → List ℕ → Tokens → BoundShare
  wrap_share salt iv id share t =
      let sealed = c.seal (derive_key t.jwt_token t.cookie_fingerprint salt) iv share in
      record {
        share_id = id;
        wrapped_data = printed_hex (take (length sealed - 16) sealed);
        iv = printed_hex iv;
        salt = printed_hex salt;
        auth_tag = printed_hex (drop (length sealed - 16) sealed);
        binding_hash = binding_hash_of t.session_id t.jwt_token t.cookie_fingerprint;
        algorithm = codes "AES-256-GCM";
      }

  -- `hexToBytes(x.replace(/^0x/, ''))`
  abbrev pub read_hex : Text → Option (List ℕ)
  read_hex t = c.from_hex (without_prefix (codes "0x") t)

  abbrev pub opened : Option (List ℕ) → Unwrapped
  opened none = refused_with UnwrapError.decryption_failed
  opened (some bs) = plaintext bs

  unfoldable pub decrypt_share : BoundShare → Text → Text → Unwrapped
  decrypt_share b jwt cookie = elim (read_hex b.salt) [
    | none ↦ refused_with UnwrapError.malformed_hex
    | some salt ↦ elim (read_hex b.iv) [
      | none ↦ refused_with UnwrapError.malformed_hex
      | some iv ↦ elim (read_hex b.wrapped_data) [
        | none ↦ refused_with UnwrapError.malformed_hex
        | some body ↦ elim (read_hex b.auth_tag) [
          | none ↦ refused_with UnwrapError.malformed_hex
          | some tag ↦ opened (c.unseal (derive_key jwt cookie salt) iv (body ++ tag))
        ]
      ]
    ]
  ]

  unfoldable pub unwrap_share : ℕ → BoundShare → Text → Text → Text → Sessions → Unwrapped
  unwrap_share now b jwt cookie id m = elim (lookup id m) [
    | none ↦ refused_with UnwrapError.session_expired
    | some t ↦
        if ltb t.expires_at now
        then refused_with UnwrapError.session_expired
        else (if not (t.jwt_token == jwt) || not (t.cookie_fingerprint == cookie)
            then refused_with UnwrapError.session_mismatch
            else (if not (binding_hash_of id jwt cookie == b.binding_hash)
                then refused_with UnwrapError.session_tampered
                else decrypt_share b jwt cookie))
  ]
