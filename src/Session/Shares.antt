-- ===== src/Session/Shares.antt =====
-- Wrapping and unwrapping of src/lib/security/session_guard.ts.
use biofire.Session.{
  revoke_session, binding_hash_of, derive_key, Sessions, printed_hex, wrap_share, read_hex,
  unwrap_share, decrypt_share,
}
use biofire.Base.{
  ℕ, ◌-◌, ◌≤◌, ◌≡◌, refl, inl, inr, some, List, arith, Option-cases, Text, length, take, drop,
  take-drop, ==_iff, ==_refl, lookup, lookup-erase, nat_eq, list_eq,
}
use biofire.Session.Types.{Tokens, BoundShare, UnwrapError, plaintext, refused_with, Ciphers}

module _ (c : Ciphers) where
  read_hex-printed : (bs : List ℕ) → read_hex c (printed_hex c bs) ≡ some bs
  read_hex-printed bs = c.from_hex-to_hex bs

  decrypt-wrap :
      (salt iv : List ℕ) (id : Text) (share : List ℕ) (t : Tokens)
      → decrypt_share c (wrap_share c salt iv id share t) t.jwt_token t.cookie_fingerprint
        ≡ plaintext share
  unfolding decrypt_share wrap_share
  decrypt-wrap salt iv id share t =
      let key = derive_key c t.jwt_token t.cookie_fingerprint salt in
      let sealed = c.seal key iv share in
      let at = length sealed - 16 in
      let joined = take-drop at sealed in
      ground (
        arith,
        c.from_hex-to_hex salt,
        c.from_hex-to_hex iv,
        c.from_hex-to_hex (take at sealed),
        c.from_hex-to_hex (drop at sealed),
        joined,
        c.unseal-seal key iv share,
      )

  bound_hash :
      (salt iv : List ℕ) (id : Text) (share : List ℕ) (t : Tokens)
      → (wrap_share c salt iv id share t).binding_hash
        ≡ binding_hash_of c t.session_id t.jwt_token t.cookie_fingerprint
  unfolding wrap_share
  bound_hash salt iv id share t = refl

  -- A share that was wrapped under a session unwraps to itself with the tokens of the session, until
  -- the session expires.
  pub unwrap_share-wrap_share :
      (now : ℕ) (salt iv : List ℕ) (id : Text) (share : List ℕ) (t : Tokens) (m : Sessions)
      → lookup t.session_id m ≡ some t
      → now ≤ t.expires_at
      → unwrap_share c now
          (wrap_share c salt iv id share t)
          t.jwt_token
          t.cookie_fingerprint
          t.session_id
          m
        ≡ plaintext share
  unfolding unwrap_share
  unwrap_share-wrap_share now salt iv id share t m known early = ground (
    arith,
    known,
    decrypt-wrap salt iv id share t,
    bound_hash salt iv id share t,
    ==_iff t.jwt_token t.jwt_token,
    ==_iff t.cookie_fingerprint t.cookie_fingerprint,
    ==_iff (binding_hash_of c t.session_id t.jwt_token t.cookie_fingerprint)
        (binding_hash_of c t.session_id t.jwt_token t.cookie_fingerprint),
  )

  authorised_by :
      (now : ℕ) (b : BoundShare) (jwt cookie id : Text) (m : Sessions) (share : List ℕ) (t : Tokens)
      → lookup id m ≡ some t
      → unwrap_share c now b jwt cookie id m ≡ plaintext share
      → (now ≤ t.expires_at)
        × (t.jwt_token ≡ jwt)
        × (t.cookie_fingerprint ≡ cookie)
        × (b.binding_hash ≡ binding_hash_of c id jwt cookie)
  unfolding unwrap_share
  authorised_by now b jwt cookie id m share t e h = ground (
    arith,
    e,
    h,
    ==_iff t.jwt_token jwt,
    ==_iff t.cookie_fingerprint cookie,
    ==_iff (binding_hash_of c id jwt cookie) b.binding_hash,
  )

  -- What unwraps a share holds the tokens of a session that is active, and the share is bound to them.
  pub unwrap_share-authorised :
      (now : ℕ) (b : BoundShare) (jwt cookie id : Text) (m : Sessions) (share : List ℕ)
      → unwrap_share c now b jwt cookie id m ≡ plaintext share
      → (t : Tokens) × (lookup id m ≡ some t)
        × (now ≤ t.expires_at)
        × (t.jwt_token ≡ jwt)
        × (t.cookie_fingerprint ≡ cookie)
        × (b.binding_hash ≡ binding_hash_of c id jwt cookie)
  unfolding unwrap_share
  unwrap_share-authorised now b jwt cookie id m share h = elim (Option-cases (lookup id m)) [
    | inl e ↦ absurd (ground (arith, e, h))
    | inr (t, e) ↦
        (let (a, j, k, s) = authorised_by now b jwt cookie id m share t e h in (t, e, a, j, k, s))
  ]

  -- A revoked session unwraps nothing.
  pub unwrap_share-revoked :
      (now : ℕ) (b : BoundShare) (jwt cookie id : Text) (m : Sessions)
      → unwrap_share c now b jwt cookie id (revoke_session id m).1
        ≡ refused_with UnwrapError.session_expired
  unfolding unwrap_share
  unwrap_share-revoked now b jwt cookie id m = ground (arith, lookup-erase id id m, ==_refl id)
