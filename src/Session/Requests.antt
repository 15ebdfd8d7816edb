-- ===== src/Session/Requests.antt =====
-- The sessions of src/lib/security/session_guard.ts over requests and clean-ups.
use biofire.Session.{
  cookie_value, auth_cookie, bearer, cleanup_expired_sessions, validate_request_auth_tokens,
  Sessions, check_session,
}
use biofire.Base.{
  ℕ, ◌+◌, ◌≤◌, ◌≡◌, refl, ◌↔◌, inl, inr, true, Option, none, some, [], ◌∷◌, arith, ltb,
  if◌then◌else◌, Option-cases, Text, length, drop, ==_iff, trim, starts_with, has_part, lookup,
  Distinct, nat_eq, list_eq,
}
use biofire.Session.Types.{Tokens, accepted_as}

-- The tokens of an active session, where there is one, are these and have not expired.
abbrev pub Active : ℕ → Text → Text → Option Tokens → Type 0
Active now jwt cookie none = ⊥
Active now jwt cookie (some t) =
    (t.jwt_token ≡ jwt) × (t.cookie_fingerprint ≡ cookie) × (now ≤ t.expires_at)

-- A request that names a session is accepted exactly when the session is active and has not expired,
-- and its tokens are those that the request carries.
check_session-accepted :
    (now : ℕ) (jwt cookie id : Text) (m : Sessions)
    → 1 ≤ length id
    → (check_session now jwt cookie id m ≡ accepted_as jwt cookie)
      ↔ Active now jwt cookie (lookup id m)
unfolding check_session
check_session-accepted now jwt cookie [] m h = absurd (omega (arith, h))
check_session-accepted now jwt cookie (d ∷ ds) m h = elim (Option-cases (lookup (d ∷ ds) m)) [
  | inl e ↦ ground (arith, e)
  | inr (t, e) ↦ ground (arith, e, ==_iff t.jwt_token jwt, ==_iff t.cookie_fingerprint cookie)
]

-- A request that names no session is accepted with any token and any cookie: only the form of its
-- headers is looked at.
validate-no_session :
    (now : ℕ) (auth cookies : Text) (m : Sessions)
    → starts_with auth bearer ≡ true
    → has_part cookies auth_cookie ≡ true
    → validate_request_auth_tokens now (some auth) (some cookies) none m
      ≡ accepted_as (trim (drop (length bearer) auth)) (trim (cookie_value cookies))
unfolding validate_request_auth_tokens check_session
validate-no_session now auth cookies m form cookie = ground (arith, form, cookie)

abbrev pub unexpired : ℕ → Option Tokens → Option Tokens
unexpired now none = none
unexpired now (some t) = if ltb t.expires_at now then none else some t

lookup-cleanup :
    (now : ℕ) (m : Sessions) (id : Text)
    → Distinct m
    → lookup id (cleanup_expired_sessions now m).1 ≡ unexpired now (lookup id m)
unfolding cleanup_expired_sessions lookup
lookup-cleanup now [] id d = refl
lookup-cleanup now ((j, t) ∷ m) id d = ground (arith, lookup-cleanup now m id d.1, ==_iff j id, d.0)

length-cleanup :
    (now : ℕ) (m : Sessions)
    → (cleanup_expired_sessions now m).0 + length (cleanup_expired_sessions now m).1 ≡ length m
unfolding cleanup_expired_sessions
length-cleanup now [] = refl
length-cleanup now ((j, t) ∷ m) = ground (arith, length-cleanup now m)

-- The clean-up removes exactly the sessions that have expired, and counts them.
cleanup-removes_expired :
    (now : ℕ) (m : Sessions)
    → Distinct m
    → ((id : Text) → lookup id (cleanup_expired_sessions now m).1 ≡ unexpired now (lookup id m))
      × ((cleanup_expired_sessions now m).0 + length (cleanup_expired_sessions now m).1 ≡ length m)
cleanup-removes_expired now m d = (λ id. lookup-cleanup now m id d, length-cleanup now m)
