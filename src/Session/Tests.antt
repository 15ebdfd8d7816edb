-- ===== src/Session/Tests.antt =====
-- The theorems about sessions at small ciphers, and some runs.
use biofire.Session.Shares.{unwrap_share-wrap_share, unwrap_share-authorised}
use biofire.Session.{
  create_session_binding, cookie_value, wrap_share, binding_hash_of, unwrap_share, Sessions,
}
use biofire.Base.{
  ℕ, ◌≤◌, ◌≡◌, refl, Option, some, List, [], ◌∷◌, ◌++◌, arith, codes, drop, replicate, lookup,
  insert, nat_eq, list_eq,
}
use biofire.Session.Types.{Tokens, BoundShare, UnwrapError, plaintext, refused_with, Ciphers}

abbrev sixteen : List ℕ
sixteen = replicate 16 0

-- The tag is sixteen zeroes in front of the end, and hex digits are the bytes themselves.
abbrev untagged : List ℕ → Option (List ℕ)
untagged bs = some (drop 16 bs)

abbrev plain : Ciphers
plain = record {
  hash_hex = λ t. t;
  mac = λ key t. t;
  to_hex = λ bs. 49 ∷ bs;
  from_hex = λ t. some (drop 1 t);
  seal = λ key iv bs. sixteen ++ bs;
  unseal = λ key iv bs. untagged bs;
  from_hex-to_hex = λ bs. refl;
  unseal-seal = λ key iv bs. refl;
}

abbrev bound : Tokens × Sessions
bound = create_session_binding plain 1000 (1 ∷ 2 ∷ []) (3 ∷ []) (codes "s1") []

abbrev wrapped : BoundShare
wrapped = wrap_share plain (7 ∷ []) (8 ∷ []) (codes "share") (42 ∷ 43 ∷ []) bound.0

runs :
    (unwrap_share plain 2000 wrapped bound.0.jwt_token bound.0.cookie_fingerprint
        (codes "s1")
        bound.1
      ≡ plaintext (42 ∷ 43 ∷ []))
    × (unwrap_share plain 2000 wrapped (codes "x") bound.0.cookie_fingerprint (codes "s1") bound.1
        ≡ refused_with UnwrapError.session_mismatch)
    × (unwrap_share plain 9999999 wrapped bound.0.jwt_token bound.0.cookie_fingerprint
          (codes "s1")
          bound.1
        ≡ refused_with UnwrapError.session_expired)
    × (cookie_value (codes "a=1; biofire_session_auth=xyz; b=2") ≡ codes "xyz")
unfolding unwrap_share lookup create_session_binding biofire.Base.insert binding_hash_of wrap_share
    biofire.Session.decrypt_share cookie_value
runs = (refl, refl, refl, refl)

unwrap_share-wrap_share_example :
    unwrap_share plain 2000 wrapped bound.0.jwt_token bound.0.cookie_fingerprint
      (codes "s1")
      bound.1
    ≡ plaintext (42 ∷ 43 ∷ [])
unfolding lookup create_session_binding biofire.Base.insert
unwrap_share-wrap_share_example =
    unwrap_share-wrap_share plain 2000 (7 ∷ []) (8 ∷ []) (codes "share") (42 ∷ 43 ∷ []) bound.0
      bound.1 refl (omega arith)

unwrap_share-authorised_example :
    (t : Tokens) × (lookup (codes "s1") bound.1 ≡ some t)
    × (2000 ≤ t.expires_at)
    × (t.jwt_token ≡ bound.0.jwt_token)
    × (t.cookie_fingerprint ≡ bound.0.cookie_fingerprint)
    × (wrapped.binding_hash
        ≡ binding_hash_of plain (codes "s1") bound.0.jwt_token bound.0.cookie_fingerprint)
unwrap_share-authorised_example =
    unwrap_share-authorised plain 2000 wrapped bound.0.jwt_token bound.0.cookie_fingerprint
      (codes "s1") bound.1 (42 ∷ 43 ∷ []) runs.0
