-- ===== src/Transport/Messages.antt =====
-- The authenticated messages of src/lib/network/transport.ts.
use biofire.Base.{
  ℕ, ◌-◌, ◌≤◌, ◌≡◌, refl, sym, ap, ◌∙◌, ◌↔◌, inl, inr, true, false, List, [], ◌∷◌, ◌++◌, arith, ltb,
  if◌then◌else◌, Bool-cases, Text, length, take, drop, length-append, take-drop, nat_eq, list_eq,
}
use biofire.Random.Compare.{constant_time_equal_iff}
use biofire.Transport.{
  Platform, TransportConfig, Effect, authenticate_payload, verify_authentication, handle_message,
  on_message,
}

take-append : (xs ys : List ℕ) → take (length xs) (xs ++ ys) ≡ xs
take-append [] ys = refl
take-append (x ∷ xs) ys = ap (λ zs. x ∷ zs) (take-append xs ys)

drop-append : (xs ys : List ℕ) → drop (length xs) (xs ++ ys) ≡ ys
drop-append [] ys = refl
drop-append (x ∷ xs) ys = drop-append xs ys

module _ (p : Platform) (config : TransportConfig)
    (tag : (key bytes : List ℕ) → length (p.hmac key bytes) ≡ 32) where
  cut_payload : (bytes : List ℕ) → length (authenticate_payload p config bytes) - 32 ≡ length bytes
  unfolding authenticate_payload
  cut_payload bytes =
      omega (arith, length-append bytes (p.hmac config.auth_key bytes), tag config.auth_key bytes)

  sealed_verifies :
      (bytes : List ℕ) → verify_authentication p config (authenticate_payload p config bytes) ≡ true
  unfolding verify_authentication authenticate_payload
  sealed_verifies bytes =
      let mac = p.hmac config.auth_key bytes in
      let long : ltb (length (bytes ++ mac)) 32 ≡ false =
        ground (arith, length-append bytes mac, tag config.auth_key bytes) in
      rw
        (
          verify_authentication,
          long,
          cut_payload bytes,
          take-append bytes mac,
          drop-append bytes mac,
        )
        ((constant_time_equal_iff mac mac).1 refl)

  verified_is_sealed :
      (message : List ℕ)
      → verify_authentication p config message ≡ true
      → authenticate_payload p config (take (length message - 32) message) ≡ message
  unfolding verify_authentication authenticate_payload
  verified_is_sealed message h = elim (Bool-cases (ltb (length message) 32)) [
    | inl short ↦ absurd (ground (arith, h, short))
    | inr long ↦
        let payload = take (length message - 32) message in
        let same =
          (constant_time_equal_iff (drop (length message - 32) message)
              (p.hmac config.auth_key payload)).0
            (rw (verify_authentication, long) at h) in
        ap (λ t. payload ++ t) (sym same) ∙ take-drop (length message - 32) message
  ]

  payload_of_sealed :
      (bytes : List ℕ)
      → take
          (length (authenticate_payload p config bytes) - 32)
          (authenticate_payload p config bytes)
        ≡ bytes
  unfolding authenticate_payload
  payload_of_sealed bytes =
      rw (cut_payload bytes) (take-append bytes (p.hmac config.auth_key bytes))

  taken :
      (peer : Text) (ws : ℕ) (message : List ℕ)
      → length message ≤ config.max_payload_size
      → on_message p config peer ws message ≡ (
          if verify_authentication p config message
          then Effect.delivered peer (take (length message - 32) message) ∷ []
          else Effect.auth_failure peer ∷ [])
  unfolding on_message handle_message
  taken peer ws message fits =
      let small : ltb config.max_payload_size (length message) ≡ false = ground (arith, fits) in
      rw (on_message, small) refl

  -- Where the tags have 32 bytes, a message that is not too large gives a payload to unpack
  -- exactly when it is this payload with its tag.
  pub on_message_iff :
      (peer : Text) (ws : ℕ) (message bytes : List ℕ)
      → length message ≤ config.max_payload_size
      → (on_message p config peer ws message ≡ Effect.delivered peer bytes ∷ [])
        ↔ (authenticate_payload p config bytes ≡ message)
  on_message_iff peer ws message bytes fits =
      rw (taken peer ws message fits) (elim (Bool-cases (verify_authentication p config message)) [
        | inl good ↦ rw good (
            (
              λ h.
                  let same : take (length message - 32) message ≡ bytes = grind (arith, h) in
                  rw (← same) (verified_is_sealed message good),
              λ e. rw (← e) (ap (λ t. Effect.delivered peer t ∷ []) (payload_of_sealed bytes)),
            ))
        | inr bad ↦ rw bad (
            (
              λ h. absurd (ground (arith, h)),
              λ e. absurd (ground (arith, bad, rw e at (sealed_verifies bytes))),
            ))
      ])
