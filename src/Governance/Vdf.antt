-- ===== src/Governance/Vdf.antt =====
-- src/lib/governance/vdf/vdf_engine.ts: the time lock by repeated squaring. sha256 of a text, in
-- hexadecimal, is a parameter, and so is the reading of `0x` literals by BigInt.
use biofire.Base.{
  ℕ, zero, suc, ◌-◌, ◌*◌, ◌%◌, ◌^◌, Bool, false, ◌&&◌, Option, none, some, ◌++◌, Text, codes, ◌==◌,
  decimal, nat_eq, list_eq,
}
use biofire.Base.Int.{pos, sub_ℕ}
use biofire.Paillier
use biofire.Paillier.{mod_pow_signed}

pub record VdfProof : Type 0 where
  pub challenge : Text
  pub result : ℕ
  pub proof : ℕ
  pub iterations : ℕ

pub record TimeLockEnvelope : Type 0 where
  pub payload : Text
  pub not_before_vdf : VdfProof
  pub created_at : ℕ
  pub minimum_delay_seconds : ℕ

-- 512 digits f.
abbrev pub vdf_modulus : ℕ
vdf_modulus = 2 ^ 2048 - 1

-- The loop of the squarings.
unfoldable pub squarings : ℕ → ℕ → ℕ → ℕ
squarings zero y n = y
squarings (suc rounds) y n = squarings rounds (y * y % n) n

-- The digest of a text, and `BigInt` of a challenge, which throws where it is no number.
pub record Digests : Type 0 where
  pub sha256_hex : Text → Text
  pub big_int : Text → Option ℕ

-- A result of the library is `none` where it throws.
abbrev pub to_option : {A : Type 0} → Paillier.Result A → Option A
to_option (Paillier.ok a) = some a
to_option (Paillier.err e) = none

module _ (d : Digests) where
  unfoldable pub generate_vdf_challenge : Text → Text → ℕ → ℕ → Text
  generate_vdf_challenge approval approver timestamp delay =
      codes "0x"
      ++ d.sha256_hex (
          approval
          ++ codes ":"
          ++ approver
          ++ codes ":"
          ++ decimal timestamp
          ++ codes ":"
          ++ decimal delay)

  -- `r = H(x || y)` modulo the modulus; the digest itself is a hexadecimal number.
  unfoldable pub remainder_of : ℕ → ℕ → ℕ → Option ℕ
  remainder_of n x y =
      elim (d.big_int (codes "0x" ++ d.sha256_hex (decimal x ++ codes ":" ++ decimal y))) [
        | none ↦ none
        | some h ↦ some (h % n)
      ]

  module _ (n : ℕ) where
    abbrev pub proved : Text → ℕ → ℕ → Option ℕ → Option ℕ → Option VdfProof
    proved challenge t y none pi = none
    proved challenge t y (some r) none = none
    proved challenge t y (some r) (some pi) =
        some (record { challenge = challenge; result = y; proof = pi; iterations = t })

    abbrev pub proof_power : ℕ → ℕ → Option ℕ → Option ℕ
    proof_power x t none = none
    proof_power x t (some r) = to_option (mod_pow_signed (pos x) (sub_ℕ t r) n)

    abbrev pub evaluate_at : Text → ℕ → ℕ → Option VdfProof
    evaluate_at challenge t x =
        let y = squarings t x n in
        let r = remainder_of n x y in proved challenge t y r (proof_power x t r)

    -- evaluateVDF, where `none` is a rejected promise.
    unfoldable pub evaluate_vdf : Text → ℕ → Option VdfProof
    evaluate_vdf challenge t = elim (d.big_int challenge) [
      | none ↦ none
      | some c ↦ evaluate_at challenge t (c % n)
    ]

    -- verifyVDF: the remainder is computed, and not used.
    unfoldable pub verify_vdf : VdfProof → Bool
    verify_vdf p = elim (d.big_int p.challenge) [
      | none ↦ false
      | some c ↦ elim (remainder_of n (c % n) p.result) [
        | none ↦ false
        | some r ↦ elim (to_option (mod_pow_signed (pos p.proof) (pos p.iterations) n)) [
          | none ↦ false
          | some lhs ↦ lhs == p.result
        ]
      ]
    ]

    abbrev pub enveloped : Text → ℕ → ℕ → Option VdfProof → Option TimeLockEnvelope
    enveloped payload now delay none = none
    enveloped payload now delay (some p) = some (record {
      payload = payload;
      not_before_vdf = p;
      created_at = now;
      minimum_delay_seconds = delay;
    })

    unfoldable pub create_time_locked_approval :
        ℕ → Text → Text → Text → ℕ → Option TimeLockEnvelope
    create_time_locked_approval now approval approver payload delay =
        enveloped payload now delay
          (evaluate_vdf (generate_vdf_challenge approval approver now delay) (delay * 1000000))

    unfoldable pub verify_time_lock : TimeLockEnvelope → Bool
    verify_time_lock e =
        verify_vdf e.not_before_vdf
        && e.not_before_vdf.challenge
          == generate_vdf_challenge e.payload (codes "system") e.created_at e.minimum_delay_seconds
