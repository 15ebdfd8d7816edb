-- ===== src/License/Heartbeat.antt =====
-- src/lib/licensing/heartbeat.ts: the tokens that prove that a license is in use on its hardware.
use biofire.License.{Crypto}
use biofire.Base.{
  ℕ, suc, ◌+◌, ◌-◌, ◌/◌, ◌≤◌, ◌≡◌, refl, ◌↔◌, not, Option, none, some, List, [], ◌∷◌, ◌++◌, arith,
  ltb, if◌then◌else◌, Text, codes, length, ◌==◌, ==_iff, includes, decimal, Assoc, lookup, insert,
  nat_eq, list_eq,
}
use biofire.Base.Int.{ℤ, pos, negsuc}
use biofire.License.Types.{HeartbeatToken, TokenReason}

abbrev pub epoch_duration_ms : ℕ
epoch_duration_ms = 300000

-- Numbers in a JSON text.
abbrev pub printed_int : ℤ → Text
printed_int (pos n) = decimal n
printed_int (negsuc n) = codes "-" ++ decimal (suc n)

-- `JSON.stringify` of the two counters that the kernel hands over.
unfoldable pub usage_json : ℕ → ℤ → Text
usage_json tx vol =
    codes "{\"tx\":" ++ decimal tx ++ codes ",\"vol\":" ++ printed_int vol ++ codes "}"

abbrev pub distance : ℕ → ℕ → ℕ
distance a b = (a - b) + (b - a)

module _ (c : Crypto) where
  unfoldable pub token_for : List ℕ → ℕ → Text → Text → Text → ℕ → Text
  token_for secret epoch node hw usage timestamp =
      codes "0x"
      ++ c.hmac secret (
          decimal epoch
          ++ codes ":"
          ++ node
          ++ codes ":"
          ++ hw
          ++ codes ":"
          ++ usage
          ++ codes ":"
          ++ decimal timestamp)

  unfoldable pub generate_heartbeat : ℕ → Text → Text → ℕ → ℤ → List ℕ → HeartbeatToken
  generate_heartbeat now node hw tx vol secret =
      let epoch = now / epoch_duration_ms in
      let usage = codes "0x" ++ c.digest (usage_json tx vol) in
      record {
        epoch = epoch;
        node_id = node;
        hw_fingerprint = hw;
        usage_hash = usage;
        timestamp = now;
        token = token_for secret epoch node hw usage now;
      }

  -- `none` is a valid token.
  unfoldable pub verify_heartbeat : ℕ → HeartbeatToken → List ℕ → Text → Option TokenReason
  verify_heartbeat now t secret expected =
      if ltb 2 (distance (now / epoch_duration_ms) t.epoch)
      then some TokenReason.epoch_expired
      else (if not (t.hw_fingerprint == expected)
          then some TokenReason.hardware_mismatch
          else (if not (
                t.token
                == token_for secret t.epoch t.node_id t.hw_fingerprint t.usage_hash t.timestamp)
              then some TokenReason.invalid_hmac
              else none))

  -- A token is accepted exactly when its epoch is at most two away from the present one, it names
  -- the expected hardware and it carries the code of its own fields under the secret.
  verify_heartbeat_iff :
      (now : ℕ) (t : HeartbeatToken) (secret : List ℕ) (expected : Text)
      → (verify_heartbeat now t secret expected ≡ none) ↔ (
          (distance (now / epoch_duration_ms) t.epoch ≤ 2)
          × (t.hw_fingerprint ≡ expected)
          × (t.token
              ≡ token_for secret t.epoch t.node_id t.hw_fingerprint t.usage_hash t.timestamp))
  unfolding verify_heartbeat
  verify_heartbeat_iff now t secret expected = ground (
    arith,
    ==_iff t.hw_fingerprint expected,
    ==_iff t.token (token_for secret t.epoch t.node_id t.hw_fingerprint t.usage_hash t.timestamp),
  )

  accepted :
      (made now : ℕ) (node hw : Text) (tx : ℕ) (vol : ℤ) (secret : List ℕ)
      → made ≤ now
      → now ≤ made + 600000
      → let t = generate_heartbeat made node hw tx vol secret in
        (distance (now / epoch_duration_ms) t.epoch ≤ 2)
        × (t.hw_fingerprint ≡ hw)
        × (t.token ≡ token_for secret t.epoch t.node_id t.hw_fingerprint t.usage_hash t.timestamp)
  unfolding generate_heartbeat
  accepted made now node hw tx vol secret after before = (omega arith, refl, refl)

  -- A token that a node generates is accepted for the ten minutes that follow, by whoever has the
  -- secret and expects the node's hardware.
  verify-generate_heartbeat :
      (made now : ℕ) (node hw : Text) (tx : ℕ) (vol : ℤ) (secret : List ℕ)
      → made ≤ now
      → now ≤ made + 600000
      → verify_heartbeat now (generate_heartbeat made node hw tx vol secret) secret hw ≡ none
  verify-generate_heartbeat made now node hw tx vol secret after before =
      (verify_heartbeat_iff now (generate_heartbeat made node hw tx vol secret) secret hw).1
        (accepted made now node hw tx vol secret after before)

-- The tokens of one epoch are kept in a `Set` of fingerprints.
abbrev pub set_add : Text → List Text → List Text
set_add t ts = if includes ts t then ts else ts ++ (t ∷ [])

abbrev pub fingerprints_at : ℕ → Assoc ℕ (List Text) → List Text
fingerprints_at e m = elim (lookup e m) [ none ↦ [] | some ts ↦ ts ]

unfoldable pub epoch_map : List HeartbeatToken → Assoc ℕ (List Text) → Assoc ℕ (List Text)
epoch_map [] m = m
epoch_map (t ∷ ts) m =
    epoch_map ts (insert t.epoch (set_add t.hw_fingerprint (fingerprints_at t.epoch m)) m)

abbrev pub first_shared : Assoc ℕ (List Text) → Option (ℕ × List Text)
first_shared [] = none
first_shared ((e, hws) ∷ m) =
    let rest = first_shared m in if ltb 1 (length hws) then some (e, hws) else rest

-- The epoch and the fingerprints of a cloned license.
unfoldable pub detect_cloning : List HeartbeatToken → Option (ℕ × List Text)
detect_cloning tokens = first_shared (epoch_map tokens [])
