-- ===== src/Mpc/Tests.antt =====
-- The theorems about key generation and signing over small numbers.
use biofire.Mpc.Inverse.{mod_inverse_order-inverts}
use biofire.Mpc.Numbers.{mod_n, mod_inverse_order}
use biofire.Base.Int.{ℤ, pos, ◌*ℤ◌}
use biofire.Mpc.Refusal.{execute_threshold_signing-after_dkg}
use biofire.Base.{
  ℕ, ◌+◌, ◌≡◌, refl, ◌⊎◌, inl, inr, none, some, List, [], ◌∷◌, ◌++◌, arith, codes, length, decimal,
  insert, nat_eq, list_eq,
}
use biofire.Modular.{Congruent}
use biofire.Paillier.Sample.{public_key, private_key}
use biofire.Mpc.Types.{MpcState, MpcError, DkgSession, CurveType, Curve}
use biofire.Mpc.Numbers.{total_share}
use biofire.Mpc.Dkg.{NodeDraws}
use biofire.Mpc.Sessions.{get_dkg_session, session_of, execute_dkg}
use biofire.Mpc.Signing.{execute_threshold_signing, Request}
use biofire.Mpc.Shares.{total_share-sum, poly_value, sum_polys}

abbrev curve : Curve
curve = record {
  order = 11;
  sha256 = λ t. length t ∷ [];
  to_hex = λ bs. bs;
  base_multiply = λ k. some (k ∷ []);
  zero_point = [];
  add = λ p q. p ++ q;
  x_of = λ p. length p;
}

abbrev empty_state : MpcState
empty_state = record {
  dkg_sessions = [];
  sign_sessions = [];
  node_registry = [];
  node_paillier_keys = [];
  node_shares = [];
}

abbrev node_draws : ℕ → NodeDraws
node_draws i = record {
  scalars = (3 + i) ∷ 5 ∷ [];
  paillier = (public_key, private_key);
  attestation = 7 ∷ [];
}

abbrev polynomials : List (List ℕ)
polynomials = (3 ∷ 5 ∷ []) ∷ (4 ∷ 5 ∷ []) ∷ []

-- Two nodes with the polynomials 3 + 5x and 4 + 5x: the shares are values of 7 + 10x.
shares_run : (total_share 11 polynomials 1 0 ≡ 6) × (total_share 11 polynomials 2 0 ≡ 5)
unfolding total_share biofire.Mpc.Numbers.evaluate biofire.Mpc.Numbers.evaluate_from
shares_run = (refl, refl)

total_share-sum_example :
    Congruent 11 (total_share 11 polynomials 2 0) (0 + poly_value (sum_polys polynomials) 2)
total_share-sum_example = total_share-sum 11 polynomials 2 0

abbrev after_dkg : MpcState
after_dkg = (execute_dkg curve (1 ∷ []) 9 node_draws 2 2 CurveType.secp256k1 empty_state).1

abbrev request : Request
request = record {
  chain_id = codes "ethereum";
  amount = codes "1";
  symbol = codes "ETH";
  to_address = codes "0x1";
  dropped_party_id = none;
}

abbrev made_of : MpcError ⊎ DkgSession → DkgSession → DkgSession
made_of (inl e) s = s
made_of (inr made) s = made

abbrev session : DkgSession
session =
    made_of (execute_dkg curve (1 ∷ []) 9 node_draws 2 2 CurveType.secp256k1 empty_state).0
      (session_of curve [] 0 0 0 CurveType.secp256k1 [] [])

execute_threshold_signing-after_dkg_example :
    (get_dkg_session (some session.session_id) after_dkg ≡ some session)
    × (execute_threshold_signing curve (codes "c") 10 11 (λ i. i + 1) request after_dkg
        ≡ (inl MpcError.no_active_session, after_dkg))
unfolding execute_dkg biofire.Mpc.Dkg.polynomials_from biofire.Mpc.Dkg.filled_registry
    biofire.Mpc.Dkg.added_nodes biofire.Mpc.Dkg.commitments_to biofire.Mpc.Dkg.shares_from
    biofire.Mpc.Dkg.group_key_from biofire.Base.insert biofire.Base.decimal
execute_threshold_signing-after_dkg_example =
    execute_threshold_signing-after_dkg curve (1 ∷ []) 9 node_draws 2 2 CurveType.secp256k1
      empty_state {session = session} (codes "c") 10 11 (λ i. i + 1) request refl

mod_inverse_order-inverts_example :
    (v : ℤ) × (mod_inverse_order 11 25 ≡ some v) × Congruent 11 (mod_n 11 (pos 25 *ℤ v)) 1
unfolding biofire.Paillier.gcd_loop
mod_inverse_order-inverts_example = mod_inverse_order-inverts 11 25 (omega arith) refl
