-- ===== src/Refresh/Tests.antt =====
-- The theorems about the refresh over small numbers.
use biofire.Base.{
  ◌≡◌, refl, ◌⊎◌, inl, inr, true, none, some, List, [], ◌∷◌, ◌++◌, Text, codes, length, ◌==◌,
  insert, nat_eq, list_eq,
}
use biofire.Paillier.Sample.{public_key, private_key}
use biofire.Refresh.{
  Points, RefreshZkp, RefreshEngine, RefreshResult, SubSharePackage, get_peer_index,
}
use biofire.Refresh.Ceremony.{execute_refresh, big_from, RefreshError}
use biofire.Refresh.Shares.{Refreshed, execute_refresh-Refreshed}

abbrev points : Points
points = record {
  order = 11;
  sha256 = λ t. length t ∷ [];
  to_hex = λ bs. bs;
  from_hex = λ t. some t;
  base_multiply = λ k. some (k ∷ []);
  multiply = λ p k. some p;
  add = λ p q. p ++ q;
  equals = λ p q. p == q;
}

abbrev engine : RefreshEngine
engine = record {
  node_id = codes "node-2";
  current_share = some (big_from 8);
  current_paillier = some (public_key, private_key);
  current_epoch = 4;
  threshold = 2;
  total_parties = 3;
}

abbrev peers : List Text
peers = codes "node-1" ∷ codes "other" ∷ []

index_run :
    (get_peer_index (codes "a-node-12b") ≡ some 12) × (get_peer_index (codes "node-") ≡ none)
unfolding get_peer_index biofire.Base.Hex.read_digits
index_run = (refl, refl)

abbrev RefreshOutcome : Type 0
RefreshOutcome = (RefreshError ⊎ (RefreshResult × List SubSharePackage)) × RefreshEngine

abbrev outcome : RefreshOutcome
outcome = execute_refresh points (3 ∷ 9 ∷ []) (λ peer. 6) peers (public_key, private_key) engine

abbrev refreshed_share : RefreshResult
refreshed_share = record {
  success = true;
  new_epoch = 5;
  new_share = big_from 3;
  new_paillier_keys = (public_key, private_key);
  master_public_key_unchanged = true;
  zeroized_old_share = true;
  faulty_nodes = [];
}

abbrev sent_of : RefreshError ⊎ (RefreshResult × List SubSharePackage) → List SubSharePackage
sent_of (inl e) = []
sent_of (inr (r, sent)) = sent

execute_refresh-Refreshed_example : Refreshed points engine 8 2 (3 ∷ []) refreshed_share outcome.1
unfolding get_peer_index biofire.Base.Hex.read_digits execute_refresh
    biofire.Refresh.Ceremony.commitments_to biofire.Refresh.Ceremony.packages_to
    biofire.Refresh.generate_sub_share_zkp biofire.Refresh.Ceremony.new_share_value
    biofire.Secure.release_big biofire.Refresh.Ceremony.combined
    biofire.Refresh.Ceremony.received_from biofire.Refresh.Ceremony.receive_sub_share
    biofire.Base.insert biofire.Refresh.sub_share_at biofire.Mpc.Numbers.evaluate_from
execute_refresh-Refreshed_example =
    execute_refresh-Refreshed points (3 ∷ 9 ∷ []) (λ peer. 6) peers (public_key, private_key) engine
      (big_from 8) (sent_of outcome.0) 8 2 refreshed_share refl refl refl refl

abbrev zkp : RefreshZkp
zkp = record { commitment_r = codes "0x4"; challenge_e = codes "0x3"; response_z = codes "0x7" }
