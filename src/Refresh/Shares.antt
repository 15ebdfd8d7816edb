-- ===== src/Refresh/Shares.antt =====
-- What a refresh of src/lib/protocol/key_refresh_engine.ts does to the share.
use mathlib.Core.Path.{subst}
use biofire.Secure.{release_big, big_value}
use native.Mathlib.Nat.{mod-mod}
use biofire.Base.{
  ℕ, suc, ◌+◌, ◌-◌, ◌*◌, ◌%◌, ◌≡◌, refl, sym, ap, ◌∙◌, inl, inr, true, Option, none, some, List, [],
  ◌∷◌, arith, Option-cases, Text, take, Assoc, insert, nat_eq, list_eq,
}
use biofire.Modular.{Congruent, Congruent-add}
use biofire.Mpc.Shares.{poly_value, evaluate_from-poly}
use biofire.Refresh.{
  SubSharePackage, PrivateKey, PublicKey, SecureBigInt, RefreshResult, Points, RefreshEngine,
  get_peer_index, sub_share_at,
}
use biofire.Refresh.Ceremony.{
  combine_phase, commit_phase, refresh_phases, send_phase, execute_refresh, result_of, big_from,
  received_from, receive_sub_share, combined, new_share_value,
}

-- Every share that is received is 0.
abbrev pub AllZero : Assoc Text ℕ → Type 0
AllZero [] = Unit
AllZero ((peer, s) ∷ m) = (s ≡ 0) × AllZero m

insert-AllZero : (peer : Text) (m : Assoc Text ℕ) → AllZero m → AllZero (insert peer 0 m)
unfolding insert
insert-AllZero peer [] h = (refl, tt)
insert-AllZero peer ((q, s) ∷ m) h = ground (arith, h, insert-AllZero peer m h.1)

module _ (c : Points) where
  received-AllZero :
      (e : RefreshEngine) (peers : List Text) (m : Assoc Text ℕ)
      → AllZero m
      → AllZero (received_from c e peers m)
  unfolding received_from receive_sub_share
  received-AllZero e [] m h = h
  received-AllZero e (peer ∷ peers) m h = elim (Option-cases (get_peer_index e.node_id)) [
    | inl none_own ↦ rw (received_from, none_own) (received-AllZero e peers m h)
    | inr (i, own) ↦
        rw (received_from, own)
          (received-AllZero e peers (insert peer 0 m) (insert-AllZero peer m h))
  ]

  combined-Congruent : (v : ℕ) (m : Assoc Text ℕ) → AllZero m → Congruent c.order (combined c v m) v
  unfolding combined
  combined-Congruent v [] h = refl
  combined-Congruent v ((peer, s) ∷ m) (z, h) =
      combined-Congruent ((v + s) % c.order) m h
      ∙ (mod-mod (v + s) c.order ∙ ap (λ k. k % c.order) (omega (arith, z)))

  new_share-Congruent :
      (e : RefreshEngine) (coefficients : List ℕ) (peers : List Text) (old i : ℕ)
      → get_peer_index e.node_id ≡ some i
      → Congruent c.order
          (new_share_value c e coefficients peers old)
          (old + i * poly_value coefficients i)
  unfolding new_share_value sub_share_at
  new_share-Congruent e coefficients peers old i own =
      let base = combined c old (received_from c e peers []) in
      let value = sub_share_at c coefficients i in
      let sum : Congruent c.order ((base + value) % c.order) (old + i * poly_value coefficients i) =
        mod-mod (base + value) c.order
        ∙ Congruent-add c.order base old value (i * poly_value coefficients i)
            (combined-Congruent old (received_from c e peers []) (received-AllZero e peers [] tt))
            (evaluate_from-poly c.order coefficients i 0 i ∙ ap (λ k. k % c.order) (omega arith)) in
      rw (new_share_value, own) sum

  -- What a refresh that returns leaves behind.
  pub record Refreshed (e : RefreshEngine) (x i : ℕ) (coefficients : List ℕ) (r : RefreshResult)
      (e' : RefreshEngine) : Type 0 where
    pub share : ℕ
    pub held : big_value r.new_share ≡ some share
    pub moved : Congruent c.order share (x + i * poly_value coefficients i)
    pub current : e'.current_share ≡ some r.new_share
    pub epoch : e'.current_epoch ≡ suc e.current_epoch
    pub wiped : r.zeroized_old_share ≡ true

  combine_phase-Refreshed :
      (e : RefreshEngine) (old : SecureBigInt) (coefficients : List ℕ) (peers : List Text)
      (keys : PublicKey × PrivateKey) (packages sent : List SubSharePackage) (x i : ℕ)
      (r : RefreshResult)
      → get_peer_index e.node_id ≡ some i
      → (combine_phase c e old coefficients peers keys packages (some x)).0 ≡ inr (r, sent)
      → Refreshed e x i coefficients r
          (combine_phase c e old coefficients peers keys packages (some x)).1
  unfolding release_big
  combine_phase-Refreshed e old coefficients peers keys packages sent x i r own h =
      let v = new_share_value c e coefficients peers x in
      let made = result_of c e old (big_from v) keys in
      let same : made ≡ r = grind (arith, h) in
      subst
        (λ t.
          Refreshed e x i coefficients t
            (combine_phase c e old coefficients peers keys packages (some x)).1)
        same
        (record {
          share = v;
          held = refl;
          moved = new_share-Congruent e coefficients peers x i own;
          current = refl;
          epoch = refl;
          wiped = refl;
        })

  send_phase-Refreshed :
      (e : RefreshEngine) (old : SecureBigInt) (coefficients : List ℕ) (peers : List Text)
      (keys : PublicKey × PrivateKey) (packages : Option (List SubSharePackage))
      (sent : List SubSharePackage) (x i : ℕ) (r : RefreshResult)
      → get_peer_index e.node_id ≡ some i
      → big_value old ≡ some x
      → (send_phase c e old coefficients peers keys packages).0 ≡ inr (r, sent)
      → Refreshed e x i coefficients r (send_phase c e old coefficients peers keys packages).1
  send_phase-Refreshed e old coefficients peers keys none sent x i r own v h =
      absurd (ground (arith, h))
  send_phase-Refreshed e old coefficients peers keys (some packages) sent x i r own v h =
      subst
        (λ o.
          Refreshed e x i coefficients r
            (combine_phase c e old coefficients peers keys packages o).1)
        (sym v)
        (combine_phase-Refreshed e old coefficients peers keys packages sent x i r own
          (ap (λ o. (combine_phase c e old coefficients peers keys packages o).0) (sym v) ∙ h))

  commit_phase-Refreshed :
      (e : RefreshEngine) (old : SecureBigInt) (coefficients : List ℕ) (nonces : Text → ℕ)
      (peers : List Text) (keys : PublicKey × PrivateKey) (commitments : Option (List Text))
      (sent : List SubSharePackage) (x i : ℕ) (r : RefreshResult)
      → get_peer_index e.node_id ≡ some i
      → big_value old ≡ some x
      → (commit_phase c e old coefficients nonces peers keys commitments).0 ≡ inr (r, sent)
      → Refreshed e x i coefficients r
          (commit_phase c e old coefficients nonces peers keys commitments).1
  commit_phase-Refreshed e old coefficients nonces peers keys none sent x i r own v h =
      absurd (ground (arith, h))
  commit_phase-Refreshed e old coefficients nonces peers keys (some ts) sent x i r own v h =
      send_phase-Refreshed e old coefficients peers keys _ sent x i r own v h

  refresh_phases-Refreshed :
      (scalars : List ℕ) (nonces : Text → ℕ) (peers : List Text) (keys : PublicKey × PrivateKey)
      (e : RefreshEngine) (old : SecureBigInt) (old_keys : Option (PublicKey × PrivateKey))
      (sent : List SubSharePackage) (x i : ℕ) (r : RefreshResult)
      → get_peer_index e.node_id ≡ some i
      → big_value old ≡ some x
      → (refresh_phases c scalars nonces peers keys e (some old) old_keys).0 ≡ inr (r, sent)
      → Refreshed e x i
          (take (e.threshold - 1) scalars)
          r
          (refresh_phases c scalars nonces peers keys e (some old) old_keys).1
  refresh_phases-Refreshed scalars nonces peers keys e old none sent x i r own v h =
      absurd (ground (arith, h))
  refresh_phases-Refreshed scalars nonces peers keys e old (some ks) sent x i r own v h =
      commit_phase-Refreshed e old (take (e.threshold - 1) scalars) nonces peers keys _ sent x i r
        own v h

  -- A refresh that returns adds to the share of the node the value at its own index of its own
  -- polynomial, which is 0 at 0, and nothing of any peer; it goes on to the next epoch and wipes the
  -- old share.
  pub execute_refresh-Refreshed :
      (scalars : List ℕ) (nonces : Text → ℕ) (peers : List Text) (keys : PublicKey × PrivateKey)
      (e : RefreshEngine) (old : SecureBigInt) (sent : List SubSharePackage) (x i : ℕ)
      (r : RefreshResult)
      → get_peer_index e.node_id ≡ some i
      → e.current_share ≡ some old
      → big_value old ≡ some x
      → (execute_refresh c scalars nonces peers keys e).0 ≡ inr (r, sent)
      → Refreshed e x i
          (take (e.threshold - 1) scalars)
          r
          (execute_refresh c scalars nonces peers keys e).1
  unfolding execute_refresh
  execute_refresh-Refreshed scalars nonces peers keys e old sent x i r own held v h =
      let phases = λ (o : Option SecureBigInt).
        refresh_phases c scalars nonces peers keys e o e.current_paillier in
      subst (λ o. Refreshed e x i (take (e.threshold - 1) scalars) r (phases o).1) (sym held)
        (refresh_phases-Refreshed scalars nonces peers keys e old e.current_paillier sent x i r own
          v (ap (λ o. (phases o).0) (sym held) ∙ h))
