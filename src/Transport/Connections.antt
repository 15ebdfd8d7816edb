-- ===== src/Transport/Connections.antt =====
-- The connections of src/lib/network/transport.ts over any run of its events.
use biofire.Base.{
  ℕ, suc, ◌+◌, ◌*◌, ◌≤◌, ◌<◌, ◌≡◌, refl, inl, inr, Bool, true, false, Option, none, some, List, [],
  ◌∷◌, arith, leb, if◌then◌else◌, Option-cases, Text, length, ==_refl, Assoc, lookup, has, insert,
  erase, lookup-insert, nat_eq, list_eq,
}
use biofire.Transport.{
  on_open, Effect, extract_peer_id_from_url, extract_peer_id, shorter, current_interval, Platform,
  TransportConfig, Transport, on_connection, on_dialled_close, on_close, disconnect,
  schedule_reconnect, close, admitted, identified,
}

-- The events that change the connections: sockets that come in and end, dialled sockets that open and
-- end, and the calls of disconnect and close.
pub data Step : Type 0 where
  comes_in : ℕ → Text → Step
  opens : Text → ℕ → Step
  dialled_ends : Text → Step
  ends : Text → Step
  disconnects : Text → Step
  shuts : Step

-- How many dialled sockets open.
abbrev pub count_opens : List Step → ℕ
count_opens [] = 0
count_opens (opens url ws ∷ os) = suc (count_opens os)
count_opens (o ∷ os) = count_opens os

length-insert :
    {V : Type 0} (k : Text) (v : V) (m : Assoc Text V) → length (insert k v m) ≤ suc (length m)
unfolding insert
length-insert k v [] = omega arith
length-insert k v ((j, w) ∷ m) = ground (arith, length-insert k v m)

length-erase : {V : Type 0} (k : Text) (m : Assoc Text V) → length (erase k m) ≤ length m
unfolding erase
length-erase k [] = omega arith
length-erase k ((j, w) ∷ m) = ground (arith, length-erase k m)

-- A property of both branches of a test.
either_branch {ℓ κ} :
    {A : Type ℓ} (P : A → Type κ) (b : Bool) (x y : A)
    → (b ≡ true → P x)
    → (b ≡ false → P y)
    → P (if b then x else y)
either_branch P true x y f g = f refl
either_branch P false x y f g = g refl

module _ (p : Platform) (config : TransportConfig) where
  abbrev pub step : Step → Transport → Transport
  step (comes_in ws url) t = (on_connection p config ws url t).1
  step (opens url ws) t = on_open p config url ws t
  step (dialled_ends url) t = on_dialled_close p config url t
  step (ends peer) t = on_close p config peer t
  step (disconnects peer) t = (disconnect p config peer t).1
  step shuts t = (close p config t).1

  unfoldable pub run_events : List Step → Transport → Transport
  run_events [] t = t
  run_events (o ∷ os) t = run_events os (step o t)

  abbrev pub Waits : Assoc Text ℕ → Type 0
  Waits [] = Unit
  Waits ((peer, interval) ∷ m) =
      (interval ≤ config.reconnect_max_interval_ms)
      × (interval ≤ config.reconnect_interval_ms * 2)
      × Waits m

  -- Where `dialled` sockets have opened: the connections are no more than are allowed and those, after a
  -- close no more than those, and no reconnection waits longer than twice the first interval, or than
  -- the longest.
  pub record Bounded (dialled : ℕ) (t : Transport) : Type 0 where
    pub few : length t.clients ≤ config.max_connections + dialled
    pub few_left : t.is_closing ≡ true → length t.clients ≤ dialled
    pub short : Waits t.reconnect_timers

  insert-Waits :
      (peer : Text) (interval : ℕ) (m : Assoc Text ℕ)
      → interval ≤ config.reconnect_max_interval_ms
      → interval ≤ config.reconnect_interval_ms * 2
      → Waits m
      → Waits (insert peer interval m)
  unfolding insert
  insert-Waits peer interval [] a b h = (a, b, tt)
  insert-Waits peer interval ((q, i) ∷ m) a b h =
      ground (arith, a, b, h, insert-Waits peer interval m a b h.2)

  admitted-Bounded :
      (n : ℕ) (id : Option Text) (ws : ℕ) (t : Transport)
      → t.is_closing ≡ false
      → length t.clients < config.max_connections
      → Bounded n t
      → Bounded n (admitted p config id ws t).1
  admitted-Bounded n none ws t running room b = b
  admitted-Bounded n (some []) ws t running room b = b
  admitted-Bounded n (some (c ∷ id)) ws t running room b = record {
    few = omega (arith, room, length-insert (c ∷ id) ws t.clients);
    few_left = λ h. absurd (ground (arith, h, running));
    short = b.short;
  }

  identified-Bounded :
      (n : ℕ) (id : Option (Option Text)) (ws : ℕ) (t : Transport)
      → t.is_closing ≡ false
      → length t.clients < config.max_connections
      → Bounded n t
      → Bounded n (identified p config id ws t).1
  identified-Bounded n none ws t running room b = b
  identified-Bounded n (some id) ws t running room b = admitted-Bounded n id ws t running room b

  erased-Bounded :
      (n : ℕ) (peer : Text) (t : Transport)
      → Bounded n t
      → Bounded n (record t { clients = erase peer t.clients })
  erased-Bounded n peer t b = record {
    few = omega (arith, b.few, length-erase peer t.clients);
    few_left = λ h. omega (arith, b.few_left h, length-erase peer t.clients);
    short = b.short;
  }

  -- A dialled socket is added without a look at the limit or at the closing.
  opened-Bounded :
      (n : ℕ) (url : Text) (ws : ℕ) (t : Transport)
      → Bounded n t
      → Bounded (suc n) (on_open p config url ws t)
  unfolding on_open
  opened-Bounded n url ws t b =
      let grown = length-insert (extract_peer_id_from_url p config url) ws t.clients in
      record {
        few = omega (arith, b.few, grown);
        few_left = λ h. omega (arith, b.few_left h, grown);
        short = b.short;
      }

  interval_within :
      (waiting : Bool)
      → let interval =
          shorter p config (current_interval p config waiting) config.reconnect_max_interval_ms in
        (interval ≤ config.reconnect_max_interval_ms)
        × (interval ≤ config.reconnect_interval_ms * 2)
  interval_within true = (ground arith, ground arith)
  interval_within false = (ground arith, ground arith)

  reconnect-Bounded :
      (n : ℕ) (url : Text) (t : Transport)
      → Bounded n t
      → Bounded n (schedule_reconnect p config url t)
  unfolding schedule_reconnect
  reconnect-Bounded n url t b =
      let peer = extract_peer_id_from_url p config url in
      let (longest, double) = interval_within (has peer t.reconnect_timers) in
      either_branch (Bounded n) t.is_closing _ _ (λ shut. b)
        (λ running. record {
          few = b.few;
          few_left = λ h. absurd (ground (arith, h, running));
          short = insert-Waits peer _ t.reconnect_timers longest double b.short;
        })

  incoming-Bounded :
      (n ws : ℕ) (url : Text) (t : Transport)
      → Bounded n t
      → Bounded n (on_connection p config ws url t).1
  unfolding on_connection
  incoming-Bounded n ws url t b =
      either_branch (λ (r : List Effect × Transport). Bounded n r.1) t.is_closing _ _ (λ shut. b)
        (λ running.
          either_branch (λ (r : List Effect × Transport). Bounded n r.1)
            (leb config.max_connections (length t.clients)) _ _ (λ full. b)
            (λ room.
              identified-Bounded n (extract_peer_id p config url) ws t running
                (ground (arith, room)) b))

  disconnect-Bounded :
      (n : ℕ) (peer : Text) (t : Transport) → Bounded n t → Bounded n (disconnect p config peer t).1
  unfolding disconnect
  disconnect-Bounded n peer t b = elim (Option-cases (lookup peer t.clients)) [
    | inl missing ↦ rw (disconnect, missing) b
    | inr (ws, e) ↦ rw (disconnect, e) (erased-Bounded n peer t b)
  ]

  dialled_end-Bounded :
      (n : ℕ) (url : Text) (t : Transport)
      → Bounded n t
      → Bounded n (on_dialled_close p config url t)
  unfolding on_dialled_close
  dialled_end-Bounded n url t b =
      reconnect-Bounded n url _ (erased-Bounded n (extract_peer_id_from_url p config url) t b)

  -- Over any run of sockets that come in and end, dialled sockets that open and end, and calls of
  -- disconnect and close, the connections are no more than are allowed and the dialled sockets that
  -- opened, after a close no more than those sockets, and no reconnection waits longer than twice the
  -- first interval, or than the longest, from a state on that keeps to this.
  pub run_events-Bounded :
      (n : ℕ) (os : List Step) (t : Transport)
      → Bounded n t
      → Bounded (n + count_opens os) (run_events os t)
  unfolding run_events on_close close
  run_events-Bounded n [] t b = record {
    few = omega (arith, b.few);
    few_left = λ h. omega (arith, b.few_left h);
    short = b.short;
  }
  run_events-Bounded n (opens url ws ∷ os) t b =
      let same : suc n + count_opens os ≡ n + suc (count_opens os) = omega arith in
      rw (← same) (run_events-Bounded (suc n) os _ (opened-Bounded n url ws t b))
  run_events-Bounded n (comes_in ws url ∷ os) t b =
      run_events-Bounded n os _ (incoming-Bounded n ws url t b)
  run_events-Bounded n (dialled_ends url ∷ os) t b =
      run_events-Bounded n os _ (dialled_end-Bounded n url t b)
  run_events-Bounded n (ends peer ∷ os) t b = run_events-Bounded n os _ (erased-Bounded n peer t b)
  run_events-Bounded n (disconnects peer ∷ os) t b =
      run_events-Bounded n os _ (disconnect-Bounded n peer t b)
  run_events-Bounded n (shuts ∷ os) t b =
      run_events-Bounded n os _
        (record { few = omega arith; few_left = λ h. omega arith; short = tt })

  -- A dialled socket that opens is connected in any state, a full or a closing one too.
  on_open-connected :
      (url : Text) (ws : ℕ) (t : Transport)
      → (lookup (extract_peer_id_from_url p config url) (on_open p config url ws t).clients
          ≡ some ws)
        × ((on_open p config url ws t).is_closing ≡ t.is_closing)
  unfolding on_open
  on_open-connected url ws t =
      let peer = extract_peer_id_from_url p config url in
      (ground (arith, lookup-insert peer peer ws t.clients, ==_refl peer), refl)
