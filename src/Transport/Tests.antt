-- ===== src/Transport/Tests.antt =====
-- The theorems about the transport at a small configuration.
use biofire.Base.{
  ℕ, ◌≡◌, refl, ◌↔◌, true, none, some, List, [], ◌∷◌, arith, codes, take, replicate, lookup, insert,
  erase, nat_eq, list_eq,
}
use biofire.Transport.{
  Platform, TransportConfig, Effect, new_transport, authenticate_payload, on_message, on_open,
  disconnect, on_dialled_close,
}
use biofire.Transport.Messages.{on_message_iff}
use biofire.Transport.Connections.{Step, Bounded, run_events, run_events-Bounded}

abbrev platform : Platform
platform = record {
  hmac = λ key bytes. replicate 32 0;
  query_node_id = λ url. none;
  decode = λ t. some t;
  is_open = λ ws. true;
}

abbrev config : TransportConfig
config = record {
  node_id = codes "node-1";
  max_payload_size = 100;
  max_connections = 1;
  reconnect_interval_ms = 1000;
  reconnect_max_interval_ms = 30000;
  auth_key = [];
}

abbrev message : List ℕ
message = 1 ∷ 2 ∷ replicate 32 0

on_message_iff_example :
    (on_message platform config (codes "p") 4 message
      ≡ Effect.delivered (codes "p") (1 ∷ 2 ∷ []) ∷ [])
    ↔ (authenticate_payload platform config (1 ∷ 2 ∷ []) ≡ message)
on_message_iff_example =
    on_message_iff platform config (λ key bytes. refl) (codes "p") 4 message (1 ∷ 2 ∷ [])
      (omega arith)

abbrev events : List Step
events =
    Step.comes_in 1 (codes "/?nodeId=a")
    ∷ Step.comes_in 2 (codes "/?x=1&nodeId=b&y")
    ∷ Step.dialled_ends (codes "u")
    ∷ Step.ends (codes "a")
    ∷ Step.comes_in 3 (codes "/?x=1&nodeId=b&y")
    ∷ Step.opens (codes "u") 4
    ∷ Step.shuts
    ∷ Step.opens (codes "v") 5
    ∷ []

-- One connection is allowed and there are two, and there is one after the close.
events_run :
    ((run_events platform config (take 6 events) new_transport).clients
      ≡ (codes "b", 3) ∷ (codes "u", 4) ∷ [])
    × ((run_events platform config events new_transport).clients ≡ (codes "v", 5) ∷ [])
unfolding run_events biofire.Transport.on_connection biofire.Transport.on_close on_dialled_close
    biofire.Transport.schedule_reconnect biofire.Transport.extract_peer_id
    biofire.Transport.matched_id on_open biofire.Transport.close biofire.Base.insert
    biofire.Base.erase
events_run = (refl, refl)

run_events-Bounded_example :
    Bounded platform config 2 (run_events platform config events new_transport)
run_events-Bounded_example =
    run_events-Bounded platform config 0 events new_transport
      (record { few = omega arith; few_left = λ h. omega arith; short = tt })

-- A call of disconnect ends a dialled socket, and the end of the socket schedules a reconnection.
disconnect_run :
    (on_dialled_close platform config
      (codes "u")
      (disconnect platform config
        (codes "u")
        (on_open platform config (codes "u") 5 new_transport)).1).reconnect_timers
    ≡ (codes "u", 1000) ∷ []
unfolding on_dialled_close biofire.Transport.schedule_reconnect disconnect biofire.Base.lookup
    on_open biofire.Base.insert
disconnect_run = refl
