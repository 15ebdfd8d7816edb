-- ===== src/Transport.antt =====
-- src/lib/network/transport.ts: the connections of a node and the authentication of its messages.
-- Each event of a socket is an operation; hmac, the parsing of URLs, the escapes of a URL and the
-- readiness of a socket are parameters. A socket is given as a number.
pub mod Messages
pub mod Connections
mod Tests
use biofire.Base.{
  ℕ, ◌-◌, ◌*◌, Bool, true, false, not, ◌&&◌, ◌||◌, Option, none, some, List, [], ◌∷◌, ◌++◌, ltb,
  leb, eqb, if◌then◌else◌, Text, codes, length, take, drop, take_while, starts_with, Assoc, lookup,
  has, insert, erase, nat_eq, list_eq,
}
use biofire.Random.{constant_time_equal}

pub record TransportConfig : Type 0 where
  pub node_id : Text
  pub max_payload_size : ℕ
  pub max_connections : ℕ
  pub reconnect_interval_ms : ℕ
  pub reconnect_max_interval_ms : ℕ
  pub auth_key : List ℕ

pub record Transport : Type 0 where
  pub clients : Assoc Text ℕ
  pub reconnect_timers : Assoc Text ℕ
  pub is_closing : Bool

abbrev pub new_transport : Transport
new_transport = record { clients = []; reconnect_timers = []; is_closing = false }

pub record Platform : Type 0 where
  pub hmac : List ℕ → List ℕ → List ℕ
  pub query_node_id : Text → Option Text
  pub decode : Text → Option Text
  pub is_open : ℕ → Bool

-- What an operation asks of its sockets, the events that it emits, the bytes that it gives to unpack
-- with the peer, and an error that it throws.
pub data Effect : Type 0 where
  closed_with : ℕ → ℕ → Effect
  sent : ℕ → List ℕ → Effect
  dialled : Text → Effect
  auth_failure : Text → Effect
  delivered : Text → List ℕ → Effect
  thrown : Effect

abbrev pub not_ampersand : ℕ → Bool
not_ampersand c = not (eqb c 38)

abbrev pub is_separator : ℕ → Bool
is_separator c = eqb c 63 || eqb c 38

-- What stands after `nodeId=`, up to the next `&`.
abbrev pub value_after : Text → Option Text
value_after [] = none
value_after (c ∷ cs) = if not_ampersand c then some (take_while not_ampersand (c ∷ cs)) else none

-- The first match of `[?&]nodeId=([^&]+)`.
unfoldable pub matched_id : Text → Option Text
matched_id [] = none
matched_id (c ∷ cs) =
    if is_separator c && starts_with cs (codes "nodeId=")
    then (elim (value_after (drop 7 cs)) [ none ↦ matched_id cs | some id ↦ some id ])
    else matched_id cs

abbrev pub open_clients : (ℕ → Bool) → Assoc Text ℕ → List ℕ
open_clients is_open [] = []
open_clients is_open ((peer, ws) ∷ m) =
    let rest = open_clients is_open m in if is_open ws then ws ∷ rest else rest

abbrev pub sends : List ℕ → List ℕ → List Effect
sends bytes [] = []
sends bytes (ws ∷ more) = Effect.sent ws bytes ∷ sends bytes more

abbrev pub closes : ℕ → Assoc Text ℕ → List Effect
closes code [] = []
closes code ((peer, ws) ∷ m) = Effect.closed_with ws code ∷ closes code m

module _ (p : Platform) (config : TransportConfig) where
  abbrev pub decoded : Option Text → Option (Option Text)
  decoded none = none
  decoded (some id) = some (some id)

  -- extractPeerId: `none` is the error of decodeURIComponent, `some none` a URL without the parameter.
  unfoldable pub extract_peer_id : Text → Option (Option Text)
  extract_peer_id url = elim (matched_id url) [ none ↦ some none | some id ↦ decoded (p.decode id) ]

  abbrev pub id_or_url : Text → Option Text → Text
  id_or_url url none = url
  id_or_url url (some []) = url
  id_or_url url (some (c ∷ id)) = c ∷ id

  abbrev pub extract_peer_id_from_url : Text → Text
  extract_peer_id_from_url url = id_or_url url (p.query_node_id url)

  abbrev pub setup_client : Text → ℕ → Transport → Transport
  setup_client peer ws t = record t { clients = insert peer ws t.clients }

  abbrev pub admitted : Option Text → ℕ → Transport → List Effect × Transport
  admitted none ws t = (Effect.closed_with ws 1008 ∷ [], t)
  admitted (some []) ws t = (Effect.closed_with ws 1008 ∷ [], t)
  admitted (some (c ∷ id)) ws t = ([], setup_client (c ∷ id) ws t)

  abbrev pub identified : Option (Option Text) → ℕ → Transport → List Effect × Transport
  identified none ws t = (Effect.thrown ∷ [], t)
  identified (some id) ws t = admitted id ws t

  -- The handler of a connection that comes in.
  unfoldable pub on_connection : ℕ → Text → Transport → List Effect × Transport
  on_connection ws url t =
      if t.is_closing
      then (Effect.closed_with ws 1001 ∷ [], t)
      else (if leb config.max_connections (length t.clients)
          then (Effect.closed_with ws 1013 ∷ [], t)
          else identified (extract_peer_id url) ws t)

  -- connect: `none` is the error of a transport that is closing.
  unfoldable pub connect : Text → Transport → Option (List Effect)
  connect url t =
      if t.is_closing
      then none
      else (if has (extract_peer_id_from_url url) t.clients
          then some []
          else some (Effect.dialled (url ++ codes "?nodeId=" ++ config.node_id) ∷ []))

  unfoldable pub on_open : Text → ℕ → Transport → Transport
  on_open url ws t = setup_client (extract_peer_id_from_url url) ws t

  abbrev pub current_interval : Bool → ℕ
  current_interval waiting =
      if waiting then config.reconnect_interval_ms * 2 else config.reconnect_interval_ms

  abbrev pub shorter : ℕ → ℕ → ℕ
  shorter a b = if ltb b a then b else a

  unfoldable pub schedule_reconnect : Text → Transport → Transport
  schedule_reconnect url t =
      let peer = extract_peer_id_from_url url in
      if t.is_closing then t else record t {
        reconnect_timers =
            insert peer
              (shorter (current_interval (has peer t.reconnect_timers))
                config.reconnect_max_interval_ms)
              t.reconnect_timers;
      }

  -- The end of a socket that was dialled, and of one that came in.
  unfoldable pub on_dialled_close : Text → Transport → Transport
  on_dialled_close url t =
      schedule_reconnect url (record t { clients = erase (extract_peer_id_from_url url) t.clients })

  unfoldable pub on_close : Text → Transport → Transport
  on_close peer t = record t { clients = erase peer t.clients }

  -- disconnect; the timer is cleared and keeps its place in the map.
  unfoldable pub disconnect : Text → Transport → List Effect × Transport
  disconnect peer t = elim (lookup peer t.clients) [
    | none ↦ ([], t)
    | some ws ↦ (Effect.closed_with ws 1000 ∷ [], record t { clients = erase peer t.clients })
  ]

  -- authenticatePayload on the bytes of a payload.
  unfoldable pub authenticate_payload : List ℕ → List ℕ
  authenticate_payload bytes = bytes ++ p.hmac config.auth_key bytes

  unfoldable pub verify_authentication : List ℕ → Bool
  verify_authentication message =
      let payload = take (length message - 32) message in
      if ltb (length message) 32
      then false
      else constant_time_equal (drop (length message - 32) message) (p.hmac config.auth_key payload)

  unfoldable pub broadcast : List ℕ → Transport → List Effect
  broadcast bytes t = sends (authenticate_payload bytes) (open_clients p.is_open t.clients)

  -- send: `none` is the error of a peer that is not connected.
  unfoldable pub send : Text → List ℕ → Transport → Option (List Effect)
  send peer bytes t = elim (lookup peer t.clients) [
    | none ↦ none
    | some ws ↦
        if p.is_open ws then some (Effect.sent ws (authenticate_payload bytes) ∷ []) else none
  ]

  -- handleMessage up to the call of unpack, which is given the delivered bytes.
  unfoldable pub handle_message : Text → List ℕ → List Effect
  handle_message peer message =
      if verify_authentication message
      then Effect.delivered peer (take (length message - 32) message) ∷ []
      else Effect.auth_failure peer ∷ []

  unfoldable pub on_message : Text → ℕ → List ℕ → List Effect
  on_message peer ws message =
      if ltb config.max_payload_size (length message)
      then Effect.closed_with ws 1009 ∷ []
      else handle_message peer message

  unfoldable pub close : Transport → List Effect × Transport
  close t =
      (closes 1001 t.clients, record { clients = []; reconnect_timers = []; is_closing = true })
