-- ===== src/Peyk/Swarm.antt =====
-- crates/peyk/src/lib.rs, `process_swarm`: the loop between libp2p and the consumer of its messages. The
-- filter of addresses is that of bin/bootnode/src/main.rs too.
pub mod Addresses
pub mod Channel
pub mod Requests
use gozara.Base.{
  ℕ, ◌+◌, String, List, [], ◌∷◌, ◌++◌, map, Bool, true, false, ◌&&◌, ◌||◌, not, Option, none, some,
  ltb, leb, all, length, ◌==◌, nat_eq, if◌then◌else◌,
}
use gozara.Peyk.Protocol.{
  Request, storage_permit, Response, SwarmMessage, request_storage_permits, HandlerMessage,
  would_store, request, response,
}

-- A component of a multiaddress: `ip4 a b c d`, and those that the filter passes over.
pub data Protocol : Type 0 where
  ip4 : ℕ → ℕ → ℕ → ℕ → Protocol
  ip6 : List ℕ → Protocol
  dns : String → Protocol
  tcp udp : ℕ → Protocol
  quic_v1 : Protocol

-- `Ipv4Addr::is_private`: 10/8, 172.16/12 and 192.168/16.
abbrev pub is_private : ℕ → ℕ → Bool
is_private a b = (a == 10) || ((a == 172) && leb 16 b && leb b 31) || ((a == 192) && (b == 168))

-- `Ipv4Addr::is_loopback`: 127/8.
abbrev pub is_loopback : ℕ → Bool
is_loopback a = a == 127

-- The filter's test of one component.
unfoldable pub passes : Protocol → Bool
passes (ip4 a b c d) = not (is_private a b) && not (is_loopback a)
passes (ip6 segments) = true
passes (dns name) = true
passes (tcp port) = true
passes (udp port) = true
passes quic_v1 = true

unfoldable pub is_public : List Protocol → Bool
is_public address = all passes address

-- One round of `select!`. `rx_message none` is a closed channel; `logged` is an event that is only
-- logged; `taken` is no branch: the consumer receives a message.
pub data Event : Type 0 where
  shutdown_requested : Event
  discover : ℕ → Event
  rx_message : Option SwarmMessage → Event
  new_external_addr_of_peer : ℕ → List Protocol → Event
  gossip : Option ℕ → List ℕ → Event
  req_resp_request : ℕ → ℕ → Request → ℕ → Event
  req_resp_response : ℕ → ℕ → Response → Event
  logged : Event
  taken : Event

-- `queries` and `table` are what Kademlia was asked and told, `sent` the requests, `tx_handler` the
-- channel of at most `capacity` messages, and `delivered` what the consumer has received.
pub record Swarm : Type 0 where
  pub queries : List ℕ
  pub table : List (ℕ × List Protocol)
  pub sent : List (ℕ × Request)
  pub tx_handler : List HandlerMessage
  pub capacity : ℕ
  pub delivered : List HandlerMessage

pub data Round : Type 0 where
  continues : Swarm → Round
  breaks : Swarm → Round

-- `let _ = tx_handler.try_send(..)`: on a full channel the message is lost.
unfoldable pub try_send : HandlerMessage → Swarm → Swarm
try_send m s =
    if ltb (length s.tx_handler) s.capacity
    then record s { tx_handler = s.tx_handler ++ m ∷ [] }
    else s

-- `let _ = tx_handler.send(..)`: the future is dropped without a poll, and does nothing.
unfoldable pub send_unpolled : HandlerMessage → Swarm → Swarm
send_unpolled m s = s

unfoldable pub take_from : List HandlerMessage → Swarm → Swarm
take_from [] s = s
take_from (m ∷ rest) s = record s { tx_handler = rest; delivered = s.delivered ++ m ∷ [] }

unfoldable pub handle_swarm_message : SwarmMessage → Swarm → Swarm
handle_swarm_message (request_storage_permits peers) s = record s {
  sent = s.sent ++ map (λ peer. (peer, storage_permit)) peers;
}

unfoldable pub new_external_addr : ℕ → List Protocol → Swarm → Swarm
new_external_addr peer_id address s =
    if is_public address then record s { table = s.table ++ (peer_id, address) ∷ [] } else s

-- `decode` is `bincode::deserialize::<u8>`.
module _ (decode : List ℕ → Option ℕ) where
  unfoldable pub handle_gossip : Option ℕ → List ℕ → Swarm → Swarm
  handle_gossip none bytes s = s
  handle_gossip (some peer_id) bytes s = elim (decode bytes) [
    | some _ ↦ try_send (would_store peer_id) s
    | none ↦ s
  ]

  unfoldable pub round : Swarm → Event → Round
  round s shutdown_requested = breaks s
  round s (discover peer) = continues (record s { queries = s.queries ++ peer ∷ [] })
  round s (rx_message (some m)) = continues (handle_swarm_message m s)
  round s (rx_message none) = breaks s
  round s (new_external_addr_of_peer peer_id address) =
      continues (new_external_addr peer_id address s)
  round s (gossip source bytes) = continues (handle_gossip source bytes s)
  round s (req_resp_request peer_id request_id r channel) =
      continues (try_send (request peer_id request_id r channel) s)
  round s (req_resp_response peer_id request_id r) =
      continues (send_unpolled (response peer_id request_id r) s)
  round s logged = continues s
  round s taken = continues (take_from s.tx_handler s)

  unfoldable pub process_swarm : Swarm → List Event → Round
  process_swarm s [] = continues s
  process_swarm s (e ∷ rest) = elim (round s e) [
    | continues s' ↦ process_swarm s' rest
    | breaks s' ↦ breaks s'
  ]

-- The channel that bin/client/src/lib.rs makes.
abbrev pub handler_capacity : ℕ
handler_capacity = 256

unfoldable pub swarm_new : Swarm
swarm_new = record {
  queries = [];
  table = [];
  sent = [];
  tx_handler = [];
  capacity = handler_capacity;
  delivered = [];
}
