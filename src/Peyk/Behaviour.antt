-- ===== src/Peyk/Behaviour.antt =====
-- crates/peyk/src/p2p.rs: how the nodes of the network are set up, and BootNodeBehaviour of
-- bin/bootnode/src/lib.rs. A behaviour is what it was configured with and what it was told.
use gozara.Base.{
  ℕ, ◌*◌, ◌≡◌, String, List, [], ◌∷◌, ◌++◌, Bool, false, Result, ok, err, ◌>>=◌, if◌then◌else◌,
}
use gozara.Peyk.Swarm.{Protocol}

pub record Identify : Type 0 where
  pub protocol_version : String
  pub public_key : ℕ

-- `table` is what was added, and `bootstraps` counts the bootstraps that were asked for.
pub record Kademlia : Type 0 where
  pub protocol_name : String
  pub query_timeout : ℕ
  pub local_peer_id : ℕ
  pub is_server : Bool
  pub table : List (ℕ × List Protocol)
  pub bootstraps : ℕ

pub data ValidationMode : Type 0 where
  strict permissive : ValidationMode

pub record Gossipsub (Key : Type 0) : Type 0 where
  pub heartbeat_interval : ℕ
  pub validation_mode : ValidationMode
  pub signed_by : Key
  pub topics : List String

pub data ProtocolSupport : Type 0 where
  inbound outbound full : ProtocolSupport

pub record ReqResp : Type 0 where
  pub protocol : String
  pub support : ProtocolSupport

pub record GlobalBehaviour (Key : Type 0) : Type 0 where
  pub identify : Identify
  pub kademlia : Kademlia
  pub gossipsub : Gossipsub Key
  pub req_resp : ReqResp

pub record BootNodeBehaviour : Type 0 where
  pub identify : Identify
  pub kademlia : Kademlia

-- A swarm with its behaviour, the addresses it listens on and those that it says are its own.
pub record Node (Behaviour : Type 0) : Type 0 where
  pub behaviour : Behaviour
  pub listening : List (List Protocol)
  pub external : List (List Protocol)
  pub idle_connection_timeout : ℕ

-- What keeps a node from starting.
pub data StartError : Type 0 where
  unreadable_key bad_key no_transport bad_gossipsub : StartError
  bad_peer_id bad_address cannot_listen : StartError

-- What comes from libp2p and the system: keys and their encoding, the transports and the gossipsub
-- configuration that can be built, the parsers, and the addresses that can be listened on.
pub record Libp2p (Key : Type 0) : Type 0 where
  pub public : Key → ℕ
  pub peer_id : ℕ → ℕ
  pub to_protobuf_encoding : Key → List ℕ
  pub from_protobuf_encoding : List ℕ → Result StartError Key
  pub from-to_protobuf_encoding :
      (key : Key) → from_protobuf_encoding (to_protobuf_encoding key) ≡ ok key
  pub builds_tcp : Bool
  pub builds_dns : Bool
  pub builds_gossipsub : Bool
  pub parse_peer_id : String → Result StartError ℕ
  pub parse_address : String → Result StartError (List Protocol)
  pub can_listen : List Protocol → Bool

module _ {Key : Type 0} (libp2p : Libp2p Key) where
  open libp2p use {public, peer_id, builds_tcp, builds_dns, builds_gossipsub, can_listen}

  unfoldable pub prepare_gossipsub_behaviour : Key → Result StartError (Gossipsub Key)
  prepare_gossipsub_behaviour keypair =
      if builds_gossipsub
      then ok (record {
        heartbeat_interval = 10;
        validation_mode = strict;
        signed_by = keypair;
        topics = [];
      })
      else err bad_gossipsub

  unfoldable pub prepare_request_response_behaviour : ReqResp
  prepare_request_response_behaviour = record { protocol = "/gozara/req_resp/1.0"; support = full }

  unfoldable pub prepare_identify_behaviour : ℕ → Identify
  prepare_identify_behaviour public_key = record {
    protocol_version = "/gozara/identify/1.0";
    public_key = public_key;
  }

  unfoldable pub prepare_kademlia_behaviour : ℕ → Kademlia
  prepare_kademlia_behaviour public_key = record {
    protocol_name = "/gozara/kad/1.0";
    query_timeout = 5 * 60;
    local_peer_id = peer_id public_key;
    is_server = false;
    table = [];
    bootstraps = 0;
  }

  -- `with_tcp(..)?`, `with_quic()` and `with_dns()?`
  unfoldable pub build_transports : Result StartError (Unit {0})
  build_transports =
      if builds_tcp then (if builds_dns then ok tt else err no_transport) else err no_transport

  unfoldable pub setup_global_swarm : Key → Result StartError (Node (GlobalBehaviour Key))
  setup_global_swarm keypair = do
    _ ← build_transports
    gossipsub ← prepare_gossipsub_behaviour keypair
    ok (record {
      behaviour = record {
        identify = prepare_identify_behaviour (public keypair);
        kademlia = prepare_kademlia_behaviour (public keypair);
        gossipsub = gossipsub;
        req_resp = prepare_request_response_behaviour;
      };
      listening = [];
      external = [];
      idle_connection_timeout = 60;
    })

  unfoldable pub setup_swarm_for_bootnode : Key → Result StartError (Node BootNodeBehaviour)
  setup_swarm_for_bootnode keypair = do
    _ ← build_transports
    ok (record {
      behaviour = record {
        identify = prepare_identify_behaviour (public keypair);
        kademlia = prepare_kademlia_behaviour (public keypair);
      };
      listening = [];
      external = [];
      idle_connection_timeout = 60;
    })

  unfoldable pub listen_on :
      {Behaviour : Type 0} → List Protocol → Node Behaviour → Result StartError (Node Behaviour)
  listen_on address node =
      if can_listen address
      then ok (record node { listening = node.listening ++ address ∷ [] })
      else err cannot_listen
