-- ===== src/Client/Network.antt =====
-- bin/client/src/lib.rs, `go_public`: the client's node, from the configuration to the network. The texts that the
-- source has as constants parse; those that it formats may not.
pub mod Joins
use gozara.Base.{
  ℕ, String, List, [], ◌∷◌, ◌++◌, Bool, Option, none, some, Result, ok, err, ◌>>=◌, ok_or, suc,
  if◌then◌else◌, string_eq,
}
use gozara.Base.Maps.{lookup, insert}
use gozara.Base.Text.{◌<>◌}
use gozara.Peyk.Swarm.{Protocol, ip4, tcp, udp, quic_v1}
use gozara.Peyk.Behaviour.{
  Libp2p, Node, GlobalBehaviour, StartError, unreadable_key, setup_global_swarm, listen_on,
}
use gozara.Client.Config.{Config}

-- `fs::write(..)`, whose error is ignored.
abbrev pub write : Bool → String → List ℕ → List (String × List ℕ) → List (String × List ℕ)
write can_write name bytes files = if can_write then insert name bytes files else files

-- The addresses to listen on, and the port of the bootnodes.
abbrev pub listen_udp : List Protocol
listen_udp = ip4 0 0 0 0 ∷ udp 20201 ∷ quic_v1 ∷ []

abbrev pub listen_tcp : List Protocol
listen_tcp = ip4 0 0 0 0 ∷ tcp 20201 ∷ []

module _ {Key : Type 0} where
  unfoldable pub subscribe : String → Node (GlobalBehaviour Key) → Node (GlobalBehaviour Key)
  subscribe topic node = record node {
    behaviour = record (node.behaviour) {
      gossipsub = record (node.behaviour.gossipsub) {
        topics = node.behaviour.gossipsub.topics ++ topic ∷ [];
      };
    };
  }

  unfoldable pub add_address :
      ℕ → List Protocol → Node (GlobalBehaviour Key) → Node (GlobalBehaviour Key)
  add_address peer address node = record node {
    behaviour = record (node.behaviour) {
      kademlia = record (node.behaviour.kademlia) {
        table = node.behaviour.kademlia.table ++ (peer, address) ∷ [];
      };
    };
  }

  -- Either result of `bootstrap` is only logged.
  unfoldable pub bootstrap : Node (GlobalBehaviour Key) → Node (GlobalBehaviour Key)
  bootstrap node = record node {
    behaviour = record (node.behaviour) {
      kademlia = record (node.behaviour.kademlia) {
        bootstraps = suc node.behaviour.kademlia.bootstraps;
      };
    };
  }

  unfoldable pub add_external_address :
      List Protocol → Node (GlobalBehaviour Key) → Node (GlobalBehaviour Key)
  add_external_address address node = record node { external = node.external ++ address ∷ [] }

-- `new_key` is what `generate_ed25519` makes, and `can_write` whether the key's file can be written.
module _ {Key : Type 0} (libp2p : Libp2p Key) (new_key : Key) (can_write : Bool) where
  open libp2p use {to_protobuf_encoding, from_protobuf_encoding, parse_peer_id, parse_address}

  -- The key, and the files after it was found or made.
  unfoldable pub local_key :
      Option String → List (String × List ℕ) → Result StartError (Key × List (String × List ℕ))
  local_key (some key_file) files = do
    bytes ← ok_or (lookup key_file files) unreadable_key
    key ← from_protobuf_encoding bytes
    ok (key, files)
  local_key none files =
      ok (new_key, write can_write "./key.secret" (to_protobuf_encoding new_key) files)

  -- What is told to a node that listens.
  unfoldable pub join :
      Config → Node (GlobalBehaviour Key) → Result StartError (Node (GlobalBehaviour Key))
  join config node = do
    let zoned = subscribe ("gozara-" <> (config.zone <> "-zone")) node
    bootnode ← parse_peer_id config.bootnode_peer_id
    bootnode_address ← parse_address ("/ip4/" <> (config.bootnode_ip_addr <> "/tcp/20201"))
    let bootstrapping = bootstrap (add_address bootnode bootnode_address zoned)
    external_tcp ←
        parse_address ("/ip4/" <> (config.external_ip_addr <> ("/tcp/" <> config.external_port)))
    external_udp ←
        parse_address (
          "/ip4/" <> (config.external_ip_addr <> ("/udp/" <> (config.external_port <> "/quic-v1"))))
    ok (add_external_address external_udp (add_external_address external_tcp bootstrapping))

  unfoldable pub go_public :
      Config
      → List (String × List ℕ)
      → Result StartError (Node (GlobalBehaviour Key) × List (String × List ℕ))
  go_public config files = do
    (key, files') ← local_key config.key_file files
    node ← setup_global_swarm libp2p key
    on_udp ← listen_on libp2p listen_udp node
    on_tcp ← listen_on libp2p listen_tcp on_udp
    joined ← join config on_tcp
    ok (joined, files')
