-- ===== src/Client/Network/Joins.antt =====
-- bin/client/src/lib.rs, `go_public`: what a client that starts has told its node.
use gozara.Base.{
  ℕ, ◌≡◌, refl, sym, ap, ◌∙◌, subst, String, List, [], ◌∷◌, ◌++◌, Bool, ok, IfOk, IfOk-ok,
  IfOk-bind, IfOk-holds, arith,
}
use gozara.Base.Text.{◌<>◌}
use gozara.Peyk.Swarm.{Protocol}
use gozara.Peyk.Behaviour.{
  Libp2p, Node, GlobalBehaviour, strict, prepare_request_response_behaviour, setup_global_swarm,
  listen_on, prepare_identify_behaviour, prepare_kademlia_behaviour, prepare_gossipsub_behaviour,
  build_transports,
}
use gozara.Client.Config.{Config}
use gozara.Client.Network.{
  listen_udp, listen_tcp, subscribe, add_address, bootstrap, add_external_address, local_key, join,
  go_public,
}

module _ {Key : Type 0} (libp2p : Libp2p Key) where
  open libp2p use {parse_peer_id, parse_address, public, peer_id}

  -- A node that has joined: it listens, it knows one bootnode, and it says two addresses of its own.
  pub record HasJoined (config : Config) (key : Key) (node : Node (GlobalBehaviour Key))
      : Type 0 where
    pub bootnode : ℕ
    pub bootnode_address : List Protocol
    pub external_tcp : List Protocol
    pub external_udp : List Protocol
    pub listens : node.listening ≡ listen_udp ∷ listen_tcp ∷ []
    pub identified : node.behaviour.identify ≡ prepare_identify_behaviour libp2p (public key)
    pub named : node.behaviour.kademlia.local_peer_id ≡ peer_id (public key)
    pub signed : node.behaviour.gossipsub.signed_by ≡ key
    pub zoned : node.behaviour.gossipsub.topics ≡ ("gozara-" <> (config.zone <> "-zone")) ∷ []
    pub bootnode_known : parse_peer_id config.bootnode_peer_id ≡ ok bootnode
    pub bootnode_placed :
        parse_address ("/ip4/" <> (config.bootnode_ip_addr <> "/tcp/20201")) ≡ ok bootnode_address
    pub told : node.behaviour.kademlia ≡ record (prepare_kademlia_behaviour libp2p (public key)) {
      table = (bootnode, bootnode_address) ∷ [];
      bootstraps = 1;
    }
    pub reached_tcp :
        parse_address ("/ip4/" <> (config.external_ip_addr <> ("/tcp/" <> config.external_port)))
        ≡ ok external_tcp
    pub reached_udp :
        parse_address (
          "/ip4/" <> (config.external_ip_addr <> ("/udp/" <> (config.external_port <> "/quic-v1"))))
        ≡ ok external_udp
    pub says : node.external ≡ external_tcp ∷ external_udp ∷ []

  -- A node that was set up.
  abbrev fresh : Key → Node (GlobalBehaviour Key)
  fresh key = record {
    behaviour = record {
      identify = prepare_identify_behaviour libp2p (public key);
      kademlia = prepare_kademlia_behaviour libp2p (public key);
      gossipsub = record {
        heartbeat_interval = 10;
        validation_mode = strict;
        signed_by = key;
        topics = [];
      };
      req_resp = prepare_request_response_behaviour libp2p;
    };
    listening = [];
    external = [];
    idle_connection_timeout = 60;
  }

  abbrev listener : Key → Node (GlobalBehaviour Key)
  listener key = record (fresh key) { listening = listen_udp ∷ listen_tcp ∷ [] }

  set_up :
      (key : Key) (node : Node (GlobalBehaviour Key))
      → setup_global_swarm libp2p key ≡ ok node
      → node ≡ fresh key
  unfolding setup_global_swarm build_transports prepare_gossipsub_behaviour
  set_up key node h = ground arith

  pub listened :
      {Behaviour : Type 0} (address : List Protocol) (node node' : Node Behaviour)
      → listen_on libp2p address node ≡ ok node'
      → node' ≡ record node { listening = node.listening ++ address ∷ [] }
  unfolding listen_on
  listened address node node' h = ground arith

  abbrev hears : List Protocol → Node (GlobalBehaviour Key) → Node (GlobalBehaviour Key)
  hears address n = record n { listening = n.listening ++ address ∷ [] }

  listening :
      (key : Key) (node on_udp on_tcp : Node (GlobalBehaviour Key))
      → setup_global_swarm libp2p key ≡ ok node
      → listen_on libp2p listen_udp node ≡ ok on_udp
      → listen_on libp2p listen_tcp on_udp ≡ ok on_tcp
      → listener key ≡ on_tcp
  listening key node on_udp on_tcp made first second = sym (
      listened listen_tcp on_udp on_tcp second
      ∙ ap (hears listen_tcp)
          (listened listen_udp node on_udp first ∙ ap (hears listen_udp) (set_up key node made)))

  module _ (new_key : Key) (can_write : Bool) where
    joined :
        (config : Config) (key : Key)
        → IfOk (HasJoined config key) (join libp2p new_key can_write config (listener key))
    unfolding join subscribe add_address bootstrap add_external_address prepare_kademlia_behaviour
    joined config key = IfOk-bind _ _ _ (λ bootnode known.
        IfOk-bind _ _ _ (λ bootnode_address placed. IfOk-bind _ _ _ (λ external_tcp reached_tcp.
          IfOk-bind _ _ _ (λ external_udp reached_udp. IfOk-ok _ _ _ refl (record {
            bootnode = bootnode;
            bootnode_address = bootnode_address;
            external_tcp = external_tcp;
            external_udp = external_udp;
            listens = refl;
            identified = refl;
            named = refl;
            signed = refl;
            zoned = refl;
            bootnode_known = known;
            bootnode_placed = placed;
            told = refl;
            reached_tcp = reached_tcp;
            reached_udp = reached_udp;
            says = refl;
          })))))

    -- The pair of a node and the files behind it.
    abbrev Started :
        Config
        → List (String × List ℕ)
        → Node (GlobalBehaviour Key) × List (String × List ℕ)
        → Type 0
    Started config files (node, files') =
        (key : Key) × (local_key libp2p new_key can_write config.key_file files ≡ ok (key, files'))
        × HasJoined config key node

    started :
        (config : Config) (files : List (String × List ℕ))
        → IfOk (Started config files) (go_public libp2p new_key can_write config files)
    unfolding go_public
    started config files = IfOk-bind _ _ _ (λ keyed found. IfOk-bind _ _ _ (λ node made.
        IfOk-bind _ _ _ (λ on_udp first. IfOk-bind _ _ _ (λ on_tcp second.
          IfOk-bind _ _ _ (λ last ended. IfOk-ok _ _ _ refl (
            keyed.0,
            found,
            IfOk-holds _ _ last ended (
                subst
                  (λ n. IfOk (HasJoined config keyed.0) (join libp2p new_key can_write config n))
                  (listening keyed.0 node on_udp on_tcp made first second) (joined config keyed.0)),
          ))))))

  -- x
  pub go_public-HasJoined :
      (new_key : Key) (can_write : Bool) (config : Config) (files files' : List (String × List ℕ))
      (node : Node (GlobalBehaviour Key))
      → go_public libp2p new_key can_write config files ≡ ok (node, files')
      → (key : Key) × (local_key libp2p new_key can_write config.key_file files ≡ ok (key, files'))
        × HasJoined config key node
  go_public-HasJoined new_key can_write config files files' node h =
      IfOk-holds _ _ (node, files') h (started new_key can_write config files)
