-- ===== src/Examples/Nodes.antt =====
-- bin/client/src/lib.rs and bin/bootnode: a bootnode and a client that joins it.
use gozara.Base.{
  ℕ, ◌≡◌, refl, String, List, [], ◌∷◌, map, true, false, some, Result, ok, err, nat_eq, string_eq,
}
use gozara.Peyk.Swarm
use gozara.Peyk.Swarm.{
  Protocol, ip4, tcp, continues, Swarm, swarm_new, process_swarm, round, new_external_addr,
  is_public, passes,
}
use gozara.Peyk.Behaviour.{
  Libp2p, Node, GlobalBehaviour, BootNodeBehaviour, StartError, bad_key, strict, full,
  setup_swarm_for_bootnode, setup_global_swarm, build_transports, listen_on,
  prepare_gossipsub_behaviour, prepare_request_response_behaviour, prepare_identify_behaviour,
  prepare_kademlia_behaviour,
}
use gozara.Client.Network.{
  local_key, go_public, join, subscribe, add_address, bootstrap, add_external_address, listen_tcp,
  listen_udp,
}
use gozara.Bootnode.{
  Event, discover, new_external_addr_of_peer, bootnode_new, run_bootnode, bootnode_key,
  open_bootnode, started, set_server,
}
use gozara.Bootnode.Table.{
  told, public_ones, run_bootnode-new, as_bootnode, Same, process_swarm-Same,
}
use gozara.Bootnode.Keys.{local_key-restart}
use gozara.Bootnode.Meets.{Meets, go_public-Meets}
use gozara.Client.Config.{load_config, require, zone_of}
use gozara.Client.Supervision.{client_new}
use gozara.Client.Start.{start_client, launch, join_tasks, Starts, start_client-Starts}
use gozara.Examples.Swarms.{first_byte}
use gozara.Examples.Clients.{home}

abbrev read_key : List ℕ → Result StartError ℕ
read_key [] = err bad_key
read_key (k ∷ rest) = ok k

abbrev toy_libp2p : Libp2p ℕ
toy_libp2p = record {
  public = λ k. k;
  peer_id = λ p. p;
  to_protobuf_encoding = λ k. k ∷ [];
  from_protobuf_encoding = read_key;
  from-to_protobuf_encoding = λ k. refl;
  builds_tcp = true;
  builds_dns = true;
  builds_gossipsub = true;
  parse_peer_id = λ text. ok 77;
  parse_address = λ text. ok (ip4 9 9 9 9 ∷ tcp 20201 ∷ []);
  can_listen = λ address. true;
}

-- The first start makes the key 5, and the next would make 6.
local_key-restart_example :
    (local_key toy_libp2p 6 true (some "./key.secret") (("./key.secret", 5 ∷ []) ∷ [])
      ≡ ok (5, ("./key.secret", 5 ∷ []) ∷ []))
    × (bootnode_key toy_libp2p 6 true (some "./key.secret") (("./key.secret", 5 ∷ []) ∷ [])
        ≡ started (5, ("./key.secret", 5 ∷ []) ∷ []))
unfolding local_key
local_key-restart_example =
    local_key-restart toy_libp2p 5 6 5 true [] (("./key.secret", 5 ∷ []) ∷ []) refl

abbrev two_addresses : List Event
two_addresses =
    new_external_addr_of_peer 1 (ip4 192 168 0 4 ∷ tcp 20201 ∷ [])
    ∷ discover 3
    ∷ new_external_addr_of_peer 2 (ip4 8 8 8 8 ∷ tcp 20201 ∷ [])
    ∷ []

run_bootnode-new_example :
    (run_bootnode bootnode_new two_addresses).table ≡ public_ones (told two_addresses)
run_bootnode-new_example = run_bootnode-new two_addresses

-- The same addresses, told to the swarm task of a client.
abbrev swarm_history : List gozara.Peyk.Swarm.Event
swarm_history =
    gozara.Peyk.Swarm.new_external_addr_of_peer 1 (ip4 192 168 0 4 ∷ tcp 20201 ∷ [])
    ∷ gozara.Peyk.Swarm.discover 3
    ∷ gozara.Peyk.Swarm.logged
    ∷ gozara.Peyk.Swarm.new_external_addr_of_peer 2 (ip4 8 8 8 8 ∷ tcp 20201 ∷ [])
    ∷ []

abbrev swarm_after : Swarm
swarm_after = record swarm_new { queries = 3 ∷ []; table = (2, ip4 8 8 8 8 ∷ tcp 20201 ∷ []) ∷ [] }

swarm_went_on : process_swarm first_byte swarm_new swarm_history ≡ continues swarm_after
unfolding process_swarm round new_external_addr is_public passes swarm_new
swarm_went_on = refl

process_swarm-Same_example :
    Same swarm_after (run_bootnode bootnode_new (map as_bootnode swarm_history))
process_swarm-Same_example = process_swarm-Same first_byte swarm_history swarm_after swarm_went_on

abbrev toy_bootnode : Node BootNodeBehaviour
toy_bootnode = record {
  behaviour = record {
    identify = record { protocol_version = "/gozara/identify/1.0"; public_key = 77 };
    kademlia = record {
      protocol_name = "/gozara/kad/1.0";
      query_timeout = 300;
      local_peer_id = 77;
      is_server = true;
      table = [];
      bootstraps = 0;
    };
  };
  listening = listen_tcp ∷ listen_udp ∷ [];
  external = [];
  idle_connection_timeout = 60;
}

bootnode_opened : open_bootnode toy_libp2p 77 ≡ ok toy_bootnode
unfolding open_bootnode set_server setup_swarm_for_bootnode build_transports listen_on
    prepare_identify_behaviour prepare_kademlia_behaviour
bootnode_opened = refl

abbrev nine : List Protocol
nine = ip4 9 9 9 9 ∷ tcp 20201 ∷ []

abbrev toy_client : Node (GlobalBehaviour ℕ)
toy_client = record {
  behaviour = record {
    identify = record { protocol_version = "/gozara/identify/1.0"; public_key = 5 };
    kademlia = record {
      protocol_name = "/gozara/kad/1.0";
      query_timeout = 300;
      local_peer_id = 5;
      is_server = false;
      table = (77, nine) ∷ [];
      bootstraps = 1;
    };
    gossipsub = record {
      heartbeat_interval = 10;
      validation_mode = strict;
      signed_by = 5;
      topics = "gozara-ME-zone" ∷ [];
    };
    req_resp = record { protocol = "/gozara/req_resp/1.0"; support = full };
  };
  listening = listen_udp ∷ listen_tcp ∷ [];
  external = nine ∷ nine ∷ [];
  idle_connection_timeout = 60;
}

abbrev files : List (String × List ℕ)
files = ("./key.secret", 5 ∷ []) ∷ []

client_started : go_public toy_libp2p 6 true home files ≡ ok (toy_client, files)
unfolding go_public local_key join setup_global_swarm build_transports listen_on subscribe
    add_address bootstrap add_external_address prepare_gossipsub_behaviour
    prepare_request_response_behaviour prepare_identify_behaviour prepare_kademlia_behaviour
client_started = refl

go_public-Meets_example : Meets toy_libp2p toy_client toy_bootnode nine
go_public-Meets_example =
    go_public-Meets toy_libp2p 77 6 true home files files 9 9 9 9 toy_client toy_bootnode
      bootnode_opened refl refl client_started

-- The environment of `home`.
abbrev home_env : List (String × String)
home_env =
    ("KEY_FILE", "./key.secret")
    ∷ ("NODE_GRPC_ADDR", "[::]:50051")
    ∷ ("BOOTNODE_PEER_ID", "boot")
    ∷ ("BOOTNODE_IP_ADDR", "9.9.9.9")
    ∷ ("BOOTNODE_PORT", "20201")
    ∷ ("EXTERNAL_IP_ADDR", "8.8.8.8")
    ∷ ("EXTERNAL_PORT", "4001")
    ∷ []

home_starts :
    start_client toy_libp2p 6 true true true home_env files ≡ ok (toy_client, files, client_new)
unfolding start_client load_config require zone_of launch join_tasks go_public local_key join
    setup_global_swarm build_transports listen_on subscribe add_address bootstrap
    add_external_address prepare_gossipsub_behaviour prepare_request_response_behaviour
    prepare_identify_behaviour prepare_kademlia_behaviour
home_starts = refl

start_client-Starts_example :
    Starts toy_libp2p 6 true true true home_env files
      (start_client toy_libp2p 6 true true true home_env files)
start_client-Starts_example = start_client-Starts toy_libp2p 6 true true true home_env files
