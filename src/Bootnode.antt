-- ===== src/Bootnode.antt =====
-- bin/bootnode/src/main.rs: the node that peers find each other by, from its key to its loop.
pub mod Table
pub mod Keys
pub mod Meets
use gozara.Base.{
  ℕ, String, List, [], ◌∷◌, ◌++◌, Bool, true, Option, none, some, Result, ok, err, ◌>>=◌,
  if◌then◌else◌, string_eq,
}
use gozara.Base.Maps.{lookup}
use gozara.Peyk.Swarm.{Protocol, is_public}
use gozara.Peyk.Behaviour.{
  Libp2p, Node, BootNodeBehaviour, Kademlia, StartError, setup_swarm_for_bootnode, listen_on,
}
use gozara.Client.Network.{write, listen_udp, listen_tcp}

-- A start of the program: `unwrap` on a file that cannot be read is a panic.
pub data Start {ℓ} (A : Type ℓ) : Type ℓ where
  started : A → Start A
  failed : StartError → Start A
  panicked : Start A

abbrev pub of_result {ℓ} : {A : Type ℓ} → Result StartError A → Start A
of_result (ok a) = started a
of_result (err e) = failed e

-- `set_mode(Some(kad::Mode::Server))`
unfoldable pub set_server : Node BootNodeBehaviour → Node BootNodeBehaviour
set_server node = record node {
  behaviour = record (node.behaviour) {
    kademlia = record (node.behaviour.kademlia) { is_server = true };
  };
}

module _ {Key : Type 0} (libp2p : Libp2p Key) where
  unfoldable pub open_bootnode : Key → Result StartError (Node BootNodeBehaviour)
  open_bootnode key = do
    node ← setup_swarm_for_bootnode libp2p key
    on_tcp ← listen_on libp2p listen_tcp node
    on_udp ← listen_on libp2p listen_udp on_tcp
    ok (set_server on_udp)

module _ {Key : Type 0} (libp2p : Libp2p Key) (new_key : Key) (can_write : Bool) where
  open libp2p use {to_protobuf_encoding, from_protobuf_encoding}

  -- The key, and the files after it was found or made.
  unfoldable pub bootnode_key :
      Option String → List (String × List ℕ) → Start (Key × List (String × List ℕ))
  bootnode_key (some key_file) files = elim (lookup key_file files) [
    | none ↦ panicked
    | some bytes ↦ of_result (do key ← from_protobuf_encoding bytes; ok (key, files))
  ]
  bootnode_key none files =
      started (new_key, write can_write "./key.secret" (to_protobuf_encoding new_key) files)

  unfoldable pub start_bootnode :
      Option String
      → List (String × List ℕ)
      → Start (Node BootNodeBehaviour × List (String × List ℕ))
  start_bootnode key_file files = elim (bootnode_key key_file files) [
    | panicked ↦ panicked
    | failed e ↦ failed e
    | started (key, files') ↦ of_result (do node ← open_bootnode libp2p key; ok (node, files'))
  ]

-- One round of `select!`: `discover` is the timer with the random peer it asks for, and `printed` an event
-- that is only printed.
pub data Event : Type 0 where
  discover : ℕ → Event
  new_external_addr_of_peer : ℕ → List Protocol → Event
  printed : Event

-- `queries` is what Kademlia was asked, `table` what it was told.
pub record Bootnode : Type 0 where
  pub queries : List ℕ
  pub table : List (ℕ × List Protocol)

unfoldable pub bootnode_new : Bootnode
bootnode_new = record { queries = []; table = [] }

unfoldable pub handle : Bootnode → Event → Bootnode
handle b (discover peer) = record b { queries = b.queries ++ peer ∷ [] }
handle b (new_external_addr_of_peer peer_id address) =
    if is_public address then record b { table = b.table ++ (peer_id, address) ∷ [] } else b
handle b printed = b

-- `loop { .. }`, which has no exit.
unfoldable pub run_bootnode : Bootnode → List Event → Bootnode
run_bootnode b [] = b
run_bootnode b (e ∷ rest) = run_bootnode (handle b e) rest
