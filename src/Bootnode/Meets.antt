-- ===== src/Bootnode/Meets.antt =====
-- bin/client/src/lib.rs and bin/bootnode/src/main.rs: a client and the bootnode that it is configured with.
use gozara.Base.{
  ℕ, ◌≡◌, refl, sym, ap, ◌∙◌, subst, String, List, [], ◌∷◌, ◌++◌, Bool, true, ok, IfOk, IfOk-ok,
  IfOk-bind, IfOk-holds, same_result, string_eq,
}
use gozara.Base.Text.{◌<>◌}
use gozara.Peyk.Swarm.{Protocol, ip4, tcp}
use gozara.Peyk.Behaviour.{
  Libp2p, Node, GlobalBehaviour, BootNodeBehaviour, setup_swarm_for_bootnode,
  prepare_identify_behaviour, prepare_kademlia_behaviour,
}
use gozara.Client.Config.{Config}
use gozara.Client.Network.{listen_udp, listen_tcp, go_public}
use gozara.Client.Network.Joins.{listened, go_public-HasJoined}
use gozara.Bootnode.{open_bootnode, set_server}

module _ {Key : Type 0} (libp2p : Libp2p Key) where
  open libp2p use {parse_peer_id, parse_address, public}

  -- A bootnode that has been set up for the key.
  abbrev IsBootnode : Key → Node BootNodeBehaviour → Type 0
  IsBootnode key b =
      (b.listening ≡ listen_tcp ∷ listen_udp ∷ [])
      × (b.behaviour.identify ≡ prepare_identify_behaviour libp2p (public key))
      × (b.behaviour.kademlia
          ≡ record (prepare_kademlia_behaviour libp2p (public key)) { is_server = true })

  set_up :
      (key : Key)
      → IfOk
          (λ n. n ≡ record {
            behaviour = record {
              identify = prepare_identify_behaviour libp2p (public key);
              kademlia = prepare_kademlia_behaviour libp2p (public key);
            };
            listening = [];
            external = [];
            idle_connection_timeout = 60;
          })
          (setup_swarm_for_bootnode libp2p key)
  unfolding setup_swarm_for_bootnode
  set_up key = IfOk-bind _ _ _ (λ u built. IfOk-ok _ _ _ refl refl)

  abbrev hears : List Protocol → Node BootNodeBehaviour → Node BootNodeBehaviour
  hears address n = record n { listening = n.listening ++ address ∷ [] }

  open_bootnode-IsBootnode : (key : Key) → IfOk (IsBootnode key) (open_bootnode libp2p key)
  unfolding open_bootnode set_server
  open_bootnode-IsBootnode key = IfOk-bind _ _ _ (λ node made. IfOk-bind _ _ _ (λ on_tcp first.
      IfOk-bind _ _ _ (λ on_udp second. IfOk-ok _ _ _ refl (
        subst (λ n. IsBootnode key (set_server n))
          (sym (
            listened libp2p listen_udp on_tcp on_udp second
            ∙ ap (hears listen_udp) (
                listened libp2p listen_tcp node on_tcp first
                ∙ ap (hears listen_tcp) (IfOk-holds _ _ node made (set_up key)))))
          (refl, refl, refl)))))

  abbrev only : ℕ → List Protocol → List (ℕ × List Protocol)
  only peer address = (peer, address) ∷ []

  -- What a client and a bootnode have in common once both have started.
  abbrev pub Meets : Node (GlobalBehaviour Key) → Node BootNodeBehaviour → List Protocol → Type 0
  Meets client bootnode address =
      (client.behaviour.kademlia.table ≡ (bootnode.behaviour.kademlia.local_peer_id, address) ∷ [])
      × (client.behaviour.kademlia.protocol_name ≡ bootnode.behaviour.kademlia.protocol_name)
      × (client.behaviour.identify.protocol_version ≡ bootnode.behaviour.identify.protocol_version)
      × (bootnode.behaviour.kademlia.is_server ≡ true)
      × (bootnode.listening ≡ listen_tcp ∷ listen_udp ∷ [])

  -- A client that starts with a configuration whose peer id is that of a bootnode which has
  -- been set up, and whose address text is read as an IPv4 address with the TCP port 20201,
  -- knows exactly this bootnode, under the id that the bootnode has itself and at this
  -- address. The two speak the same versions of Kademlia and identify, and the bootnode is a
  -- Kademlia server and listens on the two addresses, with that port.
  pub go_public-Meets :
      (key new_key : Key) (can_write : Bool) (config : Config)
      (files files' : List (String × List ℕ)) (a b c d : ℕ) (client : Node (GlobalBehaviour Key))
      (bootnode : Node BootNodeBehaviour)
      → open_bootnode libp2p key ≡ ok bootnode
      → parse_peer_id config.bootnode_peer_id ≡ ok bootnode.behaviour.kademlia.local_peer_id
      → parse_address ("/ip4/" <> (config.bootnode_ip_addr <> "/tcp/20201"))
        ≡ ok (ip4 a b c d ∷ tcp 20201 ∷ [])
      → go_public libp2p new_key can_write config files ≡ ok (client, files')
      → Meets client bootnode (ip4 a b c d ∷ tcp 20201 ∷ [])
  unfolding prepare_kademlia_behaviour prepare_identify_behaviour
  go_public-Meets key new_key can_write config files files' a b c d client bootnode opened peer
        place h =
      let (own, found, j) =
        go_public-HasJoined libp2p new_key can_write config files files' client h in
      let (listens, identified, known) =
        IfOk-holds (IsBootnode key) _ bootnode opened (open_bootnode-IsBootnode key) in
      let same_peer = same_result _ _ _ j.bootnode_known peer in
      let same_place = same_result _ _ _ j.bootnode_placed place in
      (
        ap (λ k. k.table) j.told
            ∙ ap (λ p. only p j.bootnode_address) same_peer
            ∙ ap (λ q. only bootnode.behaviour.kademlia.local_peer_id q) same_place,
        ap (λ k. k.protocol_name) j.told ∙ sym (ap (λ k. k.protocol_name) known),
        ap (λ k. k.protocol_version) j.identified ∙ sym (ap (λ k. k.protocol_version) identified),
        ap (λ k. k.is_server) known,
        listens,
      )
