-- ===== src/Bootnode/Table.antt =====
-- bin/bootnode/src/main.rs: the addresses that a bootnode passes on, and those of a node's swarm task.
use gozara.Base.{
  map, subst, ℕ, ◌≡◌, refl, sym, ap, ◌∙◌, List, [], ◌∷◌, ◌++◌, Option, none, some, filter,
  append_assoc, append-nil, Bool-cases, Option-cases, inl, inr, arith,
}
use gozara.Peyk.Swarm
use gozara.Peyk.Swarm.{
  Protocol, is_public, Swarm, continues, breaks, process_swarm, round, swarm_new, new_external_addr,
  handle_gossip, try_send, send_unpolled, take_from, handle_swarm_message,
}
use gozara.Bootnode.{
  Event, discover, new_external_addr_of_peer, printed, Bootnode, bootnode_new, handle, run_bootnode,
}

-- The addresses that peers have told.
abbrev pub told : List Event → List (ℕ × List Protocol)
told [] = []
told (discover peer ∷ rest) = told rest
told (new_external_addr_of_peer peer_id address ∷ rest) = (peer_id, address) ∷ told rest
told (printed ∷ rest) = told rest

abbrev pub public_ones : List (ℕ × List Protocol) → List (ℕ × List Protocol)
public_ones l = filter (λ p. is_public p.1) l

handle-adds :
    (e : Event) (b : Bootnode) (rest : List (ℕ × List Protocol))
    → (handle b e).table ++ public_ones rest ≡ b.table ++ public_ones (told (e ∷ []) ++ rest)
unfolding handle
handle-adds (discover peer) b rest = refl
handle-adds printed b rest = refl
handle-adds (new_external_addr_of_peer peer_id address) b rest =
    elim (Bool-cases (is_public address)) [
      | inl passed ↦
          rw (passed, filter) (append_assoc b.table ((peer_id, address) ∷ []) (public_ones rest))
      | inr stopped ↦ rw (stopped, filter) refl
    ]

told-cons : (e : Event) (rest : List Event) → told (e ∷ rest) ≡ told (e ∷ []) ++ told rest
told-cons (discover peer) rest = refl
told-cons (new_external_addr_of_peer peer_id address) rest = refl
told-cons printed rest = refl

run_bootnode-adds :
    (history : List Event) (b : Bootnode)
    → (run_bootnode b history).table ≡ b.table ++ public_ones (told history)
unfolding run_bootnode
run_bootnode-adds [] b = sym (append-nil b.table)
run_bootnode-adds (e ∷ rest) b =
    run_bootnode-adds rest (handle b e)
    ∙ handle-adds e b (told rest)
    ∙ ap (λ l. b.table ++ public_ones l) (sym (told-cons e rest))

-- After any history of a bootnode from its start on, Kademlia has been told the addresses of
-- peers that pass the filter, in the order in which they came, and no others.
pub run_bootnode-new :
    (history : List Event) → (run_bootnode bootnode_new history).table ≡ public_ones (told history)
unfolding bootnode_new
run_bootnode-new history = run_bootnode-adds history bootnode_new

-- A round of the swarm task, as the bootnode sees its event.
abbrev pub as_bootnode : gozara.Peyk.Swarm.Event → Event
as_bootnode (gozara.Peyk.Swarm.discover peer) = discover peer
as_bootnode (gozara.Peyk.Swarm.new_external_addr_of_peer peer_id address) =
    new_external_addr_of_peer peer_id address
as_bootnode _ = printed

-- Kademlia was asked and told the same.
abbrev pub Same : Swarm → Bootnode → Type 0
Same s b = (s.queries ≡ b.queries) × (s.table ≡ b.table)

abbrev Follows : gozara.Peyk.Swarm.Round → Bootnode → Type 0
Follows (continues s) b = Same s b
Follows (breaks s) b = Unit {0}

try_send-Same : (m : _) (s : Swarm) (b : Bootnode) → Same s b → Same (try_send m s) b
unfolding try_send
try_send-Same m s b h = ground (arith, h)

take_from-Same :
    (l : List gozara.Peyk.Protocol.HandlerMessage) (s : Swarm) (b : Bootnode)
    → Same s b
    → Same (take_from l s) b
unfolding take_from
take_from-Same [] s b h = h
take_from-Same (m ∷ rest) s b h = h

new_external_addr-Same :
    (peer_id : ℕ) (address : List Protocol) (s : Swarm) (b : Bootnode)
    → Same s b
    → Same
        (new_external_addr peer_id address s)
        (handle b (new_external_addr_of_peer peer_id address))
unfolding new_external_addr handle
new_external_addr-Same peer_id address s b (asked, same) = elim (Bool-cases (is_public address)) [
  | inl passed ↦ rw passed (asked, ap (λ t. t ++ (peer_id, address) ∷ []) same)
  | inr stopped ↦ rw stopped (asked, same)
]

module _ (decode : List ℕ → Option ℕ) where
  handle_gossip-Same :
      (source : Option ℕ) (bytes : List ℕ) (s : Swarm) (b : Bootnode)
      → Same s b
      → Same (handle_gossip decode source bytes s) b
  unfolding handle_gossip
  handle_gossip-Same none bytes s b h = h
  handle_gossip-Same (some peer_id) bytes s b h = elim (Option-cases (decode bytes)) [
    | inl bad ↦ rw (bad, handle_gossip) h
    | inr (n, good) ↦ rw (good, handle_gossip) (try_send-Same _ s b h)
  ]

  round-Follows :
      (s : Swarm) (b : Bootnode) (e : gozara.Peyk.Swarm.Event)
      → Same s b
      → Follows (round decode s e) (handle b (as_bootnode e))
  unfolding round handle handle_swarm_message send_unpolled
  round-Follows s b gozara.Peyk.Swarm.shutdown_requested h = tt
  round-Follows s b (gozara.Peyk.Swarm.discover peer) (asked, same) =
      (ap (λ q. q ++ peer ∷ []) asked, same)
  round-Follows s b
        (gozara.Peyk.Swarm.rx_message (some (gozara.Peyk.Protocol.request_storage_permits peers)))
        h =
      h
  round-Follows s b (gozara.Peyk.Swarm.rx_message none) h = tt
  round-Follows s b (gozara.Peyk.Swarm.new_external_addr_of_peer peer_id address) h =
      new_external_addr-Same peer_id address s b h
  round-Follows s b (gozara.Peyk.Swarm.gossip source bytes) h =
      handle_gossip-Same source bytes s b h
  round-Follows s b (gozara.Peyk.Swarm.req_resp_request peer_id request_id r channel) h =
      try_send-Same _ s b h
  round-Follows s b (gozara.Peyk.Swarm.req_resp_response peer_id request_id r) h = h
  round-Follows s b gozara.Peyk.Swarm.logged h = h
  round-Follows s b gozara.Peyk.Swarm.taken h = take_from-Same s.tx_handler s b h

  process_swarm-Follows :
      (history : List gozara.Peyk.Swarm.Event) (s : Swarm) (b : Bootnode)
      → Same s b
      → Follows (process_swarm decode s history) (run_bootnode b (map as_bootnode history))
  unfolding process_swarm run_bootnode
  process_swarm-Follows [] s b h = h
  process_swarm-Follows (e ∷ rest) s b h =
      go (round decode s e) (round-Follows s b e h)
        (λ t. process_swarm-Follows rest t (handle b (as_bootnode e)))
    where
      go :
          (r : gozara.Peyk.Swarm.Round)
          → Follows r (handle b (as_bootnode e))
          → ((t : Swarm)
              → Same t (handle b (as_bootnode e))
              → Follows
                  (process_swarm decode t rest)
                  (run_bootnode (handle b (as_bootnode e)) (map as_bootnode rest)))
          → Follows
              (elim r [ continues s' ↦ process_swarm decode s' rest | breaks s' ↦ breaks s' ])
              (run_bootnode (handle b (as_bootnode e)) (map as_bootnode rest))
      go (continues t) k ih = ih t k
      go (breaks t) k ih = tt

  -- After a history of the swarm task from its start on in which its loop goes on, Kademlia
  -- has been asked and told the same as by a bootnode that has seen the same timers and
  -- addresses.
  pub process_swarm-Same :
      (history : List gozara.Peyk.Swarm.Event) (s : Swarm)
      → process_swarm decode swarm_new history ≡ continues s
      → Same s (run_bootnode bootnode_new (map as_bootnode history))
  unfolding swarm_new bootnode_new
  process_swarm-Same history s h =
      subst (λ r. Follows r (run_bootnode bootnode_new (map as_bootnode history))) h
        (process_swarm-Follows history swarm_new bootnode_new (refl, refl))
