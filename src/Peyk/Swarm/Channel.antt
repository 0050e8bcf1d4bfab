-- ===== src/Peyk/Swarm/Channel.antt =====
-- crates/peyk/src/lib.rs: what reaches the consumer of the swarm task.
use gozara.Base.{
  ℕ, ◌≡◌, ◌≤◌, refl, ap, subst, List, [], ◌∷◌, true, Option, none, some, length, length-append, All,
  All-append, arith, ltb→lt, ltb, Bool-cases, Option-cases, inl, inr,
}
use gozara.Peyk.Protocol.{request_storage_permits, HandlerMessage, would_store, request, response}
use gozara.Peyk.Swarm.{
  Event, shutdown_requested, discover, rx_message, new_external_addr_of_peer, gossip,
  req_resp_request, req_resp_response, logged, taken, Swarm, Round, continues, breaks, try_send,
  send_unpolled, take_from, handle_swarm_message, new_external_addr, handle_gossip, round,
  process_swarm, swarm_new, is_public, Protocol,
}

abbrev pub IsNoResponse : HandlerMessage → Type 0
IsNoResponse (response peer_id request_id r) = ⊥
IsNoResponse _ = Unit {0}

-- No response is on its way to the consumer or has reached it, the channel is not over its capacity, and
-- each address in the table has passed the filter.
abbrev pub IsSound : Swarm → Type 0
IsSound s =
    All IsNoResponse s.tx_handler
    × All IsNoResponse s.delivered
    × (length s.tx_handler ≤ s.capacity)
    × All (λ (entry : ℕ × List Protocol). is_public entry.1 ≡ true) s.table

try_send-IsSound :
    (m : HandlerMessage) (s : Swarm) → IsNoResponse m → IsSound s → IsSound (try_send m s)
unfolding try_send
try_send-IsSound m s hm (q, d, c, t) = elim (Bool-cases (ltb (length s.tx_handler) s.capacity)) [
  | inl room ↦
      rw (room, try_send)
        (
          All-append IsNoResponse s.tx_handler (m ∷ []) q (hm, tt),
          d,
          rw (length-append s.tx_handler (m ∷ [])) (omega (arith, ltb→lt _ _ room)),
          t,
        )
  | inr full ↦ rw (full, try_send) (q, d, c, t)
]

pub take_from-IsSound :
    (l : List HandlerMessage) (s : Swarm) → s.tx_handler ≡ l → IsSound s → IsSound (take_from l s)
unfolding take_from
take_from-IsSound [] s e h = h
take_from-IsSound (m ∷ rest) s e (q, d, c, t) =
    let q' : All IsNoResponse (m ∷ rest) = subst (All IsNoResponse) e q in
    (q'.1, All-append IsNoResponse s.delivered (m ∷ []) d (q'.0, tt), omega (arith, ap length e), t)

new_external_addr-IsSound :
    (peer_id : ℕ) (address : List Protocol) (s : Swarm)
    → IsSound s
    → IsSound (new_external_addr peer_id address s)
unfolding new_external_addr
new_external_addr-IsSound peer_id address s (q, d, c, t) = elim (Bool-cases (is_public address)) [
  | inl outer ↦
      rw (outer, new_external_addr)
        (q, d, c, All-append _ s.table ((peer_id, address) ∷ []) t (outer, tt))
  | inr inner ↦ rw (inner, new_external_addr) (q, d, c, t)
]

abbrev pub state_of : Round → Swarm
state_of (continues s) = s
state_of (breaks s) = s

module _ (decode : List ℕ → Option ℕ) where
  handle_gossip-IsSound :
      (source : Option ℕ) (bytes : List ℕ) (s : Swarm)
      → IsSound s
      → IsSound (handle_gossip decode source bytes s)
  unfolding handle_gossip
  handle_gossip-IsSound none bytes s h = h
  handle_gossip-IsSound (some peer_id) bytes s h = elim (Option-cases (decode bytes)) [
    | inl none' ↦ rw (none', handle_gossip) h
    | inr (n, decoded) ↦ rw (decoded, handle_gossip) (try_send-IsSound (would_store peer_id) s tt h)
  ]

  pub round-IsSound : (s : Swarm) (e : Event) → IsSound s → IsSound (state_of (round decode s e))
  unfolding round handle_swarm_message send_unpolled
  round-IsSound s shutdown_requested h = h
  round-IsSound s (discover peer) h = h
  round-IsSound s (rx_message none) h = h
  round-IsSound s (rx_message (some (request_storage_permits peers))) h = h
  round-IsSound s (new_external_addr_of_peer peer_id address) h =
      new_external_addr-IsSound peer_id address s h
  round-IsSound s (gossip source bytes) h = handle_gossip-IsSound source bytes s h
  round-IsSound s (req_resp_request peer_id request_id r channel) h =
      try_send-IsSound (request peer_id request_id r channel) s tt h
  round-IsSound s (req_resp_response peer_id request_id r) h = h
  round-IsSound s logged h = h
  round-IsSound s taken h = take_from-IsSound s.tx_handler s refl h

  process_swarm-IsSound :
      (s : Swarm) (history : List Event)
      → IsSound s
      → IsSound (state_of (process_swarm decode s history))
  unfolding process_swarm
  process_swarm-IsSound s [] h = h
  process_swarm-IsSound s (e ∷ rest) h =
      continue (round decode s e) (round-IsSound s e h) (λ s'. process_swarm-IsSound s' rest)
    where
      continue :
          (r : Round)
          → IsSound (state_of r)
          → ((s' : Swarm) → IsSound s' → IsSound (state_of (process_swarm decode s' rest)))
          → IsSound (
              state_of
                (elim r [ continues s' ↦ process_swarm decode s' rest | breaks s' ↦ breaks s' ]))
      continue (continues s') h' later = later s' h'
      continue (breaks s') h' later = h'

  -- After any history of the swarm task from its start on, no response is in the handler
  -- channel or has been delivered from it, the channel holds no more messages than its
  -- capacity, and each address told to Kademlia has passed the filter.
  pub process_swarm-new-IsSound :
      (history : List Event) → IsSound (state_of (process_swarm decode swarm_new history))
  unfolding swarm_new
  process_swarm-new-IsSound history =
      process_swarm-IsSound swarm_new history (tt, tt, omega arith, tt)
