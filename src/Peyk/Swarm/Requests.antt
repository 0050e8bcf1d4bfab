-- ===== src/Peyk/Swarm/Requests.antt =====
-- crates/peyk/src/lib.rs: the requests that the swarm task sends.
use gozara.Base.{
  ℕ, ◌≡◌, refl, sym, ap, ◌∙◌, List, [], ◌∷◌, ◌++◌, map, Option, none, some, arith, append_assoc,
  append-nil, Option-cases, inl, inr,
}
use gozara.Peyk.Protocol.{
  Request, storage_permit, request_storage_permits, HandlerMessage, would_store, request,
}
use gozara.Peyk.Swarm.{
  Event, shutdown_requested, discover, rx_message, new_external_addr_of_peer, gossip,
  req_resp_request, req_resp_response, logged, taken, Swarm, try_send, send_unpolled, take_from,
  handle_swarm_message, new_external_addr, handle_gossip, round, process_swarm, Protocol,
}
use gozara.Peyk.Swarm.Channel.{state_of}

-- The requests that a history asks for, up to the event that ends the loop.
abbrev pub asked_in : List Event → List (ℕ × Request)
asked_in [] = []
asked_in (shutdown_requested ∷ rest) = []
asked_in (rx_message none ∷ rest) = []
asked_in (rx_message (some (request_storage_permits peers)) ∷ rest) =
    map (λ peer. (peer, storage_permit)) peers ++ asked_in rest
asked_in (_ ∷ rest) = asked_in rest

try_send-sent : (m : HandlerMessage) (s : Swarm) → (try_send m s).sent ≡ s.sent
unfolding try_send
try_send-sent m s = ground arith

take_from-sent : (l : List HandlerMessage) (s : Swarm) → (take_from l s).sent ≡ s.sent
unfolding take_from
take_from-sent [] s = refl
take_from-sent (m ∷ rest) s = refl

new_external_addr-sent :
    (peer_id : ℕ) (address : List Protocol) (s : Swarm)
    → (new_external_addr peer_id address s).sent ≡ s.sent
unfolding new_external_addr
new_external_addr-sent peer_id address s = ground arith

module _ (decode : List ℕ → Option ℕ) where
  handle_gossip-sent :
      (source : Option ℕ) (bytes : List ℕ) (s : Swarm)
      → (handle_gossip decode source bytes s).sent ≡ s.sent
  unfolding handle_gossip
  handle_gossip-sent none bytes s = refl
  handle_gossip-sent (some peer_id) bytes s = elim (Option-cases (decode bytes)) [
    | inl none' ↦ rw (none', handle_gossip) refl
    | inr (n, decoded) ↦ rw (decoded, handle_gossip) (try_send-sent (would_store peer_id) s)
  ]

  -- A history that begins with an event which sends nothing and after which the loop goes on.
  silent :
      (s s' : Swarm) (rest : List Event)
      → s'.sent ≡ s.sent
      → (state_of (process_swarm decode s' rest)).sent ≡ s'.sent ++ asked_in rest
      → (state_of (process_swarm decode s' rest)).sent ≡ s.sent ++ asked_in rest
  silent s s' rest same later = later ∙ ap (λ l. l ++ asked_in rest) same

  -- The requests that the swarm task has sent after a history are those from before and one
  -- for a storage permit to each peer of each message received until the loop ends, in their
  -- order.
  pub process_swarm-sent :
      (history : List Event) (s : Swarm)
      → (state_of (process_swarm decode s history)).sent ≡ s.sent ++ asked_in history
  unfolding process_swarm round handle_swarm_message send_unpolled
  process_swarm-sent [] s = sym (append-nil s.sent)
  process_swarm-sent (shutdown_requested ∷ rest) s = sym (append-nil s.sent)
  process_swarm-sent (rx_message none ∷ rest) s = sym (append-nil s.sent)
  process_swarm-sent (rx_message (some (request_storage_permits peers)) ∷ rest) s =
      process_swarm-sent rest (handle_swarm_message (request_storage_permits peers) s)
      ∙ append_assoc s.sent (map (λ peer. (peer, storage_permit)) peers) (asked_in rest)
  process_swarm-sent (discover peer ∷ rest) s = process_swarm-sent rest _
  process_swarm-sent (new_external_addr_of_peer peer_id address ∷ rest) s =
      silent s (new_external_addr peer_id address s) rest (new_external_addr-sent peer_id address s)
        (process_swarm-sent rest _)
  process_swarm-sent (gossip source bytes ∷ rest) s =
      silent s (handle_gossip decode source bytes s) rest (handle_gossip-sent source bytes s)
        (process_swarm-sent rest _)
  process_swarm-sent (req_resp_request peer_id request_id r channel ∷ rest) s =
      silent s (try_send (request peer_id request_id r channel) s) rest
        (try_send-sent (request peer_id request_id r channel) s) (process_swarm-sent rest _)
  process_swarm-sent (req_resp_response peer_id request_id r ∷ rest) s = process_swarm-sent rest s
  process_swarm-sent (logged ∷ rest) s = process_swarm-sent rest s
  process_swarm-sent (taken ∷ rest) s =
      silent s (take_from s.tx_handler s) rest (take_from-sent s.tx_handler s)
        (process_swarm-sent rest _)
