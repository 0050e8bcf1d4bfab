-- ===== src/Examples/Swarms.antt =====
-- crates/peyk/src/lib.rs on concrete histories.
use gozara.Base.{ℕ, ◌≡◌, ◌↔◌, refl, List, [], ◌∷◌, ◌++◌, true, false, Option, none, some, All}
use gozara.Peyk.Protocol.{
  storage_permit, request_storage_permits, would_store, issued_storage_permit,
}
use gozara.Peyk.Swarm.{
  ip4, ip6, tcp, udp, passes, is_public, Event, shutdown_requested, rx_message, gossip,
  req_resp_response, new_external_addr_of_peer, taken, try_send, send_unpolled, take_from,
  new_external_addr, handle_gossip, handle_swarm_message, round, process_swarm, swarm_new,
}
use gozara.Peyk.Swarm.Addresses.{IsInner, is_public_iff}
use gozara.Peyk.Swarm.Channel.{IsSound, state_of, process_swarm-new-IsSound}
use gozara.Peyk.Swarm.Requests.{process_swarm-sent}

-- `bincode::deserialize::<u8>` reads the first byte.
abbrev pub first_byte : List ℕ → Option ℕ
first_byte [] = none
first_byte (b ∷ bs) = some b

-- A storage provider speaks up, is asked for a permit, and grants one.
abbrev pub busy_history : List Event
busy_history =
    gossip (some 5) (1 ∷ [])
    ∷ rx_message (some (request_storage_permits (5 ∷ 6 ∷ [])))
    ∷ req_resp_response 5 0 (issued_storage_permit 60)
    ∷ new_external_addr_of_peer 5 (ip4 192 168 0 1 ∷ tcp 20201 ∷ [])
    ∷ taken
    ∷ shutdown_requested
    ∷ rx_message (some (request_storage_permits (7 ∷ [])))
    ∷ []

-- The hint is delivered, the permit is not.
pub only_the_hint :
    (state_of (process_swarm first_byte swarm_new busy_history)).delivered ≡ would_store 5 ∷ []
unfolding process_swarm round handle_gossip try_send send_unpolled handle_swarm_message
    new_external_addr is_public passes take_from swarm_new
only_the_hint = refl

private_address : is_public (ip4 172 20 0 1 ∷ tcp 1 ∷ []) ≡ false
unfolding is_public passes
private_address = refl

-- An address without an IPv4 component passes, the IPv6 loopback among them.
ip6_loopback_passes : is_public (ip6 (0 ∷ 0 ∷ 0 ∷ 0 ∷ 0 ∷ 0 ∷ 0 ∷ 1 ∷ []) ∷ tcp 1 ∷ []) ≡ true
unfolding is_public passes
ip6_loopback_passes = refl

process_swarm-new-IsSound_example :
    IsSound (state_of (process_swarm first_byte swarm_new busy_history))
process_swarm-new-IsSound_example = process_swarm-new-IsSound first_byte busy_history

process_swarm-sent_example :
    (state_of (process_swarm first_byte swarm_new busy_history)).sent
    ≡ swarm_new.sent ++ (5, storage_permit) ∷ (6, storage_permit) ∷ []
process_swarm-sent_example = process_swarm-sent first_byte busy_history swarm_new

is_public_iff_example :
    (is_public (ip4 8 8 8 8 ∷ udp 20201 ∷ []) ≡ true)
    ↔ All (λ p. ¬ IsInner p) (ip4 8 8 8 8 ∷ udp 20201 ∷ [])
is_public_iff_example = is_public_iff (ip4 8 8 8 8 ∷ udp 20201 ∷ [])
