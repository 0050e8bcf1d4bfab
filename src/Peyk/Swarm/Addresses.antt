-- ===== src/Peyk/Swarm/Addresses.antt =====
-- crates/peyk/src/lib.rs: what the filter of addresses lets through.
use gozara.Base.{◌≡◌, ◌≤◌, ◌↔◌, ◌⊎◌, List, [], ◌∷◌, true, All, arith}
use gozara.Peyk.Swarm.{Protocol, ip4, ip6, dns, tcp, udp, quic_v1, passes, is_public}

-- The addresses of 10/8, 172.16/12, 192.168/16 and 127/8.
abbrev pub IsInner : Protocol → Type 0
IsInner (ip4 a b c d) =
    (a ≡ 10) ⊎ ((a ≡ 172) × (16 ≤ b) × (b ≤ 31)) ⊎ ((a ≡ 192) × (b ≡ 168)) ⊎ (a ≡ 127)
IsInner _ = ⊥

passes_iff : (p : Protocol) → (passes p ≡ true) ↔ (¬ IsInner p)
unfolding passes
passes_iff (ip4 a b c d) = ground arith
passes_iff (ip6 segments) = ground arith
passes_iff (dns name) = ground arith
passes_iff (tcp port) = ground arith
passes_iff (udp port) = ground arith
passes_iff quic_v1 = ground arith

-- The filter lets an address through if and only if none of its components is an IPv4 address of
-- 10/8, 172.16/12, 192.168/16 or 127/8.
pub is_public_iff :
    (address : List Protocol) → (is_public address ≡ true) ↔ All (λ p. ¬ IsInner p) address
unfolding is_public
is_public_iff [] = ground arith
is_public_iff (p ∷ rest) = ground (arith, passes_iff p, is_public_iff rest)
