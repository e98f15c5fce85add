-- ===== src/Nodes/TunnelPool.antt =====
-- The pool of tunnel networks, gfc-platform/control-plane/api/app/tunnel_pool.py. A text is taken as
-- the IPv4 network that `ipaddress` reads in it, `none` where it reads none; a network is its first
-- address, a number, and the length of its prefix, at most 32.
pub mod Allocation
use sip_proxy.Common.{
  ℕ, zero, suc, ◌+◌, ◌-◌, ◌*◌, ◌^◌, Bool, true, false, not, ◌&&◌, Option, none, some, List, [], ◌∷◌,
  any, ltb, leb, if◌then◌else◌,
}

pub record Network : Type 0 where
  pub address : ℕ
  pub prefixlen : ℕ

abbrev pub size : Network → ℕ
size n = 2 ^ (32 - n.prefixlen)

-- `network.overlaps(other)`: the ranges of addresses meet.
unfoldable pub overlaps : Network → Network → Bool
overlaps a b = ltb a.address (b.address + size b) && ltb b.address (a.address + size a)

-- `network.subnet_of(other)`
unfoldable pub subnet_of : Network → Network → Bool
subnet_of a b = leb b.address a.address && leb (a.address + size a) (b.address + size b)

-- 10.255.0.0/16
abbrev pub tunnel_pool : Network
tunnel_pool = record { address = 184483840; prefixlen = 16 }

unfoldable pub networks_overlap : Option Network → Option Network → Bool
unfolding overlaps
networks_overlap none b = false
networks_overlap (some a) none = false
networks_overlap (some a) (some b) = overlaps a b

pub data Conflict : Type 0 where
  not_a_network outside_pool prefix_too_long overlapping : Conflict

-- The reason against a candidate. A prefix of at most 30 leaves two host addresses, so the check of
-- their number never fails.
unfoldable pub tunnel_conflicts : Option Network → List (Option Network) → Option Conflict
unfolding subnet_of
tunnel_conflicts none reserved = some not_a_network
tunnel_conflicts (some candidate) reserved =
    if not (subnet_of candidate tunnel_pool)
    then some outside_pool
    else if ltb 30 candidate.prefixlen
    then some prefix_too_long
    else if any (networks_overlap (some candidate)) reserved
    then some overlapping
    else none

-- The loop over the networks of four addresses, of which `fuel` are left from `first` on.
unfoldable pub search_pool : ℕ → ℕ → List (Option Network) → Option Network
search_pool zero first reserved = none
search_pool (suc fuel) first reserved =
    let rest = search_pool fuel (first + 4) reserved in
    elim (tunnel_conflicts (some (record { address = first; prefixlen = 30 })) reserved) [
      | none ↦ some (record { address = first; prefixlen = 30 })
      | some _ ↦ rest
    ]

-- `range(base, broadcast - 2, 4)` has 16384 members; `none` is the RuntimeError of an empty pool.
unfoldable pub allocate_tunnel_network : List (Option Network) → Option Network
allocate_tunnel_network reserved = search_pool 16384 tunnel_pool.address reserved
