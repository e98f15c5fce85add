-- ===== src/Nodes/TunnelPool/Allocation.antt =====
-- What the allocation of a tunnel network guarantees, allocate_tunnel_network of
-- gfc-platform/control-plane/api/app/tunnel_pool.py.
use sip_proxy.Common.{
  ℕ, zero, suc, ◌+◌, ◌*◌, ◌≤◌, ◌<◌, ◌≡◌, ◌∙◌, refl, sym, true, false, Option, none, some, List, [],
  ◌∷◌, any, All, arith, inl, inr, Bool-cases, Option-cases, ltb, ◌⊎◌,
}
use sip_proxy.Nodes.TunnelPool.{
  Network, size, subnet_of, tunnel_pool, networks_overlap, Conflict, tunnel_conflicts, search_pool,
  allocate_tunnel_network,
}

-- The addresses of the network end before those of a reserved one begin, or begin after they end.
abbrev pub IsApart : Network → Option Network → Type 0
IsApart n none = Unit
IsApart n (some other) =
    (n.address + size n ≤ other.address) ⊎ (other.address + size other ≤ n.address)

apart :
    (n : Network) (other : Option Network)
    → networks_overlap (some n) other ≡ false
    → IsApart n other
unfolding networks_overlap
apart n none h = tt
apart n (some other) h = elim (Bool-cases (ltb n.address (other.address + size other))) [
  | inl below ↦ inl (ground arith)
  | inr above ↦ inr (ground arith)
]

none-All :
    (n : Network) (reserved : List (Option Network))
    → any (networks_overlap (some n)) reserved ≡ false
    → All (IsApart n) reserved
none-All n [] h = tt
none-All n (r ∷ rs) h = (apart n r (ground arith), none-All n rs (ground arith))

tunnel_conflicts-none :
    (n : Network) (reserved : List (Option Network))
    → tunnel_conflicts (some n) reserved ≡ none
    → (subnet_of n tunnel_pool ≡ true) × All (IsApart n) reserved
unfolding tunnel_conflicts
tunnel_conflicts-none n reserved h = elim (Bool-cases (subnet_of n tunnel_pool)) [
  | inr outside ↦ absurd (ground arith)
  | inl inside ↦ elim (Bool-cases (any (networks_overlap (some n)) reserved)) [
    | inl meets ↦ absurd (ground arith)
    | inr apart ↦ (inside, none-All n reserved apart)
  ]
]

search_pool-some :
    (fuel first : ℕ) (reserved : List (Option Network)) (n : Network)
    → search_pool fuel first reserved ≡ some n
    → tunnel_conflicts (some n) reserved ≡ none
unfolding search_pool
search_pool-some zero first reserved n h = cc
search_pool-some (suc fuel) first reserved n h =
    elim (Option-cases
      (tunnel_conflicts (some (record { address = first; prefixlen = 30 })) reserved)) [
        | inl free ↦
            let k : some (record { address = first; prefixlen = 30 }) ≡ some n =
              rw (free, search_pool) at h in
            let same : record { address = first; prefixlen = 30 } ≡ n = cc in rw (← same) free
        | inr (c, taken) ↦
            search_pool-some fuel (first + 4) reserved n (rw (taken, search_pool) at h)
      ]

subnet_of-bounds :
    (n pool : Network)
    → subnet_of n pool ≡ true
    → (pool.address ≤ n.address) × (n.address + size n ≤ pool.address + size pool)
unfolding subnet_of
subnet_of-bounds n pool s = (ground arith, ground arith)

-- An allocated tunnel network lies in the pool and has no address in common with a reserved network.
pub allocate_tunnel_network-IsApart :
    (reserved : List (Option Network)) (n : Network)
    → allocate_tunnel_network reserved ≡ some n
    → (tunnel_pool.address ≤ n.address)
      × (n.address + size n ≤ tunnel_pool.address + size tunnel_pool)
      × All (IsApart n) reserved
unfolding allocate_tunnel_network
allocate_tunnel_network-IsApart reserved n h =
    let (inside, apart) =
      tunnel_conflicts-none n reserved (search_pool-some 16384 tunnel_pool.address reserved n h) in
    let (low, high) = subnet_of-bounds n tunnel_pool inside in (low, high, apart)

search_pool-finds :
    (fuel first k : ℕ) (reserved : List (Option Network))
    → k < fuel
    → tunnel_conflicts (some (record { address = first + k * 4; prefixlen = 30 })) reserved ≡ none
    → (n : Network) × (search_pool fuel first reserved ≡ some n) × (n.address ≤ first + k * 4)
unfolding search_pool
search_pool-finds zero first k reserved h f = absurd (omega arith)
search_pool-finds (suc fuel) first k reserved h f =
    elim (Option-cases
      (tunnel_conflicts (some (record { address = first; prefixlen = 30 })) reserved)) [
        | inl free ↦
            rw (free, search_pool) (record { address = first; prefixlen = 30 }, refl, omega arith)
        | inr (c, taken) ↦
            rw (taken, search_pool)
              (later k h f c taken (λ j b g. search_pool-finds fuel (first + 4) j reserved b g))
      ]
  where
    Found : ℕ → ℕ → Type 0
    Found start bound =
        (n : Network) × (search_pool fuel start reserved ≡ some n) × (n.address ≤ bound)

    later :
        (k : ℕ)
        → k < suc fuel
        → tunnel_conflicts (some (record { address = first + k * 4; prefixlen = 30 })) reserved
          ≡ none
        → (c : Conflict)
        → tunnel_conflicts (some (record { address = first; prefixlen = 30 })) reserved ≡ some c
        → ((j : ℕ)
            → j < fuel
            → tunnel_conflicts
                (some (record { address = first + 4 + j * 4; prefixlen = 30 }))
                reserved
              ≡ none
            → Found (first + 4) (first + 4 + j * 4))
        → Found (first + 4) (first + k * 4)
    later zero h f c taken rec =
        let e : first + 0 * 4 ≡ first = omega arith in
        let g : tunnel_conflicts (some (record { address = first; prefixlen = 30 })) reserved
            ≡ none =
          rw e at f in
        absurd (let k : some c ≡ none = sym taken ∙ g in cc)
    later (suc j) h f c taken rec =
        let e : first + suc j * 4 ≡ first + 4 + j * 4 = omega arith in
        let (n, found, bound) = rec j (omega arith) (rw e at f) in (n, found, omega arith)

-- If some network of four addresses, at a whole number of steps from the start of the pool, has no
-- conflict, the allocation succeeds, with that network or an earlier one.
pub allocate_tunnel_network-finds :
    (reserved : List (Option Network)) (k : ℕ)
    → k < 16384
    → tunnel_conflicts
        (some (record { address = tunnel_pool.address + k * 4; prefixlen = 30 }))
        reserved
      ≡ none
    → (n : Network) × (allocate_tunnel_network reserved ≡ some n)
      × (n.address ≤ tunnel_pool.address + k * 4)
unfolding allocate_tunnel_network
allocate_tunnel_network-finds reserved k h f =
    search_pool-finds 16384 tunnel_pool.address k reserved h f
