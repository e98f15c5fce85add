-- ===== src/Agent/Routes/Table.antt =====
-- The machine's table of routes after apply_static_routes of
-- gfc-platform/node-agent/node_agent/routes.py.
use sip_proxy.Common.{
  String, ◌≡◌, ◌∙◌, refl, sym, ap, Bool, true, false, ◌||◌, Option, List, [], ◌∷◌, inl, inr, arith,
  eq_iff, str_eq, Bool-cases, map,
}
use sip_proxy.Common.Dict.{Dict}
use sip_proxy.Common.Text.{elem}
use sip_proxy.Nodes.Config.{prefix_of}
use sip_proxy.Agent.Routes.{
  Machine, Applied, del_route, replace_route, prefixes, route_options, deleted, replaced,
  delete_stale, put_routes, apply_static_routes,
}

-- What `ip route` promises of the destinations in the main table, where `destination` is what a text
-- of a prefix stands for, as `default` for 0.0.0.0/0: a command leaves the other destinations alone,
-- and a replacement that succeeds puts its own in.
pub record RouteTable (S : Type 0) (machine : Machine S) : Type 0 where
  pub destination : String → String
  pub holds : S → String → Bool
  pub del_other :
      (s : S) (p d : String)
      → str_eq (destination p) d ≡ false
      → holds (machine.run s (del_route p)).0 d ≡ holds s d
  pub replace_other :
      (s : S) (p d : String) (rest : List String)
      → str_eq (destination p) d ≡ false
      → holds (machine.run s (replace_route p rest)).0 d ≡ holds s d
  pub replace_there :
      (s : S) (p : String) (rest : List String)
      → (machine.run s (replace_route p rest)).1 ≡ true
      → holds (machine.run s (replace_route p rest)).0 (destination p) ≡ true

module _ {S : Type 0} (machine : Machine S) (table : RouteTable S machine) where
  -- The destinations of the routes that have a prefix.
  abbrev pub destinations : List (Dict String) → List String
  destinations routes = map table.destination (prefixes routes)

  deleted-state :
      (p : String) (a : Applied S) (answer : S × Bool × String)
      → (deleted machine p a answer).state ≡ answer.0
  unfolding deleted
  deleted-state p a (s, true, out) = refl
  deleted-state p a (s, false, out) = refl

  replaced-state :
      (p : String) (a : Applied S) (answer : S × Bool × String)
      → (replaced machine p a answer).state ≡ answer.0
  unfolding replaced
  replaced-state p a (s, true, out) = refl
  replaced-state p a (s, false, out) = refl

  replaced-ok :
      (p : String) (a : Applied S) (answer : S × Bool × String)
      → (replaced machine p a answer).ok_all ≡ true
      → (a.ok_all ≡ true) × (answer.1 ≡ true)
  unfolding replaced
  replaced-ok p a (s, true, out) h = (h, refl)
  replaced-ok p a (s, false, out) h = absurd cc

  -- The deletions leave a destination alone that no old route has.
  delete_stale-keeps :
      (new : List String) (previous : List (Dict String)) (a : Applied S) (d : String)
      → elem d (destinations previous) ≡ false
      → table.holds (delete_stale machine new previous a).state d ≡ table.holds a.state d
  unfolding delete_stale prefixes
  delete_stale-keeps new [] a d h = refl
  delete_stale-keeps new (r ∷ rs) a d h = elim (Bool-cases (str_eq (prefix_of r) "")) [
    | inl empty ↦ rw empty (delete_stale-keeps new rs a d (rw empty at h))
    | inr named ↦
        let p = table.destination (prefix_of r) in
        let h' : (str_eq d p || elem d (destinations rs)) ≡ false = rw named at h in
        let rest : elem d (destinations rs) ≡ false = ground arith in
        elim (Bool-cases (elem (prefix_of r) new)) [
          | inl kept ↦ rw (named, kept) (delete_stale-keeps new rs a d rest)
          | inr stale ↦
              let apart : str_eq p d ≡ false = ground (arith, eq_iff d p, eq_iff p d) in
              let answer = machine.run a.state (del_route (prefix_of r)) in
              rw (named, stale)
                (delete_stale-keeps new rs (deleted machine (prefix_of r) a answer) d rest
                  ∙ ap (λ s. table.holds s d) (deleted-state (prefix_of r) a answer)
                  ∙ table.del_other a.state (prefix_of r) d apart)
        ]
  ]

  put_routes-keeps :
      (tproxy_iface : Option String) (routes : List (Dict String)) (a : Applied S) (d : String)
      → elem d (destinations routes) ≡ false
      → table.holds (put_routes machine tproxy_iface routes a).state d ≡ table.holds a.state d
  unfolding put_routes prefixes
  put_routes-keeps tproxy_iface [] a d h = refl
  put_routes-keeps tproxy_iface (r ∷ rs) a d h = elim (Bool-cases (str_eq (prefix_of r) "")) [
    | inl empty ↦ rw empty (put_routes-keeps tproxy_iface rs a d (rw empty at h))
    | inr named ↦
        let p = table.destination (prefix_of r) in
        let h' : (str_eq d p || elem d (destinations rs)) ≡ false = rw named at h in
        let rest : elem d (destinations rs) ≡ false = ground arith in
        let apart : str_eq p d ≡ false = ground (arith, eq_iff d p, eq_iff p d) in
        let options = route_options machine tproxy_iface a.state r in
        let answer = machine.run a.state (replace_route (prefix_of r) options) in
        rw named (
          put_routes-keeps tproxy_iface rs (replaced machine (prefix_of r) a answer) d rest
          ∙ ap (λ s. table.holds s d) (replaced-state (prefix_of r) a answer)
          ∙ table.replace_other a.state (prefix_of r) d options apart)
  ]

  put_routes-ok :
      (tproxy_iface : Option String) (routes : List (Dict String)) (a : Applied S)
      → (put_routes machine tproxy_iface routes a).ok_all ≡ true
      → a.ok_all ≡ true
  unfolding put_routes
  put_routes-ok tproxy_iface [] a h = h
  put_routes-ok tproxy_iface (r ∷ rs) a h = elim (Bool-cases (str_eq (prefix_of r) "")) [
    | inl empty ↦ put_routes-ok tproxy_iface rs a (rw empty at h)
    | inr named ↦
        let options = route_options machine tproxy_iface a.state r in
        let answer = machine.run a.state (replace_route (prefix_of r) options) in
        (replaced-ok (prefix_of r) a answer (
          put_routes-ok tproxy_iface rs (replaced machine (prefix_of r) a answer)
            (rw named at h))).0
  ]

  put_routes-there :
      (tproxy_iface : Option String) (routes : List (Dict String)) (a : Applied S) (d : String)
      → (put_routes machine tproxy_iface routes a).ok_all ≡ true
      → elem d (destinations routes) ≡ true
      → table.holds (put_routes machine tproxy_iface routes a).state d ≡ true
  unfolding put_routes prefixes
  put_routes-there tproxy_iface [] a d h there = absurd cc
  put_routes-there tproxy_iface (r ∷ rs) a d h there = elim (Bool-cases (str_eq (prefix_of r) "")) [
    | inl empty ↦
        rw empty (put_routes-there tproxy_iface rs a d (rw empty at h) (rw empty at there))
    | inr named ↦
        let p = table.destination (prefix_of r) in
        let options = route_options machine tproxy_iface a.state r in
        let answer = machine.run a.state (replace_route (prefix_of r) options) in
        let next = replaced machine (prefix_of r) a answer in
        let h' : (put_routes machine tproxy_iface rs next).ok_all ≡ true = rw named at h in
        let there' : (str_eq d p || elem d (destinations rs)) ≡ true = rw named at there in
        rw named (elim (Bool-cases (elem d (destinations rs))) [
          | inl again ↦ put_routes-there tproxy_iface rs next d h' again
          | inr last ↦
              let e : p ≡ d = ground (arith, eq_iff d p) in
              let ran =
                (replaced-ok (prefix_of r) a answer (put_routes-ok tproxy_iface rs next h')).1 in
              put_routes-keeps tproxy_iface rs next d last
              ∙ ap (λ s. table.holds s d) (replaced-state (prefix_of r) a answer)
              ∙ ap (table.holds answer.0) (sym e)
              ∙ table.replace_there a.state (prefix_of r) options ran
        ])
  ]

  -- When the answer is that all went well, the table holds the destination of each prefix of the new
  -- routes, also where a stale route that was deleted wrote it in another way.
  pub apply_static_routes-holds :
      (tproxy_iface : Option String) (previous routes : List (Dict String)) (s : S) (d : String)
      → (apply_static_routes machine tproxy_iface previous routes s).1 ≡ true
      → elem d (destinations routes) ≡ true
      → table.holds (apply_static_routes machine tproxy_iface previous routes s).0 d ≡ true
  unfolding apply_static_routes
  apply_static_routes-holds tproxy_iface previous routes s d ok there =
      put_routes-there tproxy_iface routes
        (delete_stale machine (prefixes routes) previous
          (record { state = s; messages = []; ok_all = true }))
        d ok there

  -- Whatever the commands answer, the table is left as it is at each destination that neither the
  -- routes of the last time nor the new ones have.
  pub apply_static_routes-other :
      (tproxy_iface : Option String) (previous routes : List (Dict String)) (s : S) (d : String)
      → elem d (destinations previous) ≡ false
      → elem d (destinations routes) ≡ false
      → table.holds (apply_static_routes machine tproxy_iface previous routes s).0 d
        ≡ table.holds s d
  unfolding apply_static_routes
  apply_static_routes-other tproxy_iface previous routes s d old new =
      put_routes-keeps tproxy_iface routes
        (delete_stale machine (prefixes routes) previous
          (record { state = s; messages = []; ok_all = true }))
        d new
      ∙ delete_stale-keeps (prefixes routes) previous
          (record { state = s; messages = []; ok_all = true }) d old
