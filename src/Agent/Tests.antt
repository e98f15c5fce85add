-- ===== src/Agent/Tests.antt =====
-- Runs of the agent's probes and of its routes.
use sip_proxy.Common.{◌≡◌, refl, arith, true, false, none, [], ◌∷◌}
use sip_proxy.Nodes.Config.{Rule}
use mathlib.Core.List.{Memᴰ}
use sip_proxy.Common.{some}
use sip_proxy.Common.Dict.{lookup}
use sip_proxy.Common.Text.{concat}
use sip_proxy.Common.Text.Numbers.{show}
use sip_proxy.Agent.Streaks.{rounds, failures, rounds-failures}
use sip_proxy.Common.{String, Bool, List, str_eq, eq_iff, if◌then◌else◌}
use sip_proxy.Common.Text.{elem}
use sip_proxy.Common.Dict.{Dict}
use sip_proxy.Agent.Routes.{Machine, prefixes, apply_static_routes}
use sip_proxy.Agent.Routes.Table.{RouteTable, apply_static_routes-holds, apply_static_routes-other}
use sip_proxy.Agent.SocksHealth.{ProbeSettings, Health, evaluate_socks_dns_health}

abbrev settings : ProbeSettings
settings = record { fails_to_down = 2; probe_interval = 30 }

abbrev rule : Rule
rule = record {
  line_id = 7;
  tid = "T7";
  line_name = "seven";
  source_cidrs = [];
  socks = record {
    host = "10.0.0.9";
    port = 1080;
    username = none;
    password = none;
    udp_over_tcp = true;
  };
}

abbrev fresh : Health
fresh = record { last_probe = 0; last_result = []; saved_ok = []; saved_streaks = none }

-- One failure is not enough; the second one, at least an interval later, is.
first_failure_test :
    (evaluate_socks_dns_health settings (λ _. false) 100 (rule ∷ []) [] fresh).0
    ≡ (("socks-7", true) ∷ [])
unfolding evaluate_socks_dns_health
first_failure_test = refl

second_failure_test :
    (evaluate_socks_dns_health settings
      (λ _. false)
      130
      (rule ∷ [])
      []
      (evaluate_socks_dns_health settings (λ _. false) 100 (rule ∷ []) [] fresh).1).0
    ≡ (("socks-7", false) ∷ [])
unfolding evaluate_socks_dns_health
second_failure_test = refl

-- Two failures in a row and a threshold of two.
rounds-failures_example :
    lookup "socks-7"
      (rounds settings
        (rule ∷ [])
        []
        ((140, λ _. false) ∷ (110, λ _. false) ∷ (80, λ _. true) ∷ [])).last_result
    ≡ some false
unfolding show failures concat
rounds-failures_example =
    rounds-failures settings (rule ∷ []) [] "socks-7" rule.socks (Memᴰ.head refl) 140 (λ _. false)
      ((110, λ _. false) ∷ (80, λ _. true) ∷ []) (omega arith) (tt, tt)
      (omega arith, (omega arith, tt))

-- The word that `ip route` takes for every address.
abbrev named : String → String
named p = if str_eq p "default" then "0.0.0.0/0" else p

-- A machine whose state is the list of its destinations. A command that is no change of a route fails,
-- and so does the deletion of a destination that is not there.
abbrev without : String → List String → List String
without p [] = []
without p (q ∷ qs) = let rest = without p qs in if str_eq p q then rest else q ∷ rest

abbrev ip_route : List String → List String → List String × Bool × String
ip_route s (_ ∷ _ ∷ word ∷ p ∷ rest) =
    if str_eq word "del"
    then (without (named p) s, elem (named p) s, "No such process")
    else (named p ∷ s, true, "")
ip_route s _ = (s, false, "usage")

abbrev router : Machine (List String)
router = record {
  run = ip_route;
  route_get = λ s hop. "10.0.0.1 via 10.0.0.254 dev eth1 src 10.0.0.2";
}

elem-without-other :
    (p q : String) (s : List String) → str_eq p q ≡ false → elem q (without p s) ≡ elem q s
elem-without-other p q [] h = refl
elem-without-other p q (x ∷ s) h =
    ground (arith, elem-without-other p q s h, eq_iff p x, eq_iff q x, eq_iff p q)

elem-cons-other : (p q : String) (s : List String) → str_eq p q ≡ false → elem q (p ∷ s) ≡ elem q s
elem-cons-other p q s h = ground (arith, eq_iff p q, eq_iff q p)

elem-cons : (p : String) (s : List String) → elem p (p ∷ s) ≡ true
elem-cons p s = ground (arith, eq_iff p p)

abbrev router_table : RouteTable (List String) router
router_table = record {
  destination = named;
  holds = λ s d. elem d s;
  del_other = λ s p d h. elem-without-other (named p) d s h;
  replace_other = λ s p d rest h. elem-cons-other (named p) d s h;
  replace_there = λ s p rest h. elem-cons (named p) s;
}

abbrev old_routes : List (Dict String)
old_routes = (("prefix", "default") ∷ []) ∷ (("prefix", "10.2.0.0/16") ∷ []) ∷ []

-- The old default route is deleted and comes back under its other name.
abbrev new_routes : List (Dict String)
new_routes = (("prefix", "0.0.0.0/0") ∷ ("nextHop", "10.0.0.1") ∷ []) ∷ []

apply_static_routes_test :
    apply_static_routes router none old_routes new_routes ("0.0.0.0/0" ∷ "10.9.0.0/16" ∷ []) ≡ (
      "0.0.0.0/0" ∷ "10.9.0.0/16" ∷ [],
      true,
      "route default removed (stale); route 10.2.0.0/16 stale del warn: No such process; route 0.0.0.0/0 ok",
    )
unfolding apply_static_routes
apply_static_routes_test = refl

apply_static_routes-holds_example :
    elem "0.0.0.0/0" (apply_static_routes router none old_routes new_routes ("0.0.0.0/0" ∷ [])).0
    ≡ true
unfolding apply_static_routes prefixes
apply_static_routes-holds_example =
    apply_static_routes-holds router router_table none old_routes new_routes ("0.0.0.0/0" ∷ [])
      "0.0.0.0/0" refl refl

apply_static_routes-other_example :
    elem "10.9.0.0/16"
      (apply_static_routes router none old_routes new_routes ("10.9.0.0/16" ∷ [])).0
    ≡ true
unfolding prefixes
apply_static_routes-other_example =
    apply_static_routes-other router router_table none old_routes new_routes ("10.9.0.0/16" ∷ [])
      "10.9.0.0/16" refl refl
