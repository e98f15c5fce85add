-- ===== src/Nodes/Config/Tests.antt =====
-- The configuration of a node with a client line and a forward line, and its theorems there.
use sip_proxy.Common.{◌≡◌, refl, true, false, ◌&&◌, none, some, List, [], ◌∷◌, map, filter}
use sip_proxy.Common.Text.{strip}
use sip_proxy.Nodes.Monitor.{SocksProfile}
use sip_proxy.Nodes.Config.{
  Line, Rule, User, collect_line_cidrs, merge_static_routes, build_forward_rules,
  build_client_ingress, auto_route,
}
use sip_proxy.Nodes.Config.Again.{build_client_ingress-again}
use sip_proxy.Nodes.Config.Split.{is_forwarded, is_ingress, rules-users}

abbrev exit : SocksProfile
exit = record {
  id = 4;
  name = "exit";
  host = " 10.0.0.9";
  port = 1080;
  username = none;
  password = none;
  is_healthy = true;
}

abbrev client_line : Line
client_line = record {
  id = 1;
  tid = "T1";
  name = "client";
  source_cidrs = "";
  socks_profile_id = some 4;
  line_type = "client";
  client_uuid = some "u1";
  bandwidth_mbps = 5;
  is_enabled = true;
  socks_udp_over_tcp = true;
  live_mode = some " LIVE_CATALOG";
  live_platforms = "a" ∷ " a" ∷ "b" ∷ [];
  hy2_password = none;
  hy2_brutal_enabled = true;
}

abbrev forward_line : Line
forward_line = record client_line {
  id = 2;
  source_cidrs = "10.1.0.0/24, 10.2.0.0/24,10.1.0.0/24";
  line_type = "forward";
  client_uuid = none;
}

abbrev lines : List Line
lines = client_line ∷ forward_line ∷ []

cidrs_test : collect_line_cidrs lines ≡ ("10.1.0.0/24" ∷ "10.2.0.0/24" ∷ [])
unfolding collect_line_cidrs
cidrs_test = refl

routes_test :
    merge_static_routes
      ((("prefix", "10.1.0.0/24 ") ∷ []) ∷ (("prefix", "10.9.0.0/24") ∷ []) ∷ [])
      ("10.1.0.0/24" ∷ [])
      "tun0"
    ≡ ((("prefix", "10.9.0.0/24") ∷ []) ∷ auto_route "tun0" "10.1.0.0/24" ∷ [])
unfolding merge_static_routes
routes_test = refl

build_client_ingress-again_example :
    build_client_ingress
      (λ _. "other")
      (exit ∷ [])
      (build_client_ingress (λ _. "secret") (exit ∷ []) lines).1
    ≡ build_client_ingress (λ _. "secret") (exit ∷ []) lines
unfolding strip
build_client_ingress-again_example =
    build_client_ingress-again (λ _. "secret") (λ _. "other") (λ _. (refl, refl)) (exit ∷ []) lines

rules-users_example :
    (map (λ (r : Rule). r.line_id) (build_forward_rules (exit ∷ []) lines)
      ≡ map (λ (l : Line). l.id) (filter (is_forwarded (exit ∷ [])) lines))
    × (map (λ (u : User). u.line_id) (build_client_ingress (λ _. "secret") (exit ∷ []) lines).0
        ≡ map (λ (l : Line). l.id) (filter is_ingress lines))
    × ((line : Line) → (is_forwarded (exit ∷ []) line && is_ingress line) ≡ false)
rules-users_example = rules-users (λ _. "secret") (exit ∷ []) lines
