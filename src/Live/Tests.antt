-- ===== src/Live/Tests.antt =====
-- A node with one line in catalog mode and one on the old routing, and the theorems there.
use sip_proxy.Common.{
  List, map, ◌++◌, ℕ, ◌+◌, String, ◌≡◌, refl, true, false, none, some, [], ◌∷◌, All,
}
use mathlib.Core.List.{Memᴰ}
use sip_proxy.Common.Http.{ok, error, After}
use sip_proxy.Nodes.Alerts.{Settings, AlertEvent, emit_alert}
use sip_proxy.Common.Text.{strip}
use sip_proxy.Nodes.Models.{Node}
use sip_proxy.Nodes.Monitor.{SocksProfile}
use sip_proxy.Nodes.Config.{Line}
use sip_proxy.Nodes.Tokens.{auth_node}
use sip_proxy.Nodes.Endpoints.{new_node}
use sip_proxy.Live.Catalog.{LiveEndpoint, Services, make_task, build_node_live_catalog}
use sip_proxy.Live.Reports.{
  Report, LiveResolveResult, LiveWorld, LiveIp, task_of_line, lines_of_node, get_line_resolve_row,
  report_live_resolve, build_client_live_ip,
}
use sip_proxy.Live.Resolver.{
  Curl, ResolverState, resolved_cidrs, resolve_domains, resolve_task, should_run_now,
  maybe_run_live_resolve,
}
use sip_proxy.Live.Batches.{IsKept, report_live_resolve-answers, report_live_resolve-IsKept}
use sip_proxy.Live.Told.{catalog_of, report_live_resolve-told}

abbrev services : Services
services = record { sha256 = λ s. s; ip_network = λ s. some s }

abbrev settings : Settings
settings = record { alert_dedup_minutes = 30; node_offline_threshold_seconds = 120 }

abbrev exit : SocksProfile
exit = record {
  id = 4;
  name = "exit";
  host = "10.0.0.9 ";
  port = 1080;
  username = none;
  password = none;
  is_healthy = true;
}

abbrev live_line : Line
live_line = record {
  id = 7;
  tid = "T7";
  name = "seven";
  source_cidrs = "";
  socks_profile_id = some 4;
  line_type = "client";
  client_uuid = some "u7";
  bandwidth_mbps = 5;
  is_enabled = true;
  socks_udp_over_tcp = true;
  live_mode = some "live_catalog";
  live_platforms = "twitch" ∷ [];
  hy2_password = none;
  hy2_brutal_enabled = true;
}

abbrev endpoint : ℕ → String → String → LiveEndpoint
endpoint id match_type value = record {
  id = id;
  platform_id = "twitch";
  role = "ingest";
  match_type = match_type;
  value = value;
  status = "active";
}

abbrev node : Node
node = new_node 3 100 "tokyo"

abbrev world : LiveWorld
world = record {
  nodes = node ∷ [];
  tokens = record { node_id = 3; token_hash = "secret"; revoked_at = none } ∷ [];
  lines =
      record { node_id = 3; line = live_line }
      ∷ record { node_id = 3; line = record live_line { id = 8; live_mode = none } }
      ∷ [];
  profiles = exit ∷ [];
  endpoints = endpoint 2 "fqdn" "Live.Twitch.TV" ∷ endpoint 1 "ip_cidr" "192.0.2.0/24" ∷ [];
  rows = [];
  events = [];
}

-- Every name has two addresses.
abbrev curl : Curl
curl proxy url = some (
    record { type = "1"; data_text = "198.51.100.7 " }
    ∷ record { type = "A"; data_text = "198.51.100.8" }
    ∷ [])

abbrev idle : ResolverState
idle = record { last_resolve = 0; last_catalog_epoch = ""; last_task_epochs = []; line_cache = [] }

networks_test :
    resolved_cidrs curl "https://1.1.1.1/dns-query"
      (make_task services world.endpoints world.profiles live_line)
    ≡ ("192.0.2.0/24" ∷ "198.51.100.7/32" ∷ "198.51.100.8/32" ∷ [])
unfolding make_task resolve_domains
networks_test = refl

report_live_resolve-told_example :
    (out : (ℕ × ℕ) × LiveWorld) × (report_live_resolve services
        (λ t. t)
        settings
        900
        (some "Bearer secret")
        (maybe_run_live_resolve 300 curl [] "https://1.1.1.1/dns-query" 800
          (catalog_of services 3 world)
          idle).0
        world
      ≡ ok out)
    × (live_ip : LiveIp) × (build_client_live_ip services out.1.endpoints out.1.rows 7 live_line
        ≡ some live_ip)
    × (live_ip.cidrs
        ≡ resolved_cidrs curl "https://1.1.1.1/dns-query"
            (make_task services world.endpoints world.profiles live_line))
unfolding auth_node build_node_live_catalog should_run_now resolve_task lines_of_node
report_live_resolve-told_example =
    report_live_resolve-told services (λ t. t) settings 900 (some "Bearer secret") world node 300
      curl [] "https://1.1.1.1/dns-query" 800 idle live_line refl (refl, (refl, tt), (refl, tt, tt))
      (Memᴰ.head refl) refl refl refl refl

abbrev stray : Report
stray = record {
  line_id = 8;
  detour_tag = "client-8";
  egress_hint = "";
  cidrs = "0.0.0.0/0" ∷ [];
  resolved_at = none;
  catalog_epoch = "";
  skipped_unhealthy = false;
  used_fallback_vantage = false;
}

report_live_resolve-answers_example :
    (out : (ℕ × ℕ) × LiveWorld) × (report_live_resolve services
        (λ t. t)
        settings
        900
        (some "Bearer secret")
        (stray ∷ [])
        world
      ≡ ok out)
    × (out.0.0 + out.0.1 ≡ 1)
    × (get_line_resolve_row 8 out.1.rows ≡ none)
unfolding auth_node get_line_resolve_row task_of_line build_node_live_catalog lines_of_node
report_live_resolve-answers_example =
    report_live_resolve-answers services (λ t. t) settings 900 (some "Bearer secret") (stray ∷ [])
      world node 8 refl (refl, tt) refl

-- A row of another line, and the reports of the node's resolution.
abbrev stored_world : LiveWorld
stored_world = record world {
  rows =
      record {
        line_id = 9;
        node_id = some 3;
        status = "ok";
        payload = record {
          line_id = 9;
          status = "ok";
          cidrs = "203.0.113.0/24" ∷ [];
          domains = [];
          domain_suffixes = [];
          catalog_epoch = "";
          resolved_at = none;
          egress_hint = "";
        };
        egress_hint = none;
        catalog_epoch = none;
        resolved_at = none;
        updated_at = 100;
      }
      ∷ [];
}

abbrev resolved : List Report
resolved =
    (maybe_run_live_resolve 300 curl [] "https://1.1.1.1/dns-query" 800
      (catalog_of services 3 stored_world) idle).0

-- The batch is accepted, and the networks of the line are stored beside the row that was there.
stored_test :
    After
      (λ (out : (ℕ × ℕ) × LiveWorld).
        map (λ (row : LiveResolveResult). row.payload.cidrs) out.1.rows ≡ (
          ("203.0.113.0/24" ∷ [])
          ∷ ("192.0.2.0/24" ∷ "198.51.100.7/32" ∷ "198.51.100.8/32" ∷ [])
          ∷ []))
      (report_live_resolve services
        (λ t. t)
        settings
        900
        (some "Bearer secret")
        resolved
        stored_world)
unfolding report_live_resolve maybe_run_live_resolve
stored_test = refl

-- Two results of a line that has no row yet.
twice_test :
    report_live_resolve services
      (λ t. t)
      settings
      900
      (some "Bearer secret")
      (resolved ++ resolved)
      stored_world
    ≡ error 500 "duplicate key"
unfolding report_live_resolve maybe_run_live_resolve
twice_test = refl

-- Two refused reports of a line give two equal alerts.
alerts_test :
    After
      (λ (out : (ℕ × ℕ) × LiveWorld).
        map (λ (e : AlertEvent). e.message) out.1.events
        ≡ ("no live_catalog task for line 8" ∷ "no live_catalog task for line 8" ∷ []))
      (report_live_resolve services
        (λ t. t)
        settings
        900
        (some "Bearer secret")
        (stray ∷ stray ∷ [])
        world)
unfolding report_live_resolve emit_alert
alerts_test = refl

report_live_resolve-IsKept_example :
    After
      (λ (out : (ℕ × ℕ) × LiveWorld). All IsKept out.1.rows)
      (report_live_resolve services
        (λ t. t)
        settings
        900
        (some "Bearer secret")
        resolved
        stored_world)
unfolding strip
report_live_resolve-IsKept_example =
    report_live_resolve-IsKept services (λ t. t) settings 900 (some "Bearer secret") resolved
      stored_world ((refl, (refl, tt), ((refl, refl), tt)), tt)
