-- ===== src/Live/Catalog.antt =====
-- The catalog of a node, gfc-platform/control-plane/api/app/live_catalog.py: the tasks for the lines
-- in catalog mode. The digest of SHA-256 and the printing of a network that ipaddress.ip_network reads
-- in a text, `none` where it raises, are arguments.
use sip_proxy.Common.{
  ℕ, String, Bool, true, false, not, ◌&&◌, Option, none, some, List, [], ◌∷◌, ◌++◌, map, filter,
  leb, ◌==◌, str_eq, if◌then◌else◌,
}
use sip_proxy.Common.Text.{
  strip, lower, elem, sorted, join, take_text, concat, starts_with, text_leb,
}
use sip_proxy.Common.Text.Numbers.{show}
use sip_proxy.Nodes.Monitor.{SocksProfile}
use sip_proxy.Nodes.Config.{
  Line, or_default, text_or_none, profile_of, push_new, normalize_live_mode, parse_line_platforms,
}

pub record LiveEndpoint : Type 0 where
  pub id : ℕ
  pub platform_id : String
  pub role : String
  pub match_type : String
  pub value : String
  pub status : String

unfoldable pub fetch_active_endpoints : List String → List LiveEndpoint → List LiveEndpoint
fetch_active_endpoints [] endpoints = []
fetch_active_endpoints (id ∷ ids) endpoints =
    filter (λ (e : LiveEndpoint). elem e.platform_id (id ∷ ids) && str_eq e.status "active")
      endpoints

-- The order of the sort's keys, `(e.platform_id, e.id)`.
abbrev pub endpoint_before : LiveEndpoint → LiveEndpoint → Bool
endpoint_before a b =
    if str_eq a.platform_id b.platform_id
    then leb a.id b.id
    else text_leb a.platform_id b.platform_id

unfoldable pub insert_endpoint : LiveEndpoint → List LiveEndpoint → List LiveEndpoint
unfolding text_leb
insert_endpoint a [] = a ∷ []
insert_endpoint a (b ∷ bs) =
    let rest = insert_endpoint a bs in if endpoint_before a b then a ∷ b ∷ bs else b ∷ rest

unfoldable pub sort_endpoints : List LiveEndpoint → List LiveEndpoint
unfolding insert_endpoint
sort_endpoints [] = []
sort_endpoints (e ∷ es) = insert_endpoint e (sort_endpoints es)

abbrev pub endpoint_part : LiveEndpoint → String
endpoint_part e =
    concat (e.platform_id ∷ ":" ∷ e.match_type ∷ ":" ∷ e.value ∷ ":" ∷ e.status ∷ ":" ∷ e.role ∷ [])

unfoldable pub compute_catalog_epoch : (String → String) → List String → List LiveEndpoint → String
unfolding sorted sort_endpoints concat join take_text
compute_catalog_epoch sha256 platform_ids endpoints =
    take_text 16
      (sha256 (join "|" (sorted platform_ids ++ map endpoint_part (sort_endpoints endpoints))))

pub record Targets : Type 0 where
  pub fqdns : List String
  pub suffixes : List String
  pub cidrs : List String

abbrev pub with_dot : String → String
with_dot value = if starts_with "." value then value else concat ("." ∷ value ∷ [])

-- One round of the loop over the endpoints.
unfoldable pub add_target : (String → Option String) → LiveEndpoint → Targets → Targets
unfolding strip lower push_new starts_with concat
add_target ip_network ep t =
    let value = lower (strip ep.value) in
    let match_type = lower (strip ep.match_type) in
    if str_eq value ""
    then t
    else if str_eq match_type "fqdn"
    then record t { fqdns = push_new t.fqdns (value ∷ []) }
    else if str_eq match_type "domain_suffix"
    then record t { suffixes = push_new t.suffixes (with_dot value ∷ []) }
    else if str_eq match_type "ip_cidr"
    then elim (ip_network value) [
      | none ↦ t
      | some cidr ↦ record t { cidrs = push_new t.cidrs (cidr ∷ []) }
    ]
    else t

unfoldable pub add_targets : (String → Option String) → List LiveEndpoint → Targets → Targets
unfolding add_target
add_targets ip_network [] t = t
add_targets ip_network (e ∷ es) t = add_targets ip_network es (add_target ip_network e t)

unfoldable pub resolve_targets : (String → Option String) → List LiveEndpoint → Targets
unfolding add_targets
resolve_targets ip_network endpoints =
    add_targets ip_network endpoints (record { fqdns = []; suffixes = []; cidrs = [] })

-- The exit that a task is resolved through.
pub record Exit : Type 0 where
  pub host : String
  pub port : ℕ
  pub username : Option String
  pub password : Option String

pub data Vantage : Type 0 where
  direct : Vantage
  socks : Exit → Vantage

unfoldable pub vantage_of : List SocksProfile → Line → Vantage
unfolding strip
vantage_of profiles line = elim (profile_of profiles line) [
  | none ↦ direct
  | some sp ↦ socks (record {
    host = strip sp.host;
    port = sp.port;
    username = text_or_none sp.username;
    password = text_or_none sp.password;
  })
]

unfoldable pub socks_egress_hint : Vantage → String
unfolding strip concat show
socks_egress_hint direct = "direct"
socks_egress_hint (socks exit) =
    let host = strip exit.host in
    if not (str_eq host "") && not (exit.port == 0)
    then concat (host ∷ ":" ∷ show exit.port ∷ [])
    else ""

unfoldable pub expected_detour_tag : ℕ → Vantage → String
unfolding concat show
expected_detour_tag line_id direct = "direct"
expected_detour_tag line_id (socks exit) = concat ("client-" ∷ show line_id ∷ [])

pub record Task : Type 0 where
  pub line_id : ℕ
  pub tid : String
  pub live_mode : String
  pub platform_ids : List String
  pub domains : List String
  pub domain_suffixes : List String
  pub static_cidrs : List String
  pub catalog_epoch : String
  pub detour_tag : String
  pub outbound : Vantage
  pub egress_hint : String

-- What the select and the guards of the loop let through.
abbrev pub is_live : Line → Bool
is_live line =
    line.is_enabled
    && str_eq (or_default "forward" line.line_type) "client"
    && str_eq (normalize_live_mode line.live_mode) "live_catalog"

-- The library functions that the catalog calls.
pub record Services : Type 0 where
  pub sha256 : String → String
  pub ip_network : String → Option String

unfoldable pub make_task : Services → List LiveEndpoint → List SocksProfile → Line → Task
unfolding fetch_active_endpoints resolve_targets compute_catalog_epoch vantage_of
    expected_detour_tag socks_egress_hint parse_line_platforms
make_task services endpoints profiles line =
    let platform_ids = parse_line_platforms line in
    let active = fetch_active_endpoints platform_ids endpoints in
    let targets = resolve_targets services.ip_network active in
    let outbound = vantage_of profiles line in
    record {
      line_id = line.id;
      tid = line.tid;
      live_mode = "live_catalog";
      platform_ids = platform_ids;
      domains = targets.fqdns;
      domain_suffixes = targets.suffixes;
      static_cidrs = targets.cidrs;
      catalog_epoch = compute_catalog_epoch services.sha256 platform_ids active;
      detour_tag = expected_detour_tag line.id outbound;
      outbound = outbound;
      egress_hint = socks_egress_hint outbound;
    }

abbrev pub has_no_platform : List String → Bool
has_no_platform [] = true
has_no_platform (_ ∷ _) = false

unfoldable pub build_tasks :
    Services → List LiveEndpoint → List SocksProfile → List Line → List Task
unfolding make_task normalize_live_mode parse_line_platforms
build_tasks services endpoints profiles [] = []
build_tasks services endpoints profiles (line ∷ lines) =
    let rest = build_tasks services endpoints profiles lines in
    if not (is_live line)
    then rest
    else if has_no_platform (parse_line_platforms line)
    then rest
    else make_task services endpoints profiles line ∷ rest

pub record Catalog : Type 0 where
  pub catalog_epoch : String
  pub tasks : List Task

-- The digest of the tasks' epochs, where there is a task.
unfoldable pub epoch_of : (String → String) → List String → String
unfolding sorted join take_text
epoch_of sha256 [] = ""
epoch_of sha256 (e ∷ es) = take_text 16 (sha256 (join "|" (sorted (e ∷ es))))

unfoldable pub build_node_live_catalog :
    Services → List LiveEndpoint → List SocksProfile → List Line → Catalog
unfolding build_tasks epoch_of
build_node_live_catalog services endpoints profiles lines =
    let tasks = build_tasks services endpoints profiles lines in
    record {
      catalog_epoch = epoch_of services.sha256 (map (λ (t : Task). t.catalog_epoch) tasks);
      tasks = tasks;
    }
