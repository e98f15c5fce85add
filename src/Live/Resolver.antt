-- ===== src/Live/Resolver.antt =====
-- The node's side, gfc-platform/node-agent/node_agent/live_resolve.py: each task is resolved through
-- its exit, and the loop of runner.py reports the results. What curl answers to a query is an
-- argument, `none` where there is no answer that reads. The module's globals and the cache of the
-- lines are one record.
use sip_proxy.Common.{
  ℕ, ◌+◌, String, Bool, true, false, not, ◌&&◌, ◌||◌, Option, none, some, List, [], ◌∷◌, map, ltb,
  ◌==◌, str_eq, if◌then◌else◌,
}
use Prim.Native.Char.{Char, code}
use Prim.Native.String
use sip_proxy.Common.Dict.{Dict, lookup}
use sip_proxy.Common.Text.{strip, lower, concat, or_empty}
use sip_proxy.Common.Text.Numbers.{show}
use sip_proxy.Nodes.Config.{cidrs, push_new}
use sip_proxy.Live.Catalog.{Vantage, direct, socks, Task, Catalog}
use sip_proxy.Live.Reports.{Report}

push_dot : Char → String → String
push_dot c String.[] = if code c == 46 then String.[] else (String.◌∷◌ c String.[])
push_dot c (String.◌∷◌ d s) = String.◌∷◌ c (String.◌∷◌ d s)

-- `s.rstrip(".")`
unfoldable pub strip_dots : String → String
unfolding push_dot
strip_dots String.[] = String.[]
strip_dots (String.◌∷◌ c s) = push_dot c (strip_dots s)

unfoldable pub socks_proxy_url : Vantage → Option String
unfolding strip concat show
socks_proxy_url direct = none
socks_proxy_url (socks exit) =
    let host = strip exit.host in
    let user = strip (or_empty exit.username) in
    if str_eq host "" || exit.port == 0
    then none
    else if str_eq user ""
    then some (concat ("socks5h://" ∷ host ∷ ":" ∷ show exit.port ∷ []))
    else some (
        concat (
          "socks5h://"
          ∷ user
          ∷ ":"
          ∷ strip (or_empty exit.password)
          ∷ "@"
          ∷ host
          ∷ ":"
          ∷ show exit.port
          ∷ []))

-- An entry of the answer's list that is a dictionary: its type and its data, as texts.
pub record Answer : Type 0 where
  pub type : String
  pub data_text : String

-- The address that is asked, through a proxy or none, and the answers.
abbrev pub Curl : Type 0
Curl = Option String → String → Option (List Answer)

unfoldable pub a_records : List Answer → List String
unfolding strip
a_records [] = []
a_records (a ∷ as') =
    let rest = a_records as' in
    if not (str_eq a.type "1" || str_eq a.type "A")
    then rest
    else if str_eq (strip a.data_text) ""
    then rest
    else strip a.data_text ∷ rest

unfoldable pub addresses : Option (List Answer) → List String
unfolding a_records push_new
addresses none = []
addresses (some answers) = push_new [] (a_records answers)

unfoldable pub ask_name : Curl → Option String → String → String → List String
unfolding concat addresses
ask_name curl proxy doh_url name =
    if str_eq name ""
    then []
    else addresses (curl proxy (concat (doh_url ∷ "?name=" ∷ name ∷ "&type=A" ∷ [])))

unfoldable pub doh_json_a_records : Curl → Option String → String → String → List String
unfolding strip lower strip_dots ask_name
doh_json_a_records curl proxy doh_url domain =
    ask_name curl proxy doh_url (strip_dots (lower (strip domain)))

abbrev pub is_no_health : Dict Bool → Bool
is_no_health [] = true
is_no_health (_ ∷ _) = false

abbrev pub health_of : Option Bool → Bool
health_of none = true
health_of (some healthy) = healthy

unfoldable pub outbound_healthy : Dict Bool → String → Bool
unfolding lookup
outbound_healthy socks_dns_ok detour_tag =
    if str_eq detour_tag "direct"
    then true
    else if is_no_health socks_dns_ok
    then true
    else health_of (lookup detour_tag socks_dns_ok)

-- The addresses of the domains, each once.
unfoldable pub resolve_domains :
    Curl → Option String → String → List String → List String → List String
unfolding doh_json_a_records push_new
resolve_domains curl proxy doh_url out [] = out
resolve_domains curl proxy doh_url out (d ∷ domains) =
    resolve_domains curl proxy doh_url (push_new out (doh_json_a_records curl proxy doh_url d))
      domains

abbrev pub host_cidr : String → String
host_cidr ip = String.◌++◌ ip "/32"

abbrev pub is_some : Option String → Bool
is_some none = false
is_some (some s) = true

abbrev pub base_report : ℕ → Task → Report
base_report now task = record {
  line_id = task.line_id;
  detour_tag = strip task.detour_tag;
  egress_hint = strip task.egress_hint;
  cidrs = task.static_cidrs;
  resolved_at = some now;
  catalog_epoch = task.catalog_epoch;
  skipped_unhealthy = false;
  used_fallback_vantage = false;
}

abbrev pub proxy_of : Task → Option String
proxy_of task =
    if str_eq (strip task.detour_tag) "direct" then none else socks_proxy_url task.outbound

abbrev pub resolved_cidrs : Curl → String → Task → List String
resolved_cidrs curl doh_url task =
    push_new (push_new [] (cidrs task.static_cidrs))
      (map host_cidr (resolve_domains curl (proxy_of task) doh_url [] task.domains))

unfoldable pub resolve_task : Curl → Dict Bool → String → ℕ → Task → Report
unfolding strip outbound_healthy socks_proxy_url cidrs push_new resolve_domains
resolve_task curl socks_dns_ok doh_url now task =
    if not (outbound_healthy socks_dns_ok (strip task.detour_tag))
    then record (base_report now task) { skipped_unhealthy = true }
    else if not (str_eq (strip task.detour_tag) "direct") && not (is_some (proxy_of task))
    then record (base_report now task) { skipped_unhealthy = true; used_fallback_vantage = true }
    else record (base_report now task) { cidrs = resolved_cidrs curl doh_url task }

pub record ResolverState : Type 0 where
  pub last_resolve : ℕ
  pub last_catalog_epoch : String
  pub last_task_epochs : List (ℕ × String)
  pub line_cache : List (ℕ × Report)

unfoldable pub get_epoch : ℕ → List (ℕ × String) → Option String
get_epoch line_id [] = none
get_epoch line_id ((k, v) ∷ rest) = if k == line_id then some v else get_epoch line_id rest

-- `items[line_id] = value`
unfoldable pub set_item {ℓ} : {A : Type ℓ} → ℕ → A → List (ℕ × A) → List (ℕ × A)
set_item line_id value [] = (line_id, value) ∷ []
set_item line_id value ((k, v) ∷ rest) =
    let behind = set_item line_id value rest in
    if k == line_id then (k, value) ∷ rest else (k, v) ∷ behind

abbrev pub is_same_epoch : Option String → String → Bool
is_same_epoch none epoch = false
is_same_epoch (some last) epoch = str_eq last epoch

-- A task whose epoch is not the one of its last run.
unfoldable pub is_task_new : List (ℕ × String) → List Task → Bool
unfolding get_epoch
is_task_new epochs [] = false
is_task_new epochs (t ∷ ts) =
    not (is_same_epoch (get_epoch t.line_id epochs) t.catalog_epoch) || is_task_new epochs ts

abbrev pub has_no_task : List Task → Bool
has_no_task [] = true
has_no_task (_ ∷ _) = false

-- Whether the resolution runs, and whether it is forced.
unfoldable pub should_run_now : ℕ → ℕ → Catalog → ResolverState → Bool × Bool
unfolding is_task_new
should_run_now resolve_interval now catalog state =
    let force =
      not (str_eq catalog.catalog_epoch state.last_catalog_epoch)
      || is_task_new state.last_task_epochs catalog.tasks in
    if has_no_task catalog.tasks
    then (false, false)
    else if not force && ltb now (state.last_resolve + resolve_interval)
    then (false, false)
    else (true, force)

-- The loop over the tasks: the results, and the state with the caches and epochs.
unfoldable pub run_tasks : (Task → Report) → List Task → ResolverState → List Report × ResolverState
unfolding strip set_item
run_tasks resolve [] state = ([], state)
run_tasks resolve (t ∷ ts) state =
    let skipped = run_tasks resolve ts state in
    let (results, after) = run_tasks resolve ts (record state {
      last_task_epochs = set_item t.line_id t.catalog_epoch state.last_task_epochs;
      line_cache = set_item t.line_id (resolve t) state.line_cache;
    }) in
    if not (str_eq (strip t.live_mode) "live_catalog")
    then skipped
    else (resolve t ∷ results, after)

unfoldable pub maybe_run_live_resolve :
    ℕ → Curl → Dict Bool → String → ℕ → Catalog → ResolverState → List Report × ResolverState
unfolding should_run_now run_tasks resolve_task
maybe_run_live_resolve resolve_interval curl socks_dns_ok doh_url now catalog state =
    let (results, after) =
      run_tasks (resolve_task curl socks_dns_ok doh_url now) catalog.tasks state in
    let (run, force) = should_run_now resolve_interval now catalog state in
    if not run
    then ([], state)
    else (results, record after { last_resolve = now; last_catalog_epoch = catalog.catalog_epoch })
