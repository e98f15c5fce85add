-- ===== src/Live/Told.antt =====
-- The whole way of a line's networks: a run of the node's live_resolve.py, the report to main.py of
-- the control plane, and what build_client_live_ip of live_catalog.py tells the line's device.
use sip_proxy.Common.{
  ℕ, String, ◌≡◌, ◌∙◌, refl, ap, Bool, true, false, Option, some, List, [], ◌∷◌, ◌++◌, arith, ◌==◌,
  str_eq, map, All,
}
use mathlib.Core.List.{Memᴰ}
use sip_proxy.Common.Http.{ok}
use sip_proxy.Common.Dict.{Dict}
use sip_proxy.Common.Text.{strip}
use sip_proxy.Nodes.Alerts.{Settings}
use sip_proxy.Nodes.Models.{Node}
use sip_proxy.Nodes.Config.{Line, cidrs, push_new, parse_line_platforms, normalize_live_mode}
use sip_proxy.Nodes.Tokens.{auth_node}
use sip_proxy.Live.Catalog.{
  LiveEndpoint, Task, Catalog, Services, is_live, has_no_platform, make_task,
  build_node_live_catalog,
}
use sip_proxy.Live.Reports.{
  Report, open_inbox, LiveResolveResult, LiveWorld, LiveIp, merge_report_to_payload,
  get_line_resolve_row, task_of_line, node_tasks, report_live_resolve, lines_of_node,
  build_client_live_ip,
}
use sip_proxy.Live.Resolver.{
  Curl, ResolverState, resolved_cidrs, resolve_task, run_tasks, should_run_now,
  maybe_run_live_resolve, set_item,
}
use sip_proxy.Live.Cidrs.{merged-resolved}
use sip_proxy.Live.Taken.{stored_row}
use sip_proxy.Live.Keyed.{
  Keyed, KeyedTasks, task_of_line-member, build_tasks-Keyed, build_tasks-member, Keyed-id,
}
use sip_proxy.Live.Handover.{KeyedTasks-New, resolve_task-Passes, posted-row}

-- The catalog that a node pulls.
abbrev pub catalog_of : Services → ℕ → LiveWorld → Catalog
catalog_of services node_id w =
    build_node_live_catalog services w.endpoints w.profiles (lines_of_node node_id w.lines)

run_tasks-map :
    (resolve : Task → Report) (ts : List Task) (state : ResolverState)
    → KeyedTasks ts
    → (run_tasks resolve ts state).0 ≡ map resolve ts
unfolding run_tasks strip
run_tasks-map resolve [] state k = refl
run_tasks-map resolve (t ∷ ts) state (id, mode, other, k) =
    let is : str_eq (strip t.live_mode) "live_catalog" ≡ true =
      ap (λ m. str_eq (strip m) "live_catalog") mode in
    rw is (
      ap (λ r. resolve t ∷ r)
        (run_tasks-map resolve ts
          (record state {
            last_task_epochs = set_item t.line_id t.catalog_epoch state.last_task_epochs;
            line_cache = set_item t.line_id (resolve t) state.line_cache;
          })
          k))

run-map :
    (interval : ℕ) (curl : Curl) (socks_dns_ok : Dict Bool) (doh_url : String) (now : ℕ)
    (catalog : Catalog) (state : ResolverState)
    → KeyedTasks catalog.tasks
    → (should_run_now interval now catalog state).0 ≡ true
    → (maybe_run_live_resolve interval curl socks_dns_ok doh_url now catalog state).0
      ≡ map (resolve_task curl socks_dns_ok doh_url now) catalog.tasks
unfolding maybe_run_live_resolve
run-map interval curl socks_dns_ok doh_url now catalog state k runs =
    rw runs (run_tasks-map (resolve_task curl socks_dns_ok doh_url now) catalog.tasks state k)

tasks-All :
    (tasks ts : List Task)
    → KeyedTasks tasks
    → ((t : Task) → Memᴰ t ts → Memᴰ t tasks)
    → All (λ (u : Task). task_of_line u.line_id tasks ≡ some u) ts
tasks-All tasks [] k inside = tt
tasks-All tasks (t ∷ ts) k inside = (
  task_of_line-member t tasks (inside t (Memᴰ.head refl)) k,
  tasks-All tasks ts k (λ u m. inside u (Memᴰ.tail m)),
)

told :
    (services : Services) (endpoints : List LiveEndpoint) (rows : List LiveResolveResult)
    (line : Line) (row : LiveResolveResult)
    → is_live line ≡ true
    → get_line_resolve_row line.id rows ≡ some row
    → row.status ≡ "ok"
    → row.payload.line_id ≡ line.id
    → build_client_live_ip services endpoints rows line.id line ≡ some row.payload
unfolding build_client_live_ip
told services endpoints rows line row live found status own =
    let mode : str_eq (normalize_live_mode line.live_mode) "live_catalog" ≡ true = ground arith in
    let self : (line.id == line.id) ≡ true = ground arith in
    let fits : (row.payload.line_id == line.id) ≡ true = ground arith in
    rw (mode, self, found, status, fits) refl

-- A node that is known by its token runs its resolution and reports the results. Where the lines of
-- the node have ids that are not 0 and differ, the run is due, and the task of a line in catalog mode
-- with a platform was not skipped, the report is answered and the device of that line is then told a
-- payload whose networks are exactly those that the node resolved.
pub report_live_resolve-told :
    (services : Services) (hash_token : String → String) (settings : Settings) (clock : ℕ)
    (authorization : Option String) (w : LiveWorld) (node : Node) (interval : ℕ) (curl : Curl)
    (socks_dns_ok : Dict Bool) (doh_url : String) (now : ℕ) (state : ResolverState) (line : Line)
    → auth_node hash_token authorization w.tokens w.nodes ≡ ok node
    → Keyed (lines_of_node node.id w.lines)
    → Memᴰ line (lines_of_node node.id w.lines)
    → is_live line ≡ true
    → has_no_platform (parse_line_platforms line) ≡ false
    → (should_run_now interval now (catalog_of services node.id w) state).0 ≡ true
    → (resolve_task curl socks_dns_ok doh_url now
        (make_task services w.endpoints w.profiles line)).skipped_unhealthy
      ≡ false
    → (out : (ℕ × ℕ) × LiveWorld) × (report_live_resolve services hash_token settings clock
          authorization
          (maybe_run_live_resolve interval curl socks_dns_ok doh_url now
            (catalog_of services node.id w)
            state).0
          w
        ≡ ok out)
      × (live_ip : LiveIp) × (build_client_live_ip services out.1.endpoints out.1.rows line.id line
          ≡ some live_ip)
      × (live_ip.cidrs
          ≡ resolved_cidrs curl doh_url (make_task services w.endpoints w.profiles line))
unfolding report_live_resolve build_node_live_catalog make_task merge_report_to_payload
report_live_resolve-told services hash_token settings clock authorization w node interval curl
      socks_dns_ok doh_url now state line auth keyed m live full runs done =
    let tasks = node_tasks services node.id w in
    let task = make_task services w.endpoints w.profiles line in
    let k =
      build_tasks-Keyed services w.endpoints w.profiles (lines_of_node node.id w.lines) keyed in
    let member =
      build_tasks-member services w.endpoints w.profiles line (lines_of_node node.id w.lines) m live
        full in
    let (end, e, row) =
      posted-row curl socks_dns_ok doh_url now settings clock node.id tasks tasks (open_inbox w)
        task k (KeyedTasks-New tasks k) (tasks-All tasks tasks k (λ t inside. inside)) member
        done in
    let passes =
      resolve_task-Passes curl socks_dns_ok doh_url now task
        (Keyed-id line (lines_of_node node.id w.lines) m keyed) done in
    let posted =
      run-map interval curl socks_dns_ok doh_url now (catalog_of services node.id w) state k runs in
    (
      (
        (end.accepted_count, end.rejected_count),
        record w { rows = end.rows; events = end.alerts ++ end.events },
      ),
      rw (auth, posted, e) refl,
      merge_report_to_payload clock task (resolve_task curl socks_dns_ok doh_url now task),
      told services w.endpoints end.rows line
          (stored_row clock node.id task (resolve_task curl socks_dns_ok doh_url now task)) live row
          refl refl,
      ap (λ c. push_new [] (cidrs (task.static_cidrs ++ c))) passes.3
          ∙ merged-resolved curl doh_url task,
    )
