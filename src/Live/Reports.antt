-- ===== src/Live/Reports.antt =====
-- The reports of a node and what its lines' devices are told of them: the checks and the table of
-- gfc-platform/control-plane/api/app/live_catalog.py and report_live_resolve of main.py beside it. A
-- time is the number of seconds since the epoch, and a stored payload is its document.
use sip_proxy.Common.{
  ℕ, suc, String, Bool, not, ◌&&◌, ◌||◌, Option, none, some, List, [], ◌∷◌, ◌++◌, ◌==◌, str_eq,
  if◌then◌else◌, contains,
}
use sip_proxy.Common.Http.{Http, ok, error, ◌>>=◌}
use sip_proxy.Common.Text.{strip, concat}
use sip_proxy.Common.Text.Numbers.{show}
use sip_proxy.Nodes.Alerts.{Settings, AlertEvent, emit_alert}
use sip_proxy.Nodes.Config.{
  Line, or_default, given_text, cidrs, push_new, normalize_live_mode, parse_line_platforms,
}
use sip_proxy.Nodes.Models.{Node}
use sip_proxy.Nodes.Monitor.{SocksProfile}
use sip_proxy.Nodes.Tokens.{NodeToken, auth_node}
use sip_proxy.Live.Catalog.{
  LiveEndpoint, Task, Services, Catalog, has_no_platform, fetch_active_endpoints, resolve_targets,
  compute_catalog_epoch, build_node_live_catalog,
}

pub record Report : Type 0 where
  pub line_id : ℕ
  pub detour_tag : String
  pub egress_hint : String
  pub cidrs : List String
  pub resolved_at : Option ℕ
  pub catalog_epoch : String
  pub skipped_unhealthy : Bool
  pub used_fallback_vantage : Bool

pub data Verdict : Type 0 where
  accepted : Verdict
  rejected : (alert_type message : String) → Verdict

-- `a and b and a != b`
abbrev pub differ : String → String → Bool
differ a b = not (str_eq a "") && not (str_eq b "") && not (str_eq a b)

unfoldable pub validate_resolve_report : Task → Report → Verdict
unfolding strip concat show
validate_resolve_report task report =
    if task.line_id == 0
    then rejected "live_resolve_invalid" "missing line_id in resolve task"
    else if not (report.line_id == task.line_id)
    then rejected "live_ip_line_mismatch" (
        concat
          ("V2 line_id mismatch task=" ∷ show task.line_id ∷ " report=" ∷ show report.line_id ∷ []))
    else if differ (strip task.detour_tag) (strip report.detour_tag)
    then rejected "resolve_vantage_mismatch"
        (concat ("V1 detour " ∷ strip report.detour_tag ∷ " != " ∷ strip task.detour_tag ∷ []))
    else if report.skipped_unhealthy
    then rejected "resolve_vantage_mismatch" "V6 SOCKS unhealthy — resolve skipped"
    else if differ (strip task.egress_hint) (strip report.egress_hint)
    then rejected "resolve_vantage_mismatch" (
        concat
          ("V5 egress_hint " ∷ strip report.egress_hint ∷ " != " ∷ strip task.egress_hint ∷ []))
    else if report.used_fallback_vantage
    then rejected "resolve_vantage_mismatch" "V6 fallback vantage used"
    else accepted

-- What build_live_ip_payload puts together.
pub record LiveIp : Type 0 where
  pub line_id : ℕ
  pub status : String
  pub cidrs : List String
  pub domains : List String
  pub domain_suffixes : List String
  pub catalog_epoch : String
  pub resolved_at : Option ℕ
  pub egress_hint : String

-- `none` is a report without a time.
abbrev pub given_time : ℕ → Option ℕ → ℕ
given_time now none = now
given_time now (some t) = t

unfoldable pub merge_report_to_payload : ℕ → Task → Report → LiveIp
unfolding cidrs push_new
merge_report_to_payload now task report = record {
  line_id = task.line_id;
  status = "ok";
  cidrs = push_new [] (cidrs (task.static_cidrs ++ report.cidrs));
  domains = task.domains;
  domain_suffixes = task.domain_suffixes;
  catalog_epoch = task.catalog_epoch;
  resolved_at = some (given_time now report.resolved_at);
  egress_hint = or_default task.egress_hint report.egress_hint;
}

pub record LiveResolveResult : Type 0 where
  pub line_id : ℕ
  pub node_id : Option ℕ
  pub status : String
  pub payload : LiveIp
  pub egress_hint : Option String
  pub catalog_epoch : Option String
  pub resolved_at : Option ℕ
  pub updated_at : ℕ

-- `session.get(LiveResolveResult, line_id)`
unfoldable pub get_line_resolve_row : ℕ → List LiveResolveResult → Option LiveResolveResult
get_line_resolve_row line_id [] = none
get_line_resolve_row line_id (r ∷ rows) =
    if r.line_id == line_id then some r else get_line_resolve_row line_id rows

-- The row takes the place of the row of its line.
unfoldable pub put_row : LiveResolveResult → List LiveResolveResult → List LiveResolveResult
put_row row [] = row ∷ []
put_row row (r ∷ rows) =
    let rest = put_row row rows in if r.line_id == row.line_id then row ∷ rows else r ∷ rest

-- `added` are the lines whose rows the transaction has added. The `ValueError` of a payload of another
-- line ends the request. So does a second result of such a line, at the commit: `session.get` does not
-- see the row that waits for it, and two rows of one key are added.
unfoldable pub upsert_resolve_result :
    ℕ → LiveResolveResult → List ℕ → List LiveResolveResult → Http (List LiveResolveResult)
unfolding put_row
upsert_resolve_result now row added rows =
    if not (row.payload.line_id == row.line_id)
    then error 500 "V2 payload line_id mismatch"
    else if contains row.line_id added
    then error 500 "duplicate key"
    else ok (put_row (record row { updated_at = now }) rows)

abbrev pub note_line : ℕ → Option LiveResolveResult → List ℕ → List ℕ
note_line line_id none added = line_id ∷ added
note_line line_id (some _) added = added

-- `tasks_by_line.get(line_id)`: of two tasks of a line the dictionary holds the later one.
unfoldable pub task_of_line : ℕ → List Task → Option Task
task_of_line line_id [] = none
task_of_line line_id (t ∷ ts) = elim (task_of_line line_id ts) [
  | some later ↦ some later
  | none ↦ if t.line_id == line_id then some t else none
]

-- The rows with those that were added for the lines `added`, the log as a query sees it, and the
-- alerts that wait for the commit.
pub record Inbox : Type 0 where
  pub rows : List LiveResolveResult
  pub added : List ℕ
  pub events : List AlertEvent
  pub alerts : List AlertEvent
  pub accepted_count : ℕ
  pub rejected_count : ℕ

-- A report that is refused with an alert.
unfoldable pub refuse : Settings → ℕ → ℕ → ℕ → String → String → Inbox → Inbox
refuse settings now node_id line_id alert_type message inbox = record inbox {
  alerts =
      (emit_alert settings now (some node_id) (some line_id) "warn" alert_type message inbox.events
        inbox.alerts).0;
  rejected_count = suc inbox.rejected_count;
}

abbrev pub new_row : ℕ → Task → Report → LiveIp → LiveResolveResult
new_row node_id task report payload = record {
  line_id = report.line_id;
  node_id = some node_id;
  status = "ok";
  payload = payload;
  egress_hint = given_text (some report.egress_hint);
  catalog_epoch = some (or_default task.catalog_epoch report.catalog_epoch);
  resolved_at = report.resolved_at;
  updated_at = 0;
}

-- A report that passed the checks.
unfoldable pub accept : ℕ → ℕ → Task → Report → Inbox → Http Inbox
unfolding merge_report_to_payload upsert_resolve_result get_line_resolve_row
accept now node_id task report inbox =
    if report.skipped_unhealthy || report.used_fallback_vantage
    then ok (record inbox { rejected_count = suc inbox.rejected_count })
    else do
      rows ←
          upsert_resolve_result now
            (new_row node_id task report (merge_report_to_payload now task report)) inbox.added
            inbox.rows
      ok (record inbox {
        rows = rows;
        added =
            note_line report.line_id (get_line_resolve_row report.line_id inbox.rows) inbox.added;
        accepted_count = suc inbox.accepted_count;
      })

-- One round of the loop over the reports.
unfoldable pub take_report : Settings → ℕ → ℕ → List Task → Report → Inbox → Http Inbox
unfolding task_of_line validate_resolve_report refuse accept concat show
take_report settings now node_id tasks report inbox = elim (task_of_line report.line_id tasks) [
  | none ↦ ok (
      refuse settings now node_id report.line_id "live_resolve_rejected"
        (concat ("no live_catalog task for line " ∷ show report.line_id ∷ [])) inbox)
  | some task ↦ elim (validate_resolve_report task report) [
    | rejected alert_type message ↦
        ok (refuse settings now node_id report.line_id alert_type message inbox)
    | accepted ↦ accept now node_id task report inbox
  ]
]

unfoldable pub take_reports : Settings → ℕ → ℕ → List Task → List Report → Inbox → Http Inbox
unfolding take_report
take_reports settings now node_id tasks [] inbox = ok inbox
take_reports settings now node_id tasks (r ∷ reports) inbox =
    take_report settings now node_id tasks r inbox
    >>= take_reports settings now node_id tasks reports

-- A line with the node that it belongs to.
pub record NodeLine : Type 0 where
  pub node_id : ℕ
  pub line : Line

unfoldable pub lines_of_node : ℕ → List NodeLine → List Line
lines_of_node node_id [] = []
lines_of_node node_id (l ∷ ls) =
    let rest = lines_of_node node_id ls in if l.node_id == node_id then l.line ∷ rest else rest

pub record LiveWorld : Type 0 where
  pub nodes : List Node
  pub tokens : List NodeToken
  pub lines : List NodeLine
  pub profiles : List SocksProfile
  pub endpoints : List LiveEndpoint
  pub rows : List LiveResolveResult
  pub events : List AlertEvent

abbrev pub node_tasks : Services → ℕ → LiveWorld → List Task
node_tasks services node_id w =
    let catalog : Catalog =
      build_node_live_catalog services w.endpoints w.profiles (lines_of_node node_id w.lines) in
    catalog.tasks

abbrev pub open_inbox : LiveWorld → Inbox
open_inbox w = record {
  rows = w.rows;
  added = [];
  events = w.events;
  alerts = [];
  accepted_count = 0;
  rejected_count = 0;
}

-- The counts of the answer, and the tables.
unfoldable pub report_live_resolve :
    Services
    → (String → String)
    → Settings
    → ℕ
    → Option String
    → List Report
    → LiveWorld
    → Http ((ℕ × ℕ) × LiveWorld)
unfolding auth_node lines_of_node build_node_live_catalog take_reports
report_live_resolve services hash_token settings now authorization reports w = do
  node ← auth_node hash_token authorization w.tokens w.nodes
  inbox ← take_reports settings now node.id (node_tasks services node.id w) reports (open_inbox w)
  ok (
    (inbox.accepted_count, inbox.rejected_count),
    record w { rows = inbox.rows; events = inbox.alerts ++ inbox.events },
  )

abbrev pub is_usable : LiveResolveResult → Bool
is_usable row = str_eq row.status "ok" || str_eq row.status "stale"

-- What a device is told before a node has reported.
unfoldable pub pending_live_ip : Services → List LiveEndpoint → Line → Option LiveIp
unfolding fetch_active_endpoints resolve_targets compute_catalog_epoch parse_line_platforms
pending_live_ip services endpoints line =
    let platforms = parse_line_platforms line in
    let active = fetch_active_endpoints platforms endpoints in
    let targets = resolve_targets services.ip_network active in
    if has_no_platform platforms
    then none
    else some (record {
      line_id = line.id;
      status = "pending";
      cidrs = targets.cidrs;
      domains = targets.fqdns;
      domain_suffixes = targets.suffixes;
      catalog_epoch = compute_catalog_epoch services.sha256 platforms active;
      resolved_at = none;
      egress_hint = "";
    })

unfoldable pub build_client_live_ip :
    Services → List LiveEndpoint → List LiveResolveResult → ℕ → Line → Option LiveIp
unfolding normalize_live_mode get_line_resolve_row pending_live_ip
build_client_live_ip services endpoints rows device_line_id line =
    let pending = pending_live_ip services endpoints line in
    if not (str_eq (normalize_live_mode line.live_mode) "live_catalog")
    then none
    else if not (device_line_id == line.id)
    then none
    else elim (get_line_resolve_row line.id rows) [
      | none ↦ pending
      | some row ↦
          if not (is_usable row)
          then pending
          else if not (row.payload.line_id == line.id)
          then none
          else some row.payload
    ]
