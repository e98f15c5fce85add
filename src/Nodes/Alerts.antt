-- ===== src/Nodes/Alerts.antt =====
-- Alerts: the deduplicated log and the heartbeat checks of
-- gfc-platform/control-plane/api/app/node_health.py. The log has its newest row first. The session does
-- not flush by itself (db.py), so a query does not see the rows that its transaction has added. A mail
-- is its subject and body; whether SMTP is set up is not modelled.
pub mod Dedup
pub mod Identity
pub mod Services
use sip_proxy.Common.{
  ℕ, zero, suc, ◌+◌, ◌*◌, String, Bool, true, false, ◌&&◌, Option, none, some, List, [], ◌∷◌, ◌++◌,
  any, ltb, leb, ◌==◌, str_eq, if◌then◌else◌,
}
use sip_proxy.Common.Text.{take_text, concat}
use sip_proxy.Common.Text.Numbers.{show}
use sip_proxy.Common.Int.{ℤ, pos, negsuc, pos_part, neg_part}
use sip_proxy.Common.Dict.{Dict, Json, bool, truthy}
use sip_proxy.Nodes.Models.{Node, Metrics, Service, dict, other}
use sip_proxy.Nodes.Traffic.{
  NodeTrafficSample, Overview, build_node_traffic_overview, seen_samples,
  record_node_network_traffic, traffic_quota_warn_percent, traffic_quota_critical_percent,
}

pub record AlertEvent : Type 0 where
  pub node_id : Option ℕ
  pub line_id : Option ℕ
  pub level : String
  pub type : String
  pub message : String
  pub created_at : ℕ

pub record Settings : Type 0 where
  pub alert_dedup_minutes : ℕ
  pub node_offline_threshold_seconds : ℕ

-- A filter on a column, where a value is given.
abbrev pub id_matches : Option ℕ → Option ℕ → Bool
id_matches none held = true
id_matches (some n) none = false
id_matches (some n) (some m) = m == n

-- A row of the same type, and node and line where they are given, that is not older than the window.
abbrev pub is_duplicate : ℕ → ℕ → Option ℕ → Option ℕ → String → AlertEvent → Bool
is_duplicate window now node_id line_id alert_type e =
    str_eq e.type alert_type
    && leb now (e.created_at + window)
    && id_matches node_id e.node_id
    && id_matches line_id e.line_id

abbrev pub window : Settings → ℕ
window settings = settings.alert_dedup_minutes * 60

-- `events` is the table as a query of the transaction sees it, `added` the rows that wait for the
-- commit; the new list of these, and whether there is a new row.
unfoldable pub emit_alert :
    Settings
    → ℕ
    → Option ℕ
    → Option ℕ
    → String
    → String
    → String
    → List AlertEvent
    → List AlertEvent
    → List AlertEvent × Bool
emit_alert settings now node_id line_id level alert_type message events added =
    if any (is_duplicate (window settings) now node_id line_id alert_type) events
    then (added, false)
    else (
      record {
        node_id = node_id;
        line_id = line_id;
        level = level;
        type = alert_type;
        message = take_text 512 message;
        created_at = now;
      }
          ∷ added,
      true,
    )

abbrev pub Mail : Type 0
Mail = String × String

pub record Outbox : Type 0 where
  pub events : List AlertEvent
  pub added : List AlertEvent
  pub mails : List Mail

-- The table after the commit.
abbrev pub log_of : Outbox → List AlertEvent
log_of out = out.added ++ out.events

abbrev pub commit_alerts : Outbox → Outbox
commit_alerts out = record out { events = log_of out; added = [] }

-- `if created: send_email(subject, body)`
unfoldable pub emit_and_mail :
    Settings → ℕ → Option ℕ → Option ℕ → String → String → String → String → Outbox → Outbox
emit_and_mail settings now node_id line_id level alert_type message subject out =
    let (added, created) =
      emit_alert settings now node_id line_id level alert_type message out.events out.added in
    record out {
      added = added;
      mails = if created then (subject, message) ∷ out.mails else out.mails;
    }

unfoldable pub show_ℤ : ℤ → String
unfolding concat show
show_ℤ (pos n) = show n
show_ℤ (negsuc n) = concat ("-" ∷ show (suc n) ∷ [])

-- `pct >= percent`
abbrev pub reaches : ℤ → ℕ → Bool
reaches pct percent = leb (percent + neg_part pct) (pos_part pct)

quota_message : Node → ℤ → ℕ → String
unfolding concat show show_ℤ
quota_message node pct quota_gb = concat (
    "Node "
    ∷ node.name
    ∷ "(#"
    ∷ show node.id
    ∷ ") monthly traffic quota at "
    ∷ show_ℤ pct
    ∷ "% ("
    ∷ show quota_gb
    ∷ " GB billing period limit)"
    ∷ [])

quota_subject : String → Node → ℤ → String
unfolding concat show_ℤ
quota_subject kind node pct =
    concat ("[GFC] Traffic quota " ∷ kind ∷ " (" ∷ show_ℤ pct ∷ "%): " ∷ node.name ∷ [])

unfoldable pub quota_alert : Settings → ℕ → Node → Option ℕ → Option ℤ → Outbox → Outbox
unfolding quota_message quota_subject
quota_alert settings now node none pct out = out
quota_alert settings now node (some zero) pct out = out
quota_alert settings now node (some (suc gb)) none out = out
quota_alert settings now node (some (suc gb)) (some pct) out =
    if reaches pct traffic_quota_critical_percent
    then emit_and_mail settings now (some node.id) none "critical" "traffic_quota_critical_95"
        (quota_message node pct (suc gb)) (quota_subject "critical" node pct) out
    else if reaches pct traffic_quota_warn_percent
    then emit_and_mail settings now (some node.id) none "warn" "traffic_quota_warn_85"
        (quota_message node pct (suc gb)) (quota_subject "warning" node pct) out
    else out

unfoldable pub check_traffic_quota_alerts :
    Settings → ℕ → Node → List NodeTrafficSample → Outbox → Node × Outbox
unfolding quota_alert
check_traffic_quota_alerts settings now node samples out =
    let (overview, node') =
      build_node_traffic_overview settings.node_offline_threshold_seconds now node samples in
    (
      node',
      quota_alert settings now node' overview.monthly_quota_gb overview.quota_used_percent out,
    )

-- `a or b` of texts that may be missing
abbrev pub or_text : Option String → String → String
or_text none b = b
or_text (some a) b = if str_eq a "" then b else a

-- `info.get("active", True)`, as a test
abbrev pub is_up : Option Json → Bool
is_up none = true
is_up (some v) = truthy v

unfoldable pub service_type : String → String
unfolding concat
service_type svc = concat ("service_down_" ∷ svc ∷ [])

unfoldable pub service_message : Node → String → Option String → Option String → String
unfolding concat
service_message node svc status message = concat (
    "Node "
    ∷ node.name
    ∷ ": service "
    ∷ svc
    ∷ " "
    ∷ or_text status (or_text message "not running")
    ∷ [])

service_subject : Node → String → String
unfolding concat
service_subject node svc = concat ("[GFC] Service down on " ∷ node.name ∷ ": " ∷ svc ∷ [])

-- One round of the loop over the services.
unfoldable pub check_service : Settings → ℕ → Node → String → Service → Outbox → Outbox
unfolding service_message service_subject
check_service settings now node svc other out = out
check_service settings now node svc (dict active status message) out =
    if str_eq svc "nftables"
    then out
    else if is_up active
    then out
    else emit_and_mail settings now (some node.id) none "critical" (service_type svc)
        (service_message node svc status message) (service_subject node svc) out

unfoldable pub check_services : Settings → ℕ → Node → Dict Service → Outbox → Outbox
check_services settings now node [] out = out
check_services settings now node ((svc, info) ∷ rest) out =
    check_services settings now node rest (check_service settings now node svc info out)

unfoldable pub check_control_plane : Settings → ℕ → Node → Json → Outbox → Outbox
unfolding concat
check_control_plane settings now node (bool false) out = record out {
  added =
      (emit_alert settings now (some node.id) none "warn" "control_plane_unreachable"
        (concat ("Node " ∷ node.name ∷ " reports control plane unreachable from agent" ∷ []))
        out.events out.added).0;
}
check_control_plane settings now node _ out = out

pub record World : Type 0 where
  pub node : Node
  pub samples : List NodeTrafficSample
  pub outbox : Outbox

-- `none` is a heartbeat with no metrics; the services of the metrics are a dictionary. The quota is
-- checked over the samples without the one that waits for the commit.
unfoldable pub process_heartbeat_metrics : Settings → ℕ → Option Metrics → World → World
process_heartbeat_metrics settings now none w = w
process_heartbeat_metrics settings now (some metrics) w =
    let (node, samples) =
      record_node_network_traffic now (record w.node { last_metrics = some metrics })
        metrics.network_traffic w.samples in
    let (node', out) =
      check_traffic_quota_alerts settings now node
        (seen_samples now w.node metrics.network_traffic w.samples) w.outbox in
    record {
      node = node';
      samples = samples;
      outbox =
          check_control_plane settings now node' metrics.control_plane_reachable
            (check_services settings now node' metrics.services out);
    }
