-- ===== src/Nodes/Active.antt =====
-- The faults that exist now, compute_active_alerts of
-- gfc-platform/control-plane/api/app/active_alerts.py. The two tables come in the order of their ids.
-- The hash of a text, which Python salts at each start, and the printing of a date are arguments.
pub mod Listed
use sip_proxy.Common.{
  ℕ, zero, suc, ◌%◌, String, Bool, true, false, not, Option, none, some, List, [], ◌∷◌, ◌++◌,
  str_eq, if◌then◌else◌,
}
use sip_proxy.Common.Text.{concat, starts_with, text_leb}
use sip_proxy.Common.Text.Numbers.{show}
use sip_proxy.Common.Int.{ℤ, pos_part, neg_part}
use sip_proxy.Common.Dict.{Dict, Json, bool}
use Prim.Native.Nat.{max}
use sip_proxy.Nodes.Models.{Node, Metrics, Service, dict, other, node_is_online}
use sip_proxy.Nodes.Traffic.{
  NodeTrafficSample, build_node_traffic_overview, traffic_quota_warn_percent,
  traffic_quota_critical_percent,
}
use sip_proxy.Nodes.Alerts.{Settings, is_up, service_type, service_message, reaches, show_ℤ}
use sip_proxy.Nodes.Monitor.{SocksProfile, format_socks_address, offline_message, socks_type}

pub record ActiveAlert : Type 0 where
  pub id : ℕ
  pub node_id : Option ℕ
  pub level : String
  pub type : String
  pub message : String
  pub created_at : ℕ

-- `str(node_id)`
abbrev show_id : Option ℕ → String
show_id none = "None"
show_id (some n) = show n

unfoldable pub alert_id : (String → ℤ) → String → Option ℕ → ℕ
unfolding concat
alert_id hash alert_type node_id =
    let h = hash (concat (alert_type ∷ ":" ∷ show_id node_id ∷ ":None" ∷ [])) in
    max (pos_part h) (neg_part h) % 2000000000

module _ (hash : String → ℤ) (isoformat : ℕ → String) (settings : Settings) (now : ℕ) where
  abbrev pub fault : Option ℕ → String → String → String → ActiveAlert
  fault node_id level alert_type message = record {
    id = alert_id hash alert_type node_id;
    node_id = node_id;
    level = level;
    type = alert_type;
    message = message;
    created_at = now;
  }

  unfoldable pub offline_faults : Node → List ActiveAlert
  offline_faults node =
      if node_is_online settings.node_offline_threshold_seconds now node
      then []
      else fault (some node.id) "critical" "node_offline" (offline_message isoformat node) ∷ []

  unfoldable pub unreachable_faults : Node → Json → List ActiveAlert
  unfolding concat
  unreachable_faults node (bool false) =
      fault (some node.id) "warn" "control_plane_unreachable"
        (concat ("Node " ∷ node.name ∷ " reports control plane unreachable from agent" ∷ []))
      ∷ []
  unreachable_faults node _ = []

  unfoldable pub service_faults : Node → String → Service → List ActiveAlert
  service_faults node svc other = []
  service_faults node svc (dict active status message) =
      if str_eq svc "nftables"
      then []
      else if is_up active
      then []
      else fault (some node.id) "critical" (service_type svc)
          (service_message node svc status message)
        ∷ []

  unfoldable pub services_faults : Node → Dict Service → List ActiveAlert
  services_faults node [] = []
  services_faults node ((svc, info) ∷ rest) =
      service_faults node svc info ++ services_faults node rest

  unfoldable pub metrics_faults : Node → Option Metrics → List ActiveAlert
  metrics_faults node none = []
  metrics_faults node (some metrics) =
      unreachable_faults node metrics.control_plane_reachable
      ++ services_faults node metrics.services

  limit_message : Node → ℤ → ℕ → String
  unfolding concat show
  limit_message node pct quota_gb = concat (
      "Node "
      ∷ node.name
      ∷ "(#"
      ∷ show node.id
      ∷ ") monthly traffic quota at "
      ∷ show_ℤ pct
      ∷ "% ("
      ∷ show quota_gb
      ∷ " GB limit)"
      ∷ [])

  unfoldable pub quota_faults : Node → Option ℕ → Option ℤ → List ActiveAlert
  unfolding limit_message
  quota_faults node none pct = []
  quota_faults node (some zero) pct = []
  quota_faults node (some (suc gb)) none = []
  quota_faults node (some (suc gb)) (some pct) =
      if reaches pct traffic_quota_critical_percent
      then fault (some node.id) "critical" "traffic_quota_critical_95"
          (limit_message node pct (suc gb))
        ∷ []
      else if reaches pct traffic_quota_warn_percent
      then fault (some node.id) "warn" "traffic_quota_warn_85" (limit_message node pct (suc gb))
        ∷ []
      else []

  -- The faults of a node, and the node as the overview leaves it.
  unfoldable pub node_faults : List NodeTrafficSample → Node → List ActiveAlert × Node
  node_faults samples node =
      let (overview, node') =
        build_node_traffic_overview settings.node_offline_threshold_seconds now node samples in
      if not node.is_active then ([], node) else (
        offline_faults node
            ++ (metrics_faults node node.last_metrics
                ++ quota_faults node' overview.monthly_quota_gb overview.quota_used_percent),
        node',
      )

  unfoldable pub nodes_faults : List NodeTrafficSample → List Node → List ActiveAlert × List Node
  nodes_faults samples [] = ([], [])
  nodes_faults samples (node ∷ nodes) =
      let (faults, node') = node_faults samples node in
      let (rest, nodes') = nodes_faults samples nodes in (faults ++ rest, node' ∷ nodes')

  unfoldable pub socks_faults : List SocksProfile → List ActiveAlert
  unfolding concat
  socks_faults [] = []
  socks_faults (sp ∷ rows) =
      let rest = socks_faults rows in
      if sp.is_healthy
      then rest
      else fault none "warn" (socks_type sp) (
          concat (
            "SOCKS "
            ∷ sp.name
            ∷ " ("
            ∷ format_socks_address sp.host sp.port sp.username sp.password
            ∷ ") unhealthy or unreachable"
            ∷ []))
        ∷ rest

abbrev pub is_socks : ActiveAlert → Bool
is_socks a = starts_with "socks_down_" a.type

-- The order of the sort's keys, `(0 if socks else 1, type)`.
abbrev pub comes_first : ActiveAlert → ActiveAlert → Bool
comes_first a b =
    if is_socks a
    then (if is_socks b then text_leb a.type b.type else true)
    else (if is_socks b then false else text_leb a.type b.type)

unfoldable pub insert_alert : ActiveAlert → List ActiveAlert → List ActiveAlert
insert_alert a [] = a ∷ []
insert_alert a (b ∷ bs) =
    let rest = insert_alert a bs in if comes_first a b then a ∷ b ∷ bs else b ∷ rest

-- `out.sort(key=…)`
unfoldable pub sort_alerts : List ActiveAlert → List ActiveAlert
unfolding insert_alert
sort_alerts [] = []
sort_alerts (a ∷ as') = insert_alert a (sort_alerts as')

unfoldable pub compute_active_alerts :
    (String → ℤ)
    → (ℕ → String)
    → Settings
    → ℕ
    → List Node
    → List NodeTrafficSample
    → List SocksProfile
    → List ActiveAlert × List Node
compute_active_alerts hash isoformat settings now nodes samples rows =
    let (faults, nodes') = nodes_faults hash isoformat settings now samples nodes in
    (sort_alerts (faults ++ socks_faults hash isoformat settings now rows), nodes')
