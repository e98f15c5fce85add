-- ===== src/Nodes/Models.antt =====
-- The table of nodes, in gfc-platform/control-plane/api/app/models.py: the columns that the modelled
-- code reads or writes, and node_online.py. A time is the number of seconds since the epoch.
use sip_proxy.Common.{ℕ, ◌+◌, String, Bool, false, Option, none, some, ltb}
use sip_proxy.Common.Int.{ℤ}
use sip_proxy.Common.Dict.{Dict, Json}

-- The network part of a heartbeat's metrics. The interface is a text or missing, as the agent sends it.
pub record Network : Type 0 where
  pub bytes_in : Json
  pub bytes_out : Json
  pub iface : Option String

-- A service in a heartbeat's metrics: a dictionary, or something else. Its texts are texts or missing.
pub data Service : Type 0 where
  dict : (active : Option Json) → (status message : Option String) → Service
  other : Service

pub record Metrics : Type 0 where
  pub network_traffic : Option Network
  pub services : Dict Service
  pub control_plane_reachable : Json

-- `last_metrics` is the document that `last_metrics_json` holds.
pub record Node : Type 0 where
  pub id : ℕ
  pub name : String
  pub is_active : Bool
  pub last_seen_at : Option ℕ
  pub last_metrics : Option Metrics
  pub traffic_monitor_iface : Option String
  pub traffic_billing_start_at : Option ℕ
  pub traffic_billing_cycle_days : ℕ
  pub traffic_monthly_quota_gb : Option ℕ
  pub traffic_correction_bytes : Option ℤ
  pub traffic_pending_bytes_in : Option ℕ
  pub traffic_pending_bytes_out : Option ℕ
  pub traffic_last_sample_at : Option ℕ

-- `seconds_ago(node.last_seen_at) < threshold`, which holds too for a time to come
unfoldable pub node_is_online : (threshold now : ℕ) → Node → Bool
node_is_online threshold now node = elim node.last_seen_at [
  | none ↦ false
  | some seen ↦ ltb now (seen + threshold)
]
