-- ===== src/Nodes/Tests.antt =====
-- The theorems on traffic and alerts, at a concrete node.
use sip_proxy.Common.{
  ℕ, ◌+◌, ◌*◌, ◌^◌, ◌≤◌, ◌≡◌, refl, true, false, none, some, List, [], ◌∷◌, arith,
}
use mathlib.Core.List.{Memᴰ}
use sip_proxy.Common.Int.{ℤ, pos}
use sip_proxy.Common.Dict.{truthy, int, null, bool}
use sip_proxy.Nodes.Models.{Node, Metrics, dict, other}
use sip_proxy.Nodes.Traffic.{
  NodeTrafficSample, billing_period_end, record_deltas, quota_used_percent, ensure_billing_defaults,
  used_percent,
}
use sip_proxy.Nodes.Traffic.Accounting.{total, total-record_deltas}
use sip_proxy.Nodes.Alerts.{
  AlertEvent, Settings, World, emit_alert, process_heartbeat_metrics, service_type,
}
use sip_proxy.Nodes.Alerts.Dedup.{IsDeduplicated, emit_alert-IsDeduplicated}
use sip_proxy.Nodes.Alerts.Services.{IsReported, heartbeat-service_down}
use sip_proxy.Common.{String, ◌++◌}
use sip_proxy.Nodes.Alerts.{Outbox, log_of, commit_alerts}
use sip_proxy.Nodes.Alerts.{service_message}
use sip_proxy.Nodes.Monitor.{SocksProfile, OnlineState, check_nodes_offline, get_state}
use sip_proxy.Nodes.Monitor.Ticks.{check_nodes_offline-again, check_nodes_offline-reports}
use sip_proxy.Nodes.Active.{fault, compute_active_alerts}
use sip_proxy.Nodes.Active.Listed.{compute_active_alerts-service_down}
use sip_proxy.Nodes.Models.{node_is_online}
use sip_proxy.Nodes.TunnelPool.{
  networks_overlap, allocate_tunnel_network, tunnel_pool, search_pool, tunnel_conflicts, size,
}
use sip_proxy.Nodes.TunnelPool
use sip_proxy.Nodes.TunnelPool.Allocation.{
  IsApart, allocate_tunnel_network-IsApart, allocate_tunnel_network-finds,
}
use sip_proxy.Common.{All, Option}

abbrev settings : Settings
settings = record { alert_dedup_minutes = 30; node_offline_threshold_seconds = 90 }

abbrev node : Node
node = record {
  id = 3;
  name = "tokyo";
  is_active = true;
  last_seen_at = some 5000000;
  last_metrics = none;
  traffic_monitor_iface = none;
  traffic_billing_start_at = some 4000000;
  traffic_billing_cycle_days = 30;
  traffic_monthly_quota_gb = some 1;
  traffic_correction_bytes = none;
  traffic_pending_bytes_in = some 5;
  traffic_pending_bytes_out = none;
  traffic_last_sample_at = some 4999000;
}

abbrev sample : ℕ → NodeTrafficSample
sample at = record {
  node_id = 3;
  sampled_at = at;
  window_seconds = 300;
  bytes_in = 70;
  bytes_out = 30;
  iface = none;
}

abbrev samples : List NodeTrafficSample
samples = sample 4999000 ∷ sample 1000 ∷ []

abbrev alert : AlertEvent
alert = record {
  node_id = some 3;
  line_id = none;
  level = "critical";
  type = "service_down_xray";
  message = "Node tokyo: service xray stopped";
  created_at = 4990000;
}

abbrev metrics : Metrics
metrics = record {
  network_traffic =
      some (record { bytes_in = int (pos 40); bytes_out = null; iface = some "eth0" });
  services = ("nftables", other) ∷ ("xray", dict (some (bool false)) (some "stopped") none) ∷ [];
  control_plane_reachable = bool false;
}

abbrev world : World
world = record {
  node = node;
  samples = samples;
  outbox = record { events = alert ∷ []; added = []; mails = [] };
}

total-record_deltas_example :
    let (node', samples') = record_deltas 5000000 40 2 none node samples in
    total node' samples' 4000000 ≡ total node samples 4000000 + 40 + 2
unfolding billing_period_end ensure_billing_defaults
total-record_deltas_example =
    total-record_deltas 5000000 4000000 40 2 none node samples refl (omega arith) (omega arith)

-- 29, 30 and 57 of 100 GB: the float of 29 / 100 * 100 lies below 29.
percent_test :
    (quota_used_percent (some 100) (pos (29 * 1024 ^ 3)) ≡ some (pos 28))
    × (quota_used_percent (some 100) (pos (30 * 1024 ^ 3)) ≡ some (pos 30))
    × (quota_used_percent (some 100) (pos (57 * 1024 ^ 3)) ≡ some (pos 56))
unfolding quota_used_percent used_percent
percent_test = (refl, refl, refl)

emit_alert-IsDeduplicated_example : IsDeduplicated (settings.alert_dedup_minutes * 60) (
    (emit_alert settings 5000000
      (some 3)
      none
      "critical"
      "service_down_xray"
      "Node tokyo: service xray stopped"
      (alert ∷ [])
      []).0
    ++ (alert ∷ []))
emit_alert-IsDeduplicated_example =
    emit_alert-IsDeduplicated settings 5000000 (some 3) none "critical" "service_down_xray"
      "Node tokyo: service xray stopped" (alert ∷ []) (tt, tt)

heartbeat-service_down_example :
    IsReported settings 5000000 3
      (service_type "xray")
      (log_of (process_heartbeat_metrics settings 5000000 (some metrics) world).outbox)
unfolding truthy
heartbeat-service_down_example =
    heartbeat-service_down settings 5000000 metrics world "xray"
      (dict (some (bool false)) (some "stopped") none) (Memᴰ.tail (Memᴰ.head refl))
      ((λ e. cc), refl)

abbrev date : ℕ → String
date time = "2026-01-01T00:00:00+00:00"

abbrev no_hash : String → ℤ
no_hash text = pos 17

abbrev was_online : OnlineState × Outbox
was_online = ((3, true) ∷ [], record { events = []; added = []; mails = [] })

-- The second tick is long after the window of the alert of the first.
check_nodes_offline-again_example :
    let (state, out) = check_nodes_offline date settings 6000000 (node ∷ []) was_online in
    (check_nodes_offline date settings 9000000 (node ∷ []) (state, commit_alerts out)).1
    ≡ commit_alerts out
unfolding node_is_online
check_nodes_offline-again_example =
    check_nodes_offline-again date settings 6000000 9000000 (node ∷ []) was_online (tt, tt)
      (refl, tt)

check_nodes_offline-reports_example :
    IsReported settings 6000000 3 "node_offline"
      (log_of (check_nodes_offline date settings 6000000 (node ∷ []) was_online).1)
unfolding node_is_online get_state
check_nodes_offline-reports_example =
    check_nodes_offline-reports date settings 6000000 node (node ∷ []) was_online (tt, tt)
      (Memᴰ.head refl) refl refl

abbrev broken : Node
broken = record node { last_metrics = some metrics }

abbrev exit : SocksProfile
exit = record {
  id = 8;
  name = "exit";
  host = "10.0.0.8";
  port = 1080;
  username = none;
  password = none;
  is_healthy = false;
}

compute_active_alerts-service_down_example :
    Memᴰ
      (fault no_hash date settings 6000000
        (some 3)
        "critical"
        (service_type "xray")
        (service_message broken "xray" (some "stopped") none))
      (compute_active_alerts no_hash date settings 6000000 (broken ∷ []) samples (exit ∷ [])).0
unfolding truthy
compute_active_alerts-service_down_example =
    compute_active_alerts-service_down no_hash date settings 6000000 samples (exit ∷ []) broken
      (broken ∷ []) metrics "xray" (some (bool false)) (some "stopped") none (Memᴰ.head refl) refl
      refl (Memᴰ.tail (Memᴰ.head refl)) (λ e. cc) refl

-- A text that is no network, and the first network of the pool.
abbrev reserved_networks : List (Option TunnelPool.Network)
reserved_networks = none ∷ some (record { address = 184483840; prefixlen = 30 }) ∷ []

abbrev second_network : TunnelPool.Network
second_network = record { address = 184483844; prefixlen = 30 }

tunnel_test : allocate_tunnel_network reserved_networks ≡ some second_network
unfolding allocate_tunnel_network search_pool tunnel_conflicts networks_overlap
tunnel_test = refl

allocate_tunnel_network-IsApart_example :
    (tunnel_pool.address ≤ 184483844)
    × (184483844 + size second_network ≤ tunnel_pool.address + size tunnel_pool)
    × All (IsApart second_network) reserved_networks
allocate_tunnel_network-IsApart_example =
    allocate_tunnel_network-IsApart reserved_networks second_network tunnel_test

allocate_tunnel_network-finds_example :
    (n : TunnelPool.Network) × (allocate_tunnel_network reserved_networks ≡ some n)
    × (n.address ≤ tunnel_pool.address + 9 * 4)
unfolding tunnel_conflicts networks_overlap
allocate_tunnel_network-finds_example =
    allocate_tunnel_network-finds reserved_networks 9 (omega arith) refl
