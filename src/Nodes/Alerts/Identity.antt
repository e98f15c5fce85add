-- ===== src/Nodes/Alerts/Identity.antt =====
-- The id of a node and the time of its last heartbeat, through process_heartbeat_metrics of
-- gfc-platform/control-plane/api/app/node_health.py.
use sip_proxy.Common.{
  ℕ, ◌≡◌, refl, String, ◌&&◌, Option, none, some, List, ◌==◌, arith, Option-cases, ◌∙◌, Bool-cases,
  inl, inr,
}
use sip_proxy.Nodes.Models.{Node, Network, Metrics}
use sip_proxy.Nodes.Traffic.{
  ensure_billing_defaults, NodeTrafficSample, maybe_rollover_billing_period,
  build_node_traffic_overview, record_node_network_traffic, record_deltas, add_pending, flush,
  deltas, seen_samples,
}
use sip_proxy.Nodes.Alerts.{
  Settings, Outbox, World, check_traffic_quota_alerts, process_heartbeat_metrics,
}

-- The id of a node and its last heartbeat, which the accounting of traffic leaves alone.
abbrev pub who : Node → ℕ × Option ℕ
who node = (node.id, node.last_seen_at)

who-rollover :
    (now : ℕ) (node : Node)
    → who (maybe_rollover_billing_period now (ensure_billing_defaults now node)).0 ≡ who node
unfolding maybe_rollover_billing_period
who-rollover now node = ground arith

pub who-overview :
    (settings : Settings) (now : ℕ) (node : Node) (samples : List NodeTrafficSample) (out : Outbox)
    → who (check_traffic_quota_alerts settings now node samples out).0 ≡ who node
unfolding check_traffic_quota_alerts build_node_traffic_overview maybe_rollover_billing_period
who-overview settings now node samples out = ground arith

who-flush :
    (now : ℕ) (node : Node) (samples : List NodeTrafficSample)
    → who (flush now node samples).0 ≡ who node
unfolding flush
who-flush now node samples = ground arith

who-record_deltas :
    (now delta_in delta_out : ℕ) (iface : Option String) (node : Node)
    (samples : List NodeTrafficSample)
    → who (record_deltas now delta_in delta_out iface node samples).0 ≡ who node
unfolding record_deltas add_pending
who-record_deltas now delta_in delta_out iface node samples =
    elim (Bool-cases (delta_in == 0 && delta_out == 0)) [
      | inl nothing ↦ rw nothing refl
      | inr bytes ↦ rw bytes (who-flush now _ samples ∙ who-rollover now node)
    ]

pub who-record :
    (now : ℕ) (node : Node) (network : Option Network) (samples : List NodeTrafficSample)
    → who (record_node_network_traffic now node network samples).0 ≡ who node
unfolding record_node_network_traffic
who-record now node none samples = refl
who-record now node (some network) samples = elim (Option-cases (deltas network)) [
  | inl e ↦ rw (e, record_node_network_traffic) refl
  | inr ((delta_in, delta_out), e) ↦
      rw (e, record_node_network_traffic)
        (who-record_deltas now delta_in delta_out network.iface node samples)
]

pub who-process :
    (settings : Settings) (now : ℕ) (metrics : Option Metrics) (w : World)
    → who (process_heartbeat_metrics settings now metrics w).node ≡ who w.node
unfolding process_heartbeat_metrics
who-process settings now none w = refl
who-process settings now (some metrics) w =
    let node0 = record w.node { last_metrics = some metrics } in
    let recorded = record_node_network_traffic now node0 metrics.network_traffic w.samples in
    who-overview settings now recorded.0 (seen_samples now w.node metrics.network_traffic w.samples)
      w.outbox
    ∙ who-record now node0 metrics.network_traffic w.samples
