-- ===== src/Nodes/Alerts/Services.antt =====
-- The alerts of a heartbeat, process_heartbeat_metrics of
-- gfc-platform/control-plane/api/app/node_health.py.
use sip_proxy.Common.{
  ap, ℕ, ◌≡◌, ◌≢◌, String, Bool, true, false, Option, none, some, List, [], ◌∷◌, any, str_eq, All,
  All-elem, All-map, ◌∙◌, Bool-cases, inl, inr, eq_iff,
}
use mathlib.Core.List.{Memᴰ}
use sip_proxy.Common.Dict.{Dict, Json, bool}
use sip_proxy.Nodes.Models.{Node, Metrics, Service, dict, other}
use sip_proxy.Nodes.Traffic.{seen_samples, record_node_network_traffic}
use sip_proxy.Nodes.Alerts.{
  AlertEvent, Settings, Outbox, World, log_of, is_duplicate, window, emit_and_mail, check_service,
  check_services, check_control_plane, check_traffic_quota_alerts, process_heartbeat_metrics, is_up,
  service_type,
}
use sip_proxy.Nodes.Alerts.Identity.{who-overview, who-record}
use sip_proxy.Nodes.Alerts.Dedup.{emit_alert-recent, emit_alert-keeps}

-- A service that reports itself down; nftables is not a service that runs.
abbrev pub IsDown : String × Service → Type 0
IsDown (svc, other) = ⊥
IsDown (svc, dict active status message) = (svc ≢ "nftables") × (is_up active ≡ false)

-- The log has a row of this type for this node, not older than the window.
abbrev pub IsReported : Settings → ℕ → ℕ → String → List AlertEvent → Type 0
IsReported settings now id alert_type events =
    any (is_duplicate (window settings) now (some id) none alert_type) events ≡ true

-- A service that is down is in the log.
abbrev pub IsCovered : Settings → ℕ → ℕ → List AlertEvent → String × Service → Type 0
IsCovered settings now id events s = IsDown s → IsReported settings now id (service_type s.0) events

module _ (settings : Settings) (now : ℕ) (node : Node) where
  check_service-reports :
      (svc : String) (info : Service) (out : Outbox)
      → IsDown (svc, info)
      → IsReported settings now node.id
          (service_type svc)
          (log_of (check_service settings now node svc info out))
  unfolding check_service emit_and_mail
  check_service-reports svc other out h = absurd h
  check_service-reports svc (dict active status message) out (named, down) =
      elim (Bool-cases (str_eq svc "nftables")) [
        | inl nft ↦ absurd (named ((eq_iff svc "nftables").0 nft))
        | inr no_nft ↦ rw no_nft (
            rw down (
              emit_alert-recent settings now (some node.id) none _ (service_type svc) _ out.events
                out.added))
      ]

  module _ (p : AlertEvent → Bool) where
    check_service-keeps :
        (svc : String) (info : Service) (out : Outbox)
        → any p (log_of out) ≡ true
        → any p (log_of (check_service settings now node svc info out)) ≡ true
    unfolding check_service emit_and_mail
    check_service-keeps svc other out h = h
    check_service-keeps svc (dict active status message) out h =
        elim (Bool-cases (str_eq svc "nftables")) [
          | inl nft ↦ rw nft h
          | inr no_nft ↦ rw no_nft (elim (Bool-cases (is_up active)) [
            | inl up ↦ rw up h
            | inr down ↦
                rw down
                  (emit_alert-keeps p settings now (some node.id) none _ _ _ out.events out.added h)
          ])
        ]

    check_services-keeps :
        (services : Dict Service) (out : Outbox)
        → any p (log_of out) ≡ true
        → any p (log_of (check_services settings now node services out)) ≡ true
    unfolding check_services
    check_services-keeps [] out h = h
    check_services-keeps ((svc, info) ∷ rest) out h =
        check_services-keeps rest _ (check_service-keeps svc info out h)

    check_control_plane-keeps :
        (reachable : Json) (out : Outbox)
        → any p (log_of out) ≡ true
        → any p (log_of (check_control_plane settings now node reachable out)) ≡ true
    unfolding check_control_plane
    check_control_plane-keeps (bool false) out h =
        emit_alert-keeps p settings now (some node.id) none _ _ _ out.events out.added h
    check_control_plane-keeps _ out h = h

  check_services-reports :
      (services : Dict Service) (out : Outbox)
      → All
          (IsCovered settings now node.id (log_of (check_services settings now node services out)))
          services
  unfolding check_services
  check_services-reports [] out = tt
  check_services-reports ((svc, info) ∷ rest) out = (
    λ down. check_services-keeps _ rest _ (check_service-reports svc info out down),
    check_services-reports rest _,
  )

  check_control_plane-reports :
      (reachable : Json) (out : Outbox)
      → reachable ≡ bool false
      → IsReported settings now node.id "control_plane_unreachable"
          (log_of (check_control_plane settings now node reachable out))
  check_control_plane-reports reachable out e = rw e (unreachable out)
    where
      unreachable :
          (out : Outbox)
          → IsReported settings now node.id "control_plane_unreachable"
              (log_of (check_control_plane settings now node (bool false) out))
      unreachable out =
          unfold check_control_plane in
          emit_alert-recent settings now (some node.id) none "warn" "control_plane_unreachable" _
            out.events out.added

heartbeat-covers :
    (settings : Settings) (now : ℕ) (metrics : Metrics) (w : World)
    → let events = log_of (process_heartbeat_metrics settings now (some metrics) w).outbox in
      All (IsCovered settings now w.node.id events) metrics.services
      × (metrics.control_plane_reachable ≡ bool false
          → IsReported settings now w.node.id "control_plane_unreachable" events)
unfolding process_heartbeat_metrics
heartbeat-covers settings now metrics w =
    let node0 = record w.node { last_metrics = some metrics } in
    let recorded = record_node_network_traffic now node0 metrics.network_traffic w.samples in
    let seen = seen_samples now w.node metrics.network_traffic w.samples in
    let checked = check_traffic_quota_alerts settings now recorded.0 seen w.outbox in
    let out = check_services settings now checked.0 metrics.services checked.1 in
    let same : checked.0.id ≡ w.node.id =
      ap (λ (p : ℕ × Option ℕ). p.0)
        (who-overview settings now recorded.0 seen w.outbox
          ∙ who-record now node0 metrics.network_traffic w.samples) in
    (
      rw same at (
          All-map (IsCovered settings now checked.0.id (log_of out))
            (IsCovered settings now checked.0.id (
              log_of
                (check_control_plane settings now checked.0 metrics.control_plane_reachable out)))
            metrics.services
            (λ s reported down.
              check_control_plane-keeps settings now checked.0
                (is_duplicate (window settings) now (some checked.0.id) none (service_type s.0))
                metrics.control_plane_reachable out (reported down))
            (check_services-reports settings now checked.0 metrics.services checked.1)),
      λ e. rw same at (
          check_control_plane-reports settings now checked.0 metrics.control_plane_reachable out e),
    )

-- After a heartbeat with metrics the log has a recent row of this node for each service that the
-- metrics list as down; nftables is not one of them.
pub heartbeat-service_down :
    (settings : Settings) (now : ℕ) (metrics : Metrics) (w : World) (svc : String) (info : Service)
    → Memᴰ (svc, info) metrics.services
    → IsDown (svc, info)
    → IsReported settings now w.node.id
        (service_type svc)
        (log_of (process_heartbeat_metrics settings now (some metrics) w).outbox)
heartbeat-service_down settings now metrics w svc info m down =
    All-elem
      (IsCovered settings now w.node.id
        (log_of (process_heartbeat_metrics settings now (some metrics) w).outbox))
      (svc, info) metrics.services m (heartbeat-covers settings now metrics w).0 down
