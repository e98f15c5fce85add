-- ===== src/Nodes/Traffic/Accounting.antt =====
-- Sampled and pending bytes of a node, record_node_network_traffic of
-- gfc-platform/control-plane/api/app/node_traffic.py.
use Prim.Native.Nat.{max}
use sip_proxy.Common.{
  ℕ, ◌+◌, ◌-◌, ◌*◌, ◌≤◌, ◌≡◌, refl, ap, ◌∙◌, Bool, true, ◌&&◌, Option, List, [], ◌∷◌, arith,
  Bool-cases, inl, inr, ltb, ◌==◌, String,
}
use sip_proxy.Nodes.Models.{Node}
use sip_proxy.Nodes.Traffic.{
  NodeTrafficSample, or_else, ensure_billing_defaults, billing_period_end,
  maybe_rollover_billing_period, add_pending, elapsed, purge, flush, record_deltas, sum_bytes,
  retention_hours, sample_interval_seconds,
}

-- The removal of old samples counts like a later start: 45 days back, where that is later.
pub sum_bytes-purge :
    (now : ℕ) (samples : List NodeTrafficSample) (node_id since : ℕ)
    → sum_bytes (purge now samples) node_id since
      ≡ sum_bytes samples node_id (max since (now - retention_hours * 3600))
unfolding sum_bytes purge
sum_bytes-purge now [] node_id since = refl
sum_bytes-purge now (s ∷ ss) node_id since = ground (arith, sum_bytes-purge now ss node_id since)

abbrev pub pending : Node → ℕ
pending node = or_else node.traffic_pending_bytes_in 0 + or_else node.traffic_pending_bytes_out 0

abbrev pub total : Node → List NodeTrafficSample → ℕ → ℕ
total node samples since = sum_bytes samples node.id since + pending node

total-flush :
    (now since : ℕ) (node : Node) (samples : List NodeTrafficSample)
    → since ≤ now
    → now ≤ since + retention_hours * 3600
    → total (flush now node samples).0 (flush now node samples).1 since ≡ total node samples since
unfolding flush
total-flush now since node samples past kept =
    elim (Bool-cases (ltb (elapsed now node.traffic_last_sample_at) sample_interval_seconds)) [
      | inl early ↦ rw early refl
      | inr due ↦ rw due (
          rw sum_bytes-purge (
            let start : max since (now - retention_hours * 3600) ≡ since = omega arith in
            rw start (unfold sum_bytes in ground arith)))
    ]

abbrev within : ℕ → Node → Bool
within now node = ltb now (billing_period_end now node)

pending-rollover :
    (now : ℕ) (node : Node)
    → within now node ≡ true
    → pending (maybe_rollover_billing_period now (ensure_billing_defaults now node)).0
      ≡ pending node
unfolding maybe_rollover_billing_period
pending-rollover now node h = ground arith

pub id-rollover :
    (now : ℕ) (node : Node)
    → (maybe_rollover_billing_period now (ensure_billing_defaults now node)).0.id ≡ node.id
unfolding maybe_rollover_billing_period
id-rollover now node = ground arith

total-add_pending :
    (delta_in delta_out since : ℕ) (iface : Option String) (node : Node)
    (samples : List NodeTrafficSample)
    → total (add_pending delta_in delta_out iface node) samples since
      ≡ total node samples since + delta_in + delta_out
unfolding add_pending
total-add_pending delta_in delta_out since iface node samples = omega arith

total-rollover :
    (now since : ℕ) (node : Node) (samples : List NodeTrafficSample)
    → within now node ≡ true
    → total (maybe_rollover_billing_period now (ensure_billing_defaults now node)).0 samples since
      ≡ total node samples since
total-rollover now since node samples h = rw id-rollover (rw (pending-rollover now node h) refl)

-- Within a billing period, what is sampled since a time at most 45 days back, with what is pending,
-- grows by exactly the bytes that are reported.
pub total-record_deltas :
    (now since delta_in delta_out : ℕ) (iface : Option String) (node : Node)
    (samples : List NodeTrafficSample)
    → ltb now (billing_period_end now node) ≡ true
    → since ≤ now
    → now ≤ since + retention_hours * 3600
    → let (node', samples') = record_deltas now delta_in delta_out iface node samples in
      total node' samples' since ≡ total node samples since + delta_in + delta_out
unfolding record_deltas
total-record_deltas now since delta_in delta_out iface node samples open_period past kept =
    elim (Bool-cases (delta_in == 0 && delta_out == 0)) [
      | inl nothing ↦ rw nothing (ground arith)
      | inr some_bytes ↦
          let node' = (maybe_rollover_billing_period now (ensure_billing_defaults now node)).0 in
          rw some_bytes (
            total-flush now since (add_pending delta_in delta_out iface node') samples past kept
            ∙ total-add_pending delta_in delta_out since iface node' samples
            ∙ ap (λ (t : ℕ). t + delta_in + delta_out)
                (total-rollover now since node samples open_period))
    ]
