-- ===== src/Nodes/Endpoints.antt =====
-- What a node asks of the control plane, gfc-platform/control-plane/api/app/main.py: activation, the
-- heartbeat and the acknowledgement of a configuration. The random texts, the reading of an address by
-- ipaddress.ip_address, `none` where it raises, and the digest of a token are arguments. A column that
-- is not of the node of Nodes/Models.antt stands in the row around it.
pub mod Presence
pub mod Enrolment
mod Tests
use sip_proxy.Common.{
  ℕ, suc, String, Bool, true, false, not, ◌&&◌, ◌||◌, Option, none, some, List, [], ◌∷◌, ◌++◌, map,
  ◌==◌, str_eq, if◌then◌else◌,
}
use sip_proxy.Common.Http.{Http, ok, error, ◌>>=◌, ◌>>◌, raise_if}
use sip_proxy.Common.Int.{pos}
use sip_proxy.Common.Text.{strip, elem, concat, or_empty}
use sip_proxy.Common.Text.Numbers.{show}
use sip_proxy.Nodes.Models.{Node, Metrics}
use sip_proxy.Nodes.Traffic.{NodeTrafficSample}
use sip_proxy.Nodes.Alerts.{
  Settings, Outbox, World, commit_alerts, emit_alert, or_text, process_heartbeat_metrics,
}
use sip_proxy.Nodes.Tokens.{NodeToken, auth_node}

pub record NodeRow : Type 0 where
  pub node : Node
  pub node_key : String
  pub region : String
  pub country : Option String
  pub public_ip : Option String
  pub agent_version : Option String

-- What ipaddress says of an address.
pub record Address : Type 0 where
  pub version : ℕ
  pub is_private : Bool
  pub is_loopback : Bool
  pub is_link_local : Bool
  pub is_multicast : Bool
  pub is_reserved : Bool
  pub is_unspecified : Bool

abbrev pub is_public : Address → Bool
is_public a =
    a.version == 4
    && not (
        a.is_private || a.is_loopback || a.is_link_local || a.is_multicast || a.is_reserved
        || a.is_unspecified)

unfoldable pub normalize_node_public_ip : (String → Option Address) → Option String → Option String
unfolding strip
normalize_node_public_ip ip_address value =
    let text = strip (or_empty value) in
    if str_eq text ""
    then none
    else elim (ip_address text) [ none ↦ none | some a ↦ if is_public a then some text else none ]

pub record NodesWorld : Type 0 where
  pub rows : List NodeRow
  pub tokens : List NodeToken
  pub samples : List NodeTrafficSample
  pub outbox : Outbox
  pub next_node_id : ℕ

abbrev pub nodes_of : List NodeRow → List Node
nodes_of = map (λ (r : NodeRow). r.node)

pub record ActivateRequest : Type 0 where
  pub bootstrap_token : String
  pub node_name : String
  pub region : String
  pub public_ip : Option String
  pub agent_version : Option String

abbrev pub check_bootstrap : List String → ActivateRequest → Http (Unit {0})
check_bootstrap bootstrap_tokens body =
    raise_if (not (elem body.bootstrap_token bootstrap_tokens)) 403 "invalid bootstrap token"

abbrev pub new_node : ℕ → ℕ → String → Node
new_node id now name = record {
  id = id;
  name = name;
  is_active = true;
  last_seen_at = some now;
  last_metrics = none;
  traffic_monitor_iface = none;
  traffic_billing_start_at = none;
  traffic_billing_cycle_days = 30;
  traffic_monthly_quota_gb = none;
  traffic_correction_bytes = some (pos 0);
  traffic_pending_bytes_in = some 0;
  traffic_pending_bytes_out = some 0;
  traffic_last_sample_at = none;
}

-- The random texts of an activation: the key and the token, and the token's digest.
pub record Fresh : Type 0 where
  pub node_key : String
  pub raw_token : String

pub record ActivateResponse : Type 0 where
  pub node_id : ℕ
  pub node_key : String
  pub node_token : String

unfoldable pub activate_node :
    (String → String)
    → (String → Option Address)
    → List String
    → ℕ
    → Fresh
    → ActivateRequest
    → NodesWorld
    → Http (ActivateResponse × NodesWorld)
unfolding normalize_node_public_ip
activate_node hash_token ip_address bootstrap_tokens now fresh body w =
    let id = w.next_node_id in
    let row : NodeRow = record {
      node = new_node id now body.node_name;
      node_key = fresh.node_key;
      region = body.region;
      country = some body.region;
      public_ip = normalize_node_public_ip ip_address body.public_ip;
      agent_version = body.agent_version;
    } in
    let token : NodeToken = record {
      node_id = id;
      token_hash = hash_token fresh.raw_token;
      revoked_at = none;
    } in
    check_bootstrap bootstrap_tokens body
    >> ok (
      record { node_id = id; node_key = fresh.node_key; node_token = fresh.raw_token },
      record w {
        rows = w.rows ++ (row ∷ []);
        tokens = w.tokens ++ (token ∷ []);
        next_node_id = suc id;
      },
    )

unfoldable pub bootstrap_check : List String → ActivateRequest → Http Bool
bootstrap_check bootstrap_tokens body = check_bootstrap bootstrap_tokens body >> ok true

pub record HeartbeatRequest : Type 0 where
  pub public_ip : Option String
  pub metrics : Option Metrics
  pub node_name : Option String
  pub agent_version : Option String

-- `new or old`, where a text that is missing or empty leaves the old value
abbrev pub or_kept : Option String → Option String → Option String
or_kept none old = old
or_kept (some new) old = if str_eq new "" then old else some new

abbrev pub kept_name : Option String → String → String
kept_name name old = if str_eq (strip (or_empty name)) "" then old else strip (or_empty name)

-- The columns that a heartbeat writes, before the metrics.
unfoldable pub report_row : (String → Option Address) → ℕ → HeartbeatRequest → NodeRow → NodeRow
unfolding normalize_node_public_ip strip
report_row ip_address now body row = record row {
  node = record row.node { last_seen_at = some now; name = kept_name body.node_name row.node.name };
  public_ip = or_kept (normalize_node_public_ip ip_address body.public_ip) row.public_ip;
  agent_version = or_kept body.agent_version row.agent_version;
}

-- The heartbeat of the node of an id, on the first row that has it.
unfoldable pub beat :
    (String → Option Address)
    → Settings
    → ℕ
    → HeartbeatRequest
    → ℕ
    → List NodeRow
    → List NodeTrafficSample × Outbox
    → List NodeRow × List NodeTrafficSample × Outbox
unfolding report_row process_heartbeat_metrics
beat ip_address settings now body id [] (samples, outbox) = ([], samples, outbox)
beat ip_address settings now body id (row ∷ rows) (samples, outbox) =
    let (rest, samples', outbox') = beat ip_address settings now body id rows (samples, outbox) in
    let row' = report_row ip_address now body row in
    let done : World =
      process_heartbeat_metrics settings now body.metrics
        (record { node = row'.node; samples = samples; outbox = outbox }) in
    if row.node.id == id
    then (record row' { node = done.node } ∷ rows, done.samples, done.outbox)
    else (row ∷ rest, samples', outbox')

unfoldable pub heartbeat :
    (String → String)
    → (String → Option Address)
    → Settings
    → ℕ
    → Option String
    → HeartbeatRequest
    → NodesWorld
    → Http NodesWorld
unfolding auth_node beat
heartbeat hash_token ip_address settings now authorization body w = do
  node ← auth_node hash_token authorization w.tokens (nodes_of w.rows)
  let (rows, samples, outbox) =
      beat ip_address settings now body node.id w.rows (w.samples, w.outbox)
  ok (record w { rows = rows; samples = samples; outbox = commit_alerts outbox })

pub record ConfigAck : Type 0 where
  pub version : String
  pub status : String
  pub message : Option String

unfoldable pub ack_config :
    (String → String) → Settings → ℕ → Option String → ConfigAck → NodesWorld → Http NodesWorld
unfolding auth_node concat show emit_alert
ack_config hash_token settings now authorization body w = do
  node ← auth_node hash_token authorization w.tokens (nodes_of w.rows)
  let message = or_text body.message (concat ("config " ∷ body.version ∷ " apply failed" ∷ []))
  let subject =
      concat ("[GFC] Config apply failed on node " ∷ node.name ∷ "(" ∷ show node.id ∷ ")" ∷ [])
  let (added, created) =
      emit_alert settings now (some node.id) none "critical" "config_apply_failed" message
        w.outbox.events w.outbox.added
  ok (
      if str_eq body.status "failed"
      then record w {
        outbox =
            commit_alerts
              (record w.outbox { added = added; mails = (subject, message) ∷ w.outbox.mails });
      }
      else w)
