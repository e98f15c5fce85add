-- ===== src/Nodes/Endpoints/Tests.antt =====
-- A table of one node, an activation and a heartbeat there.
use sip_proxy.Common.{String, ◌≡◌, refl, true, false, Option, none, some, [], ◌∷◌, arith}
use sip_proxy.Common.Http.{ok}
use sip_proxy.Common.Text.{strip}
use sip_proxy.Nodes.Models.{Node, node_is_online}
use sip_proxy.Nodes.Alerts.{Settings}
use sip_proxy.Nodes.Tokens.{auth_node}
use sip_proxy.Nodes.Endpoints.{
  NodeRow, Address, NodesWorld, HeartbeatRequest, ActivateRequest, ActivateResponse, Fresh,
  nodes_of, new_node, normalize_node_public_ip, heartbeat, activate_node,
}
use sip_proxy.Nodes.Endpoints.Presence.{row_of, heartbeat-online}
use sip_proxy.Nodes.Endpoints.Enrolment.{IsSameOrRefused, bearer, activate_node-auth_node}

abbrev settings : Settings
settings = record { alert_dedup_minutes = 30; node_offline_threshold_seconds = 120 }

-- A private address of the fourth version, and no other.
abbrev private : String → Option Address
private text = some (record {
  version = 4;
  is_private = true;
  is_loopback = false;
  is_link_local = false;
  is_multicast = false;
  is_reserved = false;
  is_unspecified = false;
})

private_test : normalize_node_public_ip private (some " 10.0.0.1") ≡ none
unfolding normalize_node_public_ip
private_test = refl

abbrev world : NodesWorld
world = record {
  rows =
      record {
        node = new_node 3 100 "tokyo";
        node_key = "k";
        region = "jp";
        country = none;
        public_ip = none;
        agent_version = none;
      }
      ∷ [];
  tokens = record { node_id = 3; token_hash = "secret"; revoked_at = none } ∷ [];
  samples = [];
  outbox = record { events = []; added = []; mails = [] };
  next_node_id = 4;
}

abbrev beat_body : HeartbeatRequest
beat_body = record {
  public_ip = none;
  metrics = none;
  node_name = some " osaka";
  agent_version = none;
}

heartbeat-online_example :
    (w' : NodesWorld) × (row : NodeRow) × (heartbeat
        (λ t. t)
        private
        settings
        900
        (some "bearer secret")
        beat_body
        world
      ≡ ok w')
    × (row_of 3 w'.rows ≡ some row)
    × (node_is_online 90 950 row.node ≡ true)
    × (row_of 5 w'.rows ≡ row_of 5 world.rows)
unfolding auth_node
heartbeat-online_example =
    heartbeat-online (λ t. t) private settings 900 (some "bearer secret") beat_body world
      (new_node 3 100 "tokyo") 90 950 5 refl (omega arith) refl

abbrev fresh : Fresh
fresh = record { node_key = "k4"; raw_token = "node_abc" }

abbrev request : ActivateRequest
request = record {
  bootstrap_token = "boot";
  node_name = "osaka";
  region = "jp";
  public_ip = none;
  agent_version = none;
}

activate_node-auth_node_example :
    (answer : ActivateResponse) × (w' : NodesWorld) × (node : Node) × (activate_node
        (λ t. t)
        private
        ("boot" ∷ [])
        900
        fresh
        request
        world
      ≡ ok (answer, w'))
    × (node.id ≡ answer.node_id)
    × (auth_node (λ t. t) (bearer answer.node_token) w'.tokens (nodes_of w'.rows) ≡ ok node)
    × IsSameOrRefused
        (auth_node (λ t. t) (some "bearer secret") world.tokens (nodes_of world.rows))
        (auth_node (λ t. t) (some "bearer secret") w'.tokens (nodes_of w'.rows))
unfolding strip
activate_node-auth_node_example =
    activate_node-auth_node (λ t. t) private ("boot" ∷ []) 900 fresh request world
      (some "bearer secret") refl (omega arith, tt) refl refl
