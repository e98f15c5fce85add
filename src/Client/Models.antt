-- ===== src/Client/Models.antt =====
-- The table of client devices, in gfc-platform/control-plane/api/app/models.py: the columns that
-- the modelled code reads or writes. A time is the number of seconds since the epoch.
use sip_proxy.Common.Dict.{Json}
use sip_proxy.Common.{ℕ, String, Bool, Option, List}

-- The tunnel part of a device's metrics, where it is a dictionary.
pub record TunnelTraffic : Type 0 where
  pub bytes_in : Json
  pub bytes_out : Json
  pub window_seconds : Json
  pub active_conns : Json

pub record ClientMetrics : Type 0 where
  pub tunnel_traffic : Option TunnelTraffic

-- The document of `pending_device_command_json`; a missing action or request id is the empty text.
pub record PendingCommand : Type 0 where
  pub action : String
  pub request_id : String
  pub artifact_id : Option ℕ
  pub version : Option String

-- The document of `last_upgrade_json`.
pub record LastUpgrade : Type 0 where
  pub status : String
  pub version : Option String
  pub artifact_id : Option ℕ
  pub request_id : String
  pub message : String
  pub reported_at : ℕ

-- `reverse_ssh_session_targets` is the list that parse_session_targets reads in the column's text.
pub record ClientDevice : Type 0 where
  pub id : ℕ
  pub device_key : String
  pub name : String
  pub lan_mac : Option String
  pub device_id : Option String
  pub line_id : Option ℕ
  pub reverse_ssh_port : Option ℕ
  pub reverse_http_port : Option ℕ
  pub ssh_public_key : Option String
  pub reverse_ssh_session_expires_at : Option ℕ
  pub reverse_ssh_session_targets : Option (List String)
  pub reverse_ssh_tunnel_reported_at : Option ℕ
  pub proxy_mode : String
  pub routing_scheme : String
  pub name_source : Option String
  pub binding_revoked_at : Option ℕ
  pub code_cleared_at : Option ℕ
  pub agent_version : Option String
  pub is_active : Bool
  pub last_seen_at : Option ℕ
  pub last_metrics : Option ClientMetrics
  pub pending_command : Option PendingCommand
  pub last_upgrade : Option LastUpgrade
