-- ===== src/Client/Tables.antt =====
-- The tables that the client's handlers share, in gfc-platform/control-plane/api/app/models.py: the
-- columns that they read or write.
use sip_proxy.Common.{ℕ, String, Bool, Option, List}
use sip_proxy.Client.Ports

pub record Line : Type 0 where
  pub id : ℕ
  pub tid : String
  pub node_id : ℕ
  pub client_uuid : Option String
  pub is_enabled : Bool

pub record NodeRow : Type 0 where
  pub id : ℕ
  pub reality_config_json : Option String

pub record Tombstone : Type 0 where
  pub device_key : String
  pub former_device_id : Option ℕ
  pub former_name : Option String
  pub lan_mac : Option String
  pub retired_at : ℕ
  pub retired_by : Option String
  pub reclaimed_at : Option ℕ

pub record ClientToken : Type 0 where
  pub device_id : ℕ
  pub token_hash : String
  pub expires_at : ℕ
  pub revoked_at : Option ℕ

-- A row of the operation log, the newest first.
pub record LogEntry : Type 0 where
  pub username : String
  pub action : String
  pub target : String
  pub detail : Option String

pub record World : Type 0 where
  pub lines : List Line
  pub nodes : List NodeRow
  pub tombstones : List Tombstone
  pub tokens : List ClientToken
  pub db : Ports.Db
  pub log : List LogEntry
