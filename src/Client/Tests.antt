-- ===== src/Client/Tests.antt =====
-- Runs of the device code on a small table, and its theorems at them.
use sip_proxy.Common.{
  ◌<◌, ℕ, String, ◌≡◌, ◌⊎◌, ◌+◌, ◌*◌, ◌≤◌, refl, true, false, Option, none, some, [], ◌∷◌, arith,
  contains,
}
use mathlib.Core.List.{Memᴰ}
use sip_proxy.Common.Http.{Http, ok, error}
use sip_proxy.Client.Models.{ClientDevice}
use sip_proxy.Common.Text.{strip, upper, without}
use sip_proxy.Client.Codes.{
  to_digits, strip_padding, b32encode, encode_line_code, normalized, decode_line_code,
}
use sip_proxy.Client.Codes.RoundTrip.{decode_line_code-encode_line_code}
use sip_proxy.Client.Ports.{
  Settings, Db, ports, allocate_reverse_ports, cooling_ports, release_device_reverse_ports,
  ensure_device_reverse_ports, next_port, ports_per_device, ssh_port_max, pool_is_invalid, scan,
  put_all, used_ports,
}
use sip_proxy.Client.Ports.Fresh.{Unheld, ssh_column, allocate_reverse_ports-fresh}
use sip_proxy.Client.Ports.Rounds.{Rounds, allocate_reverse_ports-Rounds}
use sip_proxy.Client.Ports.Supply.{allocate_reverse_ports-finds}
use sip_proxy.Client.Ports.Distinct.{Distinct, ensure_device_reverse_ports-Distinct}
use sip_proxy.Client.Ports.Cooldown.{after_allocations, given_up, release-allocate}
use sip_proxy.Client.Activation.{
  find_device, check_existing, finish, bind_device, release_holder, name_source,
  is_placeholder_device_name, ClientToken, World, Env, Request, Response, Line, activate_client,
  has_tombstone, device_key_from_mac, find_enabled_line,
}
use sip_proxy.Client.Activation.Bound.{Holds, activate_client-binds}
use sip_proxy.Client.Activation.Rows.{Unique}
use sip_proxy.Client.Activation.Checked.{activate_client-checked, activate_client-bound}
use sip_proxy.Client.Heartbeat.{
  HeartbeatRequest, HeartbeatWorld, HeartbeatResponse, Ack, client_heartbeat, ack_command,
  auth_client, finish_heartbeat,
}
use sip_proxy.Client.Models.{PendingCommand}
use sip_proxy.Client.Heartbeat.Commands.{ack_command-cleared_iff}
use sip_proxy.Common.{◌↔◌, str_eq, if◌then◌else◌}

abbrev pub pool : Settings
pool = record {
  client_ssh_port_base = 10000;
  client_ssh_port_max = 10009;
  client_ports_per_device = 2;
  reverse_ssh_port_release_cooldown_seconds = 3600;
}

abbrev single_pool : Settings
single_pool = record pool { client_ports_per_device = 1 }

abbrev pub device : ℕ → String → Option ℕ → Option ℕ → Option ℕ → ClientDevice
device id key line_id ssh http = record {
  id = id;
  device_key = key;
  name = "office";
  lan_mac = none;
  device_id = some key;
  line_id = line_id;
  reverse_ssh_port = ssh;
  reverse_http_port = http;
  ssh_public_key = none;
  reverse_ssh_session_expires_at = none;
  reverse_ssh_session_targets = none;
  reverse_ssh_tunnel_reported_at = none;
  proxy_mode = "rule";
  routing_scheme = "split";
  name_source = some "auto";
  binding_revoked_at = none;
  code_cleared_at = none;
  agent_version = none;
  is_active = true;
  last_seen_at = none;
  last_metrics = none;
  pending_command = none;
  last_upgrade = none;
}

abbrev bound_device : ClientDevice
bound_device = device 1 "AA" (some 7) (some 10000) (some 10001)

abbrev free_device : ClientDevice
free_device = device 2 "BB" none none none

abbrev db : Db
db = record { devices = bound_device ∷ free_device ∷ []; released = [] }

abbrev pub world : World
world = record {
  lines =
      record { id = 7; tid = "line-7"; node_id = 3; client_uuid = none; is_enabled = true } ∷ [];
  nodes = record { id = 3; reality_config_json = none } ∷ [];
  tombstones =
      record {
        device_key = "CC";
        former_device_id = none;
        former_name = none;
        lan_mac = none;
        retired_at = 5;
        retired_by = none;
        reclaimed_at = none;
      }
      ∷ [];
  tokens = [];
  db = db;
  log = [];
}

abbrev env : Env
env = record {
  now = 1000;
  settings = pool;
  random_key = "RANDOM";
  raw_token = "token";
  token_hash = "hash";
  reality_config = some "{}";
}

-- The port above the greatest ssh port is the http port of a device.
abbrev clash : Db
clash = record { devices = device 1 "AA" none (some 10000) (some 10002) ∷ []; released = [] }

-- The second device asks for the line that the first one holds.
abbrev request : Request
request = record {
  code = some (record { line_id = some 7; uuid = none });
  device_name = " OpenWrt ";
  lan_mac = some "aa:bb";
  device_id = some "bb ";
  agent_version = none;
  proxy_mode = "global";
}

abbrev or_world : Http (Response × World) → World
or_world (ok (r, w)) = w
or_world (error status detail) = world

abbrev response : Response
response = record {
  device_id = 2;
  device_key = "BB";
  client_token = "token";
  line_id = 7;
  tid = "line-7";
}

abbrev activated : World
activated = or_world (activate_client env request world)

activate_test : activate_client env request world ≡ ok (response, activated)
unfolding activate_client find_enabled_line has_tombstone device_key_from_mac check_existing finish
    ensure_device_reverse_ports bind_device allocate_reverse_ports pool_is_invalid scan
    release_holder ssh_port_max cooling_ports
activate_test = refl

activate_client-binds_example :
    Unique activated.db.devices
    × (line : Line) × (find_enabled_line request.code world ≡ ok line)
    × (d : ClientDevice) × Memᴰ d activated.db.devices
    × (d.id ≡ response.device_id)
    × (d.device_key ≡ device_key_from_mac env.random_key request.lan_mac request.device_id)
    × Holds line.id d
activate_client-binds_example =
    activate_client-binds env request world activated response (((refl, refl, refl), tt), (tt, tt))
      activate_test

activate_client-checked_example :
    (has_tombstone (device_key_from_mac "RANDOM" (some "aa:bb") (some "bb ")) world.tombstones
      ≡ false)
    × ("BB" ≡ device_key_from_mac "RANDOM" (some "aa:bb") (some "bb "))
    × (activated.tokens
        ≡ record {
          device_id = 2;
          token_hash = "hash";
          expires_at = 1000 + 365 * 86400;
          revoked_at = none;
        }
          ∷ [])
    × (response.client_token ≡ env.raw_token)
    × ((line : Line) × (find_enabled_line request.code world ≡ ok line)
        × Memᴰ line world.lines
        × (line.is_enabled ≡ true)
        × (line.tid ≡ "line-7")
        × (line.id ≡ response.line_id))
activate_client-checked_example =
    activate_client-checked env request world activated response activate_test

found_test :
    find_device (device_key_from_mac "RANDOM" (some "aa:bb") (some "bb ")) world.db.devices
    ≡ some free_device
unfolding device_key_from_mac
found_test = refl

activate_client-bound_example :
    (line : Line) × (find_enabled_line request.code world ≡ ok line)
    × (((free_device.line_id ≡ none) × (free_device.binding_revoked_at ≡ none))
        ⊎ (free_device.line_id ≡ some 0)
        ⊎ (free_device.line_id ≡ some line.id))
activate_client-bound_example =
    activate_client-bound env request world activated response free_device found_test activate_test

allocate_test : (allocate_reverse_ports pool 1000 db).0 ≡ ports 10002 10003
unfolding allocate_reverse_ports pool_is_invalid scan ssh_port_max cooling_ports ports_per_device
allocate_test = refl

allocate_reverse_ports-fresh_example :
    (10003 ≡ 10002 + 1)
    × (10003 ≤ pool.client_ssh_port_max)
    × ((pool.client_ssh_port_base ≤ 10002)
        ⊎ ((p : ℕ) × (contains p (ssh_column db.devices) ≡ true) × (p < 10002)))
    × Unheld 10002 db.devices
    × Unheld 10003 db.devices
    × (contains 10002 (cooling_ports 1000 db).0 ≡ false)
    × (contains 10003 (cooling_ports 1000 db).0 ≡ false)
allocate_reverse_ports-fresh_example =
    allocate_reverse_ports-fresh pool 1000 db (omega arith) allocate_test

ensure_device_reverse_ports-Distinct_example :
    Distinct (ensure_device_reverse_ports pool 1000 free_device db).1.devices
ensure_device_reverse_ports-Distinct_example =
    ensure_device_reverse_ports-Distinct pool 1000 free_device db (omega arith)
      (((refl, (refl, tt)), tt), (tt, tt))

after_release_test :
    (allocate_reverse_ports pool 1500 (
      after_allocations pool
        (1200 ∷ [])
        (release_device_reverse_ports pool 1000 bound_device db))).0
    ≡ ports 10002 10003
unfolding allocate_reverse_ports pool_is_invalid scan ssh_port_max cooling_ports ports_per_device
    release_device_reverse_ports put_all after_allocations
after_release_test = refl

release-allocate_example :
    (contains 10002 (given_up bound_device) ≡ false)
    × (contains 10003 (given_up bound_device) ≡ false)
release-allocate_example =
    release-allocate pool 1000 1500 (1200 ∷ []) bound_device db (omega arith) (omega arith)
      (omega arith) (omega arith, tt) after_release_test

allocate_reverse_ports-finds_example :
    (ssh : ℕ) × ((allocate_reverse_ports pool 1000 db).0 ≡ ports ssh (ssh + 1))
    × (ssh ≤ next_port pool db.devices + 1 * ports_per_device pool)
unfolding pool_is_invalid ssh_port_max cooling_ports ports_per_device
allocate_reverse_ports-finds_example =
    allocate_reverse_ports-finds pool 1000 db 1 refl (omega arith) refl

abbrev beat : HeartbeatRequest
beat = record {
  metrics = none;
  device_name = some "desk";
  agent_version = some "1.2";
  ssh_public_key = none;
  reverse_ssh_status = some true;
  proxy_mode = none;
  device_command_ack = none;
}

abbrev token : ClientToken
token = record { device_id = 1; token_hash = "hash"; expires_at = 5; revoked_at = none }

abbrev beating : HeartbeatWorld
beating = record { world = record world { tokens = token ∷ [] }; flows = [] }

abbrev no_hash : String → String
no_hash token = if str_eq token "token" then "hash" else ""

abbrev or_beating : Http (HeartbeatResponse × HeartbeatWorld) → HeartbeatResponse × HeartbeatWorld
or_beating (ok a) = a
or_beating (error status detail) = (
  record { keys_synced = false; server_time = 0; reverse_ssh = none; device_command = none },
  beating,
)

abbrev beaten : HeartbeatResponse × HeartbeatWorld
beaten = or_beating (client_heartbeat no_hash pool 2000 (some "Bearer token") beat beating)

beat_test : client_heartbeat no_hash pool 2000 (some "Bearer token") beat beating ≡ ok beaten
unfolding client_heartbeat auth_client finish_heartbeat ensure_device_reverse_ports name_source
    is_placeholder_device_name
beat_test = refl

abbrev upgrade : PendingCommand
upgrade = record {
  action = "runtime_upgrade";
  request_id = "r1";
  artifact_id = some 4;
  version = some "1.3";
}

abbrev ack : Ack
ack = record { request_id = "r1"; status = none; message = none }

ack_command-cleared_iff_example :
    ((ack_command 2000
        (some ack)
        (record free_device { pending_command = some upgrade })).pending_command
      ≡ none)
    ↔ ((ack.request_id ≡ upgrade.request_id) × (str_eq ack.request_id "" ≡ false))
ack_command-cleared_iff_example =
    ack_command-cleared_iff 2000 ack upgrade (record free_device { pending_command = some upgrade })
      refl

allocate_reverse_ports-Rounds_example :
    Rounds
      (used_ports [] db.devices)
      (ports_per_device pool)
      (ssh_port_max pool)
      (next_port pool db.devices)
      (allocate_reverse_ports pool 1000 db).0
unfolding pool_is_invalid ports_per_device cooling_ports
allocate_reverse_ports-Rounds_example = allocate_reverse_ports-Rounds pool 1000 db refl

-- The code of the two bytes of "{}".
encode_test : encode_line_code (123 ∷ 125 ∷ []) ≡ "PN6Q"
unfolding encode_line_code b32encode to_digits strip_padding
encode_test = refl

normalized_test : normalized " pn-6 q" ≡ encode_line_code (123 ∷ 125 ∷ [])
unfolding normalized strip upper without encode_line_code b32encode to_digits strip_padding
normalized_test = refl

decode_line_code-encode_line_code_example :
    (decode_line_code (encode_line_code (123 ∷ 125 ∷ [])) ≡ some (123 ∷ 125 ∷ []))
    × (decode_line_code " pn-6 q" ≡ some (123 ∷ 125 ∷ []))
decode_line_code-encode_line_code_example =
    decode_line_code-encode_line_code (123 ∷ 125 ∷ []) " pn-6 q" (omega arith, (omega arith, tt))
      normalized_test
