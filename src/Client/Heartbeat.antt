-- ===== src/Client/Heartbeat.antt =====
-- The heartbeat of a client device, client_heartbeat of
-- gfc-platform/control-plane/api/app/clients.py, with the check of its token and the tunnel's flow
-- statistics; the checks of a key are in reverse_ssh.py. The hash of a token is an argument. A
-- dictionary of the request that is missing or empty is `none`;
-- metrics are `none` only where they are missing, since an empty dictionary is stored.
pub mod Tables
pub mod Commands
use sip_proxy.Common.{
  ℕ, zero, suc, ◌+◌, ◌*◌, String, Bool, true, false, not, ◌&&◌, ◌||◌, Option, none, some, List, [],
  ◌∷◌, any, filter, find, leb, ◌==◌, str_eq, if◌then◌else◌,
}
use sip_proxy.Common.Text.{strip, lower, elem, join, or_empty, starts_with}
use sip_proxy.Common.Text.Words.{words, after_space}
use sip_proxy.Common.Int.{ℤ, pos, negsuc, pos_part}
use sip_proxy.Common.Dict.{Json, int_or}
use sip_proxy.Common.Http.{Http, ok, error, ◌>>=◌}
use Prim.Native.Nat.{max}
use sip_proxy.Client.Models.{
  ClientDevice, ClientMetrics, TunnelTraffic, PendingCommand, LastUpgrade,
}
use sip_proxy.Client.Sessions.{session_active}
use sip_proxy.Client.Ports
use sip_proxy.Client.Ports.{set_port, is_empty, replace_device, ensure_device_reverse_ports}
use sip_proxy.Client.Activation.{
  World, Line, ClientToken, given, is_none, name_source, is_placeholder_device_name,
}

pub record Ack : Type 0 where
  pub request_id : String
  pub status : Option String
  pub message : Option String

-- `reverse_ssh_status` is whether the dictionary says "active".
pub record HeartbeatRequest : Type 0 where
  pub metrics : Option ClientMetrics
  pub device_name : Option String
  pub agent_version : Option String
  pub ssh_public_key : Option String
  pub reverse_ssh_status : Option Bool
  pub proxy_mode : Option String
  pub device_command_ack : Option Ack

pub record FlowStat : Type 0 where
  pub node_id : ℕ
  pub line_id : ℕ
  pub window_start : ℕ
  pub window_seconds : ℕ
  pub bytes_in : ℕ
  pub bytes_out : ℕ
  pub active_conns : ℤ

-- The device that a header's token belongs to.
unfoldable pub auth_client :
    (String → String) → Option String → List ClientToken → List ClientDevice → Http ClientDevice
unfolding strip lower starts_with after_space
auth_client hash authorization tokens devices =
    if not (starts_with "bearer " (lower (or_empty authorization)))
    then error 401 "missing client token"
    else elim (find
        (λ (d : ClientDevice).
          d.is_active
          && any
              (λ (t : ClientToken).
                t.device_id == d.id
                && str_eq t.token_hash (hash (strip (after_space (or_empty authorization))))
                && is_none t.revoked_at)
              tokens)
        devices) [ none ↦ error 401 "invalid client token" | some device ↦ ok device ]

abbrev pub find_line : Option ℕ → List Line → Option Line
find_line none lines = none
find_line (some id) lines = find (λ (l : Line). l.id == id) lines

-- The name of an automatic device: the reported one, or the line's where there is none yet.
unfoldable pub sync_name : HeartbeatRequest → List Line → ClientDevice → ClientDevice
unfolding strip
sync_name body lines device =
    if str_eq (name_source device) "admin"
    then device
    else if not (is_placeholder_device_name body.device_name)
    then record device { name = strip (or_empty body.device_name) }
    else if is_placeholder_device_name (some device.name)
    then elim (find_line device.line_id lines) [
      | none ↦ device
      | some line ↦ if str_eq line.tid "" then device else record device { name = line.tid }
    ]
    else device

-- `value or old`, for the two columns that a report may set
abbrev pub reported : Option String → Option String → Option String
reported value old = elim (given value) [ none ↦ old | some v ↦ some v ]

unfoldable pub validate_ssh_public_key : String → Option String
unfolding words join
validate_ssh_public_key key = elim (words key) [
  | [] ↦ none
  | kind ∷ rest ↦ elim rest [
    | [] ↦ none
    | second ∷ more ↦
        if elem kind ("ssh-ed25519" ∷ "ssh-rsa" ∷ "ecdsa-sha2-nistp256" ∷ [])
        then some (join " " (kind ∷ second ∷ more))
        else none
  ]
]

-- The key of the request, where it is given and valid.
abbrev pub new_key : HeartbeatRequest → Option String
new_key body = elim (given body.ssh_public_key) [
  | none ↦ none
  | some key ↦ validate_ssh_public_key key
]

abbrev pub set_key : Option String → ClientDevice → ClientDevice
set_key none device = device
set_key (some key) device = record device { ssh_public_key = some key }

unfoldable pub report_tunnel : ℕ → Option Bool → ClientDevice → ClientDevice
report_tunnel now status device =
    let told : ClientDevice = elim status [
      | none ↦ device
      | some up ↦
          if up
          then record device { reverse_ssh_tunnel_reported_at = some now }
          else if session_active now device
          then record device { reverse_ssh_tunnel_reported_at = none }
          else device
    ] in
    if session_active now told then told else record told { reverse_ssh_tunnel_reported_at = none }

-- The acknowledgement names the command that is pending.
abbrev pub is_acked : Ack → PendingCommand → Bool
is_acked ack pending = not (str_eq ack.request_id "") && str_eq ack.request_id pending.request_id

abbrev pub ack_status : Ack → String
ack_status ack = elim (given ack.status) [ none ↦ "ok" | some s ↦ s ]

-- What an acknowledged command leaves on the row.
unfoldable pub complete_command : ℕ → Ack → PendingCommand → ClientDevice → ClientDevice
complete_command now ack pending device =
    let cleared : ClientDevice =
      if str_eq pending.action "factory_reset_soft"
      then record device { code_cleared_at = some now }
      else device in
    if str_eq pending.action "runtime_upgrade"
    then record cleared {
      last_upgrade = some (record {
        status = ack_status ack;
        version = pending.version;
        artifact_id = pending.artifact_id;
        request_id = ack.request_id;
        message = or_empty ack.message;
        reported_at = now;
      });
      agent_version =
          if elem (ack_status ack) ("ok" ∷ "applied" ∷ "success" ∷ [])
          then reported pending.version cleared.agent_version
          else cleared.agent_version;
    }
    else cleared

unfoldable pub ack_command : ℕ → Option Ack → ClientDevice → ClientDevice
unfolding complete_command
ack_command now none device = device
ack_command now (some ack) device = elim device.pending_command [
  | none ↦ device
  | some pending ↦
      if is_acked ack pending
      then complete_command now ack pending (record device { pending_command = none })
      else device
]

-- `none` is an error of `int` or a negative count, which end the call.
unfoldable pub flow_counts : TunnelTraffic → Option (ℕ × (ℕ × (ℤ × ℤ)))
unfolding int_or
flow_counts tunnel = elim (int_or 0 tunnel.bytes_in) [
  | none ↦ none
  | some bytes_in ↦ elim (int_or 0 tunnel.bytes_out) [
    | none ↦ none
    | some bytes_out ↦ elim (int_or 10 tunnel.window_seconds) [
      | none ↦ none
      | some window ↦ elim (int_or 0 tunnel.active_conns) [
        | none ↦ none
        | some conns ↦ elim bytes_in [
          | negsuc _ ↦ none
          | pos b ↦ elim bytes_out [ negsuc _ ↦ none | pos c ↦ some (b, (c, (window, conns))) ]
        ]
      ]
    ]
  ]
]

abbrev pub is_zero : ℤ → Bool
is_zero (pos n) = n == 0
is_zero (negsuc n) = false

-- Rows older than 25 hours are removed when one is added.
unfoldable pub add_flow : ℕ → Line → ℕ × (ℕ × (ℤ × ℤ)) → List FlowStat → List FlowStat
add_flow now line (bytes_in, (bytes_out, (window, conns))) flows =
    filter (λ (f : FlowStat). leb now (f.window_start + 25 * 3600))
      (record {
        node_id = line.node_id;
        line_id = line.id;
        window_start = now;
        window_seconds = max 1 (pos_part window);
        bytes_in = bytes_in;
        bytes_out = bytes_out;
        active_conns = conns;
      }
        ∷ flows)

unfoldable pub record_tunnel_flow :
    ℕ → ClientDevice → ClientMetrics → List Line → List FlowStat → List FlowStat
unfolding flow_counts add_flow
record_tunnel_flow now device metrics lines flows =
    if is_empty (set_port device.line_id) then flows else elim metrics.tunnel_traffic [
      | none ↦ flows
      | some tunnel ↦ elim (flow_counts tunnel) [
        | none ↦ flows
        | some counts ↦
            if counts.0 == 0 && counts.1.0 == 0 && is_zero counts.1.1.1
            then flows
            else elim (find_line device.line_id lines) [
              | none ↦ flows
              | some line ↦ add_flow now line counts flows
            ]
      ]
    ]

-- The columns that a report sets before the ports are ensured.
unfoldable pub report_device : ℕ → HeartbeatRequest → List Line → ClientDevice → ClientDevice
unfolding sync_name
report_device now body lines device =
    let named = sync_name body lines (record device { last_seen_at = some now }) in
    record named {
      agent_version = reported body.agent_version named.agent_version;
      proxy_mode = elim (given body.proxy_mode) [ none ↦ named.proxy_mode | some mode ↦ mode ];
    }

-- The columns that it sets after.
unfoldable pub settle_device : ℕ → HeartbeatRequest → ClientDevice → ClientDevice
unfolding ack_command report_tunnel validate_ssh_public_key
settle_device now body device =
    let acked =
      ack_command now body.device_command_ack
        (report_tunnel now body.reverse_ssh_status (set_key (new_key body) device)) in
    elim body.metrics [ none ↦ acked | some metrics ↦ record acked { last_metrics = some metrics } ]

pub record HeartbeatWorld : Type 0 where
  pub world : World
  pub flows : List FlowStat

-- Whether the file of authorised keys is written again, and what the device is to do.
pub record HeartbeatResponse : Type 0 where
  pub keys_synced : Bool
  pub server_time : ℕ
  pub reverse_ssh : Option (ℕ × Option ℕ)
  pub device_command : Option PendingCommand

-- The ports that a device with a session is told to forward, ssh and http.
unfoldable pub build_reverse_ssh_command : ℕ → ClientDevice → Option (ℕ × Option ℕ)
build_reverse_ssh_command now device =
    if not (session_active now device) then none else elim device.reverse_ssh_port [
      | none ↦ none
      | some zero ↦ none
      | some (suc n) ↦ elim (given device.ssh_public_key) [
        | none ↦ none
        | some _ ↦ some (
          suc n,
          elim device.reverse_http_port [
            | none ↦ none
            | some zero ↦ none
            | some (suc m) ↦ some (suc m)
          ],
        )
      ]
    ]

-- The command that is still pending, where it has an action and a request id.
abbrev pub pending_answer : Option PendingCommand → Option PendingCommand
pending_answer none = none
pending_answer (some p) = if str_eq p.action "" || str_eq p.request_id "" then none else some p

unfoldable pub finish_heartbeat :
    ℕ
    → HeartbeatRequest
    → HeartbeatWorld
    → Option ClientDevice × Ports.Db
    → Http (HeartbeatResponse × HeartbeatWorld)
unfolding settle_device record_tunnel_flow build_reverse_ssh_command
finish_heartbeat now body w (none, db) = error 500 "reverse ssh port pool"
finish_heartbeat now body w (some device, db) =
    let settled = settle_device now body device in
    ok (
      record {
        keys_synced = not (is_none (new_key body));
        server_time = now;
        reverse_ssh = build_reverse_ssh_command now settled;
        device_command = pending_answer settled.pending_command;
      },
      record {
        world = record w.world { db = record db { devices = replace_device settled db.devices } };
        flows = elim body.metrics [
          | none ↦ w.flows
          | some metrics ↦ record_tunnel_flow now settled metrics w.world.lines w.flows
        ];
      },
    )

unfoldable pub client_heartbeat :
    (String → String)
    → Ports.Settings
    → ℕ
    → Option String
    → HeartbeatRequest
    → HeartbeatWorld
    → Http (HeartbeatResponse × HeartbeatWorld)
unfolding report_device
client_heartbeat hash settings now authorization body w = do
  device ← auth_client hash authorization w.world.tokens w.world.db.devices
  let device' = report_device now body w.world.lines device
  finish_heartbeat now body w (
      ensure_device_reverse_ports settings now device'
        (record w.world.db { devices = replace_device device' w.world.db.devices }))
