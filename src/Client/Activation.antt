-- ===== src/Client/Activation.antt =====
-- Activation of a client device by a line code, `activate_client` of
-- gfc-platform/control-plane/api/app/clients.py. The request carries the decoded line code. What the
-- handler draws at random is given by `Env`; on an error nothing is committed, so an error has no state.
pub mod Rows
pub mod Release
pub mod Steps
pub mod Binding
pub mod Checked
pub mod Bound
use Prim.Native.Nat.{max}
use sip_proxy.Common.{
  ℕ, zero, suc, ◌+◌, ◌*◌, String, Bool, true, false, not, ◌&&◌, ◌||◌, Option, none, some, List, [],
  ◌∷◌, any, find, ◌==◌, str_eq, if◌then◌else◌,
}
use sip_proxy.Common.Text.{strip, lower, upper, without, elem, or_empty}
use sip_proxy.Common.Http.{Http, ok, error, raise_if, ◌>>=◌, ◌>>◌}
use sip_proxy.Client.Models.{ClientDevice}
use sip_proxy.Client.Ports
pub use sip_proxy.Client.Tables.{Line, NodeRow, Tombstone, ClientToken, World}
use sip_proxy.Client.Ports.{replace_device, ensure_device_reverse_ports}

pub record LineCode : Type 0 where
  pub line_id : Option ℕ
  pub uuid : Option String

-- `code` is `none` where the line code does not decode.
pub record Request : Type 0 where
  pub code : Option LineCode
  pub device_name : String
  pub lan_mac : Option String
  pub device_id : Option String
  pub agent_version : Option String
  pub proxy_mode : String

-- The clock, the settings, a random device key, a new token with its hash, and the key pair of a
-- node, `none` where it cannot be made.
pub record Env : Type 0 where
  pub now : ℕ
  pub settings : Ports.Settings
  pub random_key : String
  pub raw_token : String
  pub token_hash : String
  pub reality_config : Option String

pub record Response : Type 0 where
  pub device_id : ℕ
  pub device_key : String
  pub client_token : String
  pub line_id : ℕ
  pub tid : String

-- A text that is neither missing nor empty.
abbrev pub given : Option String → Option String
given none = none
given (some s) = if str_eq s "" then none else some s

unfoldable pub device_key_from_mac : String → Option String → Option String → String
unfolding strip upper without
device_key_from_mac random_key lan_mac device_id = elim (given device_id) [
  | some id ↦ upper (strip id)
  | none ↦ elim (given lan_mac) [
    | some mac ↦ upper (without b'-' (without b':' mac))
    | none ↦ random_key
  ]
]

abbrev pub placeholder_device_names : List String
placeholder_device_names =
    "" ∷ "(none)" ∷ "none" ∷ "openwrt" ∷ "immortalwrt" ∷ "localhost" ∷ "gfc-client" ∷ []

unfoldable pub is_placeholder_device_name : Option String → Bool
unfolding strip lower
is_placeholder_device_name name = elem (lower (strip (or_empty name))) placeholder_device_names

unfoldable pub initial_device_name : Option String → String → String
unfolding strip is_placeholder_device_name
initial_device_name requested tid =
    let name = strip (or_empty requested) in
    if is_placeholder_device_name (some name) then tid else name

-- `(name_source or "auto").strip().lower()`
unfoldable pub name_source : ClientDevice → String
unfolding strip lower
name_source device = elim (given device.name_source) [ none ↦ "auto" | some s ↦ lower (strip s) ]

abbrev pub is_none {ℓ} : {A : Type ℓ} → Option A → Bool
is_none none = true
is_none (some _) = false

abbrev pub opt_eq : Option ℕ → ℕ → Bool
opt_eq none n = false
opt_eq (some m) n = m == n

unfoldable pub has_tombstone : String → List Tombstone → Bool
has_tombstone key rows =
    any (λ (t : Tombstone). str_eq t.device_key key && is_none t.reclaimed_at) rows

abbrev pub find_device : String → List ClientDevice → Option ClientDevice
find_device key = find (λ (d : ClientDevice). str_eq d.device_key key)

-- `line.client_device`
abbrev pub holder : ℕ → List ClientDevice → Option ClientDevice
holder line_id = find (λ (d : ClientDevice). opt_eq d.line_id line_id)

-- Both texts given, and different.
abbrev pub uuid_mismatch : Option String → Option String → Bool
uuid_mismatch expected sent = elim (given expected) [
  | none ↦ false
  | some a ↦ elim (given sent) [ none ↦ false | some b ↦ not (str_eq a b) ]
]

unfoldable pub find_enabled_line : Option LineCode → World → Http Line
find_enabled_line none w = error 400 "invalid line code"
find_enabled_line (some code) w = elim code.line_id [
  | none ↦ error 400 "line code missing lineId"
  | some zero ↦ error 400 "line code missing lineId"
  | some (suc n) ↦ elim (find (λ (l : Line). l.id == suc n) w.lines) [
    | none ↦ error 400 "line not found or disabled"
    | some line ↦
        if not line.is_enabled
        then error 400 "line not found or disabled"
        else if uuid_mismatch line.client_uuid code.uuid
        then error 400 "line code uuid mismatch"
        else ok line
  ]
]

-- The two refusals that look at the device's row.
unfoldable pub check_existing : Option ClientDevice → ℕ → Http (Unit {0})
check_existing none line_id = ok tt
check_existing (some device) line_id =
    if not (is_none device.binding_revoked_at) && is_none device.line_id
    then error 403 "line binding revoked; assign a line from the control platform"
    else elim device.line_id [
      | none ↦ ok tt
      | some zero ↦ ok tt
      | some (suc n) ↦
          if suc n == line_id
          then ok tt
          else error 409
              "device already bound to another line; unbind or rebind from the control platform"
    ]

abbrev pub is_other : Option ClientDevice → ClientDevice → Bool
is_other none bound = true
is_other (some device) bound = not (bound.id == device.id)

-- Another device that holds the line loses it.
unfoldable pub release_holder : ℕ → ℕ → Option ClientDevice → List ClientDevice → List ClientDevice
unfolding replace_device
release_holder now line_id existing devices = elim (holder line_id devices) [
  | none ↦ devices
  | some bound ↦
      if is_other existing bound
      then replace_device (record bound { line_id = none; binding_revoked_at = some now }) devices
      else devices
]

abbrev pub or_key : Option String → String → String
or_key device_id key = elim (given device_id) [ none ↦ key | some id ↦ id ]

unfoldable pub rebind : Request → String → Line → ClientDevice → ClientDevice
rebind body key line device =
    let auto = not (str_eq (name_source device) "admin") in
    record device {
      line_id = if is_none device.line_id then some line.id else device.line_id;
      binding_revoked_at = none;
      code_cleared_at = none;
      name = if auto then initial_device_name (some body.device_name) line.tid else device.name;
      name_source = if auto then some "auto" else device.name_source;
      lan_mac = body.lan_mac;
      device_id = some (or_key body.device_id key);
      proxy_mode = body.proxy_mode;
      agent_version = body.agent_version;
      is_active = true;
    }

-- An id above all others, as the table's counter gives.
abbrev pub next_id : List ClientDevice → ℕ
next_id [] = 1
next_id (d ∷ ds) = max (d.id + 1) (next_id ds)

unfoldable pub new_device : Request → String → Line → ℕ → ClientDevice
new_device body key line id = record {
  id = id;
  device_key = key;
  name = initial_device_name (some body.device_name) line.tid;
  lan_mac = body.lan_mac;
  device_id = some (or_key body.device_id key);
  line_id = some line.id;
  reverse_ssh_port = none;
  reverse_http_port = none;
  ssh_public_key = none;
  reverse_ssh_session_expires_at = none;
  reverse_ssh_session_targets = none;
  reverse_ssh_tunnel_reported_at = none;
  proxy_mode = body.proxy_mode;
  routing_scheme = "split";
  name_source = some "auto";
  binding_revoked_at = none;
  code_cleared_at = none;
  agent_version = body.agent_version;
  is_active = true;
  last_seen_at = none;
  last_metrics = none;
  pending_command = none;
  last_upgrade = none;
}

-- The row of the device and the table that holds it, before its ports are ensured.
unfoldable pub bind_device :
    Request
    → String
    → Line
    → Option ClientDevice
    → List ClientDevice
    → ClientDevice × List ClientDevice
unfolding replace_device rebind new_device
bind_device body key line (some existing) devices =
    let device = rebind body key line existing in (device, replace_device device devices)
bind_device body key line none devices =
    let device = new_device body key line (next_id devices) in (device, device ∷ devices)

-- The key pair of the line's node, where it has none and one can be made.
unfoldable pub ensure_reality : ℕ → Option String → List NodeRow → List NodeRow
ensure_reality node_id config [] = []
ensure_reality node_id config (n ∷ ns) =
    let rest = ensure_reality node_id config ns in
    if n.id == node_id
    then (if is_none (given n.reality_config_json) && not (is_none config)
        then record n { reality_config_json = config } ∷ ns
        else n ∷ ns)
    else n ∷ rest

-- From the device with its ports to the commit.
unfoldable pub finish :
    Env → Line → World → Option ClientDevice × Ports.Db → Http (Response × World)
unfolding ensure_reality
finish env line w (none, db) = error 500 "reverse ssh port pool"
finish env line w (some device, db) = ok (
  record {
    device_id = device.id;
    device_key = device.device_key;
    client_token = env.raw_token;
    line_id = elim device.line_id [ none ↦ line.id | some zero ↦ line.id | some (suc n) ↦ suc n ];
    tid = line.tid;
  },
  record w {
    nodes = ensure_reality line.node_id env.reality_config w.nodes;
    tokens =
        record {
          device_id = device.id;
          token_hash = env.token_hash;
          expires_at = env.now + 365 * 86400;
          revoked_at = none;
        }
        ∷ w.tokens;
    db = db;
  },
)

unfoldable pub activate_client : Env → Request → World → Http (Response × World)
activate_client env body w = do
  line ← find_enabled_line body.code w
  let key = device_key_from_mac env.random_key body.lan_mac body.device_id
  raise_if (has_tombstone key w.tombstones) 403
      "device was hard-retired; ask an admin to reclaim it before activating"
  let existing = find_device key w.db.devices
  check_existing existing line.id
  let (device, devices) =
      bind_device body key line existing (release_holder env.now line.id existing w.db.devices)
  finish env line w
      (ensure_device_reverse_ports env.settings env.now device (record w.db { devices = devices }))
