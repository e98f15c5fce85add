-- ===== src/Client/Custody.antt =====
-- What the platform does to a client device, in gfc-platform/control-plane/api/app/admin.py: its
-- update, soft reset and upgrade. `now` is the value of `utc_now()`, a
-- request id is given, and the operator is a name and a role.
pub mod Departure
pub mod Remote
pub mod RemoteKeys
pub mod Lines
pub mod Keys
pub mod Tombstones
pub mod Spec
pub mod Effects
pub mod Handlers
pub mod Retirement
pub mod Runs
pub mod Linked
pub mod LinkedHandlers
pub mod LinkedRuns
pub mod Tests
use sip_proxy.Common.{
  ℕ, zero, suc, ◌+◌, String, Bool, true, false, not, ◌&&◌, Option, none, some, List, [], ◌∷◌, any,
  filter, find, leb, ◌==◌, str_eq, if◌then◌else◌,
}
use sip_proxy.Common.Text.{strip, upper, or_empty, concat}
use sip_proxy.Common.Text.Numbers.{show}
use sip_proxy.Common.Int.{pos}
use sip_proxy.Common.Dict.{Dict, Json, null, bool, int, str, lookup, insert}
use sip_proxy.Common.Http.{Http, ok, error, raise_if, ◌>>=◌, ◌>>◌}
use sip_proxy.Access.Policies.{filter_client_device_update, assert_client_device_deletable}
use sip_proxy.Client.Models.{ClientDevice, PendingCommand, LastUpgrade}
use sip_proxy.Client.Ports
use sip_proxy.Client.Ports.{
  replace_device, ensure_device_reverse_ports, release_device_reverse_ports,
}
use sip_proxy.Client.Tables.{World, Tombstone, ClientToken, Line, LogEntry}
use sip_proxy.Client.Activation.{given, is_none, opt_eq, find_device, has_tombstone, next_id}

pub record Operator : Type 0 where
  pub username : String
  pub role : String

-- `session.get(ClientDevice, id)`
abbrev pub find_row : ℕ → List ClientDevice → Option ClientDevice
find_row id = find (λ (d : ClientDevice). d.id == id)

-- `session.get`, or 404.
abbrev pub get_row : ℕ → World → Http ClientDevice
get_row id w = elim (find_row id w.db.devices) [
  | none ↦ error 404 "client device not found"
  | some d ↦ ok d
]

abbrev pub log_op : Operator → String → String → Option String → World → World
log_op operator action target detail w = record w {
  log =
      record { username = operator.username; action = action; target = target; detail = detail }
      ∷ w.log;
}

-- The commit of a row that the handler has changed.
abbrev pub save_row : ClientDevice → World → World
save_row d w = record w { db = record w.db { devices = replace_device d w.db.devices } }

-- A line of that id, which no other device holds.
unfoldable pub check_line : ℕ → Option Json → World → Http (Unit {0})
check_line device_id none w = ok tt
check_line device_id (some null) w = ok tt
check_line device_id (some (int (pos line_id))) w =
    elim (find (λ (l : Line). l.id == line_id) w.lines) [
      | none ↦ error 400 "line not found"
      | some _ ↦
          raise_if
            (any (λ (d : ClientDevice). opt_eq d.line_id line_id && not (d.id == device_id))
              w.db.devices)
            409 "line already bound to another device"
    ]
check_line device_id (some _) w = error 400 "line not found"

-- The trimmed name, where one is given.
unfoldable pub trim_name : Dict Json → Http (Dict Json)
unfolding strip
trim_name fields = elim (lookup "name" fields) [
  | none ↦ ok fields
  | some v ↦ elim v [
    | str s ↦
        if str_eq (strip s) ""
        then error 400 "device name cannot be empty"
        else ok (insert "name" (str (strip s)) fields)
    | _ ↦ ok fields
  ]
]

-- The stamps that a name and a line leave.
unfoldable pub stamp_device : ℕ → Dict Json → ClientDevice → ClientDevice
stamp_device now fields device =
    let named : ClientDevice = elim (lookup "name" fields) [
      | none ↦ device
      | some v ↦ elim v [ str _ ↦ record device { name_source = some "admin" } | _ ↦ device ]
    ] in
    elim (lookup "line_id" fields) [
      | none ↦ named
      | some v ↦ elim v [
        | null ↦ record named { binding_revoked_at = some now }
        | _ ↦ record named { binding_revoked_at = none; code_cleared_at = none }
      ]
    ]

-- A number that is not negative, or null, of the request: by its type a column's value.
abbrev pub number_of : Json → Option ℕ
number_of (int (pos n)) = some n
number_of _ = none

abbrev pub text_or : String → Json → String
text_or old (str s) = s
text_or old _ = old

abbrev pub bool_or : Bool → Json → Bool
bool_or old (bool b) = b
bool_or old _ = old

-- The column of a name, where the request sets it.
abbrev pub column_or {ℓ} : {A : Type ℓ} → (A → Json → A) → String → Dict Json → A → A
column_or f k fields old = elim (lookup k fields) [ none ↦ old | some v ↦ f old v ]

-- `setattr(device, k, v)` for each field, column by column. The request has no other fields, and
-- its numbers are not negative; null where the column takes none is an error of the database, which is
-- not modelled.
unfoldable pub set_fields : Dict Json → ClientDevice → ClientDevice
set_fields fields d = record d {
  name = column_or text_or "name" fields d.name;
  line_id = column_or (λ _. number_of) "line_id" fields d.line_id;
  reverse_ssh_port = column_or (λ _. number_of) "reverse_ssh_port" fields d.reverse_ssh_port;
  proxy_mode = column_or text_or "proxy_mode" fields d.proxy_mode;
  routing_scheme = column_or text_or "routing_scheme" fields d.routing_scheme;
  is_active = column_or bool_or "is_active" fields d.is_active;
}

unfoldable pub update_client_device : Operator → ℕ → ℕ → Dict Json → World → Http World
unfolding stamp_device set_fields
update_client_device operator now device_id body w = do
  device ← get_row device_id w
  fields ← filter_client_device_update operator.role body
  check_line device_id (lookup "line_id" fields) w
  trimmed ← trim_name fields
  ok (
      log_op operator "update_client_device" device.device_key none
        (save_row (set_fields trimmed (stamp_device now trimmed device)) w))

abbrev pub reset_device : ℕ → String → ClientDevice → ClientDevice
reset_device now request_id device = record device {
  line_id = none;
  binding_revoked_at = some now;
  code_cleared_at = some now;
  pending_command = some (record {
    action = "factory_reset_soft";
    request_id = request_id;
    artifact_id = none;
    version = none;
  });
}

unfoldable pub soft_factory_reset : Operator → ℕ → String → ℕ → World → Http World
unfolding concat show
soft_factory_reset operator now request_id device_id w = do
  device ← get_row device_id w
  ok (
      log_op operator "soft_factory_reset" device.device_key
        (some (concat ("id=" ∷ show device_id ∷ " request_id=" ∷ request_id ∷ [])))
        (save_row (reset_device now request_id device) w))

pub record Artifact : Type 0 where
  pub id : ℕ
  pub version : String
  pub is_enabled : Bool

-- The row after `queue_device_upgrade`.
abbrev pub queue_device_upgrade : ℕ → String → String → Artifact → ClientDevice → ClientDevice
queue_device_upgrade now request_id message artifact device = record device {
  pending_command = some (record {
    action = "runtime_upgrade";
    request_id = request_id;
    artifact_id = some artifact.id;
    version = some artifact.version;
  });
  last_upgrade = some (record {
    status = "queued";
    version = some artifact.version;
    artifact_id = some artifact.id;
    request_id = request_id;
    message = message;
    reported_at = now;
  });
}

unfoldable pub upgrade_client_device :
    Operator → ℕ → String → ℕ → ℕ → List Artifact → World → Http World
unfolding concat show
upgrade_client_device operator now request_id artifact_id device_id artifacts w = do
  device ← get_row device_id w
  elim (find (λ (a : Artifact). a.id == artifact_id) artifacts) [
    | none ↦ error 404 "artifact not found"
    | some artifact ↦
        if not artifact.is_enabled
        then error 400 "artifact is disabled"
        else ok (
            log_op operator "queue_runtime_upgrade" device.device_key
              (some (concat ("artifact=" ∷ show artifact.id ∷ " version=" ∷ artifact.version ∷ [])))
              (save_row
                (queue_device_upgrade now request_id
                  (concat ("queued by " ∷ operator.username ∷ [])) artifact device)
                w))
  ]
