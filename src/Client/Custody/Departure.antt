-- ===== src/Client/Custody/Departure.antt =====
-- The hard retirement of a client device and its return, delete_client_device and
-- reclaim_client_device of gfc-platform/control-plane/api/app/admin.py.
use sip_proxy.Common.{
  ℕ, ◌+◌, String, Bool, true, false, not, ◌&&◌, Option, none, some, List, [], ◌∷◌, filter, find,
  leb, ◌==◌, str_eq, if◌then◌else◌,
}
use sip_proxy.Common.Text.{strip, upper, or_empty, concat}
use sip_proxy.Common.Text.Numbers.{show}
use sip_proxy.Common.Http.{Http, ok, error, raise_if, ◌>>=◌, ◌>>◌}
use sip_proxy.Access.Policies.{assert_client_device_deletable}
use sip_proxy.Client.Models.{ClientDevice}
use sip_proxy.Client.Ports
use sip_proxy.Client.Ports.{
  replace_device, ensure_device_reverse_ports, release_device_reverse_ports,
}
use sip_proxy.Client.Tables.{World, Tombstone, ClientToken}
use sip_proxy.Client.Activation.{given, is_none, find_device, next_id}
use sip_proxy.Client.Custody.{Operator, get_row, log_op}

unfoldable pub client_device_online : (threshold now : ℕ) → ClientDevice → Bool
client_device_online threshold now device = elim device.last_seen_at [
  | none ↦ false
  | some seen ↦ leb now (seen + threshold)
]

-- The tombstone of a key: the row that is there, changed, or a new one.
unfoldable pub put_tombstone : Tombstone → List Tombstone → List Tombstone
put_tombstone t [] = t ∷ []
put_tombstone t (u ∷ us) =
    let rest = put_tombstone t us in if str_eq u.device_key t.device_key then t ∷ us else u ∷ rest

unfoldable pub remove_row : ℕ → List ClientDevice → List ClientDevice
remove_row id = filter (λ (d : ClientDevice). not (d.id == id))

-- From the release of the ports to the commit; the device's tokens go with it.
unfoldable pub retire_device : Ports.Settings → Operator → ℕ → ClientDevice → World → World
unfolding remove_row put_tombstone concat show release_device_reverse_ports
retire_device settings operator now device w =
    let db = release_device_reverse_ports settings now device w.db in
    log_op operator "hard_retire_client_device"
      (if str_eq device.name "" then device.device_key else device.name)
      (some (concat ("id=" ∷ show device.id ∷ [])))
      (record w {
        tombstones =
            put_tombstone
              (record {
                device_key = device.device_key;
                former_device_id = some device.id;
                former_name = some device.name;
                lan_mac = device.lan_mac;
                retired_at = now;
                retired_by = some operator.username;
                reclaimed_at = none;
              })
              w.tombstones;
        tokens = filter (λ (t : ClientToken). not (t.device_id == device.id)) w.tokens;
        db = record db { devices = remove_row device.id w.db.devices };
      })

unfoldable pub delete_client_device :
    Ports.Settings → (threshold : ℕ) → Operator → ℕ → Bool → ℕ → World → Http World
unfolding retire_device client_device_online
delete_client_device settings threshold operator now confirm device_id w = do
  raise_if (not confirm) 400
      "destructive action requires confirm=true — hard retire releases remote ports into cooldown"
  device ← get_row device_id w
  assert_client_device_deletable operator.role now device
      (client_device_online threshold now device)
  raise_if (not (is_none device.line_id)) 400 "硬退库前须先执行软恢复出厂（解除线路绑定并清除线路码）"
  raise_if (is_none device.code_cleared_at) 400 "硬退库前须先执行软恢复出厂"
  ok (retire_device settings operator now device w)

abbrev pub is_active_tombstone : String → Tombstone → Bool
is_active_tombstone key t = str_eq t.device_key key && is_none t.reclaimed_at

-- The first active tombstone of the key is marked.
unfoldable pub mark_reclaimed : ℕ → String → List Tombstone → List Tombstone
mark_reclaimed now key [] = []
mark_reclaimed now key (t ∷ ts) =
    let rest = mark_reclaimed now key ts in
    if is_active_tombstone key t then record t { reclaimed_at = some now } ∷ ts else t ∷ rest

-- `(name or "").strip() or (former_name or key)`
unfoldable pub reclaimed_name : Option String → Tombstone → String → String
unfolding strip
reclaimed_name name tomb key =
    if str_eq (strip (or_empty name)) ""
    then elim (given tomb.former_name) [ none ↦ key | some former ↦ former ]
    else strip (or_empty name)

unfoldable pub reclaimed_device : ℕ → Option String → Tombstone → String → ℕ → ClientDevice
unfolding reclaimed_name
reclaimed_device now name tomb key id = record {
  id = id;
  device_key = key;
  name = reclaimed_name name tomb key;
  lan_mac = tomb.lan_mac;
  device_id = some key;
  line_id = none;
  reverse_ssh_port = none;
  reverse_http_port = none;
  ssh_public_key = none;
  reverse_ssh_session_expires_at = none;
  reverse_ssh_session_targets = none;
  reverse_ssh_tunnel_reported_at = none;
  proxy_mode = "gateway";
  routing_scheme = "split";
  name_source = elim (given name) [ none ↦ some "auto" | some _ ↦ some "admin" ];
  binding_revoked_at = some now;
  code_cleared_at = some now;
  agent_version = none;
  is_active = true;
  last_seen_at = none;
  last_metrics = none;
  pending_command = none;
  last_upgrade = none;
}

-- `none` is the RuntimeError of the ports.
unfoldable pub finish_reclaim :
    Operator → ℕ → Tombstone → String → World → Option ClientDevice × Ports.Db → Http World
unfolding mark_reclaimed concat
finish_reclaim operator now tomb key w (none, db) = error 500 "reverse ssh port pool"
finish_reclaim operator now tomb key w (some device, db) = ok (
    log_op operator "reclaim_client_device" key
      (some (
        concat
          ("former_id=" ∷ elim tomb.former_device_id [ none ↦ "None" | some id ↦ show id ] ∷ [])))
      (record w { tombstones = mark_reclaimed now key w.tombstones; db = db }))

unfoldable pub reclaim_client_device :
    Ports.Settings → Operator → ℕ → String → Option String → World → Http World
unfolding strip upper
reclaim_client_device settings operator now requested name w =
    let key = upper (strip requested) in
    elim (find (is_active_tombstone key) w.tombstones) [
      | none ↦ error 404 "no active tombstone for this device_key"
      | some tomb ↦ elim (find_device key w.db.devices) [
        | some _ ↦ error 409 "device already exists in inventory"
        | none ↦
            let device = reclaimed_device now name tomb key (next_id w.db.devices) in
            finish_reclaim operator now tomb key w (
              ensure_device_reverse_ports settings now device
                (record w.db { devices = device ∷ w.db.devices }))
      ]
    ]
