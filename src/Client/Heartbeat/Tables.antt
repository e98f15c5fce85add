-- ===== src/Client/Heartbeat/Tables.antt =====
-- The table of devices through a heartbeat, client_heartbeat of
-- gfc-platform/control-plane/api/app/clients.py.
use sip_proxy.Common.{
  ℕ, String, ◌≡◌, ◌∙◌, refl, Bool, false, ◌&&◌, Option, none, some, List, arith, inl, inr,
  Bool-cases, Option-cases, All-map, find, find-some, any, ◌==◌, str_eq,
}
use mathlib.Core.List.{Memᴰ}
use sip_proxy.Common.Http.{ok, error}
use sip_proxy.Client.Models.{ClientDevice, ClientMetrics, PendingCommand}
use sip_proxy.Client.Ports
use sip_proxy.Client.Ports.{replace_device, ensure_device_reverse_ports}
use sip_proxy.Client.Ports.Distinct.{ensure_device_reverse_ports-rows}
use sip_proxy.Common.Text.{strip, lower, or_empty, starts_with}
use sip_proxy.Common.Text.Words.{after_space}
use sip_proxy.Client.Activation.{World, ClientToken, is_none}
use sip_proxy.Client.Activation.Binding.{Others-replace_device}
use sip_proxy.Client.Activation.Rows.{Differ, Unique, Others, Unique-Others, Unique-replace_device}
use sip_proxy.Common.Http.{After, After-bind, After-ok}
use sip_proxy.Client.Heartbeat.{
  HeartbeatRequest, HeartbeatWorld, HeartbeatResponse, Ack, auth_client, report_device, sync_name,
  settle_device, ack_command, report_tunnel, complete_command, finish_heartbeat, client_heartbeat,
  set_key, new_key, is_acked,
}

-- The row is the same device on the same line.
abbrev pub Same : ClientDevice → ClientDevice → Type 0
Same d e = (d.id ≡ e.id) × (d.device_key ≡ e.device_key) × (d.line_id ≡ e.line_id)

pub report_device-Same :
    (now : ℕ) (body : HeartbeatRequest) (w : World) (d : ClientDevice)
    → Same (report_device now body w.lines d) d
unfolding report_device sync_name
report_device-Same now body w d = (ground arith, ground arith, ground arith)

Same-trans : (c d e : ClientDevice) → Same c d → Same d e → Same c e
Same-trans c d e (i, k, l) (i', k', l') = (i ∙ i', k ∙ k', l ∙ l')

set_key-Same : (key : Option String) (d : ClientDevice) → Same (set_key key d) d
set_key-Same none d = (refl, refl, refl)
set_key-Same (some key) d = (refl, refl, refl)

report_tunnel-Same :
    (now : ℕ) (status : Option Bool) (d : ClientDevice) → Same (report_tunnel now status d) d
unfolding report_tunnel
report_tunnel-Same now status d = (ground arith, ground arith, ground arith)

complete_command-Same :
    (now : ℕ) (ack : Ack) (p : PendingCommand) (d : ClientDevice)
    → Same (complete_command now ack p d) d
unfolding complete_command
complete_command-Same now ack p d = (ground arith, ground arith, ground arith)

ack_command-Same : (now : ℕ) (ack : Option Ack) (d : ClientDevice) → Same (ack_command now ack d) d
unfolding ack_command
ack_command-Same now none d = (refl, refl, refl)
ack_command-Same now (some ack) d = go d.pending_command refl
  where
    go :
        (pending : Option PendingCommand)
        → d.pending_command ≡ pending
        → Same (ack_command now (some ack) d) d
    go none e = rw (e, ack_command) (refl, refl, refl)
    go (some p) e = elim (Bool-cases (is_acked ack p)) [
      | inl acked ↦
          rw (e, acked, ack_command)
            (complete_command-Same now ack p (record d { pending_command = none }))
      | inr not_acked ↦ rw (e, not_acked, ack_command) (refl, refl, refl)
    ]

pub settle_device-Same :
    (now : ℕ) (body : HeartbeatRequest) (d : ClientDevice) → Same (settle_device now body d) d
unfolding settle_device
settle_device-Same now body d = go body.metrics
  where
    keyed : ClientDevice
    keyed = set_key (new_key body) d

    told : ClientDevice
    told = report_tunnel now body.reverse_ssh_status keyed

    kept : Same (ack_command now body.device_command_ack told) d
    kept =
        Same-trans (ack_command now body.device_command_ack told) told d
          (ack_command-Same now body.device_command_ack told)
          (Same-trans told keyed d (report_tunnel-Same now body.reverse_ssh_status keyed)
            (set_key-Same (new_key body) d))

    go :
        (metrics : Option ClientMetrics)
        → Same (settle_device now (record body { metrics = metrics }) d) d
    go none = kept
    go (some m) = kept

-- The test of the query.
abbrev owns : (String → String) → Option String → List ClientToken → ClientDevice → Bool
owns hash authorization tokens d =
    d.is_active
    && any
        (λ (t : ClientToken).
          t.device_id == d.id
          && str_eq t.token_hash (hash (strip (after_space (or_empty authorization))))
          && is_none t.revoked_at)
        tokens

-- A device that a token belongs to is a row of the table.
pub auth_client-member :
    (hash : String → String) (authorization : Option String) (tokens : List ClientToken)
    (devices : List ClientDevice) (d : ClientDevice)
    → auth_client hash authorization tokens devices ≡ ok d
    → Memᴰ d devices
unfolding auth_client
auth_client-member hash authorization tokens devices d e =
    elim (Bool-cases (starts_with "bearer " (lower (or_empty authorization)))) [
      | inr missing ↦
          absurd
            (let k : error 401 "missing client token" ≡ ok d = rw (missing, auth_client) at e in cc)
      | inl sent ↦ elim (Option-cases (find (owns hash authorization tokens) devices)) [
        | inl unknown ↦ absurd (
            let k : error 401 "invalid client token" ≡ ok d =
              rw (sent, unknown, auth_client) at e in
            cc)
        | inr (row, found) ↦
            let k : ok row ≡ ok d = rw (sent, found, auth_client) at e in
            let same : row ≡ d = cc in
            rw (← same) (find-some (owns hash authorization tokens) devices row found).0
      ]
    ]

pub Same-Others :
    (x d : ClientDevice) (ds : List ClientDevice) → Same x d → Others d ds → Others x ds
Same-Others x d ds (i, k, l) o =
    All-map (λ e. (e.id == d.id) ≡ false → Differ d e) (λ e. (e.id == x.id) ≡ false → Differ x e) ds
      (λ e f n. rw (i, k, l) (f (rw i at n))) o

-- The table and the row that is found in it.
abbrev pub Kept : Option ClientDevice → List ClientDevice → Type 0
Kept none ds = Unique ds
Kept (some d) ds = Unique ds × Others d ds

pub Kept-ensure :
    (settings : Ports.Settings) (now : ℕ) (x : ClientDevice) (db : Ports.Db)
    → Unique db.devices
    → Others x db.devices
    → Kept
        (ensure_device_reverse_ports settings now x db).0
        (ensure_device_reverse_ports settings now x db).1.devices
Kept-ensure settings now x db u o =
    ensure_device_reverse_ports-rows Kept settings now x db (u, o) u
      (λ a b.
        let y : ClientDevice = record x { reverse_ssh_port = some a; reverse_http_port = some b } in
        (Unique-replace_device y db.devices o u, Others-replace_device y db.devices o))

Kept-finish :
    (now : ℕ) (body : HeartbeatRequest) (w : HeartbeatWorld) (r : Option ClientDevice × Ports.Db)
    → Kept r.0 r.1.devices
    → After
        (λ (a : HeartbeatResponse × HeartbeatWorld). Unique a.1.world.db.devices)
        (finish_heartbeat now body w r)
unfolding finish_heartbeat
Kept-finish now body w (none, db) k = tt
Kept-finish now body w (some d, db) (u, o) =
    Unique-replace_device (settle_device now body d) db.devices
      (Same-Others (settle_device now body d) d db.devices (settle_device-Same now body d) o) u

-- Where no id, device key or line names two devices, none does after a heartbeat that is accepted.
pub client_heartbeat-Unique :
    (hash : String → String) (settings : Ports.Settings) (now : ℕ) (authorization : Option String)
    (body : HeartbeatRequest) (w w' : HeartbeatWorld) (r : HeartbeatResponse)
    → Unique w.world.db.devices
    → client_heartbeat hash settings now authorization body w ≡ ok (r, w')
    → Unique w'.world.db.devices
unfolding client_heartbeat
client_heartbeat-Unique hash settings now authorization body w w' r u e =
    After-ok (λ (a : HeartbeatResponse × HeartbeatWorld). Unique a.1.world.db.devices)
      (client_heartbeat hash settings now authorization body w) (r, w')
      (After-bind (λ (a : HeartbeatResponse × HeartbeatWorld). Unique a.1.world.db.devices)
        (auth_client hash authorization w.world.tokens w.world.db.devices) _
        (λ device found.
          let devices = w.world.db.devices in
          let x : ClientDevice = report_device now body w.world.lines device in
          let o : Others x devices =
            Same-Others x device devices (report_device-Same now body w.world device) (
              Unique-Others device devices
                (auth_client-member hash authorization w.world.tokens devices device found) u) in
          Kept-finish now body w
            (ensure_device_reverse_ports settings now x
              (record w.world.db { devices = replace_device x devices }))
            (Kept-ensure settings now x (record w.world.db { devices = replace_device x devices })
              (Unique-replace_device x devices o u) (Others-replace_device x devices o))))
      e
