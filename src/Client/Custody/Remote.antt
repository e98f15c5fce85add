-- ===== src/Client/Custody/Remote.antt =====
-- Remote sessions on a client device: start_reverse_ssh_session, get_reverse_ssh_session and
-- stop_reverse_ssh_session of gfc-platform/control-plane/api/app/admin.py, and tunnel_ready of
-- reverse_ssh.py. The probe of a local port is an argument, and the stored targets are the list that
-- their JSON text says.
use sip_proxy.Common.{
  ℕ, zero, suc, ◌+◌, String, Bool, true, false, not, ◌&&◌, ◌||◌, Option, none, some, List, [], ◌∷◌,
  ◌++◌, all, leb, if◌then◌else◌,
}
use sip_proxy.Common.Text.{strip, lower, elem, join}
use sip_proxy.Common.Http.{Http, ok, error, raise_if, ◌>>=◌, ◌>>◌}
use sip_proxy.Client.Models.{ClientDevice}
use sip_proxy.Client.Sessions.{session_active}
use sip_proxy.Client.Ports
use sip_proxy.Client.Ports.{set_port, is_empty, ensure_device_reverse_ports}
use sip_proxy.Client.Tables.{World}
use sip_proxy.Client.Activation.{given, is_none}
use sip_proxy.Client.Custody.{Operator, get_row, save_row, log_op}
use sip_proxy.Client.Custody.Departure.{client_device_online}

pub record SessionSettings : Type 0 where
  pub ports : Ports.Settings
  pub client_offline_threshold_seconds : ℕ
  pub reverse_ssh_session_ttl_seconds : ℕ

abbrev pub parse_session_targets : ClientDevice → List String
parse_session_targets device = elim device.reverse_ssh_session_targets [
  | none ↦ []
  | some targets ↦ targets
]

abbrev pub or_ssh : List String → List String
or_ssh [] = "ssh" ∷ []
or_ssh (t ∷ ts) = t ∷ ts

-- The port that is set answers the probe.
abbrev pub answers : (ℕ → Bool) → Option ℕ → Bool
answers probe none = true
answers probe (some zero) = true
answers probe (some (suc n)) = probe (suc n)

unfoldable pub tunnel_ready : (ℕ → Bool) → ℕ → ClientDevice → Bool
unfolding session_active
tunnel_ready probe now device =
    if not (session_active now device)
    then false
    else let targets = or_ssh (parse_session_targets device) in
      (not (elem "ssh" targets) || answers probe device.reverse_ssh_port)
      && (not (elem "web" targets || elem "flash" targets)
          || answers probe device.reverse_http_port)

abbrev pub allowed_targets : List String
allowed_targets = "ssh" ∷ "web" ∷ "flash" ∷ []

-- The requested targets that are known.
unfoldable pub known_targets : List String → List String
unfolding strip lower
known_targets [] = []
known_targets (t ∷ ts) =
    let rest = known_targets ts in
    if elem (lower (strip t)) allowed_targets then lower (strip t) ∷ rest else rest

-- `list(dict.fromkeys(…))`
unfoldable pub distinct_onto : List String → List String → List String
distinct_onto out [] = out
distinct_onto out (t ∷ ts) =
    if elem t out then distinct_onto out ts else distinct_onto (out ++ (t ∷ [])) ts

unfoldable pub merged_targets : List String → List String
unfolding known_targets distinct_onto
merged_targets targets =
    distinct_onto [] (or_ssh (known_targets (or_ssh targets)) ++ ("ssh" ∷ "web" ∷ []))

-- Equality of the two sets.
abbrev pub same_targets : List String → List String → Bool
same_targets a b = all (λ t. elem t b) a && all (λ t. elem t a) b

unfoldable pub open_session :
    SessionSettings → (ℕ → Bool) → ℕ → List String → Option ℕ → ClientDevice → ClientDevice
unfolding merged_targets tunnel_ready session_active
open_session settings probe now targets ttl device =
    let merged = merged_targets targets in
    let previous = if session_active now device then parse_session_targets device else [] in
    let aimed : ClientDevice = record device { reverse_ssh_session_targets = some merged } in
    let already_ready = session_active now aimed && tunnel_ready probe now aimed in
    let seconds : ℕ = elim ttl [ none ↦ settings.reverse_ssh_session_ttl_seconds | some n ↦ n ] in
    record aimed {
      reverse_ssh_session_expires_at = some (now + seconds);
      reverse_ssh_tunnel_reported_at =
          if not already_ready || not (same_targets merged previous)
          then none
          else device.reverse_ssh_tunnel_reported_at;
    }

-- From the device with its ports to the commit.
unfoldable pub finish_session :
    SessionSettings
    → (ℕ → Bool)
    → Operator
    → ℕ
    → List String
    → Option ℕ
    → World
    → Option ClientDevice × Ports.Db
    → Http World
unfolding open_session join
finish_session settings probe operator now targets ttl w (none, db) =
    error 503 "reverse ssh port pool"
finish_session settings probe operator now targets ttl w (some device, db) =
    if is_empty (set_port device.reverse_ssh_port) || is_empty (set_port device.reverse_http_port)
    then error 400 "reverse ports not allocated"
    else ok (
        log_op operator "reverse_ssh_session_start" device.device_key
          (some (join "," (merged_targets targets)))
          (save_row (open_session settings probe now targets ttl device) (record w { db = db })))

unfoldable pub start_reverse_ssh_session :
    SessionSettings → (ℕ → Bool) → Operator → ℕ → ℕ → List String → Option ℕ → World → Http World
unfolding finish_session ensure_device_reverse_ports client_device_online
start_reverse_ssh_session settings probe operator now device_id targets ttl w = do
  device ← get_row device_id w
  raise_if (not (client_device_online settings.client_offline_threshold_seconds now device)) 400
      "device offline"
  raise_if (is_none (given device.ssh_public_key)) 400 "device ssh public key not registered"
  finish_session settings probe operator now targets ttl w
      (ensure_device_reverse_ports settings.ports now device w.db)

-- An expired session is closed when it is read.
unfoldable pub expire_session : ℕ → ClientDevice → ClientDevice
expire_session now device = elim device.reverse_ssh_session_expires_at [
  | none ↦ device
  | some exp ↦
      if leb exp now
      then record device {
        reverse_ssh_session_expires_at = none;
        reverse_ssh_tunnel_reported_at = none;
      }
      else device
]

unfoldable pub get_reverse_ssh_session : ℕ → ℕ → World → Http World
unfolding expire_session
get_reverse_ssh_session now device_id w = do
  device ← get_row device_id w
  ok (save_row (expire_session now device) w)

abbrev pub close_session : ClientDevice → ClientDevice
close_session device = record device {
  reverse_ssh_session_expires_at = none;
  reverse_ssh_tunnel_reported_at = none;
  reverse_ssh_session_targets = none;
}

unfoldable pub stop_reverse_ssh_session : Operator → ℕ → World → Http World
stop_reverse_ssh_session operator device_id w = do
  device ← get_row device_id w
  ok (
      log_op operator "reverse_ssh_session_stop" device.device_key none
        (save_row (close_session device) w))
