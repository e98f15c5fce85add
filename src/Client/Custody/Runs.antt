-- ===== src/Client/Custody/Runs.antt =====
-- The client devices of the platform over any sequence of calls: the handlers of
-- gfc-platform/control-plane/api/app/clients.py and admin.py as steps, beside the promise for a key.
use sip_proxy.Common.{
  ℕ, String, ◌≡◌, ◌∙◌, refl, sym, ap, Bool, false, Option, List, [], ◌∷◌, any, arith, inl, inr,
  Bool-cases, str_eq, eq_iff,
}
use mathlib.Core.Path.{subst, fun_ext}
use sip_proxy.Common.Text.{strip, upper}
use sip_proxy.Common.Dict.{Dict, Json}
use sip_proxy.Common.Http.{ok}
use sip_proxy.Client.Models.{ClientDevice}
use sip_proxy.Client.Ports
use sip_proxy.Client.Tables.{World}
use sip_proxy.Client.Activation.{Env, Request, Response, activate_client}
use sip_proxy.Client.Activation.Binding.{activate_client-Unique}
use sip_proxy.Client.Activation.Steps.{activation_key}
use sip_proxy.Client.Heartbeat.{
  FlowStat, HeartbeatRequest, HeartbeatWorld, HeartbeatResponse, client_heartbeat,
}
use sip_proxy.Client.Heartbeat.Tables.{client_heartbeat-Unique}
use sip_proxy.Client.Custody.{
  Operator, get_row, update_client_device, soft_factory_reset, Artifact, upgrade_client_device,
}
use sip_proxy.Client.Custody.Effects.{activate_client-Activated, client_heartbeat-Quietly}
use sip_proxy.Client.Custody.Spec.{
  Custody, retired, Event, activated, reclaimed, hard_retired, changed, custody, next_custody,
  Allowed, Post-changed, Post-activated,
}
use sip_proxy.Client.Custody.Handlers.{
  Follows, Safe, update_client_device-Follows, soft_factory_reset-Follows,
  upgrade_client_device-Follows,
}
use sip_proxy.Client.Custody.Remote.{
  SessionSettings, start_reverse_ssh_session, get_reverse_ssh_session, stop_reverse_ssh_session,
}
use sip_proxy.Client.Custody.RemoteKeys.{
  start_reverse_ssh_session-Follows, get_reverse_ssh_session-Follows,
  stop_reverse_ssh_session-Follows, delete_line-Follows,
}
use sip_proxy.Client.Custody.Lines.{delete_line}
use sip_proxy.Client.Custody.Retirement.{
  delete_client_device-Follows, reclaim_client_device-Follows,
}
use sip_proxy.Client.Custody.Departure.{delete_client_device, reclaim_client_device}

-- A call that succeeds.
pub data Step (settings : Ports.Settings) (w : World) : Event → World → Type 0 where
  activation :
      {w' : World} {r : Response} (env : Env) (body : Request)
      → activate_client env body w ≡ ok (r, w')
      → Step settings w (activated (activation_key env body)) w'
  heartbeat :
      {w' : HeartbeatWorld} {r : HeartbeatResponse} (hash : String → String) (now : ℕ)
      (authorization : Option String) (body : HeartbeatRequest) (flows : List FlowStat)
      → client_heartbeat hash settings now authorization body (record { world = w; flows = flows })
        ≡ ok (r, w')
      → Step settings w changed w'.world
  update :
      {w' : World} (operator : Operator) (now device_id : ℕ) (body : Dict Json)
      → update_client_device operator now device_id body w ≡ ok w'
      → Step settings w changed w'
  reset :
      {w' : World} (operator : Operator) (now : ℕ) (request_id : String) (device_id : ℕ)
      → soft_factory_reset operator now request_id device_id w ≡ ok w'
      → Step settings w changed w'
  upgrade :
      {w' : World} (operator : Operator) (now : ℕ) (request_id : String) (artifact_id device_id : ℕ)
      (artifacts : List Artifact)
      → upgrade_client_device operator now request_id artifact_id device_id artifacts w ≡ ok w'
      → Step settings w changed w'
  deletion :
      {w' : World} (threshold : ℕ) (operator : Operator) (now : ℕ) (confirm : Bool) (device_id : ℕ)
      (device : ClientDevice)
      → get_row device_id w ≡ ok device
      → delete_client_device settings threshold operator now confirm device_id w ≡ ok w'
      → Step settings w (hard_retired device.device_key) w'
  return :
      {w' : World} (operator : Operator) (now : ℕ) (requested : String) (name : Option String)
      → reclaim_client_device settings operator now requested name w ≡ ok w'
      → Step settings w (reclaimed (upper (strip requested))) w'
  session_start :
      {w' : World} (session : SessionSettings) (probe : ℕ → Bool) (operator : Operator)
      (now device_id : ℕ) (targets : List String) (ttl : Option ℕ)
      → session.ports ≡ settings
      → start_reverse_ssh_session session probe operator now device_id targets ttl w ≡ ok w'
      → Step settings w changed w'
  session_view :
      {w' : World} (now device_id : ℕ)
      → get_reverse_ssh_session now device_id w ≡ ok w'
      → Step settings w changed w'
  session_stop :
      {w' : World} (operator : Operator) (device_id : ℕ)
      → stop_reverse_ssh_session operator device_id w ≡ ok w'
      → Step settings w changed w'
  line_deletion :
      {w' : World} (operator : String) (line_id : ℕ)
      → delete_line operator line_id w ≡ ok w'
      → Step settings w changed w'

module _ (settings : Ports.Settings) where
  pub Step-Follows :
      {w w' : World} {event : Event} → Step settings w event w' → Safe w → Follows event w w'
  Step-Follows {w} {w'} (activation {r = r} env body e) safe =
      let (gains, same, free) = activate_client-Activated env body w w' r safe.0 e in
      rw same (
        Post-activated (activation_key env body) w.db.devices w'.db.devices w.tombstones safe
          (activate_client-Unique env body w w' r safe.0 e) free gains)
  Step-Follows {w} (heartbeat {w'} {r} hash now authorization body flows e) safe =
      let before : HeartbeatWorld = record { world = w; flows = flows } in
      let (keeps, same) =
        client_heartbeat-Quietly hash settings now authorization body before w' r safe.0 e in
      rw same (
        Post-changed w.db.devices w'.world.db.devices w.tombstones safe
          (client_heartbeat-Unique hash settings now authorization body before w' r safe.0 e) keeps)
  Step-Follows {w} {w'} (update operator now device_id body e) safe =
      update_client_device-Follows operator now device_id body w w' safe e
  Step-Follows {w} {w'} (reset operator now request_id device_id e) safe =
      soft_factory_reset-Follows operator now request_id device_id w w' safe e
  Step-Follows {w} {w'} (upgrade operator now request_id artifact_id device_id artifacts e) safe =
      upgrade_client_device-Follows operator now request_id artifact_id device_id artifacts w w'
        safe e
  Step-Follows {w} {w'} (deletion threshold operator now confirm device_id device row e) safe =
      delete_client_device-Follows settings threshold operator now confirm device_id device w w'
        safe row e
  Step-Follows {w} {w'} (return operator now requested name e) safe =
      reclaim_client_device-Follows settings operator now requested name w w' safe e
  Step-Follows {w} {w'} (session_start session probe operator now device_id targets ttl same e)
        safe =
      start_reverse_ssh_session-Follows session probe operator now device_id targets ttl w w' safe e
  Step-Follows {w} {w'} (session_view now device_id e) safe =
      get_reverse_ssh_session-Follows now device_id w w' safe e
  Step-Follows {w} {w'} (session_stop operator device_id e) safe =
      stop_reverse_ssh_session-Follows operator device_id w w' safe e
  Step-Follows {w} {w'} (line_deletion operator line_id e) safe =
      delete_line-Follows operator line_id w w' safe e

-- The platform's view of the keys.
abbrev pub view : World → String → Custody
view w = custody w.db.devices w.tombstones

-- The promise as a machine of its own, on the views alone.
pub data Move (state : String → Custody) : Event → (String → Custody) → Type 0 where
  move :
      (event : Event)
      → Allowed event state
      → Move state event (λ key. next_custody event key (state key))

pub data Moves : (String → Custody) → List Event → (String → Custody) → Type 0 where
  done : {state : String → Custody} → Moves state [] state
  then_move :
      {event : Event} {events : List Event} {state middle final : String → Custody}
      → Move state event middle
      → Moves middle events final
      → Moves state (event ∷ events) final

-- A sequence of successful calls.
pub data Run (settings : Ports.Settings) : World → List Event → World → Type 0 where
  stop : {w : World} → Run settings w [] w
  call :
      {event : Event} {events : List Event} {w v w' : World}
      → Step settings w event v
      → Run settings v events w'
      → Run settings w (event ∷ events) w'

Run-both :
    (settings : Ports.Settings) {w w' : World} {events : List Event}
    → Safe w
    → Run settings w events w'
    → Moves (view w) events (view w') × Safe w'
Run-both settings safe stop = (done, safe)
Run-both settings {w} safe (call {event} {v = v} step run) =
    let (safe', allowed, next) = Step-Follows settings step safe in
    let (moves, end) = Run-both settings safe' run in
    let e : view v ≡ (λ key. next_custody event key (view w key)) = fun_ext next in
    (then_move (subst (Move (view w) event) (sym e) (move event allowed)) moves, end)

-- Any sequence of successful activations, heartbeats, updates, soft resets, upgrades, retirements,
-- returns, starts, views and stops of a remote session and deletions of a line, from a world where ids, keys and lines name one device, a key one tombstone and an
-- active tombstone no device, is a run of the machine on the keys' custodies: each call moves the
-- key of its event as `next_custody` says and no other key, and is one that `Allowed` permits.
pub Run-Moves :
    (settings : Ports.Settings) (w w' : World) (events : List Event)
    → Safe w
    → Run settings w events w'
    → Moves (view w) events (view w')
Run-Moves settings w w' events safe run = (Run-both settings safe run).0

-- Any sequence of such calls keeps that an id, a device key and a line name one device at most, a
-- key one tombstone at most, and that the key of an active tombstone is no device's.
pub Run-Safe :
    (settings : Ports.Settings) (w w' : World) (events : List Event)
    → Safe w
    → Run settings w events w'
    → Safe w'
Run-Safe settings w w' events safe run = (Run-both settings safe run).1

abbrev pub is_return : String → Event → Bool
is_return key (reclaimed k) = str_eq k key
is_return key _ = false

abbrev pub is_activation : String → Event → Bool
is_activation key (activated k) = str_eq k key
is_activation key _ = false

retired-Move :
    (key : String) {state : String → Custody} {event : Event} {after : String → Custody}
    → Move state event after
    → state key ≡ retired
    → is_return key event ≡ false
    → (after key ≡ retired) × (is_activation key event ≡ false)
retired-Move key {state} (move (activated k) allowed) r n = elim (Bool-cases (str_eq k key)) [
  | inl same ↦ absurd (allowed (ap state ((eq_iff k key).0 same) ∙ r))
  | inr other ↦ (rw other r, other)
]
retired-Move key (move (reclaimed k) allowed) r n = (rw n r, refl)
retired-Move key (move (hard_retired k) allowed) r n = (ground (arith, r), refl)
retired-Move key (move changed allowed) r n = (r, refl)

retired-Moves :
    (key : String) {state final : String → Custody} {events : List Event}
    → Moves state events final
    → state key ≡ retired
    → any (is_return key) events ≡ false
    → (final key ≡ retired) × (any (is_activation key) events ≡ false)
retired-Moves key done r n = (r, refl)
retired-Moves key (then_move {event} {events} m ms) r n =
    let (r', a) = retired-Move key m r (ground (arith, n)) in
    let (r'', as_) = retired-Moves key ms r' (ground (arith, n)) in (r'', rw a as_)

-- A retired key stays retired, and no device activates under it, through any sequence of such calls
-- in which it is not reclaimed, from a world as above.
pub Run-retired :
    (settings : Ports.Settings) (w w' : World) (events : List Event) (key : String)
    → Safe w
    → Run settings w events w'
    → view w key ≡ retired
    → any (is_return key) events ≡ false
    → (view w' key ≡ retired) × (any (is_activation key) events ≡ false)
Run-retired settings w w' events key safe run r n =
    retired-Moves key (Run-Moves settings w w' events safe run) r n
