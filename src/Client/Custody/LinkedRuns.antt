-- ===== src/Client/Custody/LinkedRuns.antt =====
-- The lines that devices are bound to, through sequences of calls of the handlers of
-- gfc-platform/control-plane/api/app/clients.py and admin.py.
use sip_proxy.Common.{refl, ap, ◌∙◌, List}
use sip_proxy.Client.Ports
use sip_proxy.Client.Tables.{World}
use sip_proxy.Client.Custody.{reset_device, soft_factory_reset}
use sip_proxy.Client.Custody.Remote.{
  expire_session, get_reverse_ssh_session, close_session, stop_reverse_ssh_session,
}
use sip_proxy.Client.Custody.RemoteKeys.{expire_session-Same}
use sip_proxy.Client.Custody.Linked.{
  line_exists, Linked, activate_client-Linked, client_heartbeat-Linked,
}
use sip_proxy.Client.Custody.LinkedHandlers.{
  update_client_device-Linked, upgrade_client_device-Linked, delete_client_device-Linked,
  reclaim_client_device-Linked, start_reverse_ssh_session-Linked, changed_row-Linked,
  delete_line-Linked,
}
use sip_proxy.Client.Custody.Spec.{Event}
use sip_proxy.Client.Custody.Runs.{
  Step, activation, heartbeat, update, reset, upgrade, deletion, return, session_start,
  session_view, session_stop, line_deletion, Run, stop, call,
}

module _ (settings : Ports.Settings) where
  Step-Linked : {w w' : World} {event : Event} → Step settings w event w' → Linked w → Linked w'
  unfolding soft_factory_reset get_reverse_ssh_session stop_reverse_ssh_session
  Step-Linked {w} {w'} (activation {r = r} env body e) a =
      activate_client-Linked env body w w' r a e
  Step-Linked {w} (heartbeat {w'} {r} hash now authorization body flows e) a =
      client_heartbeat-Linked hash settings now authorization body
        (record { world = w; flows = flows }) w' r a e
  Step-Linked {w} {w'} (update operator now device_id body e) a =
      update_client_device-Linked w a operator now device_id body w' e
  Step-Linked {w} {w'} (reset operator now request_id device_id e) a =
      changed_row-Linked w a (reset_device now request_id) _ device_id w' (λ d h. refl) (λ d. refl)
        (λ d. refl) e
  Step-Linked {w} {w'} (upgrade operator now request_id artifact_id device_id artifacts e) a =
      upgrade_client_device-Linked w a operator now request_id artifact_id device_id artifacts w' e
  Step-Linked {w} {w'} (deletion threshold operator now confirm device_id device row e) a =
      delete_client_device-Linked w a settings threshold operator now confirm device_id w' e
  Step-Linked {w} {w'} (return operator now requested name e) a =
      reclaim_client_device-Linked w a settings operator now requested name w' e
  Step-Linked {w} {w'} (session_start session probe operator now device_id targets ttl same e) a =
      start_reverse_ssh_session-Linked w a session probe operator now device_id targets ttl w' e
  Step-Linked {w} {w'} (session_view now device_id e) a =
      changed_row-Linked w a (expire_session now) _ device_id w'
        (λ d h. ap (line_exists w.lines) (expire_session-Same now d).2 ∙ h) (λ d. refl) (λ d. refl)
        e
  Step-Linked {w} {w'} (session_stop operator device_id e) a =
      changed_row-Linked w a close_session _ device_id w' (λ d h. h) (λ d. refl) (λ d. refl) e
  Step-Linked {w} {w'} (line_deletion operator line_id e) a =
      delete_line-Linked w a operator line_id w' e

  Run-Linked-all :
      {w w' : World} {events : List Event} → Run settings w events w' → Linked w → Linked w'
  Run-Linked-all stop a = a
  Run-Linked-all (call step run) a = Run-Linked-all run (Step-Linked step a)

-- Any sequence of successful activations, heartbeats, updates, soft resets, upgrades, retirements,
-- returns, starts, views and stops of a remote session and deletions of a line keeps that every line
-- that a device is bound to is in the table of lines.
pub Run-Linked :
    (settings : Ports.Settings) (w w' : World) (events : List Event)
    → Linked w
    → Run settings w events w'
    → Linked w'
Run-Linked settings w w' events a run = Run-Linked-all settings run a
