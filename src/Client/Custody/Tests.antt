-- ===== src/Client/Custody/Tests.antt =====
-- Runs of the device's handlers on a small platform, and the theorems on runs at them.
use sip_proxy.Common.{
  String, ◌≡◌, refl, true, false, none, some, [], ◌∷◌, any, arith, inl, inr, Bool-cases, str_eq,
  eq_iff,
}
use sip_proxy.Common.Http.{Http, ok, error}
use sip_proxy.Client.Models.{ClientDevice}
use sip_proxy.Client.Tables.{World}
use sip_proxy.Access.Policies.{assert_client_device_deletable}
use sip_proxy.Access.Roles.{normalize_role}
use sip_proxy.Common.Text.{lower, strip, upper}
use sip_proxy.Client.Ports.{
  ensure_device_reverse_ports, allocate_reverse_ports, pool_is_invalid, scan, ssh_port_max,
  cooling_ports,
}
use sip_proxy.Client.Activation.{has_tombstone}
use sip_proxy.Client.Custody.Keys.{is_enrolled}
use sip_proxy.Client.Custody.{Operator}
use sip_proxy.Client.Custody.Spec.{hard_retired, reclaimed, retired}
use sip_proxy.Client.Custody.Handlers.{Safe}
use sip_proxy.Client.Custody.Runs.{
  deletion, return, Run, call, stop, Moves, view, Run-Moves, Run-Safe, Run-retired, is_activation,
}
use sip_proxy.Client.Tests.{pool, world, device}
use sip_proxy.Client.Custody.Remote.{SessionSettings, open_session, merged_targets}
use sip_proxy.Client.Custody.Linked.{Linked}
use sip_proxy.Client.Custody.LinkedRuns.{Run-Linked}
use sip_proxy.Client.Custody.Lines.{delete_line}
use sip_proxy.Client.Custody.Departure.{
  finish_reclaim, reclaimed_device, delete_client_device, reclaim_client_device,
}

abbrev admin : Operator
admin = record { username = "root"; role = "admin" }

-- A device that was reset, and a key that is retired.
abbrev stored_device : ClientDevice
stored_device = record (device 2 "BB" none (some 10000) (some 10001)) { code_cleared_at = some 900 }

abbrev stocked : World
stocked = record world { db = record { devices = stored_device ∷ []; released = [] } }

abbrev or_world : Http World → World
or_world (ok w) = w
or_world (error _ _) = world

abbrev after_deletion : World
after_deletion = or_world (delete_client_device pool 60 admin 3000 true 2 stocked)

abbrev after_return : World
after_return = or_world (reclaim_client_device pool admin 4000 " bb" none after_deletion)

deletion_test : delete_client_device pool 60 admin 3000 true 2 stocked ≡ ok after_deletion
unfolding delete_client_device assert_client_device_deletable normalize_role lower strip
deletion_test = refl

return_test : reclaim_client_device pool admin 4000 " bb" none after_deletion ≡ ok after_return
unfolding reclaim_client_device delete_client_device assert_client_device_deletable normalize_role
    lower finish_reclaim ensure_device_reverse_ports reclaimed_device allocate_reverse_ports
    pool_is_invalid scan ssh_port_max cooling_ports
return_test = refl

stocked-Safe : Safe stocked
unfolding has_tombstone
stocked-Safe = ((tt, tt), (tt, tt), disjoint)
  where
    disjoint :
        (key : String)
        → has_tombstone key stocked.tombstones ≡ true
        → is_enrolled key stocked.db.devices ≡ false
    disjoint key h = elim (Bool-cases (str_eq "CC" key)) [
      | inl e ↦ let same : "CC" ≡ key = (eq_iff "CC" key).0 e in rw (← same) refl
      | inr n ↦ absurd (unfold has_tombstone in ground (arith, n, h))
    ]

deletion-Run : Run pool stocked (hard_retired "BB" ∷ []) after_deletion
deletion-Run = call (deletion 60 admin 3000 true 2 stored_device refl deletion_test) stop

return-Run : Run pool stocked (hard_retired "BB" ∷ reclaimed "BB" ∷ []) after_return
unfolding upper strip
return-Run =
    call (deletion 60 admin 3000 true 2 stored_device refl deletion_test)
      (call (return admin 4000 " bb" none return_test) stop)

Run-Moves_example :
    Moves (view stocked) (hard_retired "BB" ∷ reclaimed "BB" ∷ []) (view after_return)
Run-Moves_example =
    Run-Moves pool stocked after_return (hard_retired "BB" ∷ reclaimed "BB" ∷ []) stocked-Safe
      return-Run

Run-Safe_example : Safe after_return
Run-Safe_example =
    Run-Safe pool stocked after_return (hard_retired "BB" ∷ reclaimed "BB" ∷ []) stocked-Safe
      return-Run

Run-retired_example :
    (view after_deletion "CC" ≡ retired)
    × (any (is_activation "CC") (hard_retired "BB" ∷ []) ≡ false)
unfolding has_tombstone
Run-retired_example =
    Run-retired pool stocked after_deletion (hard_retired "BB" ∷ []) "CC" stocked-Safe deletion-Run
      refl refl

abbrev session_settings : SessionSettings
session_settings = record {
  ports = pool;
  client_offline_threshold_seconds = 60;
  reverse_ssh_session_ttl_seconds = 600;
}

-- The targets of a session, the http one added, and the end of the session.
abbrev session_row : ClientDevice
session_row =
    open_session session_settings (λ _. true) 5000 (" WEB" ∷ "telnet" ∷ []) none stored_device

session_test :
    (session_row.reverse_ssh_session_targets ≡ some ("web" ∷ "ssh" ∷ []))
    × (session_row.reverse_ssh_session_expires_at ≡ some 5600)
unfolding open_session merged_targets
session_test = (refl, refl)

Run-Linked_example : Linked after_return
Run-Linked_example =
    Run-Linked pool stocked after_return (hard_retired "BB" ∷ reclaimed "BB" ∷ []) (refl, tt)
      return-Run

-- A line that a device holds is not deleted; one that none holds is.
kept_line_test :
    delete_line "root" 7 (record world {
      db = record { devices = device 1 "AA" (some 7) none none ∷ []; released = [] };
    })
    ≡ error 400 "线路 line-7 仍绑定客户端「office」，请先在客户端管理中解绑后再删除"
unfolding delete_line
kept_line_test = refl
