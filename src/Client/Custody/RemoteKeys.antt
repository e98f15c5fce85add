-- ===== src/Client/Custody/RemoteKeys.antt =====
-- The keys of the table through remote sessions and the deletion of a line, in
-- gfc-platform/control-plane/api/app/admin.py.
use sip_proxy.Common.{
  ℕ, String, ◌≡◌, ◌∙◌, refl, Bool, not, ◌||◌, Option, none, some, List, arith, inl, inr, Bool-cases,
  Option-cases, find, ◌==◌,
}
use sip_proxy.Common.Http.{ok, raise_if, After, After-bind, After-ok}
use sip_proxy.Client.Models.{ClientDevice}
use sip_proxy.Client.Ports
use sip_proxy.Client.Ports.{set_port, is_empty, replace_device, ensure_device_reverse_ports}
use sip_proxy.Client.Tables.{World, Line}
use sip_proxy.Client.Activation.{given, is_none, holder}
use sip_proxy.Client.Activation.Rows.{Unique, Others, Unique-Others, Unique-replace_device}
use sip_proxy.Client.Heartbeat.Tables.{Same, Same-Others, Kept, Kept-ensure}
use sip_proxy.Client.Custody.{Operator}
use sip_proxy.Client.Custody.Departure.{client_device_online}
use sip_proxy.Client.Custody.Remote.{
  SessionSettings, open_session, finish_session, start_reverse_ssh_session, expire_session,
  get_reverse_ssh_session, close_session, stop_reverse_ssh_session,
}
use sip_proxy.Client.Custody.Lines.{delete_line}
use sip_proxy.Client.Custody.Keys.{SameKey, Unique-SameKey, is_enrolled-replace_device}
use sip_proxy.Client.Custody.Effects.{Keeps, RowKept, RowKept-ensure, Same-SameKey}
use sip_proxy.Client.Custody.Spec.{changed, Post, Post-changed}
use sip_proxy.Client.Custody.Handlers.{Follows, Safe, After-get_row, LineFree-own, saved}

pub expire_session-Same : (now : ℕ) (d : ClientDevice) → Same (expire_session now d) d
unfolding expire_session
expire_session-Same now d = (ground arith, ground arith, ground arith)

pub get_reverse_ssh_session-Follows :
    (now device_id : ℕ) (w w' : World)
    → Safe w
    → get_reverse_ssh_session now device_id w ≡ ok w'
    → Follows changed w w'
unfolding get_reverse_ssh_session
get_reverse_ssh_session-Follows now device_id w w' safe e =
    After-ok (Follows changed w) (get_reverse_ssh_session now device_id w) w'
      (After-get_row (Follows changed w) device_id w _ (λ d m same.
        let (i, k, l) = expire_session-Same now d in
        saved (expire_session now d) d w.db.devices w.tombstones safe m i k
          (rw l (LineFree-own d w.db.devices m safe.0))))
      e

pub stop_reverse_ssh_session-Follows :
    (operator : Operator) (device_id : ℕ) (w w' : World)
    → Safe w
    → stop_reverse_ssh_session operator device_id w ≡ ok w'
    → Follows changed w w'
unfolding stop_reverse_ssh_session
stop_reverse_ssh_session-Follows operator device_id w w' safe e =
    After-ok (Follows changed w) (stop_reverse_ssh_session operator device_id w) w'
      (After-get_row (Follows changed w) device_id w _ (λ d m same.
        saved (close_session d) d w.db.devices w.tombstones safe m refl refl
          (LineFree-own d w.db.devices m safe.0)))
      e

pub start_reverse_ssh_session-Follows :
    (settings : SessionSettings) (probe : ℕ → Bool) (operator : Operator) (now device_id : ℕ)
    (targets : List String) (ttl : Option ℕ) (w w' : World)
    → Safe w
    → start_reverse_ssh_session settings probe operator now device_id targets ttl w ≡ ok w'
    → Follows changed w w'
unfolding start_reverse_ssh_session
start_reverse_ssh_session-Follows settings probe operator now device_id targets ttl w w' safe e =
    After-ok (Follows changed w)
      (start_reverse_ssh_session settings probe operator now device_id targets ttl w) w'
      (After-get_row (Follows changed w) device_id w _ (λ d m same.
        After-bind (Follows changed w)
          (raise_if (not (client_device_online settings.client_offline_threshold_seconds now d)) 400
            _)
          _
          (λ _ _.
            After-bind (Follows changed w) (raise_if (is_none (given d.ssh_public_key)) 400 _) _
              (λ _ _.
                finished (ensure_device_reverse_ports settings.ports now d w.db)
                  (Kept-ensure settings.ports now d w.db safe.0
                    (Unique-Others d w.db.devices m safe.0))
                  (RowKept-ensure settings.ports now d w.db.devices w.db (λ _. refl)
                    (Unique-SameKey d w.db.devices m safe.0))))))
      e
  where
    opened :
        (d : ClientDevice) (db : Ports.Db)
        → Unique db.devices
        → Others d db.devices
        → Keeps w.db.devices db.devices
        → SameKey d db.devices
        → Post changed w.db.devices w.tombstones
            (replace_device (open_session settings probe now targets ttl d) db.devices)
            w.tombstones
    opened d db u o keeps s =
        unfold open_session in
        let x : ClientDevice = open_session settings probe now targets ttl d in
        let same : Same x d = (refl, refl, refl) in
        Post-changed w.db.devices (replace_device x db.devices) w.tombstones safe
          (Unique-replace_device x db.devices (Same-Others x d db.devices same o) u)
          (λ key.
            is_enrolled-replace_device x key db.devices (Same-SameKey x d db.devices same s)
            ∙ keeps key)

    finished :
        (done : Option ClientDevice × Ports.Db)
        → Kept done.0 done.1.devices
        → RowKept w.db.devices done.0 done.1.devices
        → After (Follows changed w) (finish_session settings probe operator now targets ttl w done)
    finished (none, db) k r = unfold finish_session in tt
    finished (some d, db) (u, o) (keeps, s) =
        unfold finish_session open_session in
        elim (Bool-cases
          (is_empty (set_port d.reverse_ssh_port) || is_empty (set_port d.reverse_http_port))) [
            | inl lacks ↦ rw lacks tt
            | inr has ↦ rw has (opened d db u o keeps s)
          ]

pub delete_line-Follows :
    (operator : String) (line_id : ℕ) (w w' : World)
    → Safe w
    → delete_line operator line_id w ≡ ok w'
    → Follows changed w w'
unfolding delete_line
delete_line-Follows operator line_id w w' safe e =
    After-ok (Follows changed w) (delete_line operator line_id w) w'
      (elim (Option-cases (find (λ (l : Line). l.id == line_id) w.lines)) [
        | inl missing ↦ rw (missing, delete_line) tt
        | inr (line, found) ↦ elim (Option-cases (holder line_id w.db.devices)) [
          | inr (bound, held) ↦ rw (found, held, delete_line) tt
          | inl free ↦
              rw (found, free, delete_line)
                (Post-changed w.db.devices w.db.devices w.tombstones safe safe.0 (λ _. refl))
        ]
      ])
      e
