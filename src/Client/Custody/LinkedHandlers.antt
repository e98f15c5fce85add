-- ===== src/Client/Custody/LinkedHandlers.antt =====
-- The lines that devices are bound to, through the handlers of
-- gfc-platform/control-plane/api/app/admin.py.
use sip_proxy.Common.{
  ℕ, String, ◌≡◌, ◌∙◌, refl, sym, ap, Bool, true, false, not, ◌||◌, Option, none, some, List, [],
  ◌∷◌, arith, inl, inr, Bool-cases, Option-cases, All, All-elem, find, find-some, find-none, ◌==◌,
}
use mathlib.Core.List.{Memᴰ}
use sip_proxy.Common.Text.{strip, upper, concat}
use sip_proxy.Common.Int.{pos}
use sip_proxy.Common.Dict.{Dict, Json, null, int, lookup}
use sip_proxy.Common.Http.{ok, raise_if, ◌>>=◌, After, After-bind, After-ok}
use sip_proxy.Access.Policies.{filter_client_device_update, assert_client_device_deletable}
use sip_proxy.Client.Models.{ClientDevice}
use sip_proxy.Client.Ports
use sip_proxy.Client.Ports.{set_port, is_empty, replace_device, ensure_device_reverse_ports}
use sip_proxy.Client.Tables.{World, Line, Tombstone}
use sip_proxy.Client.Activation.{given, is_none, find_device, holder, opt_eq, next_id}
use sip_proxy.Client.Activation.Rows.{All-replace_device}
use sip_proxy.Client.Custody.{
  Operator, get_row, check_line, trim_name, stamp_device, set_fields, number_of,
  update_client_device, Artifact, queue_device_upgrade, upgrade_client_device,
}
use sip_proxy.Client.Custody.Departure.{
  client_device_online, remove_row, retire_device, delete_client_device, is_active_tombstone,
  reclaimed_device, finish_reclaim, reclaim_client_device,
}
use sip_proxy.Client.Custody.Remote.{
  SessionSettings, open_session, finish_session, start_reverse_ssh_session,
}
use sip_proxy.Client.Custody.Lines.{remove_line, delete_line}
use sip_proxy.Client.Custody.Handlers.{After-get_row, trim_name-lookup, updated-line}
use sip_proxy.Client.Custody.Linked.{
  line_exists, HasLine, AllLinked, Linked, line_exists-member, RowLinked, RowLinked-ensure,
}

check_line-exists :
    (d : ClientDevice) (id : ℕ) (line : Option Json) (w : World)
    → HasLine w.lines d
    → check_line id line w ≡ ok tt
    → line_exists w.lines (elim line [ none ↦ d.line_id | some v ↦ number_of v ]) ≡ true
unfolding check_line
check_line-exists d id none w h e = h
check_line-exists d id (some null) w h e = refl
check_line-exists d id (some (int (pos n))) w h e =
    elim (Option-cases (find (λ (l : Line). l.id == n) w.lines)) [
      | inl missing ↦ absurd (let k = rw (missing, check_line) at e in cc)
      | inr (l, found) ↦
          let (m, same) = find-some (λ (l : Line). l.id == n) w.lines l found in
          let i : l.id ≡ n = ground arith in
          ap (λ (k : ℕ). line_exists w.lines (some k)) (sym i) ∙ line_exists-member l w.lines m
    ]
check_line-exists d id (some v) w h e = refl

AllLinked-remove_row :
    (lines : List Line) (id : ℕ) (ds : List ClientDevice)
    → AllLinked lines ds
    → AllLinked lines (remove_row id ds)
unfolding remove_row
AllLinked-remove_row lines id [] a = tt
AllLinked-remove_row lines id (d ∷ ds) (h, hs) = elim (Bool-cases (d.id == id)) [
  | inl same ↦ rw same (AllLinked-remove_row lines id ds hs)
  | inr other ↦ rw other (h, AllLinked-remove_row lines id ds hs)
]

line_exists-remove_line :
    (id n : ℕ) (lines : List Line)
    → (n == id) ≡ false
    → line_exists lines (some n) ≡ true
    → line_exists (remove_line id lines) (some n) ≡ true
unfolding remove_line
line_exists-remove_line id n [] o h = h
line_exists-remove_line id n (l ∷ ls) o h = elim (Bool-cases (l.id == id)) [
  | inl same ↦ rw same (line_exists-remove_line id n ls o (ground (arith, h, o, same)))
  | inr other ↦ rw other (ground (arith, h, line_exists-remove_line id n ls o))
]

-- No device holds the removed line.
AllLinked-remove_line :
    (id : ℕ) (lines : List Line) (ds : List ClientDevice)
    → All (λ (d : ClientDevice). opt_eq d.line_id id ≡ false) ds
    → AllLinked lines ds
    → AllLinked (remove_line id lines) ds
AllLinked-remove_line id lines [] f a = tt
AllLinked-remove_line id lines (d ∷ ds) (f, fs) (a, rest) =
    (one d.line_id f a, AllLinked-remove_line id lines ds fs rest)
  where
    one :
        (o : Option ℕ)
        → opt_eq o id ≡ false
        → line_exists lines o ≡ true
        → line_exists (remove_line id lines) o ≡ true
    one none f a = refl
    one (some n) f a = line_exists-remove_line id n lines f a

module _ (w : World) (a : Linked w) where
  row-HasLine : (d : ClientDevice) → Memᴰ d w.db.devices → HasLine w.lines d
  row-HasLine d m = All-elem (HasLine w.lines) d w.db.devices m a

  replaced :
      (x : ClientDevice) → HasLine w.lines x → AllLinked w.lines (replace_device x w.db.devices)
  replaced x h = All-replace_device (HasLine w.lines) x w.db.devices h a

  pub update_client_device-Linked :
      (operator : Operator) (now device_id : ℕ) (body : Dict Json) (w' : World)
      → update_client_device operator now device_id body w ≡ ok w'
      → Linked w'
  unfolding update_client_device
  update_client_device-Linked operator now device_id body w' e =
      After-ok Linked (update_client_device operator now device_id body w) w'
        (After-get_row Linked device_id w _ (λ d m same.
          After-bind Linked (filter_client_device_update operator.role body) _ (λ fields _.
            After-bind Linked (check_line device_id (lookup "line_id" fields) w) _ (λ _ passed.
              After-bind Linked (trim_name fields) _ (λ trimmed kept.
                replaced (set_fields trimmed (stamp_device now trimmed d)) (
                  ap (line_exists w.lines)
                    (updated-line now fields trimmed d (trim_name-lookup fields trimmed kept))
                  ∙ check_line-exists d device_id (lookup "line_id" fields) w (row-HasLine d m)
                      passed))))))
        e

  pub upgrade_client_device-Linked :
      (operator : Operator) (now : ℕ) (request_id : String) (artifact_id device_id : ℕ)
      (artifacts : List Artifact) (w' : World)
      → upgrade_client_device operator now request_id artifact_id device_id artifacts w ≡ ok w'
      → Linked w'
  unfolding upgrade_client_device
  upgrade_client_device-Linked operator now request_id artifact_id device_id artifacts w' e =
      After-ok Linked
        (upgrade_client_device operator now request_id artifact_id device_id artifacts w) w'
        (After-get_row Linked device_id w _ (λ d m same.
          elim (Option-cases (find (λ (f : Artifact). f.id == artifact_id) artifacts)) [
            | inl missing ↦ rw missing tt
            | inr (f, found) ↦ elim (Bool-cases f.is_enabled) [
              | inl on ↦
                  rw (found, on)
                    (replaced
                      (queue_device_upgrade now request_id
                        (concat ("queued by " ∷ operator.username ∷ [])) f d)
                      (row-HasLine d m))
              | inr off ↦ rw (found, off) tt
            ]
          ]))
        e

  pub delete_client_device-Linked :
      (settings : Ports.Settings) (threshold : ℕ) (operator : Operator) (now : ℕ) (confirm : Bool)
      (device_id : ℕ) (w' : World)
      → delete_client_device settings threshold operator now confirm device_id w ≡ ok w'
      → Linked w'
  unfolding delete_client_device retire_device
  delete_client_device-Linked settings threshold operator now confirm device_id w' e =
      After-ok Linked (delete_client_device settings threshold operator now confirm device_id w) w'
        (After-bind Linked (raise_if (not confirm) 400 _) _ (λ _ _.
          After-get_row Linked device_id w _ (λ d m same.
            After-bind Linked
              (assert_client_device_deletable operator.role now d
                (client_device_online threshold now d))
              _
              (λ _ _. After-bind Linked (raise_if (not (is_none d.line_id)) 400 _) _ (λ _ _.
                After-bind Linked (raise_if (is_none d.code_cleared_at) 400 _) _
                  (λ _ _. AllLinked-remove_row w.lines d.id w.db.devices a))))))
        e

  pub reclaim_client_device-Linked :
      (settings : Ports.Settings) (operator : Operator) (now : ℕ) (requested : String)
      (name : Option String) (w' : World)
      → reclaim_client_device settings operator now requested name w ≡ ok w'
      → Linked w'
  unfolding reclaim_client_device
  reclaim_client_device-Linked settings operator now requested name w' e =
      After-ok Linked (reclaim_client_device settings operator now requested name w) w'
        (elim (Option-cases (find (is_active_tombstone (upper (strip requested))) w.tombstones)) [
          | inl missing ↦ rw (missing, reclaim_client_device) tt
          | inr (tomb, found) ↦
              elim (Option-cases (find_device (upper (strip requested)) w.db.devices)) [
                | inr (d, held) ↦ rw (found, held, reclaim_client_device) tt
                | inl absent ↦
                    rw (found, absent, reclaim_client_device)
                      (finished tomb
                        (ensure_device_reverse_ports settings now (x tomb)
                          (record w.db { devices = x tomb ∷ w.db.devices }))
                        (RowLinked-ensure w.lines settings now (x tomb)
                          (record w.db { devices = x tomb ∷ w.db.devices }) (no_line tomb)
                          (no_line tomb, a)))
              ]
        ])
        e
    where
      x : Tombstone → ClientDevice
      x tomb = reclaimed_device now name tomb (upper (strip requested)) (next_id w.db.devices)

      no_line : (tomb : Tombstone) → HasLine w.lines (x tomb)
      no_line tomb = unfold reclaimed_device in refl

      finished :
          (tomb : Tombstone) (done : Option ClientDevice × Ports.Db)
          → RowLinked w.lines done.0 done.1.devices
          → After Linked (finish_reclaim operator now tomb (upper (strip requested)) w done)
      finished tomb (none, db) r = unfold finish_reclaim in tt
      finished tomb (some d, db) r = unfold finish_reclaim in r.1

  pub start_reverse_ssh_session-Linked :
      (settings : SessionSettings) (probe : ℕ → Bool) (operator : Operator) (now device_id : ℕ)
      (targets : List String) (ttl : Option ℕ) (w' : World)
      → start_reverse_ssh_session settings probe operator now device_id targets ttl w ≡ ok w'
      → Linked w'
  unfolding start_reverse_ssh_session
  start_reverse_ssh_session-Linked settings probe operator now device_id targets ttl w' e =
      After-ok Linked
        (start_reverse_ssh_session settings probe operator now device_id targets ttl w) w'
        (After-get_row Linked device_id w _ (λ d m same.
          After-bind Linked
            (raise_if (not (client_device_online settings.client_offline_threshold_seconds now d))
              400 _)
            _
            (λ _ _. After-bind Linked (raise_if (is_none (given d.ssh_public_key)) 400 _) _ (λ _ _.
              finished (ensure_device_reverse_ports settings.ports now d w.db)
                (RowLinked-ensure w.lines settings.ports now d w.db (row-HasLine d m) a)))))
        e
    where
      finished :
          (done : Option ClientDevice × Ports.Db)
          → RowLinked w.lines done.0 done.1.devices
          → After Linked (finish_session settings probe operator now targets ttl w done)
      finished (none, db) r = unfold finish_session in tt
      finished (some d, db) (h, rows) =
          unfold finish_session open_session in
          elim (Bool-cases
            (is_empty (set_port d.reverse_ssh_port) || is_empty (set_port d.reverse_http_port))) [
              | inl lacks ↦ rw lacks tt
              | inr has ↦ rw has (
                  All-replace_device (HasLine w.lines)
                    (open_session settings probe now targets ttl d) db.devices h rows)
            ]

  -- A handler that changes one row and not its line.
  pub changed_row-Linked :
      (f : ClientDevice → ClientDevice) (g : ClientDevice → World) (device_id : ℕ) (w' : World)
      → ((d : ClientDevice) → HasLine w.lines d → HasLine w.lines (f d))
      → ((d : ClientDevice) → (g d).lines ≡ w.lines)
      → ((d : ClientDevice) → (g d).db.devices ≡ replace_device (f d) w.db.devices)
      → (get_row device_id w >>= λ d. ok (g d)) ≡ ok w'
      → Linked w'
  changed_row-Linked f g device_id w' keeps lines devices e =
      After-ok Linked (get_row device_id w >>= λ d. ok (g d)) w'
        (After-get_row Linked device_id w (λ d. ok (g d))
          (λ d m same. rw (lines d, devices d) (replaced (f d) (keeps d (row-HasLine d m)))))
        e

  pub delete_line-Linked :
      (operator : String) (line_id : ℕ) (w' : World)
      → delete_line operator line_id w ≡ ok w'
      → Linked w'
  unfolding delete_line
  delete_line-Linked operator line_id w' e =
      After-ok Linked (delete_line operator line_id w) w'
        (elim (Option-cases (find (λ (l : Line). l.id == line_id) w.lines)) [
          | inl missing ↦ rw (missing, delete_line) tt
          | inr (line, found) ↦ elim (Option-cases (holder line_id w.db.devices)) [
            | inr (bound, held) ↦ rw (found, held, delete_line) tt
            | inl free ↦
                let same = (find-some (λ (l : Line). l.id == line_id) w.lines line found).1 in
                let i : line.id ≡ line_id = ground arith in
                rw (found, free, delete_line)
                  (ap_linked line.id line_id i (
                    AllLinked-remove_line line_id w.lines w.db.devices
                      (find-none (λ (d : ClientDevice). opt_eq d.line_id line_id) w.db.devices free)
                      a))
          ]
        ])
        e
    where
      ap_linked :
          (m n : ℕ)
          → m ≡ n
          → AllLinked (remove_line n w.lines) w.db.devices
          → AllLinked (remove_line m w.lines) w.db.devices
      ap_linked m n i h = rw i h
