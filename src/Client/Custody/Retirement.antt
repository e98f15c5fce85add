-- ===== src/Client/Custody/Retirement.antt =====
-- The hard retirement and the return of a client device, in
-- gfc-platform/control-plane/api/app/admin.py, and the keys they move.
use sip_proxy.Common.{
  ℕ, String, ◌≡◌, ◌∙◌, refl, sym, ap, Bool, true, false, not, ◌<◌, Option, none, some, List, [],
  ◌∷◌, arith, inl, inr, Bool-cases, Option-cases, All, All-map, find, find-some, find-none, ◌==◌,
  str_eq, eq_iff,
}
use mathlib.Core.List.{Memᴰ}
use sip_proxy.Common.Text.{strip, upper}
use sip_proxy.Common.Http.{ok, raise_if}
use sip_proxy.Access.Policies.{assert_client_device_deletable}
use sip_proxy.Client.Models.{ClientDevice}
use sip_proxy.Client.Ports
use sip_proxy.Client.Ports.{
  replace_device, ensure_device_reverse_ports, release_device_reverse_ports,
}
use sip_proxy.Client.Tables.{World, Tombstone}
use sip_proxy.Client.Activation.{find_device, next_id, is_none, has_tombstone}
use sip_proxy.Client.Activation.Rows.{Differ, Unique, Others}
use sip_proxy.Client.Activation.Binding.{next_id-fresh, next_id_eq, Unique-ensure}
use sip_proxy.Common.Http.{After, After-bind, After-ok}
use sip_proxy.Client.Custody.{Operator, find_row, get_row}
use sip_proxy.Client.Custody.Effects.{Gains, fresh-SameKey, Keeps-ensure}
use sip_proxy.Client.Custody.Spec.{reclaimed, hard_retired, Post-reclaimed, Post-hard_retired}
use sip_proxy.Client.Custody.Handlers.{Follows, Safe}
use sip_proxy.Client.Custody.Departure.{
  client_device_online, retire_device, delete_client_device, is_active_tombstone, reclaimed_device,
  finish_reclaim, reclaim_client_device,
}

get_row-member : (id : ℕ) (w : World) (d : ClientDevice) → get_row id w ≡ ok d → Memᴰ d w.db.devices
get_row-member id w d e =
    After-ok (λ (r : ClientDevice). Memᴰ r w.db.devices) (get_row id w) d
      (go (find_row id w.db.devices) refl) e
  where
    go :
        (row : Option ClientDevice)
        → find_row id w.db.devices ≡ row
        → After (λ (r : ClientDevice). Memᴰ r w.db.devices) (get_row id w)
    go none e = rw (e, get_row) tt
    go (some r) e =
        rw (e, get_row) (find-some (λ (d : ClientDevice). d.id == id) w.db.devices r e).0

pub delete_client_device-Follows :
    (settings : Ports.Settings) (threshold : ℕ) (operator : Operator) (now : ℕ) (confirm : Bool)
    (device_id : ℕ) (d : ClientDevice) (w w' : World)
    → Safe w
    → get_row device_id w ≡ ok d
    → delete_client_device settings threshold operator now confirm device_id w ≡ ok w'
    → Follows (hard_retired d.device_key) w w'
unfolding delete_client_device retire_device
delete_client_device-Follows settings threshold operator now confirm device_id d w w' safe row e =
    After-ok P (delete_client_device settings threshold operator now confirm device_id w) w'
      (After-bind P (raise_if (not confirm) 400 _) _ (λ _ _.
        After-bind P (get_row device_id w) _ (λ d' row'.
          After-bind P
            (assert_client_device_deletable operator.role now d'
              (client_device_online threshold now d'))
            _
            (λ _ _. After-bind P (raise_if (not (is_none d'.line_id)) 400 _) _ (λ _ _.
              After-bind P (raise_if (is_none d'.code_cleared_at) 400 _) _
                (λ _ _. gone d' row'))))))
      e
  where
    P : World → Type 0
    P = Follows (hard_retired d.device_key) w

    gone :
        (d' : ClientDevice)
        → get_row device_id w ≡ ok d'
        → Follows (hard_retired d.device_key) w (retire_device settings operator now d' w)
    gone d' row' =
        unfold retire_device in
        let both : ok d' ≡ ok d = sym row' ∙ row in
        let same : d' ≡ d = cc in
        let k : d'.device_key ≡ d.device_key = ap (λ (r : ClientDevice). r.device_key) same in
        rw (← k) (
          Post-hard_retired d' _ w.db.devices w.tombstones safe (get_row-member device_id w d' row')
            refl refl)

find-has_tombstone :
    (key : String) (rows : List Tombstone) (t : Tombstone)
    → find (is_active_tombstone key) rows ≡ some t
    → has_tombstone key rows ≡ true
unfolding has_tombstone
find-has_tombstone key [] t e = cc
find-has_tombstone key (r ∷ rs) t e = elim (Bool-cases (is_active_tombstone key r)) [
  | inl active ↦ rw active refl
  | inr not_active ↦ rw not_active (find-has_tombstone key rs t (rw (not_active, find) at e))
]

-- The row of a device that comes back, in the table of the others.
Unique-reclaimed :
    (now : ℕ) (name : Option String) (tomb : Tombstone) (key : String) (ds : List ClientDevice)
    → find_device key ds ≡ none
    → Unique ds
    → let x = reclaimed_device now name tomb key (next_id ds) in Others x (x ∷ ds) × Unique (x ∷ ds)
unfolding reclaimed_device
Unique-reclaimed now name tomb key ds e u =
    let x : ClientDevice = reclaimed_device now name tomb key (next_id ds) in
    let all_differ : All (Differ x) ds =
      differs ds (find-none (λ (d : ClientDevice). str_eq d.device_key key) ds e)
        (next_id-fresh ds) in
    (
      (
        λ n. absurd (next_id_eq (next_id ds) n),
        All-map (Differ x) (λ f. (f.id == x.id) ≡ false → Differ x f) ds (λ f h _. h) all_differ,
      ),
      (all_differ, u),
    )
  where
    differs :
        (rows : List ClientDevice)
        → All (λ (d : ClientDevice). str_eq d.device_key key ≡ false) rows
        → All (λ (d : ClientDevice). d.id < next_id ds) rows
        → All (Differ (reclaimed_device now name tomb key (next_id ds))) rows
    differs [] k i = tt
    differs (d ∷ rows) (k, ks) (i, is) = (
      (ground arith, ground (arith, eq_iff d.device_key key, eq_iff key d.device_key), refl),
      differs rows ks is,
    )

Gains-reclaimed :
    (settings : Ports.Settings) (now : ℕ) (name : Option String) (tomb : Tombstone) (key : String)
    (db : Ports.Db)
    → let x = reclaimed_device now name tomb key (next_id db.devices) in
      Gains key db.devices
        (ensure_device_reverse_ports settings now x
          (record db { devices = x ∷ db.devices })).1.devices
unfolding reclaimed_device
Gains-reclaimed settings now name tomb key db =
    let x : ClientDevice = reclaimed_device now name tomb key (next_id db.devices) in
    Keeps-ensure settings now x (record db { devices = x ∷ db.devices })
      (λ _. refl, fresh-SameKey x db.devices db.devices refl (next_id-fresh db.devices))

pub reclaim_client_device-Follows :
    (settings : Ports.Settings) (operator : Operator) (now : ℕ) (requested : String)
    (name : Option String) (w w' : World)
    → Safe w
    → reclaim_client_device settings operator now requested name w ≡ ok w'
    → Follows (reclaimed (upper (strip requested))) w w'
unfolding reclaim_client_device
reclaim_client_device-Follows settings operator now requested name w w' (u, s, n) e =
    After-ok P (reclaim_client_device settings operator now requested name w) w'
      (elim (Option-cases (find (is_active_tombstone key) w.tombstones)) [
        | inl missing ↦ rw (missing, reclaim_client_device) tt
        | inr (tomb, found) ↦ elim (Option-cases (find_device key w.db.devices)) [
          | inr (d, held) ↦ rw (found, held, reclaim_client_device) tt
          | inl absent ↦
              rw (found, absent, reclaim_client_device)
                (finished tomb
                  (ensure_device_reverse_ports settings now (x tomb)
                    (record w.db { devices = x tomb ∷ w.db.devices }))
                  (let (o, v) = Unique-reclaimed now name tomb key w.db.devices absent u in
                    Unique-ensure settings now (x tomb)
                      (record w.db { devices = x tomb ∷ w.db.devices }) o v)
                  (Gains-reclaimed settings now name tomb key w.db)
                  (find-has_tombstone key w.tombstones tomb found))
        ]
      ])
      e
  where
    key : String
    key = upper (strip requested)

    P : World → Type 0
    P = Follows (reclaimed (upper (strip requested))) w

    x : Tombstone → ClientDevice
    x tomb = reclaimed_device now name tomb (upper (strip requested)) (next_id w.db.devices)

    finished :
        (tomb : Tombstone) (done : Option ClientDevice × Ports.Db)
        → Unique done.1.devices
        → Gains (upper (strip requested)) w.db.devices done.1.devices
        → has_tombstone (upper (strip requested)) w.tombstones ≡ true
        → After
            (Follows (reclaimed (upper (strip requested))) w)
            (finish_reclaim operator now tomb (upper (strip requested)) w done)
    finished tomb (none, db) u' gains held = unfold finish_reclaim in tt
    finished tomb (some d, db) u' gains held =
        unfold finish_reclaim in
        Post-reclaimed now (upper (strip requested)) w.db.devices db.devices w.tombstones (u, s, n)
          u' held gains
