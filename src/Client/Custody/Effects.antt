-- ===== src/Client/Custody/Effects.antt =====
-- Which device keys the table holds after an activation, a heartbeat and the ports of a device.
use sip_proxy.Common.{
  ℕ, String, ◌≡◌, ◌∙◌, refl, sym, true, false, ◌||◌, ◌<◌, Option, none, some, List, arith, inl, inr,
  Bool-cases, All, All-map, find-some, ◌==◌, str_eq, eq_iff,
}
use mathlib.Core.List.{Memᴰ}
use sip_proxy.Common.Http.{ok}
use sip_proxy.Client.Models.{ClientDevice}
use sip_proxy.Client.Ports
use sip_proxy.Client.Ports.{replace_device, ensure_device_reverse_ports}
use sip_proxy.Client.Ports.Distinct.{ensure_device_reverse_ports-rows}
use sip_proxy.Client.Tables.{World, Line}
use sip_proxy.Client.Activation.{
  Env, Request, Response, activate_client, find_device, bind_device, release_holder, rebind,
  new_device, next_id, finish, has_tombstone,
}
use sip_proxy.Client.Activation.Rows.{Unique}
use sip_proxy.Client.Activation.Binding.{next_id-fresh}
use sip_proxy.Client.Activation.Release.{All-release_holder}
use sip_proxy.Common.Http.{After, After-bind, After-ok}
use sip_proxy.Client.Activation.Steps.{After-activate_client, activation_key}
use sip_proxy.Client.Heartbeat.{
  HeartbeatRequest, HeartbeatWorld, HeartbeatResponse, client_heartbeat, finish_heartbeat,
  auth_client, report_device, settle_device,
}
use sip_proxy.Client.Heartbeat.Tables.{
  Same, report_device-Same, settle_device-Same, auth_client-member,
}
use sip_proxy.Client.Custody.Keys.{
  is_enrolled, SameKey, Unique-SameKey, SameKey-replace_device, is_enrolled-replace_device,
  is_enrolled-release_holder, is_enrolled-member,
}

-- The table holds the keys of another, and one more.
abbrev pub Gains : String → List ClientDevice → List ClientDevice → Type 0
Gains k ds ds' = (key : String) → is_enrolled key ds' ≡ (str_eq k key || is_enrolled key ds)

abbrev pub Keeps : List ClientDevice → List ClientDevice → Type 0
Keeps ds ds' = (key : String) → is_enrolled key ds' ≡ is_enrolled key ds

-- A new id is no row's.
pub fresh-SameKey :
    (x : ClientDevice) (rows all : List ClientDevice)
    → x.id ≡ next_id all
    → All (λ (d : ClientDevice). d.id < next_id all) rows
    → SameKey x rows
fresh-SameKey x rows all e h =
    All-map (λ (d : ClientDevice). d.id < next_id all)
      (λ d. (d.id == x.id) ≡ true → d.device_key ≡ x.device_key) rows
      (λ d below same. absurd (ground (arith, e))) h

-- The ports of a device change no key, nor which rows have the device's id.
pub Keeps-ensure :
    (settings : Ports.Settings) (now : ℕ) (x : ClientDevice) (db : Ports.Db)
    → SameKey x db.devices
    → Keeps db.devices (ensure_device_reverse_ports settings now x db).1.devices
Keeps-ensure settings now x db s =
    ensure_device_reverse_ports-rows (λ _ ds. Keeps db.devices ds) settings now x db (λ _. refl)
      (λ _. refl)
      (λ a b key.
        is_enrolled-replace_device
          (record x { reverse_ssh_port = some a; reverse_http_port = some b }) key db.devices s)

module _ (body : Request) (k : String) (line : Line) (now : ℕ) (devices : List ClientDevice)
    (u : Unique devices) where
  -- The table with the row of the activating device holds its key too.
  abbrev BindsKey : Option ClientDevice → Type 0
  BindsKey existing =
      let bound = bind_device body k line existing (release_holder now line.id existing devices) in
      SameKey bound.0 bound.1 × Gains k devices bound.1

  BindsKey-new : BindsKey none
  unfolding bind_device new_device
  BindsKey-new =
      let rows = release_holder now line.id none devices in
      let x : ClientDevice = new_device body k line (next_id rows) in
      (
        (λ _. refl, fresh-SameKey x rows rows refl (next_id-fresh rows)),
        λ key. rw (is_enrolled-release_holder now line.id none key devices u) refl,
      )

  BindsKey-existing : (d : ClientDevice) → find_device k devices ≡ some d → BindsKey (some d)
  unfolding bind_device rebind
  BindsKey-existing d e =
      let rows = release_holder now line.id (some d) devices in
      let x : ClientDevice = rebind body k line d in
      let (m, t) = find-some (λ (f : ClientDevice). str_eq f.device_key k) devices d e in
      let s : SameKey x rows =
        All-release_holder now line.id (some d)
          (λ f. (f.id == d.id) ≡ true → f.device_key ≡ d.device_key) devices (λ f h. h)
          (Unique-SameKey d devices m u) in
      (
        SameKey-replace_device x rows s,
        λ key.
            is_enrolled-replace_device x key rows s
            ∙ is_enrolled-release_holder now line.id (some d) key devices u
            ∙ held d key m t,
      )
    where
      held :
          (d : ClientDevice) (key : String)
          → Memᴰ d devices
          → str_eq d.device_key k ≡ true
          → is_enrolled key devices ≡ (str_eq k key || is_enrolled key devices)
      held d key m t = elim (Bool-cases (str_eq k key)) [
        | inl same ↦
            let e : d.device_key ≡ key = (eq_iff d.device_key k).0 t ∙ (eq_iff k key).0 same in
            rw same (rw (← e) (is_enrolled-member d devices m))
        | inr other ↦ rw other refl
      ]

  BindsKey-all :
      (existing : Option ClientDevice) → find_device k devices ≡ existing → BindsKey existing
  BindsKey-all none e = BindsKey-new
  BindsKey-all (some d) e = BindsKey-existing d e

-- What an activation leaves of the two tables.
abbrev pub Activated : String → World → World → Type 0
Activated k w w' =
    Gains k w.db.devices w'.db.devices
    × (w'.tombstones ≡ w.tombstones)
    × (has_tombstone k w.tombstones ≡ false)

pub activate_client-Activated :
    (env : Env) (body : Request) (w w' : World) (r : Response)
    → Unique w.db.devices
    → activate_client env body w ≡ ok (r, w')
    → Activated (activation_key env body) w w'
activate_client-Activated env body w w' r u e =
    After-ok (λ (a : Response × World). Activated k w a.1) (activate_client env body w) (r, w')
      (After-activate_client (λ (a : Response × World). Activated k w a.1) env body w
        (λ line _ free _.
          let existing = find_device k w.db.devices in
          let bound =
            bind_device body k line existing
              (release_holder env.now line.id existing w.db.devices) in
          let (s, gains) = BindsKey-all body k line env.now w.db.devices u existing refl in
          let db : Ports.Db = record w.db { devices = bound.1 } in
          finished line (ensure_device_reverse_ports env.settings env.now bound.0 db) free
            (λ key. Keeps-ensure env.settings env.now bound.0 db s key ∙ gains key)))
      e
  where
    k : String
    k = activation_key env body

    finished :
        (line : Line) (done : Option ClientDevice × Ports.Db)
        → has_tombstone k w.tombstones ≡ false
        → Gains k w.db.devices done.1.devices
        → After (λ (a : Response × World). Activated k w a.1) (finish env line w done)
    finished line (none, db) free gains = unfold finish in tt
    finished line (some d, db) free gains = unfold finish in (gains, refl, free)

-- A heartbeat's row, where one is found, has its key alone, and the table has the keys of before.
abbrev pub RowKept : List ClientDevice → Option ClientDevice → List ClientDevice → Type 0
RowKept before none ds = Keeps before ds
RowKept before (some d) ds = Keeps before ds × SameKey d ds

pub RowKept-ensure :
    (settings : Ports.Settings) (now : ℕ) (x : ClientDevice) (before : List ClientDevice)
    (db : Ports.Db)
    → Keeps before db.devices
    → SameKey x db.devices
    → RowKept before
        (ensure_device_reverse_ports settings now x db).0
        (ensure_device_reverse_ports settings now x db).1.devices
RowKept-ensure settings now x before db k s =
    ensure_device_reverse_ports-rows (RowKept before) settings now x db (k, s) k
      (λ a b.
        let y : ClientDevice = record x { reverse_ssh_port = some a; reverse_http_port = some b } in
        (
          λ key. is_enrolled-replace_device y key db.devices s ∙ k key,
          SameKey-replace_device y db.devices s,
        ))

-- The row of the same id and key.
pub Same-SameKey :
    (x d : ClientDevice) (ds : List ClientDevice) → Same x d → SameKey d ds → SameKey x ds
Same-SameKey x d ds (i, k, l) s =
    All-map (λ e. (e.id == d.id) ≡ true → e.device_key ≡ d.device_key)
      (λ e. (e.id == x.id) ≡ true → e.device_key ≡ x.device_key) ds (λ e h n. h (rw i at n) ∙ sym k)
      s

-- The keys and the tombstones are those of before.
abbrev pub Quietly : World → World → Type 0
Quietly w w' = Keeps w.db.devices w'.db.devices × (w'.tombstones ≡ w.tombstones)

pub client_heartbeat-Quietly :
    (hash : String → String) (settings : Ports.Settings) (now : ℕ) (authorization : Option String)
    (body : HeartbeatRequest) (w w' : HeartbeatWorld) (r : HeartbeatResponse)
    → Unique w.world.db.devices
    → client_heartbeat hash settings now authorization body w ≡ ok (r, w')
    → Quietly w.world w'.world
unfolding client_heartbeat
client_heartbeat-Quietly hash settings now authorization body w w' r u e =
    After-ok (λ (a : HeartbeatResponse × HeartbeatWorld). Quietly w.world a.1.world)
      (client_heartbeat hash settings now authorization body w) (r, w')
      (After-bind (λ (a : HeartbeatResponse × HeartbeatWorld). Quietly w.world a.1.world)
        (auth_client hash authorization w.world.tokens w.world.db.devices) _
        (λ device found.
          let devices = w.world.db.devices in
          let x : ClientDevice = report_device now body w.world.lines device in
          let m = auth_client-member hash authorization w.world.tokens devices device found in
          let s : SameKey x devices =
            Same-SameKey x device devices (report_device-Same now body w.world device)
              (Unique-SameKey device devices m u) in
          let db : Ports.Db = record w.world.db { devices = replace_device x devices } in
          finished (ensure_device_reverse_ports settings now x db) (
            RowKept-ensure settings now x devices db
              (λ key. is_enrolled-replace_device x key devices s)
              (SameKey-replace_device x devices s))))
      e
  where
    finished :
        (done : Option ClientDevice × Ports.Db)
        → RowKept w.world.db.devices done.0 done.1.devices
        → After
            (λ (a : HeartbeatResponse × HeartbeatWorld). Quietly w.world a.1.world)
            (finish_heartbeat now body w done)
    finished (none, db) k = unfold finish_heartbeat in tt
    finished (some d, db) (k, s) =
        unfold finish_heartbeat in
        let settled : ClientDevice = settle_device now body d in
        let s' : SameKey settled db.devices =
          Same-SameKey settled d db.devices (settle_device-Same now body d) s in
        (λ key. is_enrolled-replace_device settled key db.devices s' ∙ k key, refl)
