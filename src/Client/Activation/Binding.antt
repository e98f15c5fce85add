-- ===== src/Client/Activation/Binding.antt =====
-- What an activation does to the table of devices.
use sip_proxy.Common.{
  ℕ, ◌<◌, String, ◌≡◌, refl, false, Option, none, some, List, [], ◌∷◌, arith, All, All-map,
  find-some, find-none, ◌==◌, str_eq, eq_iff, if◌then◌else◌,
}
use sip_proxy.Common.Http.{ok}
use sip_proxy.Client.Models.{ClientDevice}
use sip_proxy.Client.Ports
use sip_proxy.Client.Ports.{replace_device, ensure_device_reverse_ports}
use sip_proxy.Client.Ports.Distinct.{ensure_device_reverse_ports-rows}
use sip_proxy.Client.Activation.{
  World, Env, Request, Response, Line, activate_client, find_device, bind_device, release_holder,
  rebind, new_device, next_id, finish, is_none, opt_eq,
}
use sip_proxy.Client.Activation.Rows.{
  same_line, Differ, Unique, Others, All-replace_device, Unique-Others, Unique-replace_device,
}
use sip_proxy.Client.Activation.Release.{
  Free, All-release_holder, Unique-release_holder, release_holder-Free,
}
use sip_proxy.Common.Http.{After, After-ok}
use sip_proxy.Client.Activation.Steps.{activation_key, After-activate_client}

-- The id of a new row is above those of the table.
pub next_id-fresh : (ds : List ClientDevice) → All (λ d. d.id < next_id ds) ds
next_id-fresh [] = tt
next_id-fresh (d ∷ ds) = (
  omega arith,
  All-map (λ e. e.id < next_id ds) (λ e. e.id < next_id (d ∷ ds)) ds (λ e h. omega (arith, h))
      (next_id-fresh ds),
)

-- The rows of another id still differ from `x` where `x` is put in.
pub Others-replace_device :
    (x : ClientDevice) (ds : List ClientDevice) → Others x ds → Others x (replace_device x ds)
Others-replace_device x ds h =
    All-replace_device (λ e. (e.id == x.id) ≡ false → Differ x e) x ds (λ n. absurd (ground arith))
      h

same_line_free : (n : ℕ) (o : Option ℕ) → opt_eq o n ≡ false → same_line (some n) o ≡ false
same_line_free n none h = refl
same_line_free n (some m) h = ground arith

line_or_free :
    (n : ℕ) (a o : Option ℕ)
    → opt_eq o n ≡ false
    → same_line a o ≡ false
    → same_line (if is_none a then some n else a) o ≡ false
line_or_free n none o h s = same_line_free n o h
line_or_free n (some a) o h s = s

-- Ports do not count.
pub Unique-ensure :
    (settings : Ports.Settings) (now : ℕ) (device : ClientDevice) (db : Ports.Db)
    → Others device db.devices
    → Unique db.devices
    → Unique (ensure_device_reverse_ports settings now device db).1.devices
Unique-ensure settings now device db o u =
    ensure_device_reverse_ports-rows (λ _ ds. Unique ds) settings now device db u u
      (λ a b.
        Unique-replace_device
          (record device { reverse_ssh_port = some a; reverse_http_port = some b }) db.devices o u)

pub next_id_eq : (n : ℕ) → (n == n) ≡ false → ⊥
next_id_eq n h = ground arith

module _ (body : Request) (key : String) (line : Line) (now : ℕ) (devices : List ClientDevice) where
  -- The row of the activating device, beside the rows of the others.
  unfoldable Binds : Option ClientDevice → Type 0
  Binds existing =
      let (device, rows) =
        bind_device body key line existing (release_holder now line.id existing devices) in
      Others device rows × Unique rows

  Binds-new : find_device key devices ≡ none → Unique devices → Binds none
  unfolding Binds bind_device new_device
  Binds-new e u =
      let rows : List ClientDevice = release_holder now line.id none devices in
      let x : ClientDevice = new_device body key line (next_id rows) in
      let keys : All (λ (d : ClientDevice). str_eq d.device_key key ≡ false) rows =
        All-release_holder now line.id none (λ (d : ClientDevice). str_eq d.device_key key ≡ false)
          devices (λ d h. h)
          (find-none (λ (d : ClientDevice). str_eq d.device_key key) devices e) in
      let differ : All (Differ x) rows =
        differs rows rows keys (next_id-fresh rows)
          (release_holder-Free now line.id none devices u) in
      (
        (
          λ n. absurd (next_id_eq (next_id rows) n),
          All-map (Differ x) (λ f. (f.id == x.id) ≡ false → Differ x f) rows (λ f h _. h) differ,
        ),
        (differ, Unique-release_holder now line.id none devices u),
      )
    where
      differs :
          (all ds : List ClientDevice)
          → All (λ (d : ClientDevice). str_eq d.device_key key ≡ false) ds
          → All (λ (d : ClientDevice). d.id < next_id all) ds
          → Free line.id none ds
          → All (Differ (new_device body key line (next_id all))) ds
      differs all [] k i f = tt
      differs all (d ∷ ds) (k, ks) (i, is) (f, fs) = (
        (
          ground arith,
          ground (arith, eq_iff d.device_key key, eq_iff key d.device_key),
          same_line_free line.id d.line_id (f refl),
        ),
        differs all ds ks is fs,
      )

  Binds-existing :
      (device : ClientDevice)
      → find_device key devices ≡ some device
      → Unique devices
      → Binds (some device)
  unfolding Binds bind_device rebind
  Binds-existing device e u =
      let rows : List ClientDevice = release_holder now line.id (some device) devices in
      let (m, _) = find-some (λ (d : ClientDevice). str_eq d.device_key key) devices device e in
      let differ : Others device rows =
        All-release_holder now line.id (some device)
          (λ f. (f.id == device.id) ≡ false → Differ device f) devices
          (λ f g n. ((g n).0, (g n).1, no_line device.line_id))
          (Unique-Others device devices m u) in
      let x : ClientDevice = rebind body key line device in
      let others : Others x rows =
        bound device rows differ (release_holder-Free now line.id (some device) devices u) in
      (
        Others-replace_device x rows others,
        Unique-replace_device x rows others
            (Unique-release_holder now line.id (some device) devices u),
      )
    where
      no_line : (o : Option ℕ) → same_line o none ≡ false
      no_line none = refl
      no_line (some n) = refl

      bound :
          (d : ClientDevice) (ds : List ClientDevice)
          → Others d ds
          → Free line.id (some d) ds
          → Others (rebind body key line d) ds
      bound d [] o f = tt
      bound d (g ∷ gs) (o, os) (f, fs) = (
        λ n. ((o n).0, (o n).1, line_or_free line.id d.line_id g.line_id (f (rw n refl)) (o n).2),
        bound d gs os fs,
      )

-- The last step keeps the table of devices.
finish-Unique :
    (env : Env) (line : Line) (w : World) (r : Option ClientDevice × Ports.Db)
    → Unique r.1.devices
    → After (λ (a : Response × World). Unique a.1.db.devices) (finish env line w r)
unfolding finish
finish-Unique env line w (none, db) u = tt
finish-Unique env line w (some device, db) u = u

-- Where no id, device key or line names two devices, none does after a successful activation: the
-- line of the code is taken from the device that held it, and the row of the activating device is
-- found by its key or made with a new id.
pub activate_client-Unique :
    (env : Env) (body : Request) (w w' : World) (r : Response)
    → Unique w.db.devices
    → activate_client env body w ≡ ok (r, w')
    → Unique w'.db.devices
unfolding Binds
activate_client-Unique env body w w' r u e =
    After-ok (λ (a : Response × World). Unique a.1.db.devices) (activate_client env body w) (r, w')
      (After-activate_client (λ (a : Response × World). Unique a.1.db.devices) env body w
        (λ line _ _ _.
          let key = activation_key env body in
          let existing = find_device key w.db.devices in
          let bound =
            bind_device body key line existing
              (release_holder env.now line.id existing w.db.devices) in
          let (o, v) = binds line (find_device key w.db.devices) refl in
          finish-Unique env line w
            (ensure_device_reverse_ports env.settings env.now bound.0
              (record w.db { devices = bound.1 }))
            (Unique-ensure env.settings env.now bound.0 (record w.db { devices = bound.1 }) o v)))
      e
  where
    binds :
        (line : Line) (existing : Option ClientDevice)
        → find_device (activation_key env body) w.db.devices ≡ existing
        → Binds body (activation_key env body) line env.now w.db.devices existing
    binds line none e = Binds-new body (activation_key env body) line env.now w.db.devices e u
    binds line (some d) e =
        Binds-existing body (activation_key env body) line env.now w.db.devices d e u
