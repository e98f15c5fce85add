-- ===== src/Client/Custody/Linked.antt =====
-- The lines that devices are bound to, through activations and heartbeats: the handlers of
-- gfc-platform/control-plane/api/app/clients.py.
use sip_proxy.Common.{
  ℕ, String, ◌≡◌, ◌∙◌, refl, ap, Bool, true, Option, none, some, List, [], ◌∷◌, arith, All,
  All-elem, any, find-some, ◌==◌, str_eq, if◌then◌else◌,
}
use mathlib.Core.List.{Memᴰ}
use sip_proxy.Common.Http.{ok, After, After-bind, After-ok}
use sip_proxy.Client.Models.{ClientDevice}
use sip_proxy.Client.Ports
use sip_proxy.Client.Ports.{replace_device, ensure_device_reverse_ports}
use sip_proxy.Client.Ports.Distinct.{ensure_device_reverse_ports-rows}
use sip_proxy.Client.Tables.{World, Line}
use sip_proxy.Client.Activation.{
  Env, Request, Response, activate_client, find_device, bind_device, release_holder, rebind,
  new_device, finish, is_none,
}
use sip_proxy.Client.Activation.Rows.{All-replace_device}
use sip_proxy.Client.Activation.Release.{All-release_holder}
use sip_proxy.Client.Activation.Checked.{find_enabled_line-enabled}
use sip_proxy.Client.Activation.Steps.{activation_key, After-activate_client}
use sip_proxy.Client.Heartbeat.{
  HeartbeatRequest, HeartbeatWorld, HeartbeatResponse, auth_client, report_device, settle_device,
  finish_heartbeat, client_heartbeat,
}
use sip_proxy.Client.Heartbeat.Tables.{report_device-Same, settle_device-Same, auth_client-member}

abbrev pub line_exists : List Line → Option ℕ → Bool
line_exists lines none = true
line_exists lines (some id) = any (λ (l : Line). l.id == id) lines

abbrev pub HasLine : List Line → ClientDevice → Type 0
HasLine lines d = line_exists lines d.line_id ≡ true

-- Every line that a device is bound to is in the table.
abbrev pub AllLinked : List Line → List ClientDevice → Type 0
AllLinked lines = All (HasLine lines)

abbrev pub Linked : World → Type 0
Linked w = AllLinked w.lines w.db.devices

pub line_exists-member :
    (l : Line) (lines : List Line) → Memᴰ l lines → line_exists lines (some l.id) ≡ true
line_exists-member l [] m = elim m [ ]
line_exists-member l (k ∷ ks) (Memᴰ.head e) =
    let same : (k.id == l.id) ≡ true =
      (let i : l.id ≡ k.id = ap (λ (r : Line). r.id) e in ground arith) in
    rw same refl
line_exists-member l (k ∷ ks) (Memᴰ.tail m) = ground (arith, line_exists-member l ks m)

-- The row and the table, after the ports of the row are ensured.
abbrev pub RowLinked : List Line → Option ClientDevice → List ClientDevice → Type 0
RowLinked lines none ds = AllLinked lines ds
RowLinked lines (some d) ds = HasLine lines d × AllLinked lines ds

pub RowLinked-ensure :
    (lines : List Line) (settings : Ports.Settings) (now : ℕ) (x : ClientDevice) (db : Ports.Db)
    → HasLine lines x
    → AllLinked lines db.devices
    → RowLinked lines
        (ensure_device_reverse_ports settings now x db).0
        (ensure_device_reverse_ports settings now x db).1.devices
RowLinked-ensure lines settings now x db h a =
    ensure_device_reverse_ports-rows (RowLinked lines) settings now x db (h, a) a
      (λ p q. (
        h,
        All-replace_device (HasLine lines)
            (record x { reverse_ssh_port = some p; reverse_http_port = some q }) db.devices h a,
      ))

bind_device-Linked :
    (body : Request) (k : String) (line : Line) (lines : List Line) (now : ℕ)
    (ds : List ClientDevice) (existing : Option ClientDevice)
    → Memᴰ line lines
    → find_device k ds ≡ existing
    → AllLinked lines ds
    → let bound = bind_device body k line existing (release_holder now line.id existing ds) in
      HasLine lines bound.0 × AllLinked lines bound.1
unfolding bind_device rebind new_device
bind_device-Linked body k line lines now ds none m e a =
    let rows = All-release_holder now line.id none (HasLine lines) ds (λ d h. refl) a in
    let own = line_exists-member line lines m in (own, (own, rows))
bind_device-Linked body k line lines now ds (some d) m e a =
    let rows = All-release_holder now line.id (some d) (HasLine lines) ds (λ d h. refl) a in
    let own = kept d.line_id (
      All-elem (HasLine lines) d ds
        (find-some (λ (f : ClientDevice). str_eq f.device_key k) ds d e).0 a) in
    (
      own,
      All-replace_device (HasLine lines) (rebind body k line d)
          (release_holder now line.id (some d) ds) own rows,
    )
  where
    kept :
        (o : Option ℕ)
        → line_exists lines o ≡ true
        → line_exists lines (if is_none o then some line.id else o) ≡ true
    kept none h = line_exists-member line lines m
    kept (some n) h = h

pub activate_client-Linked :
    (env : Env) (body : Request) (w w' : World) (r : Response)
    → Linked w
    → activate_client env body w ≡ ok (r, w')
    → Linked w'
activate_client-Linked env body w w' r a e =
    After-ok (λ (p : Response × World). Linked p.1) (activate_client env body w) (r, w')
      (After-activate_client (λ (p : Response × World). Linked p.1) env body w
        (λ line found _ _.
          let k = activation_key env body in
          let existing = find_device k w.db.devices in
          let bound =
            bind_device body k line existing
              (release_holder env.now line.id existing w.db.devices) in
          let (h, all_rows) =
            bind_device-Linked body k line w.lines env.now w.db.devices existing
              (find_enabled_line-enabled body.code w line found).0 refl a in
          let db : Ports.Db = record w.db { devices = bound.1 } in
          finished line (ensure_device_reverse_ports env.settings env.now bound.0 db)
            (RowLinked-ensure w.lines env.settings env.now bound.0 db h all_rows)))
      e
  where
    finished :
        (line : Line) (done : Option ClientDevice × Ports.Db)
        → RowLinked w.lines done.0 done.1.devices
        → After (λ (p : Response × World). Linked p.1) (finish env line w done)
    finished line (none, db) h = unfold finish in tt
    finished line (some d, db) (h, all_rows) = unfold finish in all_rows

pub client_heartbeat-Linked :
    (hash : String → String) (settings : Ports.Settings) (now : ℕ) (authorization : Option String)
    (body : HeartbeatRequest) (w w' : HeartbeatWorld) (r : HeartbeatResponse)
    → Linked w.world
    → client_heartbeat hash settings now authorization body w ≡ ok (r, w')
    → Linked w'.world
unfolding client_heartbeat
client_heartbeat-Linked hash settings now authorization body w w' r a e =
    After-ok (λ (p : HeartbeatResponse × HeartbeatWorld). Linked p.1.world)
      (client_heartbeat hash settings now authorization body w) (r, w')
      (After-bind (λ (p : HeartbeatResponse × HeartbeatWorld). Linked p.1.world)
        (auth_client hash authorization w.world.tokens w.world.db.devices) _
        (λ device found.
          let devices = w.world.db.devices in
          let x : ClientDevice = report_device now body w.world.lines device in
          let m = auth_client-member hash authorization w.world.tokens devices device found in
          let h : HasLine w.world.lines x =
            ap (line_exists w.world.lines) (report_device-Same now body w.world device).2
            ∙ All-elem (HasLine w.world.lines) device devices m a in
          let db : Ports.Db = record w.world.db { devices = replace_device x devices } in
          finished (ensure_device_reverse_ports settings now x db) (
            RowLinked-ensure w.world.lines settings now x db h
              (All-replace_device (HasLine w.world.lines) x devices h a))))
      e
  where
    finished :
        (done : Option ClientDevice × Ports.Db)
        → RowLinked w.world.lines done.0 done.1.devices
        → After
            (λ (p : HeartbeatResponse × HeartbeatWorld). Linked p.1.world)
            (finish_heartbeat now body w done)
    finished (none, db) h = unfold finish_heartbeat in tt
    finished (some d, db) (h, rows) =
        unfold finish_heartbeat in
        All-replace_device (HasLine w.world.lines) (settle_device now body d) db.devices
          (ap (line_exists w.world.lines) (settle_device-Same now body d).2 ∙ h) rows
