-- ===== src/Client/Activation/Bound.antt =====
-- The row of the activating device, activate_client of
-- gfc-platform/control-plane/api/app/clients.py.
use mathlib.Core.List.{Memᴰ}
use sip_proxy.Common.{
  ℕ, String, ◌⊎◌, ◌≡◌, refl, true, Option, none, some, List, [], ◌∷◌, arith, any, inl, inr,
  Bool-cases, Option-cases, find-some, ◌==◌, str_eq, Bool,
}
use sip_proxy.Common.Http.{Http, ok, error, After, After-ok}
use sip_proxy.Client.Models.{ClientDevice}
use sip_proxy.Client.Ports
use sip_proxy.Client.Ports.{replace_device, ensure_device_reverse_ports}
use sip_proxy.Client.Ports.Distinct.{ensure_device_reverse_ports-rows}
use sip_proxy.Client.Activation.{
  World, Env, Request, Response, Line, activate_client, find_enabled_line, device_key_from_mac,
  find_device, check_existing, bind_device, release_holder, rebind, new_device, holder, is_other,
  finish,
}
use sip_proxy.Client.Activation.Rows.{Unique}
use sip_proxy.Client.Activation.Steps.{activation_key, After-activate_client}
use sip_proxy.Client.Activation.Checked.{bind_device-key, may_bind}
use sip_proxy.Client.Activation.Binding.{activate_client-Unique}

abbrev has_id : ℕ → List ClientDevice → Bool
has_id id = any (λ (d : ClientDevice). d.id == id)

has_id-replace :
    (id : ℕ) (x : ClientDevice) (ds : List ClientDevice)
    → has_id id ds ≡ true
    → has_id id (replace_device x ds) ≡ true
unfolding replace_device
has_id-replace id x [] h = h
has_id-replace id x (d ∷ ds) h = ground (arith, has_id-replace id x ds)

has_id-release :
    (id now line_id : ℕ) (existing : Option ClientDevice) (ds : List ClientDevice)
    → has_id id ds ≡ true
    → has_id id (release_holder now line_id existing ds) ≡ true
unfolding release_holder
has_id-release id now line_id existing ds h = elim (Option-cases (holder line_id ds)) [
  | inl e ↦ rw (e, release_holder) h
  | inr (bound, e) ↦ elim (Bool-cases (is_other existing bound)) [
    | inl o ↦ rw (e, release_holder, o) (has_id-replace id _ ds h)
    | inr o ↦ rw (e, release_holder, o) h
  ]
]

has_id-member : (d : ClientDevice) (ds : List ClientDevice) → Memᴰ d ds → has_id d.id ds ≡ true
has_id-member d [] m = elim m [ ]
has_id-member d (e ∷ ds) (Memᴰ.head same) = rw same (ground arith)
has_id-member d (e ∷ ds) (Memᴰ.tail m) = ground (arith, has_id-member d ds m)

replace_device-member :
    (x : ClientDevice) (ds : List ClientDevice)
    → has_id x.id ds ≡ true
    → Memᴰ x (replace_device x ds)
unfolding replace_device
replace_device-member x [] h = absurd cc
replace_device-member x (d ∷ ds) h = elim (Bool-cases (d.id == x.id)) [
  | inl same ↦ rw same (Memᴰ.head refl)
  | inr other ↦ rw other (Memᴰ.tail (replace_device-member x ds (ground arith)))
]

-- The line, or the number 0 that counts as none.
abbrev pub Holds : ℕ → ClientDevice → Type 0
Holds line_id d = (d.line_id ≡ some line_id) ⊎ (d.line_id ≡ some 0)

-- The device is in the table, with its key and line.
IsRow : String → ℕ → Option ClientDevice → List ClientDevice → Type 0
IsRow key line_id none ds = Unit
IsRow key line_id (some d) ds = Memᴰ d ds × (d.device_key ≡ key) × Holds line_id d

bind_device-Holds :
    (body : Request) (key : String) (line : Line) (existing : Option ClientDevice)
    (rows : List ClientDevice)
    → check_existing existing line.id ≡ ok tt
    → Holds line.id (bind_device body key line existing rows).0
unfolding bind_device rebind new_device
bind_device-Holds body key line none rows e = inl refl
bind_device-Holds body key line (some d) rows e = elim (may_bind d line.id e) [
  | inl (free, _) ↦ rw free (inl refl)
  | inr (inl zeroed) ↦ rw zeroed (inr refl)
  | inr (inr own) ↦ rw own (inl refl)
]

bind_device-member :
    (body : Request) (key : String) (line : Line) (now : ℕ) (devices : List ClientDevice)
    (existing : Option ClientDevice)
    → find_device key devices ≡ existing
    → let bound =
        bind_device body key line existing (release_holder now line.id existing devices) in
      Memᴰ bound.0 bound.1
unfolding bind_device rebind
bind_device-member body key line now devices none e = Memᴰ.head refl
bind_device-member body key line now devices (some d) e =
    let (m, _) = find-some (λ (d : ClientDevice). str_eq d.device_key key) devices d e in
    replace_device-member (rebind body key line d) (release_holder now line.id (some d) devices)
      (has_id-release d.id now line.id (some d) devices (has_id-member d devices m))

finish-IsRow :
    (env : Env) (line : Line) (w : World) (key : String) (r : Option ClientDevice × Ports.Db)
    → IsRow key line.id r.0 r.1.devices
    → After
        (λ (a : Response × World).
          (d : ClientDevice) × Memᴰ d a.1.db.devices
          × (d.id ≡ a.0.device_id)
          × (d.device_key ≡ key)
          × Holds line.id d)
        (finish env line w r)
unfolding finish IsRow
finish-IsRow env line w key (none, db) h = tt
finish-IsRow env line w key (some d, db) (m, k, l) = (d, m, refl, k, l)

-- The table has the answered device, with its key and line.
activate_client-row :
    (env : Env) (body : Request) (w w' : World) (r : Response)
    → activate_client env body w ≡ ok (r, w')
    → (line : Line) × (find_enabled_line body.code w ≡ ok line)
      × (d : ClientDevice) × Memᴰ d w'.db.devices
      × (d.id ≡ r.device_id)
      × (d.device_key ≡ device_key_from_mac env.random_key body.lan_mac body.device_id)
      × Holds line.id d
unfolding IsRow
activate_client-row env body w w' r e =
    After-ok Bound (activate_client env body w) (r, w')
      (After-activate_client Bound env body w (λ line found _ bindable.
        let key = activation_key env body in
        let existing = find_device key w.db.devices in
        let bound =
          bind_device body key line existing
            (release_holder env.now line.id existing w.db.devices) in
        let member = bind_device-member body key line env.now w.db.devices existing refl in
        let named = bind_device-key env body w line in
        let lined =
          bind_device-Holds body key line existing
            (release_holder env.now line.id existing w.db.devices) bindable in
        After-found line found
          (finish env line w (
            ensure_device_reverse_ports env.settings env.now bound.0
              (record w.db { devices = bound.1 })))
          (finish-IsRow env line w key
            (ensure_device_reverse_ports env.settings env.now bound.0
              (record w.db { devices = bound.1 }))
            (ensure_device_reverse_ports-rows (IsRow key line.id) env.settings env.now bound.0
              (record w.db { devices = bound.1 }) (member, named, lined) tt
              (λ a b. (
                replace_device-member
                    (record bound.0 { reverse_ssh_port = some a; reverse_http_port = some b })
                    bound.1 (has_id-member bound.0 bound.1 member),
                named,
                lined,
              ))))))
      e
  where
    Row : Line → Response × World → Type 0
    Row line (r, w') =
        (d : ClientDevice) × Memᴰ d w'.db.devices
        × (d.id ≡ r.device_id)
        × (d.device_key ≡ activation_key env body)
        × Holds line.id d

    Bound : Response × World → Type 0
    Bound (r, w') =
        (line : Line) × (find_enabled_line body.code w ≡ ok line)
        × (d : ClientDevice) × Memᴰ d w'.db.devices
        × (d.id ≡ r.device_id)
        × (d.device_key ≡ activation_key env body)
        × Holds line.id d

    After-found :
        (line : Line)
        → find_enabled_line body.code w ≡ ok line
        → (m : Http (Response × World)) → After (Row line) m
        → After Bound m
    After-found line found (ok a) (d, m, i, k, l) = (line, found, d, m, i, k, l)
    After-found line found (error status detail) h = tt

-- Where no id, device key or line names two devices, none does after a successful activation, and the
-- table then has the answered device, with the key that the request determines and with the line that
-- find_enabled_line gives for the code or with the number 0.
pub activate_client-binds :
    (env : Env) (body : Request) (w w' : World) (r : Response)
    → Unique w.db.devices
    → activate_client env body w ≡ ok (r, w')
    → Unique w'.db.devices
      × (line : Line) × (find_enabled_line body.code w ≡ ok line)
      × (d : ClientDevice) × Memᴰ d w'.db.devices
      × (d.id ≡ r.device_id)
      × (d.device_key ≡ device_key_from_mac env.random_key body.lan_mac body.device_id)
      × Holds line.id d
activate_client-binds env body w w' r u e =
    let (line, found, d, m, i, k, l) = activate_client-row env body w w' r e in
    (activate_client-Unique env body w w' r u e, line, found, d, m, i, k, l)
