-- ===== src/Client/Activation/Checked.antt =====
-- The checks that a successful activation passed, and what it answers.
use sip_proxy.Common.{
  ℕ, ◌+◌, ◌*◌, ◌⊎◌, zero, suc, not, find, String, ◌≡◌, refl, Bool, true, false, Option, none, some,
  List, sym, ◌∷◌, arith, inl, inr, Option-cases, find-some, ◌==◌, str_eq, eq_iff, if◌then◌else◌,
}
use mathlib.Core.List.{Memᴰ}
use sip_proxy.Common.Http.{Http, ok, error}
use sip_proxy.Client.Models.{ClientDevice}
use sip_proxy.Client.Ports
use sip_proxy.Client.Ports.{replace_device, ensure_device_reverse_ports}
use sip_proxy.Client.Ports.Distinct.{ensure_device_reverse_ports-rows}
use sip_proxy.Client.Activation.{
  World, Env, Request, Response, Line, activate_client, find_enabled_line, device_key_from_mac,
  has_tombstone, find_device, check_existing, bind_device, release_holder, rebind, new_device,
  finish, LineCode, uuid_mismatch,
}
use sip_proxy.Common.Http.{After, After-ok}
use sip_proxy.Client.Activation.Steps.{activation_key, committed, After-activate_client}

guarded :
    (enabled mismatch : Bool) (l line : Line)
    → (if not enabled
        then error 400 "line not found or disabled"
        else if mismatch
        then error 400 "line code uuid mismatch"
        else ok l)
      ≡ ok line
    → (enabled ≡ true) × (l ≡ line)
guarded true true l line e = cc
guarded true false l line e = (refl, cc)
guarded false mismatch l line e = cc

pub find_enabled_line-enabled :
    (code : Option LineCode) (w : World) (line : Line)
    → find_enabled_line code w ≡ ok line
    → Memᴰ line w.lines × (line.is_enabled ≡ true)
unfolding find_enabled_line
find_enabled_line-enabled none w line e = cc
find_enabled_line-enabled (some code) w line e = go code.line_id e
  where
    go :
        (id : Option ℕ)
        → find_enabled_line (some (record code { line_id = id })) w ≡ ok line
        → Memᴰ line w.lines × (line.is_enabled ≡ true)
    go none h = cc
    go (some zero) h = cc
    go (some (suc n)) h = elim (Option-cases (find (λ (l : Line). l.id == suc n) w.lines)) [
      | inl missing ↦ absurd (
          let k : error 400 "line not found or disabled" ≡ ok line =
            rw (missing, find_enabled_line) at h in
          cc)
      | inr (l, found) ↦
          let (on, same) =
            guarded l.is_enabled (uuid_mismatch l.client_uuid code.uuid) l line
              (rw (found, find_enabled_line) at h) in
          (
            (rw (← same) (find-some (λ (l : Line). l.id == suc n) w.lines l found).0),
            rw (← same) on,
          )
    ]

-- The activating device is the row of its key.
pub bind_device-key :
    (env : Env) (body : Request) (w : World) (line : Line)
    → (bind_device body
        (activation_key env body)
        line
        (find_device (activation_key env body) w.db.devices)
        (release_holder env.now line.id
          (find_device (activation_key env body) w.db.devices)
          w.db.devices)).0.device_key
      ≡ activation_key env body
unfolding bind_device rebind new_device
bind_device-key env body w line = go (find_device (activation_key env body) w.db.devices) refl
  where
    go :
        (existing : Option ClientDevice)
        → find_device (activation_key env body) w.db.devices ≡ existing
        → (bind_device body
            (activation_key env body)
            line
            existing
            (release_holder env.now line.id existing w.db.devices)).0.device_key
          ≡ activation_key env body
    go none e = refl
    go (some d) e =
        let (_, k) =
          find-some (λ (d : ClientDevice). str_eq d.device_key (activation_key env body))
            w.db.devices d e in
        (eq_iff d.device_key (activation_key env body)).0 k

-- What the two refusals leave.
pub may_bind :
    (d : ClientDevice) (line_id : ℕ)
    → check_existing (some d) line_id ≡ ok tt
    → ((d.line_id ≡ none) × (d.binding_revoked_at ≡ none))
      ⊎ (d.line_id ≡ some 0)
      ⊎ (d.line_id ≡ some line_id)
unfolding check_existing
may_bind d line_id e = go d.binding_revoked_at d.line_id e
  where
    go :
        (revoked line : Option ℕ)
        → check_existing (some (record d { line_id = line; binding_revoked_at = revoked })) line_id
          ≡ ok tt
        → ((line ≡ none) × (revoked ≡ none)) ⊎ (line ≡ some 0) ⊎ (line ≡ some line_id)
    go none none h = inl (refl, refl)
    go (some at) none h = cc
    go none (some zero) h = inr (inl refl)
    go (some at) (some zero) h = inr (inl refl)
    go none (some (suc n)) h = inr (inr (ground arith))
    go (some at) (some (suc n)) h = inr (inr (ground arith))

After-map {ℓ κ μ} :
    {A : Type ℓ} {P : A → Type κ} {Q : A → Type μ} (m : Http A)
    → ((a : A) → P a → Q a)
    → After P m
    → After Q m
After-map (ok a) f h = f a h
After-map (error status detail) f h = tt

abbrev answered : ℕ → Option ℕ → ℕ
answered own none = own
answered own (some zero) = own
answered own (some (suc n)) = suc n

answered_own : (n : ℕ) → answered n (some n) ≡ n
answered_own zero = refl
answered_own (suc n) = refl

-- The device is bound to the line, or to the number 0, which counts as none.
bind_device-line :
    (body : Request) (key : String) (line : Line) (existing : Option ClientDevice)
    (rows : List ClientDevice)
    → check_existing existing line.id ≡ ok tt
    → answered line.id (bind_device body key line existing rows).0.line_id ≡ line.id
unfolding bind_device rebind new_device
bind_device-line body key line none rows e = answered_own line.id
bind_device-line body key line (some d) rows e = elim (may_bind d line.id e) [
  | inl (free, _) ↦ rw free (answered_own line.id)
  | inr (inl zeroed) ↦ rw zeroed refl
  | inr (inr own) ↦ rw own (answered_own line.id)
]

-- What the commit answers, where the device with its ports has the key and the line.
Keyed : String → Line → Option ClientDevice → Type 0
Keyed key line none = Unit
Keyed key line (some d) = (d.device_key ≡ key) × (answered line.id d.line_id ≡ line.id)

finish-answers :
    (env : Env) (line : Line) (w : World) (key : String) (r : Option ClientDevice × Ports.Db)
    → Keyed key line r.0
    → After
        (λ (a : Response × World).
          (a.0.device_key ≡ key)
          × (a.1.tokens
              ≡ record {
                device_id = a.0.device_id;
                token_hash = env.token_hash;
                expires_at = env.now + 365 * 86400;
                revoked_at = none;
              }
                ∷ w.tokens)
          × (line.tid ≡ a.0.tid)
          × (line.id ≡ a.0.line_id)
          × (a.0.client_token ≡ env.raw_token))
        (finish env line w r)
unfolding finish Keyed
finish-answers env line w key (none, db) k = tt
finish-answers env line w key (some d, db) (k, l) = (k, refl, refl, same d.line_id l, refl)
  where
    same :
        (o : Option ℕ)
        → answered line.id o ≡ line.id
        → line.id ≡ (elim o [ none ↦ line.id | some zero ↦ line.id | some (suc n) ↦ suc n ])
    same none l = refl
    same (some zero) l = refl
    same (some (suc n)) l = sym l

-- A successful activation was by a code for which find_enabled_line gives an enabled line of the table,
-- whose name and id it answers, of a device whose key has no active tombstone and is the one that the
-- request determines; it answers the new token of the environment, and the hash there is stored for
-- that device and for a year.
pub activate_client-checked :
    (env : Env) (body : Request) (w w' : World) (r : Response)
    → activate_client env body w ≡ ok (r, w')
    → (has_tombstone (device_key_from_mac env.random_key body.lan_mac body.device_id) w.tombstones
        ≡ false)
      × (r.device_key ≡ device_key_from_mac env.random_key body.lan_mac body.device_id)
      × (w'.tokens
          ≡ record {
            device_id = r.device_id;
            token_hash = env.token_hash;
            expires_at = env.now + 365 * 86400;
            revoked_at = none;
          }
            ∷ w.tokens)
      × (r.client_token ≡ env.raw_token)
      × ((line : Line) × (find_enabled_line body.code w ≡ ok line)
          × Memᴰ line w.lines
          × (line.is_enabled ≡ true)
          × (line.tid ≡ r.tid)
          × (line.id ≡ r.line_id))
unfolding Keyed
activate_client-checked env body w w' r e =
    After-ok Answers (activate_client env body w) (r, w')
      (After-activate_client Answers env body w (λ line found free bindable.
        let existing = find_device (activation_key env body) w.db.devices in
        let bound =
          bind_device body (activation_key env body) line existing
            (release_holder env.now line.id existing w.db.devices) in
        After-map (committed env body w line)
          (λ a (k, t, n, l, raw). (
            free,
            k,
            t,
            raw,
            (
              line,
              found,
              (find_enabled_line-enabled body.code w line found).0,
              (find_enabled_line-enabled body.code w line found).1,
              n,
              l,
            ),
          ))
          (finish-answers env line w (activation_key env body)
            (ensure_device_reverse_ports env.settings env.now bound.0
              (record w.db { devices = bound.1 }))
            (ensure_device_reverse_ports-rows (λ o _. Keyed (activation_key env body) line o)
              env.settings env.now bound.0 (record w.db { devices = bound.1 })
              (
                bind_device-key env body w line,
                bind_device-line body (activation_key env body) line existing
                    (release_holder env.now line.id existing w.db.devices) bindable,
              )
              tt
              (λ _ _. (
                bind_device-key env body w line,
                bind_device-line body (activation_key env body) line existing
                    (release_holder env.now line.id existing w.db.devices) bindable,
              ))))))
      e
  where
    Answers : Response × World → Type 0
    Answers (r, w') =
        (has_tombstone (device_key_from_mac env.random_key body.lan_mac body.device_id) w.tombstones
          ≡ false)
        × (r.device_key ≡ device_key_from_mac env.random_key body.lan_mac body.device_id)
        × (w'.tokens
            ≡ record {
              device_id = r.device_id;
              token_hash = env.token_hash;
              expires_at = env.now + 365 * 86400;
              revoked_at = none;
            }
              ∷ w.tokens)
        × (r.client_token ≡ env.raw_token)
        × ((line : Line) × (find_enabled_line body.code w ≡ ok line)
            × Memᴰ line w.lines
            × (line.is_enabled ≡ true)
            × (line.tid ≡ r.tid)
            × (line.id ≡ r.line_id))

-- An activation by a device that is in the table succeeds only where the line of the code is found
-- and the device either has no line and its binding is not revoked, or has that line; the number 0
-- passes as a line too.
pub activate_client-bound :
    (env : Env) (body : Request) (w w' : World) (r : Response) (d : ClientDevice)
    → find_device (device_key_from_mac env.random_key body.lan_mac body.device_id) w.db.devices
      ≡ some d
    → activate_client env body w ≡ ok (r, w')
    → (line : Line) × (find_enabled_line body.code w ≡ ok line)
      × (((d.line_id ≡ none) × (d.binding_revoked_at ≡ none))
          ⊎ (d.line_id ≡ some 0)
          ⊎ (d.line_id ≡ some line.id))
activate_client-bound env body w w' r d f e =
    After-ok (λ (_ : Response × World). Bindable) (activate_client env body w) (r, w')
      (After-activate_client (λ (_ : Response × World). Bindable) env body w
        (λ line found _ bindable.
          always (committed env body w line) (line, found, may_bind d line.id (rw f at bindable))))
      e
  where
    Bindable : Type 0
    Bindable =
        (line : Line) × (find_enabled_line body.code w ≡ ok line)
        × (((d.line_id ≡ none) × (d.binding_revoked_at ≡ none))
            ⊎ (d.line_id ≡ some 0)
            ⊎ (d.line_id ≡ some line.id))

    always : (m : Http (Response × World)) → Bindable → After (λ (_ : Response × World). Bindable) m
    always (ok a) b = b
    always (error status detail) b = tt
