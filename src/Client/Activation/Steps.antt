-- ===== src/Client/Activation/Steps.antt =====
-- The handler's chain of checks: what holds of the commit after them holds of the handler.
use sip_proxy.Common.{String, ◌≡◌, refl, Bool, true, false}
use sip_proxy.Common.Http.{Http, ok, raise_if, After, After-bind}
use sip_proxy.Client.Ports.{ensure_device_reverse_ports}
use sip_proxy.Client.Activation.{
  World, Env, Request, Response, Line, activate_client, find_enabled_line, device_key_from_mac,
  has_tombstone, find_device, check_existing, bind_device, release_holder, finish,
}

abbrev pub activation_key : Env → Request → String
activation_key env body = device_key_from_mac env.random_key body.lan_mac body.device_id

-- The handler from the device's row to the commit.
abbrev pub committed : Env → Request → World → Line → Http (Response × World)
committed env body w line =
    let existing = find_device (activation_key env body) w.db.devices in
    let bound =
      bind_device body (activation_key env body) line existing
        (release_holder env.now line.id existing w.db.devices) in
    finish env line w
      (ensure_device_reverse_ports env.settings env.now bound.0 (record w.db { devices = bound.1 }))

-- What holds of the commit after the three checks holds of the handler.
pub After-activate_client {ℓ} :
    (P : Response × World → Type ℓ) (env : Env) (body : Request) (w : World)
    → ((line : Line)
        → find_enabled_line body.code w ≡ ok line
        → has_tombstone (activation_key env body) w.tombstones ≡ false
        → check_existing (find_device (activation_key env body) w.db.devices) line.id ≡ ok tt
        → After P (committed env body w line))
    → After P (activate_client env body w)
unfolding activate_client
After-activate_client P env body w h = After-bind P (find_enabled_line body.code w) _ (λ line found.
    After-bind P (raise_if (has_tombstone (activation_key env body) w.tombstones) 403 _) _
      (λ _ passed.
        After-bind P (check_existing (find_device (activation_key env body) w.db.devices) line.id) _
          (λ _ bindable.
            h line found
              (raise_if-passed (has_tombstone (activation_key env body) w.tombstones) _ passed)
              bindable)))
  where
    raise_if-passed : (b : Bool) (detail : String) → raise_if b 403 detail ≡ ok tt → b ≡ false
    raise_if-passed true detail e = cc
    raise_if-passed false detail e = refl
