-- ===== src/Client/Ports/Distinct.antt =====
-- The ports of the devices after ensure_device_reverse_ports of
-- gfc-platform/control-plane/api/app/reverse_ssh.py.
use sip_proxy.Common.{
  ℕ, ◌≤◌, ◌≡◌, refl, false, ◌&&◌, Option, none, some, List, [], ◌∷◌, arith, Bool-cases, inl, inr,
  contains, All, ◌==◌,
}
use sip_proxy.Client.Models.{ClientDevice}
use sip_proxy.Client.Ports.{
  Settings, Db, Allocation, ports, exhausted, invalid_pool, cooling_ports, allocate_reverse_ports,
  replace_device, with_ports, ensure_device_reverse_ports, is_set,
}
use sip_proxy.Client.Ports.Fresh.{held, Unheld, allocate_reverse_ports-fresh}

-- The devices have no port in common.
abbrev pub Apart : ClientDevice → ClientDevice → Type 0
Apart d e = All (λ p. contains p (held e) ≡ false) (held d)

abbrev pub Distinct : List ClientDevice → Type 0
Distinct [] = Unit
Distinct (d ∷ ds) = All (Apart d) ds × Distinct ds

module _ (x : ClientDevice) where
  -- `x` has no port in common with a device, either way round.
  abbrev Fits : ClientDevice → Type 0
  Fits d = Apart x d × Apart d x

  All-replace :
      (d : ClientDevice) (ds : List ClientDevice)
      → All (Apart d) ds
      → Apart d x
      → All (Apart d) (replace_device x ds)
  unfolding replace_device
  All-replace d [] h a = tt
  All-replace d (e ∷ ds) (h, hs) a = elim (Bool-cases (e.id == x.id)) [
    | inl same ↦ rw same (a, hs)
    | inr other ↦ rw other (h, All-replace d ds hs a)
  ]

  Fits-left : (ds : List ClientDevice) → All Fits ds → All (Apart x) ds
  Fits-left [] h = tt
  Fits-left (d ∷ ds) ((a, b), hs) = (a, Fits-left ds hs)

  Distinct-replace :
      (ds : List ClientDevice) → Distinct ds → All Fits ds → Distinct (replace_device x ds)
  unfolding replace_device
  Distinct-replace [] h f = tt
  Distinct-replace (d ∷ ds) (a, h) (f, fs) = elim (Bool-cases (d.id == x.id)) [
    | inl same ↦ rw same (Fits-left ds fs, h)
    | inr other ↦ rw other (All-replace d ds a f.1, Distinct-replace ds h fs)
  ]

not-contains_pair :
    (a b : ℕ) (xs : List ℕ)
    → contains a xs ≡ false
    → contains b xs ≡ false
    → All (λ p. contains p (a ∷ b ∷ []) ≡ false) xs
not-contains_pair a b [] h k = tt
not-contains_pair a b (x ∷ xs) h k =
    (ground arith, not-contains_pair a b xs (ground arith) (ground arith))

Unheld-Fits :
    (a b : ℕ) (device : ClientDevice) (ds : List ClientDevice)
    → Unheld a ds
    → Unheld b ds
    → All (Fits (record device { reverse_ssh_port = some a; reverse_http_port = some b })) ds
Unheld-Fits a b device [] h k = tt
Unheld-Fits a b device (d ∷ ds) (h, hs) (k, ks) =
    (((h, (k, tt)), not-contains_pair a b (held d) h k), Unheld-Fits a b device ds hs ks)

devices-allocate :
    (settings : Settings) (now : ℕ) (db : Db)
    → (allocate_reverse_ports settings now db).1.devices ≡ db.devices
unfolding allocate_reverse_ports cooling_ports
devices-allocate settings now db = ground arith

-- A property of the device and the table holds after the ports are ensured where it holds before and
-- of every pair of ports.
pub ensure_device_reverse_ports-rows {ℓ} :
    (P : Option ClientDevice → List ClientDevice → Type ℓ) (settings : Settings) (now : ℕ)
    (device : ClientDevice) (db : Db)
    → P (some device) db.devices
    → P none db.devices
    → ((a b : ℕ)
        → P (some (record device { reverse_ssh_port = some a; reverse_http_port = some b })) (
            replace_device
              (record device { reverse_ssh_port = some a; reverse_http_port = some b })
              db.devices))
    → P
        (ensure_device_reverse_ports settings now device db).0
        (ensure_device_reverse_ports settings now device db).1.devices
unfolding ensure_device_reverse_ports
ensure_device_reverse_ports-rows P settings now device db kept refused given =
    elim (Bool-cases (is_set device.reverse_ssh_port && is_set device.reverse_http_port)) [
      | inl has ↦ rw has kept
      | inr lacks ↦ rw lacks (after (allocate_reverse_ports settings now db).0)
    ]
  where
    after :
        (pair : Allocation)
        → P
            (with_ports device pair (allocate_reverse_ports settings now db).1).0
            (with_ports device pair (allocate_reverse_ports settings now db).1).1.devices
    after (ports a b) = unfold with_ports in rw (devices-allocate settings now db) (given a b)
    after invalid_pool = unfold with_ports in rw (devices-allocate settings now db) refused
    after exhausted = unfold with_ports in rw (devices-allocate settings now db) refused

-- Where the pool gives each device at least two ports, giving a device its pair leaves no port with
-- two devices, whether or not the allocation succeeds.
pub ensure_device_reverse_ports-Distinct :
    (settings : Settings) (now : ℕ) (device : ClientDevice) (db : Db)
    → 2 ≤ settings.client_ports_per_device
    → Distinct db.devices
    → Distinct (ensure_device_reverse_ports settings now device db).1.devices
unfolding ensure_device_reverse_ports
ensure_device_reverse_ports-Distinct settings now device db two h =
    elim (Bool-cases (is_set device.reverse_ssh_port && is_set device.reverse_http_port)) [
      | inl has ↦ rw has h
      | inr lacks ↦ rw lacks (given (allocate_reverse_ports settings now db).0 refl)
    ]
  where
    after : Distinct (allocate_reverse_ports settings now db).1.devices
    after = rw devices-allocate h

    given :
        (pair : Allocation)
        → (allocate_reverse_ports settings now db).0 ≡ pair
        → Distinct (with_ports device pair (allocate_reverse_ports settings now db).1).1.devices
    given (ports a b) e =
        let (_, _, _, x, y, _, _) = allocate_reverse_ports-fresh settings now db two e in
        unfold with_ports in
        Distinct-replace (record device { reverse_ssh_port = some a; reverse_http_port = some b })
          (allocate_reverse_ports settings now db).1.devices after
          (rw devices-allocate (Unheld-Fits a b device db.devices x y))
    given invalid_pool e = unfold with_ports in after
    given exhausted e = unfold with_ports in after
