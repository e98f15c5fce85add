-- ===== src/Client/Ports/Supply.antt =====
-- When the allocation of a port pair succeeds, and what a pool of single ports gives.
use sip_proxy.Common.{ℕ, suc, ◌+◌, ◌*◌, ◌≤◌, ◌<◌, ◌≡◌, true, false, List, arith, contains}
use sip_proxy.Client.Ports.{
  Settings, Db, ports, ports_per_device, ssh_port_max, pool_is_invalid, cooling_ports, is_free,
  scan, next_port, used_ports, allocate_reverse_ports,
}
use sip_proxy.Client.Ports.Fresh.{scan_finds}

ports_per_device-pos : (settings : Settings) → 0 < ports_per_device settings
unfolding ports_per_device
ports_per_device-pos settings = omega arith

-- If some block at a whole number of steps from the start of the search is free and in the pool, the
-- allocation returns a pair, at that block or below it.
pub allocate_reverse_ports-finds :
    (settings : Settings) (now : ℕ) (db : Db) (k : ℕ)
    → let step = ports_per_device settings in
      let first = next_port settings db.devices + k * step in
      pool_is_invalid settings ≡ false
      → first ≤ ssh_port_max settings
      → is_free (used_ports (cooling_ports now db).0 db.devices) step first ≡ true
      → (ssh : ℕ) × ((allocate_reverse_ports settings now db).0 ≡ ports ssh (ssh + 1))
        × (ssh ≤ first)
unfolding allocate_reverse_ports
allocate_reverse_ports-finds settings now db k valid within free =
    let pos = ports_per_device-pos settings in
    rw valid (
      scan_finds (suc (ssh_port_max settings)) (used_ports (cooling_ports now db).0 db.devices)
        (ports_per_device settings) (ssh_port_max settings) (next_port settings db.devices) k pos
        (grind arith) within free)

module _ (settings : Settings) (one : settings.client_ports_per_device ≤ 1) where
  ports_per_device-one : ports_per_device settings ≡ 1
  unfolding ports_per_device
  ports_per_device-one = omega arith

  ssh_port_max-one : ssh_port_max settings ≡ settings.client_ssh_port_max
  unfolding ssh_port_max
  ssh_port_max-one = rw ports_per_device-one (omega arith)

  pool_is_valid-one :
      settings.client_ssh_port_base ≤ settings.client_ssh_port_max
      → pool_is_invalid settings ≡ false
  unfolding pool_is_invalid
  pool_is_valid-one h = let e = ports_per_device-one in ground arith

scan-one :
    (fuel hi first : ℕ) (used : List ℕ)
    → first ≤ hi
    → contains first used ≡ false
    → scan (suc fuel) used 1 hi first ≡ ports first (first + 1)
unfolding scan
scan-one fuel hi first used h k = ground arith

-- In a pool of one port for each device the http port is not checked: where the first candidate is
-- free the pair is that port and the next one, whoever holds the next one, and also where it lies
-- above the pool.
pub single_port-unchecked :
    (settings : Settings) (now : ℕ) (db : Db)
    → let first = next_port settings db.devices in
      settings.client_ports_per_device ≤ 1
      → settings.client_ssh_port_base ≤ settings.client_ssh_port_max
      → first ≤ settings.client_ssh_port_max
      → contains first (used_ports (cooling_ports now db).0 db.devices) ≡ false
      → (allocate_reverse_ports settings now db).0 ≡ ports first (first + 1)
unfolding allocate_reverse_ports
single_port-unchecked settings now db one valid within free =
    rw (pool_is_valid-one settings one valid) (
      rw (ports_per_device-one settings one) (
        rw (ssh_port_max-one settings one) (
          scan-one settings.client_ssh_port_max settings.client_ssh_port_max
            (next_port settings db.devices) (used_ports (cooling_ports now db).0 db.devices) within
            free)))
