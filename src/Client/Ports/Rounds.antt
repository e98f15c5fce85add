-- ===== src/Client/Ports/Rounds.antt =====
-- The `while next_port <= hi` loop of allocate_reverse_ports in
-- gfc-platform/control-plane/api/app/reverse_ssh.py, without fuel.
use sip_proxy.Common.{
  ℕ, zero, suc, ◌+◌, ◌≤◌, ◌<◌, ◌≡◌, true, false, List, arith, inl, inr, Bool-cases, leb,
}
use sip_proxy.Client.Ports.{
  Settings, Allocation, ports, exhausted, is_free, scan, ports_per_device, ssh_port_max, Db,
  pool_is_invalid, used_ports, cooling_ports, next_port, allocate_reverse_ports,
}

-- The loop from `next` ends with the answer.
pub data Rounds (used : List ℕ) (step hi : ℕ) : ℕ → Allocation → Type 0 where
  ended : {next : ℕ} → hi < next → Rounds used step hi next exhausted
  found :
      {next : ℕ}
      → next ≤ hi
      → is_free used step next ≡ true
      → Rounds used step hi next (ports next (next + 1))
  further :
      {next : ℕ} {answer : Allocation}
      → next ≤ hi
      → is_free used step next ≡ false
      → Rounds used step hi (next + step) answer
      → Rounds used step hi next answer

scan-Rounds :
    (used : List ℕ) (step hi fuel next : ℕ)
    → 1 ≤ step
    → hi < next + fuel
    → Rounds used step hi next (scan fuel used step hi next)
unfolding scan
scan-Rounds used step hi zero next s f = ended (omega (arith, f))
scan-Rounds used step hi (suc fuel) next s f = elim (Bool-cases (leb next hi)) [
  | inr above ↦ rw above (ended (ground arith))
  | inl below ↦ elim (Bool-cases (is_free used step next)) [
    | inl free ↦ rw (below, free) (found (ground arith) free)
    | inr taken ↦
        rw (below, taken)
          (further (ground arith) taken
            (scan-Rounds used step hi fuel (next + step) s (omega (arith, s, f))))
  ]
]

-- Where the pool is valid, the allocation's loop ends, whatever the tables hold, and its answer is the
-- allocation's: the fuel of the search is enough.
pub allocate_reverse_ports-Rounds :
    (settings : Settings) (now : ℕ) (db : Db)
    → pool_is_invalid settings ≡ false
    → Rounds
        (used_ports (cooling_ports now db).0 db.devices)
        (ports_per_device settings)
        (ssh_port_max settings)
        (next_port settings db.devices)
        (allocate_reverse_ports settings now db).0
unfolding allocate_reverse_ports ports_per_device
allocate_reverse_ports-Rounds settings now db valid = rw valid (
    scan-Rounds (used_ports (cooling_ports now db).0 db.devices) (ports_per_device settings)
      (ssh_port_max settings) (suc (ssh_port_max settings)) (next_port settings db.devices)
      (omega arith) (omega arith))
