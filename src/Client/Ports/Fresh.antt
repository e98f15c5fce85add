-- ===== src/Client/Ports/Fresh.antt =====
-- What the allocation of a port pair gives.
use sip_proxy.Common.{
  ℕ, zero, suc, ◌+◌, ◌-◌, ◌*◌, ◌≤◌, ◌<◌, ◌≡◌, refl, true, false, Option, List, [], ◌∷◌, ◌++◌, arith,
  leb, contains, contains-append, All, Bool-cases, inl, inr, ◌⊎◌, ◌∙◌, ap, some, Option-cases, ◌==◌,
}
use Prim.Native.Nat.{max}
use sip_proxy.Client.Models.{ClientDevice}
use sip_proxy.Client.Ports.{
  Settings, Db, ports, ports_per_device, ssh_port_max, pool_is_invalid, cooling_ports, column,
  some_list, is_free, scan, next_port, used_ports, max_of, allocate_reverse_ports,
}

-- A result of the loop is a block that is free, at or above the start and within the pool.
pub scan-ports :
    (fuel : ℕ) (used : List ℕ) (step hi next ssh http : ℕ)
    → scan fuel used step hi next ≡ ports ssh http
    → (is_free used step ssh ≡ true) × (next ≤ ssh) × (ssh ≤ hi) × (http ≡ ssh + 1)
unfolding scan
scan-ports zero used step hi next ssh http h = cc
scan-ports (suc fuel) used step hi next ssh http h = elim (Bool-cases (leb next hi)) [
  | inl within ↦ elim (Bool-cases (is_free used step next)) [
    | inl free ↦ ground arith
    | inr taken ↦ ground (arith, scan-ports fuel used step hi (next + step) ssh http)
  ]
  | inr beyond ↦ ground arith
]

-- The loop does not pass over a free block, and its fuel is enough.
pub scan_finds :
    (fuel : ℕ) (used : List ℕ) (step hi next k : ℕ)
    → 0 < step
    → k < fuel
    → next + k * step ≤ hi
    → is_free used step (next + k * step) ≡ true
    → (ssh : ℕ) × (scan fuel used step hi next ≡ ports ssh (ssh + 1)) × (ssh ≤ next + k * step)
unfolding scan
scan_finds zero used step hi next k pos enough within free = absurd (omega arith)
scan_finds (suc fuel) used step hi next zero pos enough within free =
    let same : next + zero * step ≡ next = omega arith in
    let here : is_free used step next ≡ true = rw same at free in
    let inside : leb next hi ≡ true = ground arith in (next, rw inside (rw here refl), omega arith)
scan_finds (suc fuel) used step hi next (suc k) pos enough within free =
    elim (Bool-cases (is_free used step next)) [
      | inl here ↦
          let inside : leb next hi ≡ true = grind arith in
          (next, rw inside (rw here refl), omega arith)
      | inr taken ↦
          let inside : leb next hi ≡ true = grind arith in
          let shift : next + suc k * step ≡ (next + step) + k * step = omega arith in
          let (ssh, found, low) =
            scan_finds fuel used step hi (next + step) k pos (omega arith) (omega arith)
              (rw shift at free) in
          (ssh, rw inside (rw taken found), omega arith)
    ]

-- A port that is in no row of a column.
column-free :
    (f : ClientDevice → Option ℕ) (p : ℕ) (ds : List ClientDevice)
    → contains p (column f ds) ≡ false
    → All (λ d. contains p (some_list (f d)) ≡ false) ds
column-free f p [] h = tt
column-free f p (d ∷ ds) h =
    let e = contains-append p (some_list (f d)) (column f ds) in
    (ground (arith, e), column-free f p ds (ground (arith, e)))

-- The ports that a device holds.
abbrev pub held : ClientDevice → List ℕ
held d = some_list d.reverse_ssh_port ++ some_list d.reverse_http_port

abbrev pub Unheld : ℕ → List ClientDevice → Type 0
Unheld p ds = All (λ d. contains p (held d) ≡ false) ds

All-both :
    (p : ℕ) (ds : List ClientDevice)
    → All (λ d. contains p (some_list d.reverse_ssh_port) ≡ false) ds
    → All (λ d. contains p (some_list d.reverse_http_port) ≡ false) ds
    → Unheld p ds
All-both p [] a b = tt
All-both p (d ∷ ds) (a, as') (b, bs) = (
  ground (arith, contains-append p (some_list d.reverse_ssh_port) (some_list d.reverse_http_port)),
  All-both p ds as' bs,
)

used_ports-Unheld :
    (p : ℕ) (cooled : List ℕ) (ds : List ClientDevice)
    → contains p (used_ports cooled ds) ≡ false
    → Unheld p ds × (contains p cooled ≡ false)
used_ports-Unheld p cooled ds h =
    let a =
      contains-append p (column (λ d. d.reverse_ssh_port) ds)
        (column (λ d. d.reverse_http_port) ds ++ cooled) in
    let b = contains-append p (column (λ d. d.reverse_http_port) ds) cooled in
    (
      All-both p ds (column-free (λ d. d.reverse_ssh_port) p ds (ground (arith, a)))
          (column-free (λ d. d.reverse_http_port) p ds (ground (arith, a, b))),
      ground (arith, a, b),
    )

is_free-two :
    (used : List ℕ) (step first : ℕ)
    → 2 ≤ step
    → is_free used step first ≡ true
    → (contains first used ≡ false) × (contains (first + 1) used ≡ false)
is_free-two used zero first two h = absurd (omega arith)
is_free-two used (suc zero) first two h = absurd (omega arith)
is_free-two used (suc (suc n)) first two h = ground arith

pub pool_bounds :
    (settings : Settings) (ssh : ℕ)
    → pool_is_invalid settings ≡ false
    → ssh ≤ ssh_port_max settings
    → ssh + (ports_per_device settings - 1) ≤ settings.client_ssh_port_max
unfolding pool_is_invalid ssh_port_max
pool_bounds settings ssh v h = ground arith

pub step-two :
    (settings : Settings) → 2 ≤ settings.client_ports_per_device → 2 ≤ ports_per_device settings
unfolding ports_per_device
step-two settings two = omega arith

-- The greatest of a column is in it.
max_of-contains : (ns : List ℕ) (m : ℕ) → max_of ns ≡ some m → contains m ns ≡ true
max_of-contains [] m e = cc
max_of-contains (n ∷ ns) m e = elim (Option-cases (max_of ns)) [
  | inl nothing ↦
      let is : some n ≡ some m = rw nothing at e in let same : n ≡ m = cc in ground arith
  | inr (k, found) ↦
      let is : some (max n k) ≡ some m = rw found at e in
      let same : max n k ≡ m = cc in
      elim (Bool-cases (m == n)) [
        | inl here ↦ ground arith
        | inr other ↦
            let later : k ≡ m = ground arith in
            let there : contains m ns ≡ true = max_of-contains ns m (found ∙ ap some later) in
            ground arith
      ]
]

abbrev pub ssh_column : List ClientDevice → List ℕ
ssh_column devices = column (λ d. d.reverse_ssh_port) devices

-- Where the search starts: in the pool, or above a port that is held.
next_port-low :
    (settings : Settings) (devices : List ClientDevice)
    → (settings.client_ssh_port_base ≤ next_port settings devices)
      ⊎ ((p : ℕ) × (contains p (ssh_column devices) ≡ true) × (p < next_port settings devices))
unfolding ports_per_device
next_port-low settings devices = elim (Option-cases (max_of (ssh_column devices))) [
  | inl nothing ↦ inl (rw (nothing, next_port) (omega arith))
  | inr (m, found) ↦
      inr (m, max_of-contains (ssh_column devices) m found, rw (found, next_port) (omega arith))
]

-- An allocated pair, where the pool gives each device at least two ports: two successive ports that no
-- device holds and that are not cooling down, not above the greatest port of the pool, and not below
-- its least port unless they are above an ssh port that a device holds.
pub allocate_reverse_ports-fresh :
    (settings : Settings) (now : ℕ) (db : Db) {ssh http : ℕ}
    → 2 ≤ settings.client_ports_per_device
    → (allocate_reverse_ports settings now db).0 ≡ ports ssh http
    → (http ≡ ssh + 1)
      × (http ≤ settings.client_ssh_port_max)
      × ((settings.client_ssh_port_base ≤ ssh)
          ⊎ ((p : ℕ) × (contains p (ssh_column db.devices) ≡ true) × (p < ssh)))
      × Unheld ssh db.devices
      × Unheld http db.devices
      × (contains ssh (cooling_ports now db).0 ≡ false)
      × (contains http (cooling_ports now db).0 ≡ false)
unfolding allocate_reverse_ports
allocate_reverse_ports-fresh settings now db {ssh} {http} two h =
    elim (Bool-cases (pool_is_invalid settings)) [
      | inl bad ↦ absurd (ground arith)
      | inr good ↦
          let cooled = (cooling_ports now db).0 in
          let step = ports_per_device settings in
          let hi = ssh_port_max settings in
          let found : scan (suc hi) (used_ports cooled db.devices) step hi
                (next_port settings db.devices)
              ≡ ports ssh http =
            ground arith in
          let (free, low, high, next) =
            scan-ports (suc hi) (used_ports cooled db.devices) step hi
              (next_port settings db.devices) ssh http found in
          let (a, b) =
            is_free-two (used_ports cooled db.devices) step ssh (step-two settings two) free in
          let (a1, a2) = used_ports-Unheld ssh cooled db.devices a in
          let (b1, b2) = used_ports-Unheld http cooled db.devices (rw next b) in
          (
            next,
            omega (arith, pool_bounds settings ssh good high, step-two settings two),
            at_start low (next_port-low settings db.devices),
            a1,
            b1,
            a2,
            b2,
          )
    ]
  where
    at_start :
        {ssh : ℕ}
        → next_port settings db.devices ≤ ssh
        → (settings.client_ssh_port_base ≤ next_port settings db.devices)
          ⊎ ((p : ℕ) × (contains p (ssh_column db.devices) ≡ true)
              × (p < next_port settings db.devices))
        → (settings.client_ssh_port_base ≤ ssh)
          ⊎ ((p : ℕ) × (contains p (ssh_column db.devices) ≡ true) × (p < ssh))
    at_start low (inl base) = inl (omega arith)
    at_start low (inr (p, held_by, under)) = inr (p, held_by, omega (arith, low, under))
