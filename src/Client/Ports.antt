-- ===== src/Client/Ports.antt =====
-- The pool of reverse tunnel ports, in gfc-platform/control-plane/api/app/reverse_ssh.py: allocation
-- of an (ssh, http) pair, and the cooldown of released ports. The database is the two tables that the
-- code queries; the settings are numbers, none of them negative.
pub mod Fresh
pub mod Supply
pub mod Distinct
pub mod Rounds
pub mod Cooldown
use sip_proxy.Common.{
  ℕ, zero, suc, ◌+◌, ◌-◌, Bool, true, false, not, ◌&&◌, ◌||◌, Option, none, some, List, [], ◌∷◌,
  ◌++◌, if◌then◌else◌, ltb, leb, ◌==◌, contains, filter, all, map,
}
use Prim.Native.Nat.{max}
use sip_proxy.Client.Models.{ClientDevice}

pub record Settings : Type 0 where
  pub client_ssh_port_base : ℕ
  pub client_ssh_port_max : ℕ
  pub client_ports_per_device : ℕ
  pub reverse_ssh_port_release_cooldown_seconds : ℕ

pub record ReleasedReversePort : Type 0 where
  pub port : ℕ
  pub former_device_id : ℕ
  pub released_at : ℕ
  pub released_until : ℕ

pub record Db : Type 0 where
  pub devices : List ClientDevice
  pub released : List ReleasedReversePort

pub data Allocation : Type 0 where
  ports : (ssh_port http_port : ℕ) → Allocation
  invalid_pool : Allocation
  exhausted : Allocation

unfoldable pub ports_per_device : Settings → ℕ
ports_per_device settings = max 1 settings.client_ports_per_device

-- Where the subtraction would go below 0, `pool_is_invalid` holds.
unfoldable pub ssh_port_max : Settings → ℕ
unfolding ports_per_device
ssh_port_max settings = settings.client_ssh_port_max - (ports_per_device settings - 1)

-- `hi < lo`
unfoldable pub pool_is_invalid : Settings → Bool
unfolding ports_per_device
pool_is_invalid settings =
    ltb settings.client_ssh_port_max
      (settings.client_ssh_port_base + (ports_per_device settings - 1))

unfoldable pub cooling_ports : ℕ → Db → List ℕ × Db
cooling_ports now db =
    let rows = filter (λ (r : ReleasedReversePort). not (leb r.released_until now)) db.released in
    (
      map (λ (r : ReleasedReversePort). r.port)
          (filter (λ (r : ReleasedReversePort). ltb now r.released_until) rows),
      record db { released = rows },
    )

-- `session.get`, the assignments and `session.add`: the row of a port is replaced, or added.
unfoldable pub put_released :
    ReleasedReversePort → List ReleasedReversePort → List ReleasedReversePort
put_released row [] = row ∷ []
put_released row (r ∷ rs) =
    let rest = put_released row rs in if r.port == row.port then row ∷ rs else r ∷ rest

-- A port that is set: neither null nor 0.
abbrev pub set_port : Option ℕ → List ℕ
set_port none = []
set_port (some zero) = []
set_port (some (suc n)) = suc n ∷ []

abbrev pub is_empty : List ℕ → Bool
is_empty [] = true
is_empty (_ ∷ _) = false

unfoldable pub put_all : ℕ → ℕ → ℕ → List ℕ → List ReleasedReversePort → List ReleasedReversePort
unfolding put_released
put_all device_id now until [] rows = rows
put_all device_id now until (p ∷ ps) rows = put_all device_id now until ps (
    put_released
      (record { port = p; former_device_id = device_id; released_at = now; released_until = until })
      rows)

unfoldable pub release_device_reverse_ports : Settings → ℕ → ClientDevice → Db → Db
unfolding put_all
release_device_reverse_ports settings now device db =
    let cooldown = settings.reverse_ssh_port_release_cooldown_seconds in
    let held = set_port device.reverse_ssh_port ++ set_port device.reverse_http_port in
    if is_empty held || leb cooldown 0
    then db
    else record db { released = put_all device.id now (now + cooldown) held db.released }

abbrev pub some_list : Option ℕ → List ℕ
some_list none = []
some_list (some n) = n ∷ []

-- A column of the table, without its nulls.
abbrev pub column : (ClientDevice → Option ℕ) → List ClientDevice → List ℕ
column f [] = []
column f (d ∷ ds) = some_list (f d) ++ column f ds

-- `func.max` of a column
abbrev pub max_of : List ℕ → Option ℕ
max_of [] = none
max_of (n ∷ ns) = elim (max_of ns) [ none ↦ some n | some m ↦ some (max n m) ]

-- [first, first + 1, …], of the given length
abbrev pub block : ℕ → ℕ → List ℕ
block first zero = []
block first (suc n) = first ∷ block (first + 1) n

abbrev pub is_free : List ℕ → ℕ → ℕ → Bool
is_free used step first = all (λ p. not (contains p used)) (block first step)

-- The `while next_port <= hi` loop.
unfoldable pub scan : ℕ → List ℕ → ℕ → ℕ → ℕ → Allocation
scan zero used step hi next = exhausted
scan (suc fuel) used step hi next =
    let rest = scan fuel used step hi (next + step) in
    if leb next hi
    then (if is_free used step next then ports next (next + 1) else rest)
    else exhausted

abbrev pub next_port : Settings → List ClientDevice → ℕ
next_port settings devices = elim (max_of (column (λ d. d.reverse_ssh_port) devices)) [
  | none ↦ settings.client_ssh_port_base
  | some current ↦ current + ports_per_device settings
]

abbrev pub used_ports : List ℕ → List ClientDevice → List ℕ
used_ports cooled devices =
    column (λ d. d.reverse_ssh_port) devices
    ++ (column (λ d. d.reverse_http_port) devices ++ cooled)

unfoldable pub allocate_reverse_ports : Settings → ℕ → Db → Allocation × Db
allocate_reverse_ports settings now db =
    if pool_is_invalid settings
    then (invalid_pool, db)
    else let (cooled, db') = cooling_ports now db in
      let next = next_port settings db.devices in
      let hi = ssh_port_max settings in
      (scan (suc hi) (used_ports cooled db.devices) (ports_per_device settings) hi next, db')

abbrev is_set : Option ℕ → Bool
is_set o = not (is_empty (set_port o))

-- The row of a device is the object that the code changes.
unfoldable pub replace_device : ClientDevice → List ClientDevice → List ClientDevice
replace_device device [] = []
replace_device device (d ∷ ds) =
    let rest = replace_device device ds in if d.id == device.id then device ∷ ds else d ∷ rest

with_ports : ClientDevice → Allocation → Db → Option ClientDevice × Db
unfolding replace_device
with_ports device (ports ssh http) db =
    let device' = record device { reverse_ssh_port = some ssh; reverse_http_port = some http } in
    (some device', record db { devices = replace_device device' db.devices })
with_ports device invalid_pool db = (none, db)
with_ports device exhausted db = (none, db)

-- `none` is the `RuntimeError` of the allocation.
unfoldable pub ensure_device_reverse_ports :
    Settings → ℕ → ClientDevice → Db → Option ClientDevice × Db
unfolding with_ports
ensure_device_reverse_ports settings now device db =
    if is_set device.reverse_ssh_port && is_set device.reverse_http_port
    then (some device, db)
    else let (pair, db') = allocate_reverse_ports settings now db in with_ports device pair db'
