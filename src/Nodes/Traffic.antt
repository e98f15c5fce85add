-- ===== src/Nodes/Traffic.antt =====
-- Traffic samples and billing periods, in gfc-platform/control-plane/api/app/node_traffic.py. `now` is
-- the value of `utc_now()`, the same through one call.
pub mod Accounting
use Prim.Native.Nat.{min, max}
use sip_proxy.Common.{
  ℕ, zero, suc, ◌+◌, ◌-◌, ◌*◌, ◌/◌, ◌%◌, ◌^◌, String, Bool, true, false, ◌&&◌, ◌||◌, Option, none,
  some, List, [], ◌∷◌, ◌++◌, filter, ltb, leb, ◌==◌, str_eq, if◌then◌else◌,
}
use sip_proxy.Common.Text.{strip, or_empty}
use sip_proxy.Common.Int.{ℤ, pos, negsuc, ◌+ℤ◌, pos_part, sub_ℕ}
use sip_proxy.Common.Dict.{int_or_zero}
use sip_proxy.Nodes.Models.{Node, Network, node_is_online}

abbrev pub sample_interval_seconds : ℕ
sample_interval_seconds = 300

abbrev pub recent_increment_minutes : ℕ
recent_increment_minutes = 7

abbrev pub hours_24 : ℕ
hours_24 = 24

abbrev pub retention_hours : ℕ
retention_hours = 24 * 45

abbrev pub traffic_quota_warn_percent : ℕ
traffic_quota_warn_percent = 85

abbrev pub traffic_quota_critical_percent : ℕ
traffic_quota_critical_percent = 95

pub record NodeTrafficSample : Type 0 where
  pub node_id : ℕ
  pub sampled_at : ℕ
  pub window_seconds : ℕ
  pub bytes_in : ℕ
  pub bytes_out : ℕ
  pub iface : Option String

-- The day of the month, from 1, of a day since the epoch, in the Gregorian calendar: a year begins
-- in March, and doy is a day of such a year.
day_of_month : ℕ → ℕ
day_of_month days =
    let doe = (days + 719468) % 146097 in
    let yoe = (doe - doe / 1460 + doe / 36524 - doe / 146096) / 365 in
    let doy = doe - (365 * yoe + yoe / 4 - yoe / 100) in
    let mp = (5 * doy + 2) / 153 in doy - (153 * mp + 2) / 5 + 1

-- `now.replace(day=1, hour=0, minute=0, second=0, microsecond=0)`
unfoldable pub default_billing_start : ℕ → ℕ
unfolding day_of_month
default_billing_start now = let days = now / 86400 in (days - (day_of_month days - 1)) * 86400

abbrev pub or_else {ℓ} : {A : Type ℓ} → Option A → A → A
or_else none d = d
or_else (some a) d = a

unfoldable pub ensure_billing_defaults : ℕ → Node → Node
ensure_billing_defaults now node = record node {
  traffic_billing_start_at =
      some (or_else node.traffic_billing_start_at (default_billing_start now));
  traffic_billing_cycle_days =
      if node.traffic_billing_cycle_days == 0 then 30 else node.traffic_billing_cycle_days;
  traffic_correction_bytes = some (or_else node.traffic_correction_bytes (pos 0));
  traffic_pending_bytes_in = some (or_else node.traffic_pending_bytes_in 0);
  traffic_pending_bytes_out = some (or_else node.traffic_pending_bytes_out 0);
}

-- The defaults that the code writes on the way are those that its callers have written already.
unfoldable pub billing_period_end : ℕ → Node → ℕ
unfolding ensure_billing_defaults
billing_period_end now node =
    let node' = ensure_billing_defaults now node in
    or_else node'.traffic_billing_start_at now + max 1 node'.traffic_billing_cycle_days * 86400

unfoldable pub maybe_rollover_billing_period : ℕ → Node → Node × Bool
unfolding ensure_billing_defaults billing_period_end
maybe_rollover_billing_period now node =
    let node' = ensure_billing_defaults now node in
    elim node'.traffic_billing_start_at [
      | none ↦ (record node' { traffic_billing_start_at = some now }, false)
      | some _ ↦ if ltb now (billing_period_end now node') then (node', false) else (
        record node' {
          traffic_billing_start_at = some now;
          traffic_correction_bytes = some (pos 0);
          traffic_pending_bytes_in = some 0;
          traffic_pending_bytes_out = some 0;
        },
        true,
      )
    ]

-- The two `max(0, int(… or 0))`; `none` is the error that ends the call.
unfoldable pub deltas : Network → Option (ℕ × ℕ)
deltas network = elim (int_or_zero network.bytes_in) [
  | none ↦ none
  | some bytes_in ↦ elim (int_or_zero network.bytes_out) [
    | none ↦ none
    | some bytes_out ↦ some (pos_part bytes_in, pos_part bytes_out)
  ]
]

unfoldable pub add_pending : ℕ → ℕ → Option String → Node → Node
add_pending delta_in delta_out iface node =
    let name = strip (or_empty iface) in
    record node {
      traffic_pending_bytes_in = some (or_else node.traffic_pending_bytes_in 0 + delta_in);
      traffic_pending_bytes_out = some (or_else node.traffic_pending_bytes_out 0 + delta_out);
      traffic_monitor_iface = if str_eq name "" then node.traffic_monitor_iface else some name;
    }

-- `(now - last_at).total_seconds()`, where less than 0 counts as 0
abbrev pub elapsed : ℕ → Option ℕ → ℕ
elapsed now none = sample_interval_seconds
elapsed now (some last) = now - last

unfoldable pub purge : ℕ → List NodeTrafficSample → List NodeTrafficSample
purge now = filter (λ (s : NodeTrafficSample). leb now (s.sampled_at + retention_hours * 3600))

-- From `last_at = …` on: a sample when the interval has passed, and the removal of old samples.
unfoldable pub flush : ℕ → Node → List NodeTrafficSample → Node × List NodeTrafficSample
flush now node samples =
    if ltb (elapsed now node.traffic_last_sample_at) sample_interval_seconds
    then (node, samples)
    else let sample : NodeTrafficSample = record {
      node_id = node.id;
      sampled_at = now;
      window_seconds = max sample_interval_seconds (elapsed now node.traffic_last_sample_at);
      bytes_in = or_else node.traffic_pending_bytes_in 0;
      bytes_out = or_else node.traffic_pending_bytes_out 0;
      iface = node.traffic_monitor_iface;
    } in
      (
        record node {
          traffic_last_sample_at = some now;
          traffic_pending_bytes_in = some 0;
          traffic_pending_bytes_out = some 0;
        },
        purge now (sample ∷ samples),
      )

unfoldable pub record_deltas :
    ℕ → ℕ → ℕ → Option String → Node → List NodeTrafficSample → Node × List NodeTrafficSample
record_deltas now delta_in delta_out iface node samples =
    if delta_in == 0 && delta_out == 0
    then (node, samples)
    else flush now
        (add_pending delta_in delta_out iface
          (maybe_rollover_billing_period now (ensure_billing_defaults now node)).0)
        samples

unfoldable pub record_node_network_traffic :
    ℕ → Node → Option Network → List NodeTrafficSample → Node × List NodeTrafficSample
record_node_network_traffic now node none samples = (node, samples)
record_node_network_traffic now node (some network) samples = elim (deltas network) [
  | none ↦ (node, samples)
  | some (delta_in, delta_out) ↦ record_deltas now delta_in delta_out network.iface node samples
]

-- The samples that a query sees before the commit: the removal of old samples is done, the new one is
-- not there yet.
unfoldable pub seen_samples :
    ℕ → Node → Option Network → List NodeTrafficSample → List NodeTrafficSample
seen_samples now node none samples = samples
seen_samples now node (some network) samples = elim (deltas network) [
  | none ↦ samples
  | some (delta_in, delta_out) ↦
      if delta_in == 0 && delta_out == 0
      then samples
      else if ltb (elapsed now node.traffic_last_sample_at) sample_interval_seconds
      then samples
      else purge now samples
]

-- `since` is 0 where the code passes none.
unfoldable pub sum_bytes : List NodeTrafficSample → ℕ → ℕ → ℕ
sum_bytes [] node_id since = 0
sum_bytes (s ∷ ss) node_id since =
    (if s.node_id == node_id && leb since s.sampled_at then s.bytes_in + s.bytes_out else 0)
    + sum_bytes ss node_id since

-- n / d, rounded to the nearest whole number, of two that are as near to the even one.
unfoldable pub nearest : ℕ → ℕ → ℕ
nearest n d =
    let q = n / d in
    let twice = 2 * (n % d) in if ltb twice d then q else if ltb d twice then q + 1 else q + q % 2

-- The number of binary digits, which `fuel` is at least.
unfoldable pub bit_length : ℕ → ℕ → ℕ
bit_length zero n = 0
bit_length (suc fuel) n = if n == 0 then 0 else suc (bit_length fuel (n / 2))

-- How far n / d is shifted so that its whole part has 53 binary digits, where n is not 0 and at most
-- 2 ^ 53 times d.
unfoldable pub float_shift : ℕ → ℕ → ℕ
unfolding bit_length
float_shift n d =
    let s = 52 + bit_length 4096 d - bit_length 4096 n in
    if leb (2 ^ 52 * d) (n * 2 ^ s) then s else s + 1

-- A float of 53 binary digits times 100, as a float again: m * 100 has 59 or 60 digits.
unfoldable pub hundredfold : ℕ → ℕ
unfolding nearest
hundredfold m =
    let step = if ltb (m * 100) (2 ^ 59) then 2 ^ 6 else 2 ^ 7 in nearest (m * 100) step * step

-- `int(n / d * 100)` in the arithmetic of 64-bit floats.
unfoldable pub float_percent : ℕ → ℕ → ℕ
unfolding nearest float_shift hundredfold
float_percent n d =
    let s = float_shift n d in if n == 0 then 0 else hundredfold (nearest (n * 2 ^ s) d) / 2 ^ s

-- `int(min(100, bytes / quota_bytes * 100))`; from the quota on the quotient is 1 or more.
unfoldable pub used_percent : ℤ → ℕ → ℤ
unfolding float_percent
used_percent (pos n) quota_bytes =
    if leb quota_bytes n then pos 100 else pos (min 100 (float_percent n quota_bytes))
used_percent (negsuc n) quota_bytes = sub_ℕ 0 (float_percent (suc n) quota_bytes)

unfoldable pub quota_used_percent : Option ℕ → ℤ → Option ℤ
unfolding used_percent
quota_used_percent none bytes = none
quota_used_percent (some zero) bytes = none
quota_used_percent (some (suc gb)) bytes = some (used_percent bytes (suc gb * 1024 ^ 3))

pub data Status : Type 0 where
  offline no_data active : Status

pub record Overview : Type 0 where
  pub online : Bool
  pub last_24h_bytes : ℕ
  pub recent_increment_bytes : ℕ
  pub billing_period_bytes : ℤ
  pub billing_cycle_start_at : ℕ
  pub billing_cycle_end_at : ℕ
  pub monthly_quota_gb : Option ℕ
  pub quota_used_percent : Option ℤ
  pub correction_bytes : ℤ
  pub status : Status

status_of : Bool → Option ℕ → Status
status_of false last = offline
status_of true none = no_data
status_of true (some _) = active

-- The overview, and the node as the call leaves it. A time before the epoch counts as the epoch.
unfoldable pub build_node_traffic_overview :
    (threshold now : ℕ) → Node → List NodeTrafficSample → Overview × Node
unfolding status_of
build_node_traffic_overview threshold now node samples =
    let node' = (maybe_rollover_billing_period now (ensure_billing_defaults now node)).0 in
    let start = or_else node'.traffic_billing_start_at 0 in
    let correction = or_else node'.traffic_correction_bytes (pos 0) in
    let bytes = pos (sum_bytes samples node'.id start) +ℤ correction in
    let online = node_is_online threshold now node' in
    (
      record {
        online = online;
        last_24h_bytes = sum_bytes samples node'.id (now - hours_24 * 3600);
        recent_increment_bytes = sum_bytes samples node'.id (now - recent_increment_minutes * 60);
        billing_period_bytes = bytes;
        billing_cycle_start_at = start;
        billing_cycle_end_at = billing_period_end now node';
        monthly_quota_gb = node'.traffic_monthly_quota_gb;
        quota_used_percent = quota_used_percent node'.traffic_monthly_quota_gb bytes;
        correction_bytes = correction;
        status = status_of online node'.traffic_last_sample_at;
      },
      node',
    )
