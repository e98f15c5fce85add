-- ===== src/Client/Custody/Spec.antt =====
-- What the platform promises of a device key, beside the two tables that say it: the client devices
-- and the tombstones of gfc-platform/control-plane/api/app/models.py.
use sip_proxy.Common.{
  ℕ, String, ◌≡◌, ◌∙◌, refl, ap, true, false, not, ◌&&◌, ◌||◌, none, List, arith, inl, inr,
  Bool-cases, str_eq, eq_iff, if◌then◌else◌,
}
use mathlib.Core.List.{Memᴰ}
use sip_proxy.Client.Models.{ClientDevice}
use sip_proxy.Client.Tables.{Tombstone}
use sip_proxy.Client.Activation.{has_tombstone}
use sip_proxy.Client.Activation.Rows.{Unique, Unique-Others}
use sip_proxy.Client.Custody.Keys.{
  is_enrolled, Unique-SameKey, is_enrolled-member, is_enrolled-remove_row, Unique-remove_row,
}
use sip_proxy.Client.Custody.Tombstones.{
  Single, Single-put_tombstone, Single-mark_reclaimed, has_tombstone-put,
  has_tombstone-put_tombstone, has_tombstone-mark_reclaimed, has_tombstone-reclaimed,
}
use sip_proxy.Client.Custody.Departure.{put_tombstone, mark_reclaimed, remove_row}

-- A key never seen, one of the inventory, or one that is retired.
pub data Custody : Type 0 where
  unknown : Custody
  enrolled : Custody
  retired : Custody

-- What a step does to a key: a device comes in, comes back, goes, or only its row changes.
pub data Event : Type 0 where
  activated : String → Event
  reclaimed : String → Event
  hard_retired : String → Event
  changed : Event

abbrev pub custody : List ClientDevice → List Tombstone → String → Custody
custody devices tombstones key =
    if is_enrolled key devices
    then enrolled
    else if has_tombstone key tombstones
    then retired
    else unknown

-- The promise: where each key goes.
abbrev pub next_custody : Event → String → Custody → Custody
next_custody (activated k) key c = if str_eq k key then enrolled else c
next_custody (reclaimed k) key c = if str_eq k key then enrolled else c
next_custody (hard_retired k) key c = if str_eq k key then retired else c
next_custody changed key c = c

-- And which steps are taken: a retired key is not activated, only such a key comes back, and only a
-- key of the inventory is retired.
abbrev pub Allowed : Event → (String → Custody) → Type 0
Allowed (activated k) state = ¬ (state k ≡ retired)
Allowed (reclaimed k) state = state k ≡ retired
Allowed (hard_retired k) state = state k ≡ enrolled
Allowed changed state = Unit

-- Ids, keys and lines name one device, a key one tombstone, and a retired key no device.
abbrev pub Sound : List ClientDevice → List Tombstone → Type 0
Sound ds ts =
    Unique ds
    × Single ts
    × ((key : String) → has_tombstone key ts ≡ true → is_enrolled key ds ≡ false)

abbrev pub Post :
    Event → List ClientDevice → List Tombstone → List ClientDevice → List Tombstone → Type 0
Post event ds ts ds' ts' =
    Sound ds' ts'
    × Allowed event (custody ds ts)
    × ((key : String) → custody ds' ts' key ≡ next_custody event key (custody ds ts key))

pub Post-changed :
    (ds ds' : List ClientDevice) (ts : List Tombstone)
    → Sound ds ts
    → Unique ds'
    → ((key : String) → is_enrolled key ds' ≡ is_enrolled key ds)
    → Post changed ds ts ds' ts
Post-changed ds ds' ts (u, s, d) u' same =
    ((u', s, λ key t. rw (same key) (d key t)), tt, λ key. rw (same key) refl)

pub Post-activated :
    (k : String) (ds ds' : List ClientDevice) (ts : List Tombstone)
    → Sound ds ts
    → Unique ds'
    → has_tombstone k ts ≡ false
    → ((key : String) → is_enrolled key ds' ≡ (str_eq k key || is_enrolled key ds))
    → Post (activated k) ds ts ds' ts
Post-activated k ds ds' ts (u, s, d) u' free comes = (
  (u', s, λ key t. rw (comes key) (ground (arith, eq_iff k key, d key t))),
  λ e. absurd (ground (arith, e)),
  λ key. rw (comes key) (ground (arith, eq_iff k key)),
)

pub Post-reclaimed :
    (now : ℕ) (k : String) (ds ds' : List ClientDevice) (ts : List Tombstone)
    → Sound ds ts
    → Unique ds'
    → has_tombstone k ts ≡ true
    → ((key : String) → is_enrolled key ds' ≡ (str_eq k key || is_enrolled key ds))
    → Post (reclaimed k) ds ts ds' (mark_reclaimed now k ts)
Post-reclaimed now k ds ds' ts (u, s, d) u' held comes =
    ((u', Single-mark_reclaimed now k ts s, disjoint), rw (d k held, held) refl, moves)
  where
    disjoint :
        (key : String)
        → has_tombstone key (mark_reclaimed now k ts) ≡ true
        → is_enrolled key ds' ≡ false
    disjoint key t = elim (Bool-cases (str_eq k key)) [
      | inl same ↦
          let e : k ≡ key = (eq_iff k key).0 same in
          absurd (
            let o : has_tombstone k (mark_reclaimed now k ts) ≡ false =
              has_tombstone-reclaimed now k ts s in
            let t' = ap (λ j. has_tombstone j (mark_reclaimed now k ts)) e ∙ t in cc)
      | inr other ↦
          let t' : has_tombstone key ts ≡ true =
            rw (has_tombstone-mark_reclaimed now k key ts other) at t in
          rw (comes key, other) (d key t')
    ]

    moves :
        (key : String)
        → custody ds' (mark_reclaimed now k ts) key
          ≡ (if str_eq k key then enrolled else custody ds ts key)
    moves key = elim (Bool-cases (str_eq k key)) [
      | inl same ↦ rw (comes key, same) refl
      | inr other ↦ rw (comes key, other, has_tombstone-mark_reclaimed now k key ts other) refl
    ]

pub Post-hard_retired :
    (x : ClientDevice) (t : Tombstone) (ds : List ClientDevice) (ts : List Tombstone)
    → Sound ds ts
    → Memᴰ x ds
    → t.device_key ≡ x.device_key
    → t.reclaimed_at ≡ none
    → Post (hard_retired x.device_key) ds ts (remove_row x.id ds) (put_tombstone t ts)
Post-hard_retired x t ds ts (u, s, d) m k r = (
  (Unique-remove_row x.id ds u, Single-put_tombstone t ts s, disjoint),
  rw (is_enrolled-member x ds m) refl,
  moves,
)
  where
    gone :
        (key : String)
        → is_enrolled key (remove_row x.id ds)
          ≡ (not (str_eq x.device_key key) && is_enrolled key ds)
    gone key = is_enrolled-remove_row x key ds (Unique-SameKey x ds m u) (Unique-Others x ds m u)

    kept :
        (key : String)
        → str_eq x.device_key key ≡ false
        → has_tombstone key (put_tombstone t ts) ≡ has_tombstone key ts
    kept key other =
        let n : str_eq t.device_key key ≡ false = rw k other in
        let h = has_tombstone-put_tombstone t key ts r in rw n at h

    put_key : (key : String) → t.device_key ≡ key → has_tombstone key (put_tombstone t ts) ≡ true
    put_key key e = rw (← e) (has_tombstone-put t ts r)

    disjoint :
        (key : String)
        → has_tombstone key (put_tombstone t ts) ≡ true
        → is_enrolled key (remove_row x.id ds) ≡ false
    disjoint key h = elim (Bool-cases (str_eq x.device_key key)) [
      | inl same ↦ rw (gone key, same) refl
      | inr other ↦ rw (gone key, other) (d key (rw (kept key other) at h))
    ]

    moves :
        (key : String)
        → custody (remove_row x.id ds) (put_tombstone t ts) key
          ≡ (if str_eq x.device_key key then retired else custody ds ts key)
    moves key = elim (Bool-cases (str_eq x.device_key key)) [
      | inl same ↦
          let e : t.device_key ≡ key = k ∙ (eq_iff x.device_key key).0 same in
          rw (gone key, same) (rw (put_key key e) refl)
      | inr other ↦ rw (gone key, other, kept key other) refl
    ]
