-- ===== src/Client/Custody/Tombstones.antt =====
-- Which device keys have an active tombstone, through the changes of the handlers.
use sip_proxy.Common.{
  ℕ, String, ◌≡◌, refl, true, false, ◌||◌, none, List, [], ◌∷◌, arith, inl, inr, Bool-cases, All,
  str_eq, eq_iff, eq_refl,
}
use sip_proxy.Client.Tables.{Tombstone}
use sip_proxy.Client.Activation.{has_tombstone}
use sip_proxy.Client.Custody.Departure.{put_tombstone, mark_reclaimed, is_active_tombstone}

-- The put row makes its key retired, and leaves every other as it was.
pub has_tombstone-put_tombstone :
    (t : Tombstone) (key : String) (rows : List Tombstone)
    → t.reclaimed_at ≡ none
    → (str_eq t.device_key key || has_tombstone key (put_tombstone t rows))
      ≡ (str_eq t.device_key key || has_tombstone key rows)
unfolding has_tombstone put_tombstone
has_tombstone-put_tombstone t key [] e = ground arith
has_tombstone-put_tombstone t key (u ∷ us) e = ground (
  arith,
  eq_iff u.device_key t.device_key,
  eq_iff t.device_key key,
  eq_iff u.device_key key,
  has_tombstone-put_tombstone t key us e,
)

pub has_tombstone-put :
    (t : Tombstone) (rows : List Tombstone)
    → t.reclaimed_at ≡ none
    → has_tombstone t.device_key (put_tombstone t rows) ≡ true
unfolding has_tombstone put_tombstone
has_tombstone-put t [] e = rw (eq_refl t.device_key, e) refl
has_tombstone-put t (u ∷ us) e = elim (Bool-cases (str_eq u.device_key t.device_key)) [
  | inl same ↦ rw (same, eq_refl t.device_key, e) refl
  | inr other ↦ rw other (rw (has_tombstone-put t us e) (ground arith))
]

-- The mark leaves every other key as it was.
pub has_tombstone-mark_reclaimed :
    (now : ℕ) (key other : String) (rows : List Tombstone)
    → str_eq key other ≡ false
    → has_tombstone other (mark_reclaimed now key rows) ≡ has_tombstone other rows
unfolding has_tombstone mark_reclaimed
has_tombstone-mark_reclaimed now key other [] d = refl
has_tombstone-mark_reclaimed now key other (t ∷ ts) d = ground (
  arith,
  eq_iff t.device_key key,
  eq_iff t.device_key other,
  eq_iff key other,
  has_tombstone-mark_reclaimed now key other ts d,
)

-- The rows have another key.
abbrev Elsewhere : String → List Tombstone → Type 0
Elsewhere key = All (λ (t : Tombstone). str_eq t.device_key key ≡ false)

-- A key names one row at most, as the table's constraint says.
abbrev pub Single : List Tombstone → Type 0
Single [] = Unit
Single (t ∷ ts) = Elsewhere t.device_key ts × Single ts

Elsewhere-has_tombstone :
    (key : String) (rows : List Tombstone) → Elsewhere key rows → has_tombstone key rows ≡ false
unfolding has_tombstone
Elsewhere-has_tombstone key [] h = refl
Elsewhere-has_tombstone key (t ∷ ts) (h, hs) = rw h (Elsewhere-has_tombstone key ts hs)

Elsewhere-put_tombstone :
    (t : Tombstone) (key : String) (rows : List Tombstone)
    → str_eq t.device_key key ≡ false
    → Elsewhere key rows
    → Elsewhere key (put_tombstone t rows)
unfolding put_tombstone
Elsewhere-put_tombstone t key [] n h = (n, tt)
Elsewhere-put_tombstone t key (u ∷ us) n (h, hs) =
    elim (Bool-cases (str_eq u.device_key t.device_key)) [
      | inl same ↦ rw same (n, hs)
      | inr other ↦ rw other (h, Elsewhere-put_tombstone t key us n hs)
    ]

Elsewhere-mark_reclaimed :
    (now : ℕ) (marked key : String) (rows : List Tombstone)
    → Elsewhere key rows
    → Elsewhere key (mark_reclaimed now marked rows)
unfolding mark_reclaimed
Elsewhere-mark_reclaimed now marked key [] h = tt
Elsewhere-mark_reclaimed now marked key (t ∷ ts) (h, hs) =
    elim (Bool-cases (is_active_tombstone marked t)) [
      | inl active ↦ rw active (h, hs)
      | inr not_active ↦ rw not_active (h, Elsewhere-mark_reclaimed now marked key ts hs)
    ]

pub Single-put_tombstone :
    (t : Tombstone) (rows : List Tombstone) → Single rows → Single (put_tombstone t rows)
unfolding put_tombstone
Single-put_tombstone t [] s = (tt, tt)
Single-put_tombstone t (u ∷ us) (a, s) = elim (Bool-cases (str_eq u.device_key t.device_key)) [
  | inl same ↦ rw same (rw (← (eq_iff u.device_key t.device_key).0 same) a, s)
  | inr other ↦ rw other (
    Elsewhere-put_tombstone t u.device_key us
        (ground (arith, eq_iff u.device_key t.device_key, eq_iff t.device_key u.device_key)) a,
    Single-put_tombstone t us s,
  )
]

pub Single-mark_reclaimed :
    (now : ℕ) (key : String) (rows : List Tombstone)
    → Single rows
    → Single (mark_reclaimed now key rows)
unfolding mark_reclaimed
Single-mark_reclaimed now key [] s = tt
Single-mark_reclaimed now key (t ∷ ts) (a, s) = elim (Bool-cases (is_active_tombstone key t)) [
  | inl active ↦ rw active (a, s)
  | inr not_active ↦
      rw not_active
        (Elsewhere-mark_reclaimed now key t.device_key ts a, Single-mark_reclaimed now key ts s)
]

-- The mark takes the key's tombstone away.
pub has_tombstone-reclaimed :
    (now : ℕ) (key : String) (rows : List Tombstone)
    → Single rows
    → has_tombstone key (mark_reclaimed now key rows) ≡ false
unfolding has_tombstone mark_reclaimed
has_tombstone-reclaimed now key [] s = refl
has_tombstone-reclaimed now key (t ∷ ts) (a, s) = elim (Bool-cases (is_active_tombstone key t)) [
  | inl active ↦
      let same : t.device_key ≡ key =
        (eq_iff t.device_key key).0
          (let k : is_active_tombstone key t ≡ true = active in ground arith) in
      let rest : has_tombstone key ts ≡ false = Elsewhere-has_tombstone key ts (rw same at a) in
      rw active (rw rest (ground arith))
  | inr not_active ↦ rw not_active (rw not_active (has_tombstone-reclaimed now key ts s))
]
