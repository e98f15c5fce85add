-- ===== src/Client/Custody/Keys.antt =====
-- Which device keys a table of client devices holds, through the changes that the handlers make.
use sip_proxy.Common.{
  ℕ, String, ◌≡◌, refl, sym, ap, Bool, true, false, not, ◌&&◌, Option, List, [], ◌∷◌, arith, inl,
  inr, Bool-cases, Option-cases, any, All, All-map, All-elem, find-some, ◌==◌, str_eq, eq_iff,
}
use mathlib.Core.List.{Memᴰ}
use sip_proxy.Client.Models.{ClientDevice}
use sip_proxy.Client.Ports.{replace_device}
use sip_proxy.Client.Activation.{holder, opt_eq, is_other, release_holder}
use sip_proxy.Client.Activation.Rows.{Differ, Unique, Others, All-replace_device}
use sip_proxy.Client.Activation.Release.{released_row}
use sip_proxy.Client.Custody.Departure.{remove_row}

abbrev pub is_enrolled : String → List ClientDevice → Bool
is_enrolled key = any (λ (d : ClientDevice). str_eq d.device_key key)

-- The rows of the id of `x` have its key.
abbrev pub SameKey : ClientDevice → List ClientDevice → Type 0
SameKey x = All (λ d. (d.id == x.id) ≡ true → d.device_key ≡ x.device_key)

pub Unique-SameKey :
    (x : ClientDevice) (ds : List ClientDevice) → Memᴰ x ds → Unique ds → SameKey x ds
Unique-SameKey x [] m u = tt
Unique-SameKey x (d ∷ ds) (Memᴰ.head e) (a, u) = (
  λ _. ap (λ (r : ClientDevice). r.device_key) (sym e),
  All-map (Differ d) (λ f. (f.id == x.id) ≡ true → f.device_key ≡ x.device_key) ds
      (λ f h n. absurd (
        let same : x.id ≡ d.id = ap (λ (r : ClientDevice). r.id) e in
        let i : (d.id == f.id) ≡ false = h.0 in ground arith))
      a,
)
Unique-SameKey x (d ∷ ds) (Memᴰ.tail m) (a, u) = (
  λ n. absurd (let i : (d.id == x.id) ≡ false = (All-elem (Differ d) x ds m a).0 in ground arith),
  Unique-SameKey x ds m u,
)

pub SameKey-replace_device :
    (x : ClientDevice) (ds : List ClientDevice) → SameKey x ds → SameKey x (replace_device x ds)
SameKey-replace_device x ds h =
    All-replace_device (λ d. (d.id == x.id) ≡ true → d.device_key ≡ x.device_key) x ds (λ _. refl) h

pub is_enrolled-replace_device :
    (x : ClientDevice) (key : String) (ds : List ClientDevice)
    → SameKey x ds
    → is_enrolled key (replace_device x ds) ≡ is_enrolled key ds
unfolding replace_device
is_enrolled-replace_device x key [] h = refl
is_enrolled-replace_device x key (d ∷ ds) (h, hs) = elim (Bool-cases (d.id == x.id)) [
  | inl same ↦ rw same (let k : d.device_key ≡ x.device_key = h same in rw k refl)
  | inr other ↦ rw other (rw (is_enrolled-replace_device x key ds hs) refl)
]

pub is_enrolled-release_holder :
    (now line_id : ℕ) (existing : Option ClientDevice) (key : String) (ds : List ClientDevice)
    → Unique ds
    → is_enrolled key (release_holder now line_id existing ds) ≡ is_enrolled key ds
unfolding release_holder
is_enrolled-release_holder now line_id existing key ds u = elim (Option-cases (holder line_id ds)) [
  | inl e ↦ rw (e, release_holder) refl
  | inr (bound, e) ↦ elim (Bool-cases (is_other existing bound)) [
    | inl o ↦
        rw (e, release_holder, o)
          (is_enrolled-replace_device (released_row now bound) key ds (
            Unique-SameKey bound ds
              (find-some (λ (d : ClientDevice). opt_eq d.line_id line_id) ds bound e).0 u))
    | inr o ↦ rw (e, release_holder, o) refl
  ]
]

-- The key of a row is held.
pub is_enrolled-member :
    (x : ClientDevice) (ds : List ClientDevice) → Memᴰ x ds → is_enrolled x.device_key ds ≡ true
is_enrolled-member x [] m = elim m [ ]
is_enrolled-member x (d ∷ ds) (Memᴰ.head e) =
    let k : str_eq d.device_key x.device_key ≡ true =
      (eq_iff d.device_key x.device_key).1 (ap (λ (r : ClientDevice). r.device_key) (sym e)) in
    rw k refl
is_enrolled-member x (d ∷ ds) (Memᴰ.tail m) = ground (arith, is_enrolled-member x ds m)

-- The removal of a row takes its key away, and no other.
pub is_enrolled-remove_row :
    (x : ClientDevice) (key : String) (ds : List ClientDevice)
    → SameKey x ds
    → Others x ds
    → is_enrolled key (remove_row x.id ds) ≡ (not (str_eq x.device_key key) && is_enrolled key ds)
unfolding remove_row
is_enrolled-remove_row x key [] s o = ground arith
is_enrolled-remove_row x key (d ∷ ds) (s, ss) (o, os) =
    let rest = is_enrolled-remove_row x key ds ss os in
    elim (Bool-cases (d.id == x.id)) [
      | inl same ↦
          let k : d.device_key ≡ x.device_key = s same in rw (same, k) (ground (arith, rest))
      | inr other ↦
          let k : str_eq x.device_key d.device_key ≡ false = (o other).1 in
          rw (other, rest)
            (ground (
              arith,
              eq_iff x.device_key key,
              eq_iff d.device_key key,
              eq_iff x.device_key d.device_key,
            ))
    ]

Unique-remove :
    (x : ℕ) (d : ClientDevice) (ds : List ClientDevice)
    → All (Differ d) ds
    → All (Differ d) (remove_row x ds)
unfolding remove_row
Unique-remove x d [] h = tt
Unique-remove x d (e ∷ es) (h, hs) = elim (Bool-cases (e.id == x)) [
  | inl same ↦ rw same (Unique-remove x d es hs)
  | inr other ↦ rw other (h, Unique-remove x d es hs)
]

pub Unique-remove_row : (x : ℕ) (ds : List ClientDevice) → Unique ds → Unique (remove_row x ds)
unfolding remove_row
Unique-remove_row x [] u = tt
Unique-remove_row x (d ∷ ds) (a, u) = elim (Bool-cases (d.id == x)) [
  | inl same ↦ rw same (Unique-remove_row x ds u)
  | inr other ↦ rw other (Unique-remove x d ds a, Unique-remove_row x ds u)
]
