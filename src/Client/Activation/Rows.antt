-- ===== src/Client/Activation/Rows.antt =====
-- Tables of client devices in which an id, a device key and a line each name one row at most, and
-- the replacement of a row in them.
use sip_proxy.Common.{
  ℕ, ◌≡◌, refl, ap, Bool, true, false, Option, none, some, List, [], ◌∷◌, arith, inl, inr,
  Bool-cases, All, All-elem, All-map, ◌==◌, str_eq, eq_iff,
}
use mathlib.Core.List.{Memᴰ}
use sip_proxy.Client.Models.{ClientDevice}
use sip_proxy.Client.Ports.{replace_device}

abbrev pub same_line : Option ℕ → Option ℕ → Bool
same_line none o = false
same_line (some m) none = false
same_line (some m) (some n) = m == n

abbrev pub Differ : ClientDevice → ClientDevice → Type 0
Differ d e =
    ((d.id == e.id) ≡ false)
    × (str_eq d.device_key e.device_key ≡ false)
    × (same_line d.line_id e.line_id ≡ false)

abbrev pub Unique : List ClientDevice → Type 0
Unique [] = Unit
Unique (d ∷ ds) = All (Differ d) ds × Unique ds

-- The rows of another id differ from `x`.
abbrev pub Others : ClientDevice → List ClientDevice → Type 0
Others x ds = All (λ e. (e.id == x.id) ≡ false → Differ x e) ds

same_line_comm : (a b : Option ℕ) → same_line a b ≡ same_line b a
same_line_comm none none = refl
same_line_comm none (some n) = refl
same_line_comm (some m) none = refl
same_line_comm (some m) (some n) = ground arith

pub Differ-comm : (d e : ClientDevice) → Differ d e → Differ e d
Differ-comm d e (i, k, l) = (
  ground arith,
  ground (arith, eq_iff d.device_key e.device_key, eq_iff e.device_key d.device_key),
  rw (same_line_comm e.line_id d.line_id) l,
)

pub All-replace_device {ℓ} :
    (P : ClientDevice → Type ℓ) (x : ClientDevice) (ds : List ClientDevice)
    → P x
    → All P ds
    → All P (replace_device x ds)
unfolding replace_device
All-replace_device P x [] p h = tt
All-replace_device P x (d ∷ ds) p (h, hs) = elim (Bool-cases (d.id == x.id)) [
  | inl same ↦ rw same (p, hs)
  | inr other ↦ rw other (h, All-replace_device P x ds p hs)
]

-- A row that the table holds differs from the rows of another id.
pub Unique-Others :
    (x : ClientDevice) (ds : List ClientDevice) → Memᴰ x ds → Unique ds → Others x ds
Unique-Others x [] m u = tt
Unique-Others x (d ∷ ds) (Memᴰ.head e) (a, u) = (
  λ other. absurd (let same : x.id ≡ d.id = ap (λ (r : ClientDevice). r.id) e in ground arith),
  All-map (Differ d) (λ f. (f.id == x.id) ≡ false → Differ x f) ds (λ f h _. rw e h) a,
)
Unique-Others x (d ∷ ds) (Memᴰ.tail m) (a, u) =
    (λ _. Differ-comm d x (All-elem (Differ d) x ds m a), Unique-Others x ds m u)

-- Rows that differ from a row of the id of `x`, and whose rows of another id differ from `x`.
All-Others :
    (x d : ClientDevice) (ds : List ClientDevice)
    → (d.id == x.id) ≡ true
    → All (Differ d) ds
    → Others x ds
    → All (Differ x) ds
All-Others x d [] same a o = tt
All-Others x d (e ∷ es) same ((i, k, l), rest) (o, os) =
    (o (ground arith), All-Others x d es same rest os)

pub Unique-replace_device :
    (x : ClientDevice) (ds : List ClientDevice)
    → Others x ds
    → Unique ds
    → Unique (replace_device x ds)
unfolding replace_device
Unique-replace_device x [] o u = tt
Unique-replace_device x (d ∷ ds) (o, os) (a, u) = elim (Bool-cases (d.id == x.id)) [
  | inl same ↦ rw same (All-Others x d ds same a os, u)
  | inr other ↦ rw other (
    All-replace_device (Differ d) x ds (Differ-comm x d (o other)) a,
    Unique-replace_device x ds os u,
  )
]
