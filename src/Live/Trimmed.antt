-- ===== src/Live/Trimmed.antt =====
-- Lists of trimmed texts, and the function cidrs of Nodes/Config.antt.
use sip_proxy.Common.{
  String, ◌≡◌, refl, ap, false, List, [], ◌∷◌, ◌++◌, inl, inr, All, str_eq, Bool-cases,
}
use sip_proxy.Common.Text.{strip, elem}
use sip_proxy.Common.Text.Strip.{strip_idem}
use sip_proxy.Nodes.Config.{cidrs, push_new}

abbrev pub IsTrimmed : String → Type 0
IsTrimmed s = (strip s ≡ s) × (str_eq s "" ≡ false)

pub cidrs-IsTrimmed : (xs : List String) → All IsTrimmed (cidrs xs)
unfolding cidrs
cidrs-IsTrimmed [] = tt
cidrs-IsTrimmed (x ∷ xs) = elim (Bool-cases (str_eq (strip x) "")) [
  | inl empty ↦ rw empty (cidrs-IsTrimmed xs)
  | inr full ↦ rw full ((strip_idem x, full), cidrs-IsTrimmed xs)
]

pub cidrs-All : (xs : List String) → All IsTrimmed xs → cidrs xs ≡ xs
unfolding cidrs
cidrs-All [] h = refl
cidrs-All (x ∷ xs) ((same, full), hs) = rw (same, full, cidrs-All xs hs) refl

pub cidrs-append : (xs ys : List String) → cidrs (xs ++ ys) ≡ cidrs xs ++ cidrs ys
unfolding cidrs
cidrs-append [] ys = refl
cidrs-append (x ∷ xs) ys = elim (Bool-cases (str_eq (strip x) "")) [
  | inl empty ↦ rw empty (cidrs-append xs ys)
  | inr full ↦ rw full (ap (λ r. strip x ∷ r) (cidrs-append xs ys))
]

All-append : (xs ys : List String) → All IsTrimmed xs → All IsTrimmed ys → All IsTrimmed (xs ++ ys)
All-append [] ys hx hy = hy
All-append (x ∷ xs) ys hx hy = (hx.0, All-append xs ys hx.1 hy)

pub push_new-All :
    (out xs : List String) → All IsTrimmed out → All IsTrimmed xs → All IsTrimmed (push_new out xs)
unfolding push_new
push_new-All out [] ho hx = ho
push_new-All out (x ∷ xs) ho (h, hx) = elim (Bool-cases (elem x out)) [
  | inl held ↦ rw held (push_new-All out xs ho hx)
  | inr fresh ↦ rw fresh (push_new-All (out ++ (x ∷ [])) xs (All-append out (x ∷ []) ho (h, tt)) hx)
]
